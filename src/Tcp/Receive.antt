-- ===== src/Tcp/Receive.antt =====
-- The methods of the receiver keep the invariant, and `do_recv` delivers all that is ready.
use mathlib.Core.List.{append_assoc, map-append}
use mod_cpp.Common.{
  ℕ, zero, suc, ◌+◌, ◌%◌, ◌≤◌, ◌<◌, ◌≡◌, refl, Bool-cases, inl, inr, true, false, leb, List, [],
  ◌∷◌, ◌++◌, map, arith, ◌∙◌, sym, ap,
}
use mod_cpp.Common.Outcome.{ok}
use mod_cpp.Tcp.{IpPkt, Net, accept, accept_all, deliver, do_recv, send_ack, add_64}
use mod_cpp.Common.Mod.{mod-inj}
use mod_cpp.Tcp.Invariant.{passes, Inv, Fits, All, All-append, All-map, IsSent, packet, firsts}

firsts-append : (sent : ℕ → ℕ) (n : ℕ) → firsts sent (n + 1) ≡ firsts sent n ++ sent n ∷ []
unfolding firsts
firsts-append sent n = ap (firsts sent) one_more
  where
    one_more : n + 1 ≡ suc n
    one_more = omega arith

bytes-append :
    (out : List ℕ) (l : List IpPkt) (p : IpPkt)
    → out ++ map (λ (p : IpPkt). p.byte) (l ++ p ∷ [])
      ≡ (out ++ map (λ (p : IpPkt). p.byte) l) ++ p.byte ∷ []
bytes-append out l p = simp (map-append, append_assoc)

-- What `accept` and `accept_all` leave alone.
pub record Kept (s t : Net) : Type 0 where
  pub base : t.recv_base ≡ s.recv_base
  pub seq : t.current_seq ≡ s.current_seq
  pub connected : t.send_cond ≡ s.send_cond
  pub sender : t.send_base ≡ s.send_base
  pub peer : t.recv_cond ≡ s.recv_cond

-- What `deliver` does: it stops where the next byte is not ready.
pub record Delivered (ws wr : ℕ) (sent : ℕ → ℕ) (out : List ℕ) (s t : Net) : Type 0 where
  pub inv : Inv ws wr t sent out
  pub next : t.ready_seq t.recv_base ≡ false
  pub base : s.recv_base ≤ t.recv_base
  pub ready : t.ready_seq ≡ s.ready_seq
  pub seq : t.current_seq ≡ s.current_seq
  pub connected : t.send_cond ≡ s.send_cond
  pub peer : t.recv_cond ≡ s.recv_cond

module _ (ws wr : ℕ) (sent : ℕ → ℕ) (out : List ℕ) where
  upper_ok :
      (s : Net) → Inv ws wr s sent out → Fits ws wr s → add_64 s.recv_base wr ≡ s.recv_base + wr
  upper_ok s v f = omega (arith, v.received)

  accept-Inv :
      (s : Net) (p : IpPkt)
      → Inv ws wr s sent out
      → Fits ws wr s
      → IsSent sent s.current_seq p
      → Inv ws wr (accept wr s p) sent out × Kept s (accept wr s p)
  unfolding accept
  accept-Inv s p v f h = rw (upper_ok s v f) (elim (Bool-cases (leb (s.recv_base + wr) p.seq)) [
    | inl far ↦ rw far (v, same)
    | inr near ↦ rw near (elim (Bool-cases (leb s.recv_base p.seq)) [
      | inr old ↦ rw old (v, same)
      | inl new ↦ rw new (
        record {
          acked = v.acked;
          received = v.received;
          window = v.window;
          packets = v.packets;
          acks = v.acks;
          kept = v.kept;
          ready = λ i g e. ground (arith, v.ready i g, mod-inj wr i p.seq, mod-inj wr p.seq i);
          delivered = v.delivered;
        },
        record { base = refl; seq = refl; connected = refl; sender = refl; peer = refl },
      )
    ])
  ])
    where
      same : Kept s s
      same = record { base = refl; seq = refl; connected = refl; sender = refl; peer = refl }

  accept_all-Inv :
      (ps : List IpPkt) (s : Net)
      → Inv ws wr s sent out
      → Fits ws wr s
      → All (IsSent sent s.current_seq) ps
      → Inv ws wr (accept_all wr ps s) sent out × Kept s (accept_all wr ps s)
  unfolding accept_all
  accept_all-Inv [] s v f h =
      (v, record { base = refl; seq = refl; connected = refl; sender = refl; peer = refl })
  accept_all-Inv (p ∷ ps) s v f h =
      let (w, k) = accept-Inv s p v f h.0 in
      let (x, l) = accept_all-Inv ps (accept wr s p) w (rw k.seq f) (rw k.seq h.1) in
      (
        x,
        record {
          base = l.base ∙ k.base;
          seq = l.seq ∙ k.seq;
          connected = l.connected ∙ k.connected;
          sender = l.sender ∙ k.sender;
          peer = l.peer ∙ k.peer;
        },
      )

  abbrev advanced : Net → Net
  advanced s = record s {
    app_buf = s.app_buf ++ s.tcp_buf (s.recv_base % wr) ∷ [];
    recv_base = s.recv_base + 1;
  }

  advanced-Inv :
      (s : Net)
      → Inv ws wr s sent out
      → s.ready_seq s.recv_base ≡ true
      → Inv ws wr (advanced s) sent out
  advanced-Inv s v e =
      let (l, b, t) = v.ready s.recv_base (omega arith) e in
      record {
        acked = omega (arith, v.acked);
        received = omega arith;
        window = v.window;
        packets = v.packets;
        acks = All-map _ _ s.ack_queue v.acks (λ p h. omega arith);
        kept = v.kept;
        ready = λ i g h. ground (arith, v.ready i);
        delivered = rw t (
            bytes-append out s.app_buf (packet sent s.recv_base)
            ∙ ap (λ l. l ++ sent s.recv_base ∷ []) v.delivered
            ∙ sym (firsts-append sent s.recv_base));
      }

  stopped-Delivered :
      (s : Net)
      → Inv ws wr s sent out
      → s.ready_seq s.recv_base ≡ false
      → Delivered ws wr sent out s s
  stopped-Delivered s v e = record {
    inv = v;
    next = e;
    base = omega arith;
    ready = refl;
    seq = refl;
    connected = refl;
    peer = refl;
  }

  -- With fuel for the bytes up to `bound` and one more turn, `deliver` ends where the next byte is not
  -- ready.
  pub deliver-Inv :
      (fuel bound : ℕ) (s : Net)
      → Inv ws wr s sent out
      → Fits ws wr s
      → s.recv_base ≤ bound
      → bound < s.recv_base + fuel
      → ((i : ℕ) → s.recv_base ≤ i → s.ready_seq i ≡ true → i < bound)
      → (t : Net) × (deliver wr fuel s ≡ ok t) × Delivered ws wr sent out s t
  unfolding deliver
  deliver-Inv zero bound s v f c b h = absurd (omega arith)
  deliver-Inv (suc fuel) bound s v f c b h = elim (Bool-cases (s.ready_seq s.recv_base)) [
    | inr e ↦ rw e (s, refl, stopped-Delivered s v e)
    | inl e ↦
        let (t, g, d) =
          deliver-Inv fuel bound (advanced s) (advanced-Inv s v e) f
            (omega (arith, h s.recv_base (omega arith) e)) (omega arith)
            (λ i g t. h i (omega arith) t) in
        rw e (
          rw (next s v f) (
            t,
            g,
            record {
              inv = d.inv;
              next = d.next;
              base = omega (arith, d.base);
              ready = d.ready;
              seq = d.seq;
              connected = d.connected;
              peer = d.peer;
            },
          ))
  ]
    where
      next :
          (s : Net) → Inv ws wr s sent out → Fits ws wr s → add_64 s.recv_base 1 ≡ s.recv_base + 1
      next s v f = omega (arith, v.received)

  -- The receiver after both loops of `do_recv`, and after it has sent the acknowledgement.
  abbrev pub drained : Net → Net
  drained s = accept_all wr s.pkt_queue (record s { pkt_queue = [] })

  abbrev pub acked_to : Net → Net
  acked_to t = record t { ack_queue = t.ack_queue ++ record { byte = 0; seq = t.recv_base } ∷ [] }

  pub drained-Inv :
      (s : Net)
      → Inv ws wr s sent out
      → Fits ws wr s
      → Inv ws wr (drained s) sent out × Kept s (drained s)
  drained-Inv s v f =
      let (w, k) =
        accept_all-Inv s.pkt_queue (record s { pkt_queue = [] })
          (record {
            acked = v.acked;
            received = v.received;
            window = v.window;
            packets = tt;
            acks = v.acks;
            kept = v.kept;
            ready = v.ready;
            delivered = v.delivered;
          })
          f v.packets in
      (
        w,
        record {
          base = k.base;
          seq = k.seq;
          connected = k.connected;
          sender = k.sender;
          peer = k.peer;
        },
      )

  pub acked_to-Inv : (t : Net) → Inv ws wr t sent out → Inv ws wr (acked_to t) sent out
  acked_to-Inv t v = record {
    acked = v.acked;
    received = v.received;
    window = v.window;
    packets = v.packets;
    acks = All-append _ t.ack_queue _ v.acks (omega arith);
    kept = v.kept;
    ready = v.ready;
    delivered = v.delivered;
  }

  -- The second loop of `do_recv` ends.
  pub received-Delivered :
      (s : Net)
      → Inv ws wr s sent out
      → Fits ws wr s
      → Kept s (drained s)
        × ((t : Net) × (deliver wr (suc wr) (drained s) ≡ ok t)
            × Delivered ws wr sent out (drained s) t)
  received-Delivered s v f =
      let (w, k) = drained-Inv s v f in
      (
        k,
        deliver-Inv (suc wr) ((drained s).recv_base + wr) (drained s) w (rw k.seq f) (omega arith)
            (omega arith) (λ i g t. (w.ready i g t).1),
      )

  pub do_recv-ok :
      (s t : Net)
      → deliver wr (suc wr) (drained s) ≡ ok t
      → t.send_cond ≡ true
      → do_recv wr s ≡ ok (acked_to t)
  unfolding do_recv send_ack
  do_recv-ok s t e c = rw e (passes t.send_cond _ _ c)
