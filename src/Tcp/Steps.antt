-- ===== src/Tcp/Steps.antt =====
-- The single steps of the threads keep the invariant. It speaks of the number `n` of packets that came
-- into the queue, which `current_seq` follows.
use mod_cpp.Common.{
  ℕ, suc, ◌+◌, ◌%◌, ◌≤◌, ◌<◌, ◌≡◌, refl, subst, Bool, Bool-cases, inl, inr, true, false, update,
  List, [], ◌∷◌, ◌++◌, arith, ◌∙◌, sym, ap,
}
use mod_cpp.Common.Outcome.{ok, thrown}
use mod_cpp.Common.Mod.{mod-inj}
use mod_cpp.Tcp.{IpPkt, Net, max, sub_64, int_ge}
use mod_cpp.Tcp.Invariant.{Inv, Fits, All, All-append, All-map, IsSent, firsts-update}
use mod_cpp.Tcp.Interleaving.{
  SendPc, send_idle, send_checked, send_stored, send_queued, send_counted, HandlerPc,
  handler_waiting, handler_woken, handler_locking, handler_acking, handler_checking,
  handler_resetting, handler_testing, handler_resending, check_step, store_step,
}

-- The state with `n` in place of `current_seq`.
abbrev pub counted : ℕ → Net → Net
counted n s = record s { current_seq = n }

module _ (ws wr : ℕ) where
  abbrev pub SendInv : ℕ → Net → SendPc → Type 0
  SendInv n s send_idle = s.current_seq ≡ n
  SendInv n s (send_checked byte) = (s.current_seq ≡ n) × (n < s.send_base + ws)
  SendInv n s send_stored =
      (s.current_seq ≡ n) × (n < s.send_base + ws) × ((s.buf (n % ws)).seq ≡ n)
  SendInv n s send_queued = s.current_seq + 1 ≡ n
  SendInv n s send_counted = s.current_seq ≡ n

  abbrev pub HandlerInv : Net → HandlerPc → Type 0
  HandlerInv s (handler_testing i) = s.send_base ≤ i
  HandlerInv s (handler_resending i) = (s.send_base ≤ i) × (i < s.current_seq)
  HandlerInv s pc = s ≡ s

  -- What the receiver, the timer and `tcp_recv` change does not concern the other two.
  pub SendInv-other :
      (n : ℕ) (s t : Net) (pc : SendPc)
      → t.current_seq ≡ s.current_seq
      → s.send_base ≤ t.send_base
      → t.buf ≡ s.buf
      → SendInv n s pc
      → SendInv n t pc
  SendInv-other n s t send_idle a b c v = a ∙ v
  SendInv-other n s t (send_checked byte) a b c (v, w) = (a ∙ v, omega arith)
  SendInv-other n s t send_stored a b c (v, w, x) =
      (a ∙ v, omega arith, ap (λ (f : ℕ → IpPkt). (f (n % ws)).seq) c ∙ x)
  SendInv-other n s t send_queued a b c v = omega arith
  SendInv-other n s t send_counted a b c v = a ∙ v

  pub HandlerInv-other :
      (s t : Net) (pc : HandlerPc)
      → t.send_base ≡ s.send_base
      → s.current_seq ≤ t.current_seq
      → HandlerInv s pc
      → HandlerInv t pc
  HandlerInv-other s t handler_waiting e l v = refl
  HandlerInv-other s t handler_woken e l v = refl
  HandlerInv-other s t handler_locking e l v = refl
  HandlerInv-other s t handler_acking e l v = refl
  HandlerInv-other s t handler_checking e l v = refl
  HandlerInv-other s t handler_resetting e l v = refl
  HandlerInv-other s t (handler_testing i) e l v = omega arith
  HandlerInv-other s t (handler_resending i) e l v = (omega (arith, v.0), omega (arith, v.1))

  pub bound : (n : ℕ) (s : Net) (pc : SendPc) → SendInv n s pc → s.current_seq ≤ n
  bound n s send_idle v = omega arith
  bound n s (send_checked byte) v = omega (arith, v.0)
  bound n s send_stored v = omega (arith, v.0)
  bound n s send_queued v = omega arith
  bound n s send_counted v = omega arith

  module _ (n : ℕ) (sent : ℕ → ℕ) (out : List ℕ) where
    pub check-room :
        (s : Net) (byte : ℕ) (p : Net × SendPc)
        → Inv ws wr (counted n s) sent out
        → Fits ws wr (counted n s)
        → s.recv_cond ≡ true
        → s.current_seq ≡ n
        → check_step ws s byte ≡ ok p
        → (p ≡ (s, send_checked byte)) × (n < s.send_base + ws)
    unfolding check_step
    check-room s byte p v f c e h =
        elim (Bool-cases (int_ge (sub_64 s.current_seq s.send_base) ws)) [
          | inl full ↦ absurd (cc (h, passes_full full))
          | inr free ↦ (cc (h, passes_free free), ground (arith, v.acked, v.received, v.window))
        ]
      where
        passes_full :
            int_ge (sub_64 s.current_seq s.send_base) ws ≡ true
            → check_step ws s byte ≡ thrown "sender buffer is full"
        passes_full full = rw c (rw full refl)

        passes_free :
            int_ge (sub_64 s.current_seq s.send_base) ws ≡ false
            → check_step ws s byte ≡ ok (s, send_checked byte)
        passes_free free = rw c (rw free refl)

    pub store-Inv :
        (s : Net) (byte : ℕ)
        → Inv ws wr (counted n s) sent out
        → s.current_seq ≡ n
        → n < s.send_base + ws
        → Inv ws wr (counted n (store_step ws s byte).0) sent out
    unfolding store_step
    store-Inv s byte v e room = record {
      acked = v.acked;
      received = v.received;
      window = v.window;
      packets = v.packets;
      acks = v.acks;
      kept = λ i h l. ground (arith, v.kept i h, mod-inj ws i n);
      ready = v.ready;
      delivered = v.delivered;
    }

    -- The packet at `buf[n % SendWindow]` comes into the queue.
    pub queue-Inv :
        (s : Net) (pkt : IpPkt)
        → Inv ws wr (counted n s) sent out
        → n < s.send_base + ws
        → s.buf (n % ws) ≡ pkt
        → pkt.seq ≡ n
        → Inv ws wr
            (counted (suc n) (record s { pkt_queue = s.pkt_queue ++ pkt ∷ [] }))
            (update sent n pkt.byte)
            out
    queue-Inv s pkt v room at e = record {
      acked = v.acked;
      received = omega (arith, v.received);
      window = omega arith;
      packets =
          All-append (IsSent (update sent n pkt.byte) (suc n)) s.pkt_queue pkt
            (All-map _ _ s.pkt_queue v.packets (λ p h. ground arith)) (ground arith);
      acks = v.acks;
      kept = λ i h l. ground (arith, v.kept i h);
      ready = λ i h g. ground (arith, v.ready i h);
      delivered = v.delivered ∙ sym (firsts-update sent n pkt.byte s.recv_base v.received);
    }

    -- A packet of a byte that was sent comes into the queue once more.
    pub resent-Inv :
        (s : Net) (i : ℕ)
        → Inv ws wr (counted n s) sent out
        → s.send_base ≤ i
        → i < n
        → Inv ws wr
            (counted n (record s { pkt_queue = s.pkt_queue ++ s.buf (i % ws) ∷ [] }))
            sent
            out
    resent-Inv s i v h l = record {
      acked = v.acked;
      received = v.received;
      window = v.window;
      packets =
          All-append (IsSent sent n) s.pkt_queue (s.buf (i % ws)) v.packets
            (ground (arith, v.kept i h l));
      acks = v.acks;
      kept = v.kept;
      ready = v.ready;
      delivered = v.delivered;
    }

    pub acked-Inv :
        (s : Net) (p : IpPkt) (ps : List IpPkt)
        → s.ack_queue ≡ p ∷ ps
        → Inv ws wr (counted n s) sent out
        → Inv ws wr
            (counted n (record s { ack_queue = ps; send_base = max s.send_base p.seq }))
            sent
            out
    acked-Inv s p ps e v =
        let acks = subst (All (λ q. q.seq ≤ s.recv_base)) e v.acks in
        record {
          acked = ground (arith, v.acked, acks.0);
          received = v.received;
          window = ground (arith, v.window);
          packets = v.packets;
          acks = acks.1;
          kept = λ i h l. v.kept i (ground arith) l;
          ready = v.ready;
          delivered = v.delivered;
        }

    pub other_fields-Inv :
        (s : Net) (c : ℕ) (a b : Bool)
        → Inv ws wr (counted n s) sent out
        → Inv ws wr
            (counted n (record s { tcp_counter = c; recv_cond = a; send_cond = b }))
            sent
            out
    other_fields-Inv s c a b v = record {
      acked = v.acked;
      received = v.received;
      window = v.window;
      packets = v.packets;
      acks = v.acks;
      kept = v.kept;
      ready = v.ready;
      delivered = v.delivered;
    }
