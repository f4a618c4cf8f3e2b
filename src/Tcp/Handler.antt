-- ===== src/Tcp/Handler.antt =====
-- What the handler thread does for an acknowledgement and for a timeout.
use mathlib.Core.List.{append-nil, append_assoc}
use mod_cpp.Common.{
  ℕ, zero, suc, ◌+◌, ◌-◌, ◌%◌, ◌^◌, ◌≤◌, ◌<◌, ◌≡◌, refl, Bool-cases, inl, inr, true, false, leb,
  if◌then◌else◌, List, [], ◌∷◌, ◌++◌, arith, ◌∙◌, ap,
}
use mod_cpp.Common.Outcome.{ok, Returns}
use mod_cpp.Tcp.{
  IpPkt, Net, ip_send, take_acks, handle_ack, handle_ack_if, max, resend, handle_timeout,
  handler_fn, through_int, time_out_limit,
}
use mod_cpp.Tcp.Invariant.{passes, Inv, Fits, All, IsSent, Acks, packet}

take_acks-bound :
    (ps : List IpPkt) (base n : ℕ)
    → base ≤ n
    → All (Acks n) ps
    → (base ≤ take_acks ps base) × (take_acks ps base ≤ n)
unfolding take_acks
take_acks-bound [] base n h a = (omega arith, h)
take_acks-bound (p ∷ ps) base n h a = ground (arith, take_acks-bound ps (max base p.seq) n)

-- The packets of the bytes from `i` on, `k` of them.
unfoldable pub packets_from : (ℕ → ℕ) → ℕ → ℕ → List IpPkt
packets_from sent zero i = []
packets_from sent (suc k) i = packet sent i ∷ packets_from sent k (i + 1)

pub packets_from-IsSent :
    (sent : ℕ → ℕ) (k i n : ℕ) → i + k ≤ n → All (IsSent sent n) (packets_from sent k i)
unfolding packets_from
packets_from-IsSent sent zero i n h = tt
packets_from-IsSent sent (suc k) i n h =
    ((omega arith, refl), packets_from-IsSent sent k (i + 1) n (omega arith))

All-append_list {ℓ} :
    {A : Type ℓ} (P : A → Type 0) (xs ys : List A) → All P xs → All P ys → All P (xs ++ ys)
All-append_list P [] ys h k = k
All-append_list P (x ∷ xs) ys h k = (h.0, All-append_list P xs ys h.1 k)

module _ (ws wr : ℕ) where
  ip_send-ok :
      (s : Net) (p : IpPkt)
      → s.recv_cond ≡ true
      → ip_send s p ≡ ok (record s { pkt_queue = s.pkt_queue ++ p ∷ [] })
  unfolding ip_send
  ip_send-ok s p c = passes s.recv_cond _ (ok (record s { pkt_queue = s.pkt_queue ++ p ∷ [] })) c

  pub resend-ok :
      (sent : ℕ → ℕ) (k i : ℕ) (s : Net)
      → s.recv_cond ≡ true
      → i + k ≤ 2 ^ 31
      → ((j : ℕ) → i ≤ j → j < i + k → s.buf (j % ws) ≡ packet sent j)
      → resend ws k i s ≡ ok (record s { pkt_queue = s.pkt_queue ++ packets_from sent k i })
  unfolding resend packets_from
  resend-ok sent zero i s c b f = rw (append-nil s.pkt_queue) refl
  resend-ok sent (suc k) i s c b f = rw small (
      rw (f i (omega arith) (omega arith)) (
        rw (ip_send-ok s (packet sent i) c) (
          resend-ok sent k (i + 1) (record s { pkt_queue = s.pkt_queue ++ packet sent i ∷ [] }) c
            (omega arith) (λ j l h. f j (omega arith) (omega arith))
          ∙ ap (λ l. ok (record s { pkt_queue = l }))
              (append_assoc s.pkt_queue (packet sent i ∷ []) (packets_from sent k (i + 1))))))
    where
      small : leb (2 ^ 31) i ≡ false
      small = ground arith

  handle_ack-Inv :
      (s : Net) (sent : ℕ → ℕ) (out : List ℕ)
      → Inv ws wr s sent out
      → Inv ws wr (handle_ack s) sent out
  unfolding handle_ack
  handle_ack-Inv s sent out v =
      let b = take_acks-bound s.ack_queue s.send_base s.recv_base v.acked v.acks in
      record {
        acked = b.1;
        received = v.received;
        window = omega (arith, v.window);
        packets = v.packets;
        acks = tt;
        kept = λ i h l. v.kept i (omega arith) l;
        ready = v.ready;
        delivered = v.delivered;
      }

  unfoldable pub timed_out : (ℕ → ℕ) → Net → Net
  timed_out sent s = record s {
    pkt_queue = s.pkt_queue ++ packets_from sent (s.current_seq - s.send_base) s.send_base;
    tcp_counter = 0;
  }

  pub handle_timeout-ok :
      (s : Net) (sent : ℕ → ℕ) (out : List ℕ)
      → Inv ws wr s sent out
      → Fits ws wr s
      → s.recv_cond ≡ true
      → handle_timeout ws s ≡ ok (timed_out sent s)
  unfolding handle_timeout timed_out
  handle_timeout-ok s sent out v f c = rw same (
      rw
        (resend-ok sent (s.current_seq - s.send_base) s.send_base s c
          (omega (arith, v.acked, v.received))
          (λ j h l. v.kept j h (omega (arith, v.acked, v.received))))
        refl)
    where
      same : through_int s.send_base ≡ s.send_base
      same = ground (arith, v.acked, v.received)

  pub timed_out-Inv :
      (s : Net) (sent : ℕ → ℕ) (out : List ℕ)
      → Inv ws wr s sent out
      → Inv ws wr (timed_out sent s) sent out
  unfolding timed_out
  timed_out-Inv s sent out v = record {
    acked = v.acked;
    received = v.received;
    window = v.window;
    packets = All-append_list _ s.pkt_queue _ v.packets (
        packets_from-IsSent sent (s.current_seq - s.send_base) s.send_base s.current_seq
          (omega (arith, v.acked, v.received)));
    acks = v.acks;
    kept = v.kept;
    ready = v.ready;
    delivered = v.delivered;
  }

  handle_ack_if-Inv :
      (s : Net) (sent : ℕ → ℕ) (out : List ℕ) (l : List IpPkt)
      → Inv ws wr s sent out
      → Inv ws wr (handle_ack_if s l) sent out
  unfolding handle_ack_if
  handle_ack_if-Inv s sent out [] v = v
  handle_ack_if-Inv s sent out (p ∷ ps) v = handle_ack-Inv s sent out v

  handle_ack_if-same :
      (s : Net) (l : List IpPkt)
      → ((handle_ack_if s l).current_seq ≡ s.current_seq)
        × ((handle_ack_if s l).recv_cond ≡ s.recv_cond)
        × ((handle_ack_if s l).send_cond ≡ s.send_cond)
  unfolding handle_ack_if handle_ack
  handle_ack_if-same s [] = (refl, refl, refl)
  handle_ack_if-same s (p ∷ ps) = (refl, refl, refl)

  -- On a connection `handler_fn` returns and keeps the invariant, whatever it handles.
  pub handler_fn_correct :
      (s : Net) (sent : ℕ → ℕ) (out : List ℕ)
      → Inv ws wr s sent out
      → Fits ws wr s
      → s.recv_cond ≡ true
      → Returns
          (λ t.
            Inv ws wr t sent out
            × (t.current_seq ≡ s.current_seq)
            × (t.recv_cond ≡ true)
            × (t.send_cond ≡ s.send_cond))
          (handler_fn ws s)
  unfolding handler_fn timed_out
  handler_fn_correct s sent out v f c =
      by_timer acked_state (handle_ack_if-Inv s sent out s.ack_queue v)
        ((handle_ack_if-same s s.ack_queue).0) ((handle_ack_if-same s s.ack_queue).1 ∙ c)
        ((handle_ack_if-same s s.ack_queue).2)
    where
      acked_state : Net
      acked_state = handle_ack_if s s.ack_queue

      by_timer :
          (t : Net)
          → Inv ws wr t sent out
          → t.current_seq ≡ s.current_seq
          → t.recv_cond ≡ true
          → t.send_cond ≡ s.send_cond
          → Returns
              (λ t.
                Inv ws wr t sent out
                × (t.current_seq ≡ s.current_seq)
                × (t.recv_cond ≡ true)
                × (t.send_cond ≡ s.send_cond))
              (if leb time_out_limit t.tcp_counter then handle_timeout ws t else ok t)
      by_timer t w e d x = elim (Bool-cases (leb time_out_limit t.tcp_counter)) [
        | inl h ↦ rw h (
            rw (handle_timeout-ok t sent out w (ground (arith, f)) d)
              (timed_out-Inv t sent out w, e, d, x))
        | inr h ↦ rw h (w, e, d, x)
      ]
