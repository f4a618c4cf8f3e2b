-- ===== src/Tcp/Holds/Handler.antt =====
-- The steps of `handler_fn`, `handle_ack` and `handle_timeout` keep the invariant of a run.
use mod_cpp.Common.{
  ℕ, ◌+◌, ◌%◌, ◌^◌, ◌<◌, ◌≡◌, refl, subst, Bool-cases, inl, inr, ltb, leb, if◌then◌else◌, List, [],
  ◌∷◌, ◌++◌, arith,
}
use mod_cpp.Common.Outcome.{ok}
use mod_cpp.Tcp.{IpPkt, Net, reset_timer, ip_send, through_int, time_out_limit}
use mod_cpp.Tcp.Interleaving.{
  SendPc, HandlerPc, handler_waiting, handler_woken, handler_locking, handler_acking,
  handler_checking, handler_resetting, handler_testing, handler_resending, is_empty, ack_step,
  timer_step, test_step, resend_step,
}
use mod_cpp.Tcp.Steps.{SendInv-other, bound, resent-Inv, acked-Inv}
use mod_cpp.Tcp.Holds.{Holds, Windows, quiet, stand-Holds}

module _ (ws wr : ℕ) (w : Windows ws wr) where
  -- The handler takes the acknowledgements `l` of the queue.
  pub ack-Holds :
      (n : ℕ) (s : Net) (l : List IpPkt) (p : SendPc) (sent : ℕ → ℕ) (out : List ℕ)
      → s.ack_queue ≡ l
      → Holds ws wr n s p handler_acking sent out
      → Holds ws wr n (ack_step ws s l).0 p (ack_step ws s l).1 sent out
  unfolding ack_step
  ack-Holds n s [] p sent out e v =
      quiet ws wr w n s 0 p p handler_acking handler_checking sent out v
        (SendInv-other ws wr n s (reset_timer s) p refl (omega arith) refl v.sending) refl
  ack-Holds n s (a ∷ l) p sent out e v = record {
    inv = acked-Inv ws wr n sent out s a l e v.inv;
    sending =
        SendInv-other ws wr n s (ack_step ws s (a ∷ l)).0 p refl (ground arith) refl v.sending;
    handling = refl;
    to_receiver = v.to_receiver;
    to_sender = v.to_sender;
  }

  pub tests-Holds :
      (n : ℕ) (s : Net) (l : List IpPkt) (p : SendPc) (sent : ℕ → ℕ) (out : List ℕ)
      → Holds ws wr n s p handler_woken sent out
      → Holds ws wr n s p (if is_empty l then handler_checking else handler_locking) sent out
  tests-Holds n s [] p sent out v =
      stand-Holds ws wr w n s p handler_woken handler_checking sent out v refl
  tests-Holds n s (a ∷ l) p sent out v =
      stand-Holds ws wr w n s p handler_woken handler_locking sent out v refl

  pub timer-Holds :
      (n : ℕ) (s : Net) (p : SendPc) (sent : ℕ → ℕ) (out : List ℕ)
      → n < 2 ^ 31
      → Holds ws wr n s p handler_checking sent out
      → Holds ws wr n (timer_step ws s).0 p (timer_step ws s).1 sent out
  unfolding timer_step
  timer-Holds n s p sent out b v = elim (Bool-cases (leb time_out_limit s.tcp_counter)) [
    | inl late ↦ rw late (
        stand-Holds ws wr w n s p handler_checking (handler_testing (through_int s.send_base)) sent
          out v (ground (arith, v.inv.acked, v.inv.received)))
    | inr early ↦
        rw early (stand-Holds ws wr w n s p handler_checking handler_waiting sent out v refl)
  ]

  pub loops-Holds :
      (n i : ℕ) (s : Net) (p : SendPc) (sent : ℕ → ℕ) (out : List ℕ)
      → Holds ws wr n s p (handler_testing i) sent out
      → Holds ws wr n (test_step ws s i).0 p (test_step ws s i).1 sent out
  unfolding test_step
  loops-Holds n i s p sent out v = elim (Bool-cases (ltb i s.current_seq)) [
    | inl more ↦ rw more (
        stand-Holds ws wr w n s p (handler_testing i) (handler_resending i) sent out v
          (v.handling, ground arith))
    | inr done ↦
        rw done (stand-Holds ws wr w n s p (handler_testing i) handler_resetting sent out v refl)
  ]

  pub resend-Holds :
      (n i : ℕ) (s : Net) (q : Net × HandlerPc) (p : SendPc) (sent : ℕ → ℕ) (out : List ℕ)
      → Holds ws wr n s p (handler_resending i) sent out
      → resend_step ws s i ≡ ok q
      → Holds ws wr n q.0 p q.1 sent out
  unfolding resend_step ip_send
  resend-Holds n i s q p sent out v e =
      subst (λ (r : Net × HandlerPc). Holds ws wr n r.0 p r.1 sent out) stepped
        (record {
          inv =
              resent-Inv ws wr n sent out s i v.inv v.handling.0
                (omega (arith, v.handling.1, bound ws wr n s p v.sending));
          sending = SendInv-other ws wr n s queued p refl (omega arith) refl v.sending;
          handling = omega (arith, v.handling.0);
          to_receiver = v.to_receiver;
          to_sender = v.to_sender;
        })
    where
      queued : Net
      queued = record s { pkt_queue = s.pkt_queue ++ s.buf (i % ws) ∷ [] }

      stepped : (queued, handler_testing (i + 1)) ≡ q
      stepped = elim (Bool-cases (leb (2 ^ 31) i)) [
        | inl large ↦ let f = rw large at e in absurd cc
        | inr small ↦ let f = rw (small, v.to_receiver) at e in cc
      ]
