-- ===== src/Tcp/Holds.antt =====
-- The invariant of a run of the threads of tcp.cc, and the steps that leave it as it is.
pub mod Sender
pub mod Handler
pub mod Receiver
use mathlib.Core.List.{append-nil, append_assoc}
use mod_cpp.Common.{
  ℕ, zero, suc, ◌+◌, ◌%◌, ◌^◌, ◌≤◌, ◌<◌, ◌≡◌, refl, subst, Bool, Bool-cases, inl, inr, true, false,
  ltb, leb, if◌then◌else◌, update, some, List, [], ◌∷◌, ◌++◌, map, dec_le, arith, ◌∙◌, sym, ap,
}
use mod_cpp.Common.Outcome.{Outcome, ok, thrown, assert_failed, undefined, ◌>>=◌}
use mod_cpp.Tcp.{
  IpPkt, Net, new_net, tcp_connect, tick, reset_timer, ip_send, send_ack, through_int, add_64,
  accept_all, deliver, tcp_recv, tcp_recv_from, time_out_limit,
}
use mod_cpp.Tcp.Invariant.{Inv, Fits, firsts, new_net-Inv, passes}
use mod_cpp.Tcp.Receive.{acked_to, acked_to-Inv}
use mod_cpp.Tcp.Interleaving.{
  SendPc, send_idle, send_checked, send_stored, send_queued, send_counted, HandlerPc,
  handler_waiting, handler_woken, handler_acking, handler_checking, handler_resending, ReceiverPc,
  receiver_waiting, receiver_acking, Run, is_empty, check_step, store_step, queue_step, count_step,
  wake_step, ack_step, timer_step, resend_step, receive_step, reply_step, by_sender, by_handler,
  by_receiver, Reach, connected, send_call, send_store, send_queue, send_count, send_reset,
  handler_wakes, handler_tests, handler_acks, handler_checks, handler_resends, receives, replies,
  second, take,
}
use mod_cpp.Tcp.Receiving.{Untouched, receive-Inv}
use mod_cpp.Tcp.Steps.{
  counted, SendInv, HandlerInv, SendInv-other, HandlerInv-other, bound, check-room, store-Inv,
  queue-Inv, resent-Inv, acked-Inv, other_fields-Inv,
}

-- The invariant of a run.
pub record Holds (ws wr n : ℕ) (s : Net) (p : SendPc) (h : HandlerPc) (sent : ℕ → ℕ) (out : List ℕ)
    : Type 0 where
  pub inv : Inv ws wr (counted n s) sent out
  pub sending : SendInv ws wr n s p
  pub handling : HandlerInv ws wr s h
  pub to_receiver : s.recv_cond ≡ true
  pub to_sender : s.send_cond ≡ true

abbrev pub bytes : List IpPkt → List ℕ
bytes l = map (λ (p : IpPkt). p.byte) l

abbrev pub Windows : ℕ → ℕ → Type 0
Windows ws wr = (ws < 2 ^ 31) × (wr < 2 ^ 31) × (0 < ws) × (0 < wr)

module _ (ws wr : ℕ) (w : Windows ws wr) where
  pub fits : (n : ℕ) (s : Net) → n < 2 ^ 31 → Fits ws wr (counted n s)
  fits n s b = ground (arith, w)

  -- A step that changes no more than the timer.
  pub quiet :
      (n : ℕ) (s : Net) (c : ℕ) (p p' : SendPc) (h h' : HandlerPc) (sent : ℕ → ℕ) (out : List ℕ)
      → Holds ws wr n s p h sent out
      → SendInv ws wr n (record s { tcp_counter = c }) p'
      → HandlerInv ws wr (record s { tcp_counter = c }) h'
      → Holds ws wr n (record s { tcp_counter = c }) p' h' sent out
  quiet n s c p p' h h' sent out v a b = record {
    inv = other_fields-Inv ws wr n sent out s c s.recv_cond s.send_cond v.inv;
    sending = a;
    handling = b;
    to_receiver = v.to_receiver;
    to_sender = v.to_sender;
  }

  -- A step of the handler that changes nothing but where it stands
  pub stand-Holds :
      (n : ℕ) (s : Net) (p : SendPc) (h h' : HandlerPc) (sent : ℕ → ℕ) (out : List ℕ)
      → Holds ws wr n s p h sent out
      → HandlerInv ws wr s h'
      → Holds ws wr n s p h' sent out
  stand-Holds n s p h h' sent out v a = record {
    inv = v.inv;
    sending = v.sending;
    handling = a;
    to_receiver = v.to_receiver;
    to_sender = v.to_sender;
  }
