-- ===== src/Tcp/Interleaving.antt =====
-- The threads of tcp.cc in steps between which the others run: one thread that calls `tcp_send`, the
-- handler, the receiver, the timer, and one thread that calls `tcp_recv`. A step is an access to
-- `send_base`, `current_seq` or `buf`, which no lock protects, or what is done under the lock of a queue.
use mod_cpp.Common.{
  ℕ, suc, ◌+◌, ◌%◌, ◌^◌, ◌≡◌, ◌≢◌, Bool, true, false, not, ◌||◌, ltb, leb, if◌then◌else◌, update,
  some, List, [], ◌∷◌, ◌++◌,
}
use mod_cpp.Common.Outcome.{Outcome, ok, undefined, ◌>>=◌, ◌>>◌, throw_if}
use mod_cpp.Tcp.{
  IpPkt, Net, new_net, tcp_connect, tick, reset_timer, ip_send, send_ack, max, add_64, sub_64,
  int_ge, through_int, time_out_limit, accept_all, deliver, tcp_recv,
}

-- Where `tcp_send` stands: outside, behind its tests, behind the write to `buf`, behind `ip_send`, and
-- behind the count of `current_seq`.
pub data SendPc : Type 0 where
  send_idle send_stored send_queued send_counted : SendPc
  send_checked : ℕ → SendPc

-- Where `handler_fn` stands: in its wait, behind it, before `handle_ack`, in its loop with the lock of
-- the acknowledgements, before the test of the timer, in the loop of `handle_timeout` before the test of
-- `i` and behind it, and before `reset_timer`.
pub data HandlerPc : Type 0 where
  handler_waiting handler_woken handler_locking handler_acking handler_checking handler_resetting :
      HandlerPc
  handler_testing handler_resending : ℕ → HandlerPc

-- `do_recv` holds the lock of the packets to its end: in its wait, and before `send_ack`.
pub data ReceiverPc : Type 0 where
  receiver_waiting receiver_acking : ReceiverPc

pub record Run : Type 0 where
  pub net : Net
  pub sender : SendPc
  pub handler : HandlerPc
  pub receiver : ReceiverPc

abbrev pub is_empty {ℓ} : {A : Type ℓ} → List A → Bool
is_empty [] = true
is_empty (x ∷ xs) = false

-- The condition that `handler_fn` waits for.
abbrev pub is_handler_ready : Net → Bool
is_handler_ready s = leb time_out_limit s.tcp_counter || not (is_empty s.ack_queue)

module _ (send_window : ℕ) where
  unfoldable pub check_step : Net → ℕ → Outcome (Net × SendPc)
  check_step s byte = do
    throw_if (not s.recv_cond) "connection loss"
    throw_if (int_ge (sub_64 s.current_seq s.send_base) send_window) "sender buffer is full"
    ok (s, send_checked byte)

  unfoldable pub store_step : Net → ℕ → Net × SendPc
  store_step s byte =
      let pkt : IpPkt = record { byte = byte; seq = s.current_seq } in
      (record s { buf = update s.buf (s.current_seq % send_window) pkt }, send_stored)

  -- `ip_send(buf[current_seq % SendWindow])`
  unfoldable pub queue_step : Net → Outcome (Net × SendPc)
  unfolding ip_send
  queue_step s = do t ← ip_send s (s.buf (s.current_seq % send_window)); ok (t, send_queued)

  unfoldable pub count_step : Net → Net × SendPc
  count_step s = (record s { current_seq = add_64 s.current_seq 1 }, send_counted)

  unfoldable pub wake_step : Net → Net × HandlerPc
  wake_step s = (s, if is_empty s.ack_queue then handler_checking else handler_locking)

  -- One turn of the loop of `handle_ack`, or its end.
  unfoldable pub ack_step : Net → List IpPkt → Net × HandlerPc
  ack_step s [] = (reset_timer s, handler_checking)
  ack_step s (p ∷ ps) =
      (record s { ack_queue = ps; send_base = max s.send_base p.seq }, handler_acking)

  unfoldable pub timer_step : Net → Net × HandlerPc
  timer_step s = (
    s,
    if leb time_out_limit s.tcp_counter
        then handler_testing (through_int s.send_base)
        else handler_waiting,
  )

  -- The test of the loop of `handle_timeout`
  unfoldable pub test_step : Net → ℕ → Net × HandlerPc
  test_step s i = (s, if ltb i s.current_seq then handler_resending i else handler_resetting)

  -- The body of that loop. An `int` cannot go over 2 ^ 31 - 1, and a negative one is no index.
  unfoldable pub resend_step : Net → ℕ → Outcome (Net × HandlerPc)
  unfolding ip_send
  resend_step s i =
      let sent = (do t ← ip_send s (s.buf (i % send_window)); ok (t, handler_testing (i + 1))) in
      if leb (2 ^ 31) i then undefined else sent

-- The two loops of `do_recv`: the first works on the locked queue and on members that only the receiver
-- uses, so that no other thread sees the state between them.
unfoldable pub receive_step : ℕ → Net → Outcome (Net × ReceiverPc)
unfolding accept_all deliver
receive_step receive_window s = do
  t ←
      deliver receive_window (suc receive_window)
        (accept_all receive_window s.pkt_queue (record s { pkt_queue = [] }))
  ok (t, receiver_acking)

unfoldable pub reply_step : Net → Outcome (Net × ReceiverPc)
unfolding send_ack
reply_step s = do t ← send_ack s (record { byte = 0; seq = s.recv_base }); ok (t, receiver_waiting)

abbrev pub by_sender : Run → Net × SendPc → Run
by_sender r (s, pc) = record r { net = s; sender = pc }

abbrev pub by_handler : Run → Net × HandlerPc → Run
by_handler r (s, pc) = record r { net = s; handler = pc }

abbrev pub by_receiver : Run → Net × ReceiverPc → Run
by_receiver r (s, pc) = record r { net = s; receiver = pc }

-- The state of a run after `n` packets of `tcp_send` came into the queue, the i-th with the byte `sent i`,
-- where `tcp_recv` has returned `out`. The queue of the packets is locked while the receiver is in
-- `do_recv`, that of the acknowledgements while the handler is in `handle_ack`. A call of `tcp_send`
-- that throws at its tests changes nothing.
pub data Reach (ws wr : ℕ) : ℕ → Run → (ℕ → ℕ) → List ℕ → Type 0 where
  connected :
      (t b : ℕ → IpPkt) (sent : ℕ → ℕ)
      → Reach ws wr 0
          (record {
            net = tcp_connect (new_net t b);
            sender = send_idle;
            handler = handler_waiting;
            receiver = receiver_waiting;
          })
          sent
          []
  send_call :
      {n : ℕ} {r : Run} {sent : ℕ → ℕ} {out : List ℕ} {s : Net × SendPc} (byte : ℕ)
      → Reach ws wr n r sent out
      → r.sender ≡ send_idle
      → check_step ws r.net byte ≡ ok s
      → Reach ws wr n (by_sender r s) sent out
  send_store :
      {n : ℕ} {r : Run} {sent : ℕ → ℕ} {out : List ℕ} (byte : ℕ)
      → Reach ws wr n r sent out
      → r.sender ≡ send_checked byte
      → Reach ws wr n (by_sender r (store_step ws r.net byte)) sent out
  send_queue :
      {n : ℕ} {r : Run} {sent : ℕ → ℕ} {out : List ℕ} {s : Net × SendPc}
      → Reach ws wr n r sent out
      → r.sender ≡ send_stored
      → r.receiver ≡ receiver_waiting
      → queue_step ws r.net ≡ ok s
      → Reach ws wr
          (suc n)
          (by_sender r s)
          (update sent n (r.net.buf (r.net.current_seq % ws)).byte)
          out
  send_count :
      {n : ℕ} {r : Run} {sent : ℕ → ℕ} {out : List ℕ}
      → Reach ws wr n r sent out
      → r.sender ≡ send_queued
      → Reach ws wr n (by_sender r (count_step ws r.net)) sent out
  send_reset :
      {n : ℕ} {r : Run} {sent : ℕ → ℕ} {out : List ℕ}
      → Reach ws wr n r sent out
      → r.sender ≡ send_counted
      → Reach ws wr n (by_sender r (reset_timer r.net, send_idle)) sent out
  handler_wakes :
      {n : ℕ} {r : Run} {sent : ℕ → ℕ} {out : List ℕ}
      → Reach ws wr n r sent out
      → r.handler ≡ handler_waiting
      → is_handler_ready r.net ≡ true
      → Reach ws wr n (by_handler r (r.net, handler_woken)) sent out
  handler_tests :
      {n : ℕ} {r : Run} {sent : ℕ → ℕ} {out : List ℕ}
      → Reach ws wr n r sent out
      → r.handler ≡ handler_woken
      → Reach ws wr n (by_handler r (wake_step ws r.net)) sent out
  handler_locks :
      {n : ℕ} {r : Run} {sent : ℕ → ℕ} {out : List ℕ}
      → Reach ws wr n r sent out
      → r.handler ≡ handler_locking
      → Reach ws wr n (by_handler r (r.net, handler_acking)) sent out
  handler_acks :
      {n : ℕ} {r : Run} {sent : ℕ → ℕ} {out : List ℕ}
      → Reach ws wr n r sent out
      → r.handler ≡ handler_acking
      → Reach ws wr n (by_handler r (ack_step ws r.net r.net.ack_queue)) sent out
  handler_checks :
      {n : ℕ} {r : Run} {sent : ℕ → ℕ} {out : List ℕ}
      → Reach ws wr n r sent out
      → r.handler ≡ handler_checking
      → Reach ws wr n (by_handler r (timer_step ws r.net)) sent out
  handler_loops :
      {n : ℕ} {r : Run} {sent : ℕ → ℕ} {out : List ℕ} (i : ℕ)
      → Reach ws wr n r sent out
      → r.handler ≡ handler_testing i
      → Reach ws wr n (by_handler r (test_step ws r.net i)) sent out
  handler_resends :
      {n : ℕ} {r : Run} {sent : ℕ → ℕ} {out : List ℕ} {s : Net × HandlerPc} (i : ℕ)
      → Reach ws wr n r sent out
      → r.handler ≡ handler_resending i
      → r.receiver ≡ receiver_waiting
      → resend_step ws r.net i ≡ ok s
      → Reach ws wr n (by_handler r s) sent out
  handler_resets :
      {n : ℕ} {r : Run} {sent : ℕ → ℕ} {out : List ℕ}
      → Reach ws wr n r sent out
      → r.handler ≡ handler_resetting
      → Reach ws wr n (by_handler r (reset_timer r.net, handler_waiting)) sent out
  receives :
      {n : ℕ} {r : Run} {sent : ℕ → ℕ} {out : List ℕ} {s : Net × ReceiverPc}
      → Reach ws wr n r sent out
      → r.receiver ≡ receiver_waiting
      → is_empty r.net.pkt_queue ≡ false
      → receive_step wr r.net ≡ ok s
      → Reach ws wr n (by_receiver r s) sent out
  replies :
      {n : ℕ} {r : Run} {sent : ℕ → ℕ} {out : List ℕ} {s : Net × ReceiverPc}
      → Reach ws wr n r sent out
      → r.receiver ≡ receiver_acking
      → r.handler ≢ handler_acking
      → reply_step r.net ≡ ok s
      → Reach ws wr n (by_receiver r s) sent out
  second :
      {n : ℕ} {r : Run} {sent : ℕ → ℕ} {out : List ℕ}
      → Reach ws wr n r sent out
      → Reach ws wr n (record r { net = tick r.net }) sent out
  take :
      {n : ℕ} {r : Run} {t : Net} {sent : ℕ → ℕ} {out : List ℕ} (p : IpPkt)
      → Reach ws wr n r sent out
      → tcp_recv r.net ≡ (some p, t)
      → Reach ws wr n (record r { net = t }) sent (out ++ p.byte ∷ [])
