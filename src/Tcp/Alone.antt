-- ===== src/Tcp/Alone.antt =====
-- The steps of a thread that no other thread interrupts are its method.
use mod_cpp.Common.{
  ℕ, zero, suc, ◌+◌, ◌^◌, leb, ap, ◌≡◌, refl, Bool-cases, inl, inr, List, [], ◌∷◌, arith,
}
use mod_cpp.Common.Outcome.{Outcome, ok, thrown, assert_failed, undefined, ◌>>=◌}
use mod_cpp.Tcp.{
  IpPkt, Net, reset_timer, ip_send, tcp_send, do_recv, deliver, accept_all, send_ack, handle_ack,
  take_acks, resend,
}
use mod_cpp.Tcp.Interleaving.{
  check_step, store_step, queue_step, count_step, receive_step, reply_step, ack_step, resend_step,
  receiver_acking,
}

abbrev steps_of_send : ℕ → Net → ℕ → Outcome Net
steps_of_send ws s byte = do
  (a, _) ← check_step ws s byte
  (b, _) ← queue_step ws (store_step ws a byte).0
  ok (reset_timer (count_step ws b).0)

tcp_send_lem : (ws : ℕ) (s : Net) (byte : ℕ) → steps_of_send ws s byte ≡ tcp_send ws s byte
unfolding check_step store_step queue_step count_step tcp_send ip_send
tcp_send_lem ws s byte = ground arith

abbrev steps_of_recv : ℕ → Net → Outcome Net
steps_of_recv wr s = do (t, _) ← receive_step wr s; (u, _) ← reply_step t; ok u

-- Both loops of `do_recv` came to `m`.
after_loops :
    (m : Outcome Net)
    → (do (t, _) ← (m >>= λ t. ok (t, receiver_acking)); (u, _) ← reply_step t; ok u)
      ≡ (m >>= λ t. send_ack t (record { byte = 0; seq = t.recv_base }))
unfolding reply_step send_ack
after_loops (ok t) = ground arith
after_loops (thrown e) = refl
after_loops assert_failed = refl
after_loops undefined = refl

do_recv_lem : (wr : ℕ) (s : Net) → steps_of_recv wr s ≡ do_recv wr s
unfolding receive_step do_recv
do_recv_lem wr s =
    after_loops (deliver wr (suc wr) (accept_all wr s.pkt_queue (record s { pkt_queue = [] })))

abbrev steps_of_ack : ℕ → Net → List IpPkt → Net
steps_of_ack ws s [] = (ack_step ws s []).0
steps_of_ack ws s (p ∷ ps) = steps_of_ack ws (ack_step ws s (p ∷ ps)).0 ps

-- The loop of `handle_ack` on the acknowledgements `l` of the queue
loop_of_ack :
    (ws : ℕ) (l : List IpPkt) (s : Net)
    → s.ack_queue ≡ l
    → steps_of_ack ws s l
      ≡ reset_timer (record s { ack_queue = []; send_base = take_acks l s.send_base })
unfolding ack_step take_acks
loop_of_ack ws [] s e = ap (λ q. reset_timer (record s { ack_queue = q })) e
loop_of_ack ws (p ∷ ps) s e = loop_of_ack ws ps (ack_step ws s (p ∷ ps)).0 refl

handle_ack_lem : (ws : ℕ) (s : Net) → steps_of_ack ws s s.ack_queue ≡ handle_ack s
unfolding handle_ack
handle_ack_lem ws s = loop_of_ack ws s.ack_queue s refl

-- The loop of `handle_timeout` from `i` on, for `k` rounds
abbrev steps_of_resend : ℕ → ℕ → ℕ → Net → Outcome Net
steps_of_resend ws zero i s = ok s
steps_of_resend ws (suc k) i s = do (t, _) ← resend_step ws s i; steps_of_resend ws k (i + 1) t

resend_lem : (ws k i : ℕ) (s : Net) → steps_of_resend ws k i s ≡ resend ws k i s
unfolding resend resend_step ip_send
resend_lem ws zero i s = refl
resend_lem ws (suc k) i s = elim (Bool-cases (leb (2 ^ 31) i)) [
  | inl large ↦ rw large refl
  | inr small ↦ elim (Bool-cases s.recv_cond) [
    | inl joined ↦ rw (small, joined) (resend_lem ws k (i + 1) _)
    | inr apart ↦ rw (small, apart) refl
  ]
]
