-- ===== src/Tcp.antt =====
-- tcp.cc: `TCP_Sender` and `TCP_Receiver`, a sliding window over two queues of packets. Each method is a
-- function on the shared state, from behind its wait; Tcp.Interleaving has the steps between which the other
-- threads run. An `uint64_t` wraps at 2 ^ 64. The windows are parameters.
pub mod Invariant
pub mod Send
pub mod Handler
pub mod Receive
pub mod Interleaving
pub mod Steps
pub mod Receiving
pub mod Alone
pub mod Holds
pub mod Delivery
pub mod Progress
mod Tests
use mod_cpp.Common.{
  ℕ, zero, suc, ◌+◌, ◌-◌, ◌%◌, ◌^◌, Bool, true, false, not, ◌&&◌, ltb, leb, ◌==◌, if◌then◌else◌,
  update, Option, none, some, List, [], ◌∷◌, ◌++◌,
}
use mod_cpp.Common.Outcome.{Outcome, ok, thrown, undefined, ◌>>=◌, ◌>>◌, throw_if}

pub record IpPkt : Type 0 where
  pub byte : ℕ
  pub seq : ℕ

-- The two queues in memory, and the fields of the receiver and of the sender. `ready_seq` is a
-- `std::unordered_set`; `send_cond` and `recv_cond` say whether the pointers are set.
pub record Net : Type 0 where
  pub ack_queue : List IpPkt
  pub pkt_queue : List IpPkt
  pub recv_base : ℕ
  pub tcp_buf : ℕ → IpPkt
  pub app_buf : List IpPkt
  pub ready_seq : ℕ → Bool
  pub send_cond : Bool
  pub buf : ℕ → IpPkt
  pub send_base : ℕ
  pub current_seq : ℕ
  pub tcp_counter : ℕ
  pub recv_cond : Bool

abbrev pub add_64 : ℕ → ℕ → ℕ
add_64 a b = (a + b) % 2 ^ 64

abbrev pub sub_64 : ℕ → ℕ → ℕ
sub_64 a b = (a + 2 ^ 64 - b) % 2 ^ 64

-- `int cur_len = x; cur_len >= w` for an `uint64_t`: the low 32 bits, with a sign.
abbrev pub int_ge : ℕ → ℕ → Bool
int_ge x w = ltb (x % 2 ^ 32) (2 ^ 31) && leb w (x % 2 ^ 32)

-- `int i = x`, as the `uint64_t` that it is compared as.
abbrev pub through_int : ℕ → ℕ
through_int x = if ltb (x % 2 ^ 32) (2 ^ 31) then x % 2 ^ 32 else x % 2 ^ 32 + (2 ^ 64 - 2 ^ 32)

abbrev pub max : ℕ → ℕ → ℕ
max a b = if ltb a b then b else a

abbrev pub time_out_limit : ℕ
time_out_limit = 5

-- Both constructors, with what the arrays held.
abbrev pub new_net : (ℕ → IpPkt) → (ℕ → IpPkt) → Net
new_net t b = record {
  ack_queue = [];
  pkt_queue = [];
  recv_base = 0;
  tcp_buf = t;
  app_buf = [];
  ready_seq = λ _. false;
  send_cond = false;
  buf = b;
  send_base = 0;
  current_seq = 0;
  tcp_counter = 0;
  recv_cond = false;
}

abbrev pub tcp_connect : Net → Net
tcp_connect s = record s { recv_cond = true; send_cond = true }

abbrev pub reset_timer : Net → Net
reset_timer s = record s { tcp_counter = 0 }

-- One round of the timer thread.
abbrev pub tick : Net → Net
tick s = record s { tcp_counter = s.tcp_counter + 1 }

unfoldable pub ip_send : Net → IpPkt → Outcome Net
ip_send s pkt = do
  let t = record s { pkt_queue = s.pkt_queue ++ pkt ∷ [] }
  throw_if (not t.recv_cond) "connection loss"
  ok t

unfoldable pub send_ack : Net → IpPkt → Outcome Net
send_ack s pkt = do
  throw_if (not s.send_cond) "connection loss"
  ok (record s { ack_queue = s.ack_queue ++ pkt ∷ [] })

-- `send_base` after the acknowledgements
unfoldable pub take_acks : List IpPkt → ℕ → ℕ
take_acks [] base = base
take_acks (p ∷ ps) base = take_acks ps (max base p.seq)

unfoldable pub handle_ack : Net → Net
unfolding take_acks
handle_ack s =
    reset_timer (record s { ack_queue = []; send_base = take_acks s.ack_queue s.send_base })

-- `if (ack_queue.size()) handle_ack();`
unfoldable pub handle_ack_if : Net → List IpPkt → Net
unfolding handle_ack
handle_ack_if s [] = s
handle_ack_if s (p ∷ ps) = handle_ack s

unfoldable pub tcp_recv_from : Net → List IpPkt → Option IpPkt × Net
tcp_recv_from s [] = (none, s)
tcp_recv_from s (res ∷ rest) = (some res, record s { app_buf = rest })

unfoldable pub tcp_recv : Net → Option IpPkt × Net
unfolding tcp_recv_from
tcp_recv s = tcp_recv_from s s.app_buf

module _ (send_window : ℕ) where
  -- The loop of `handle_timeout` from `i` on, for `k` rounds. An `int` cannot go over 2 ^ 31 - 1, and a
  -- negative one is no index.
  unfoldable pub resend : ℕ → ℕ → Net → Outcome Net
  unfolding ip_send
  resend zero i s = ok s
  resend (suc k) i s =
      if leb (2 ^ 31) i then undefined else ip_send s (s.buf (i % send_window)) >>= resend k (i + 1)

  unfoldable pub handle_timeout : Net → Outcome Net
  unfolding resend
  handle_timeout s = do
    t ← resend (s.current_seq - through_int s.send_base) (through_int s.send_base) s
    ok (reset_timer t)

  unfoldable pub tcp_send : Net → ℕ → Outcome Net
  unfolding ip_send
  tcp_send s byte = do
    throw_if (not s.recv_cond) "connection loss"
    throw_if (int_ge (sub_64 s.current_seq s.send_base) send_window) "sender buffer is full"
    let pkt : IpPkt = record { byte = byte; seq = s.current_seq }
    t ← ip_send (record s { buf = update s.buf (s.current_seq % send_window) pkt }) pkt
    ok (reset_timer (record t { current_seq = add_64 t.current_seq 1 }))

  -- What follows the wait of `handler_fn`.
  unfoldable pub handler_fn : Net → Outcome Net
  unfolding handle_ack_if handle_timeout
  handler_fn s =
      let t = handle_ack_if s s.ack_queue in
      if leb time_out_limit t.tcp_counter then handle_timeout t else ok t

module _ (receive_window : ℕ) where
  -- One packet of the first loop of `do_recv`.
  unfoldable pub accept : Net → IpPkt → Net
  accept s pkt =
      if leb (add_64 s.recv_base receive_window) pkt.seq
      then s
      else if leb s.recv_base pkt.seq
      then record s {
        tcp_buf = update s.tcp_buf (pkt.seq % receive_window) pkt;
        ready_seq = update s.ready_seq pkt.seq true;
      }
      else s

  unfoldable pub accept_all : List IpPkt → Net → Net
  unfolding accept
  accept_all [] s = s
  accept_all (p ∷ ps) s = accept_all ps (accept s p)

  -- The second loop of `do_recv`, by fuel: it takes at most a whole window, and then ends. A loop that
  -- does not end counts as undefined.
  unfoldable pub deliver : ℕ → Net → Outcome Net
  deliver zero s = undefined
  deliver (suc fuel) s =
      let rest = deliver fuel (record s {
        app_buf = s.app_buf ++ s.tcp_buf (s.recv_base % receive_window) ∷ [];
        recv_base = add_64 s.recv_base 1;
      }) in
      if s.ready_seq s.recv_base then rest else ok s

  -- What follows the wait of `do_recv`.
  unfoldable pub do_recv : Net → Outcome Net
  unfolding accept_all deliver send_ack
  do_recv s = do
    t ← deliver (suc receive_window) (accept_all s.pkt_queue (record s { pkt_queue = [] }))
    send_ack t (record { byte = 0; seq = t.recv_base })
