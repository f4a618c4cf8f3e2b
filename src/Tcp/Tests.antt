-- ===== src/Tcp/Tests.antt =====
-- Short runs of the two sides, and the theorems at them.
use mod_cpp.Common.{ℕ, ◌+◌, ◌^◌, ◌<◌, ◌≡◌, refl, true, false, update, List, [], ◌∷◌, arith}
use mod_cpp.Common.Outcome.{Outcome, ok, thrown, ◌>>=◌}
use mod_cpp.Tcp.{
  IpPkt, Net, new_net, tcp_connect, tick, tcp_send, handler_fn, handle_timeout, do_recv,
  reset_timer,
}
use mod_cpp.Tcp.Invariant.{Inv, new_net-Inv}
use mod_cpp.Tcp.Send.{tcp_send_correct, sent_state}
use mod_cpp.Tcp.Interleaving.{send_idle, handler_waiting, receiver_waiting, Run}
use mod_cpp.Tcp.Progress.{timeout_resends_nothing}

abbrev no_packet : IpPkt
no_packet = record { byte = 0; seq = 0 }

abbrev start : Net
start = tcp_connect (new_net (λ _. no_packet) (λ _. no_packet))

abbrev nothing : ℕ → ℕ
nothing _ = 0

start-Inv : Inv 4 4 start nothing []
start-Inv =
    let v = new_net-Inv 4 4 (λ _. no_packet) (λ _. no_packet) nothing in
    record {
      acked = v.acked;
      received = v.received;
      window = v.window;
      packets = v.packets;
      acks = v.acks;
      kept = v.kept;
      ready = v.ready;
      delivered = v.delivered;
    }

-- Two bytes are sent, the packet of the first is lost, and five seconds later both arrive.
unfoldable lossy_run : Outcome (List IpPkt × ℕ)
unfolding tcp_send do_recv handler_fn
lossy_run = do
  a ← tcp_send 4 start 7
  b ← tcp_send 4 (record a { pkt_queue = [] }) 8
  c ← do_recv 4 b
  d ← handler_fn 4 (tick (tick (tick (tick (tick (record c { ack_queue = [] }))))))
  e ← do_recv 4 d
  f ← handler_fn 4 e
  ok (f.app_buf, f.send_base)

lossy_run_delivers :
    lossy_run ≡ ok (record { byte = 7; seq = 0 } ∷ record { byte = 8; seq = 1 } ∷ [], 2)
unfolding lossy_run
lossy_run_delivers = refl

-- The fifth byte does not fit into a window of four.
unfoldable overfull : Outcome Net
unfolding tcp_send
overfull = do
  a ← tcp_send 4 start 1
  b ← tcp_send 4 a 2
  c ← tcp_send 4 b 3
  d ← tcp_send 4 c 4
  tcp_send 4 d 5

overfull_throws : overfull ≡ thrown "sender buffer is full"
unfolding overfull
overfull_throws = refl

abbrev one_sent : Net
one_sent = record start {
  pkt_queue = record { byte = 7; seq = 0 } ∷ [];
  buf = update (λ _. no_packet) 0 (record { byte = 7; seq = 0 });
  current_seq = 1;
}

abbrev one_received : Net
one_received = record one_sent {
  pkt_queue = [];
  tcp_buf = update (λ _. no_packet) 0 (record { byte = 7; seq = 0 });
  ready_seq = update (λ _. false) 0 true;
  app_buf = record { byte = 7; seq = 0 } ∷ [];
  recv_base = 1;
  ack_queue = record { byte = 0; seq = 1 } ∷ [];
}

-- The receiver takes the packet before `tcp_send` counts it, and answers after `tcp_send` has returned.
abbrev answered_run : Run
answered_run = record {
  net = one_received;
  sender = send_idle;
  handler = handler_waiting;
  receiver = receiver_waiting;
}

-- The handler takes the acknowledgement, and `tcp_recv` the byte.
abbrev end_of_run : Run
end_of_run = record answered_run {
  net = record one_received { ack_queue = []; send_base = 1; app_buf = [] };
}

tcp_send_correct_example :
    (start.recv_cond ≡ true → 0 < 0 + 4 → tcp_send 4 start 9 ≡ ok (sent_state 4 4 start 9))
    × (start.recv_cond ≡ true → 0 ≡ 0 + 4 → tcp_send 4 start 9 ≡ thrown "sender buffer is full")
    × (start.recv_cond ≡ false → tcp_send 4 start 9 ≡ thrown "connection loss")
tcp_send_correct_example = tcp_send_correct 4 4 start nothing [] 9 start-Inv (omega arith)

-- One byte is sent: its packet waits for the receiver.
abbrev sent_seven : ℕ → ℕ
sent_seven = update nothing 0 7

-- The packet is lost, and the timeout sends the byte again.
abbrev lost : Net
lost = record (sent_state 4 4 start 7) { pkt_queue = [] }

-- After 2 ^ 31 bytes
abbrev late : Net
late = record start { send_base = 2 ^ 31; current_seq = 2 ^ 31 + 3; recv_base = 2 ^ 31 }

timeout_resends_nothing_example : handle_timeout 4 late ≡ ok (reset_timer late)
timeout_resends_nothing_example =
    timeout_resends_nothing 4 late (omega arith) (omega arith) (omega arith)
