-- ===== src/Tcp/Send.antt =====
-- The methods of the sender keep the invariant.
use mod_cpp.Common.{
  ℕ, ◌+◌, ◌%◌, ◌<◌, ◌≡◌, refl, true, false, update, List, [], ◌∷◌, ◌++◌, arith, ◌∙◌, sym,
}
use mod_cpp.Common.Outcome.{ok, thrown}
use mod_cpp.Tcp.{IpPkt, Net, ip_send, tcp_send, add_64, sub_64, int_ge}
use mod_cpp.Common.Mod.{mod-inj}
use mod_cpp.Tcp.Invariant.{Inv, Fits, All-append, All-map, IsSent, firsts-update}

module _ (ws wr : ℕ) where
  abbrev pub sent_state : Net → ℕ → Net
  sent_state s byte =
      let pkt : IpPkt = record { byte = byte; seq = s.current_seq } in
      record s {
        buf = update s.buf (s.current_seq % ws) pkt;
        pkt_queue = s.pkt_queue ++ pkt ∷ [];
        current_seq = s.current_seq + 1;
        tcp_counter = 0;
      }

  pub sent_state-Inv :
      (s : Net) (sent : ℕ → ℕ) (out : List ℕ) (byte : ℕ)
      → Inv ws wr s sent out
      → s.current_seq < s.send_base + ws
      → Inv ws wr (sent_state s byte) (update sent s.current_seq byte) out
  sent_state-Inv s sent out byte v room = record {
    acked = v.acked;
    received = omega arith;
    window = omega arith;
    packets =
        All-append (IsSent (update sent s.current_seq byte) (s.current_seq + 1)) s.pkt_queue _
          (All-map _ _ s.pkt_queue v.packets (λ p h. ground arith)) (ground arith);
    acks = v.acks;
    kept = λ i h l. ground (arith, v.kept i h, mod-inj ws i s.current_seq);
    ready = λ i h e. ground (arith, v.ready i h);
    delivered = v.delivered ∙ sym (firsts-update sent s.current_seq byte s.recv_base v.received);
  }

  -- In every state that satisfies the invariant, with numbers below 2 ^ 31, `tcp_send` on a connection
  -- puts the packet into the buffer and the queue where the window has room, and throws where it is
  -- full; without a connection it throws.
  pub tcp_send_correct :
      (s : Net) (sent : ℕ → ℕ) (out : List ℕ) (byte : ℕ)
      → Inv ws wr s sent out
      → Fits ws wr s
      → (s.recv_cond ≡ true
          → s.current_seq < s.send_base + ws
          → tcp_send ws s byte ≡ ok (sent_state s byte))
        × (s.recv_cond ≡ true
            → s.current_seq ≡ s.send_base + ws
            → tcp_send ws s byte ≡ thrown "sender buffer is full")
        × (s.recv_cond ≡ false → tcp_send ws s byte ≡ thrown "connection loss")
  unfolding tcp_send ip_send
  tcp_send_correct s sent out byte v f =
      (λ c l. rw c (rw (free l) (rw next refl)), λ c l. rw c (rw (filled l) refl), λ c. rw c refl)
    where
      free : s.current_seq < s.send_base + ws → int_ge (sub_64 s.current_seq s.send_base) ws ≡ false
      free l = ground (arith, v.acked, v.received)

      filled :
          s.current_seq ≡ s.send_base + ws → int_ge (sub_64 s.current_seq s.send_base) ws ≡ true
      filled l = ground (arith, v.acked, v.received)

      next : add_64 s.current_seq 1 ≡ s.current_seq + 1
      next = omega arith
