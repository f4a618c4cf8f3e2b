-- ===== src/Tcp/Holds/Receiver.antt =====
-- The steps of `do_recv` and `tcp_recv` keep the invariant of a run.
use mathlib.Core.List.{append_assoc}
use mod_cpp.Common.{
  ℕ, suc, ◌^◌, ◌<◌, ◌≡◌, refl, subst, some, List, [], ◌∷◌, ◌++◌, arith, ◌∙◌, sym, ap,
}
use mod_cpp.Common.Outcome.{Outcome, ok, thrown, assert_failed, undefined, ◌>>=◌}
use mod_cpp.Tcp.{IpPkt, Net, send_ack, accept_all, deliver, tcp_recv_from}
use mod_cpp.Tcp.Receive.{acked_to, acked_to-Inv}
use mod_cpp.Tcp.Interleaving.{
  SendPc, HandlerPc, ReceiverPc, receiver_waiting, receiver_acking, receive_step, reply_step,
}
use mod_cpp.Tcp.Receiving.{receive-Inv}
use mod_cpp.Tcp.Steps.{counted, SendInv-other, HandlerInv-other}
use mod_cpp.Tcp.Holds.{Holds, bytes, Windows, fits}

module _ (ws wr : ℕ) (w : Windows ws wr) where
  -- Both loops of `do_recv` came to `m`.
  pub received-Holds :
      (n : ℕ) (s : Net) (m : Outcome Net) (q : Net × ReceiverPc) (p : SendPc) (h : HandlerPc)
      (sent : ℕ → ℕ) (out : List ℕ)
      → n < 2 ^ 31
      → Holds ws wr n s p h sent out
      → deliver wr (suc wr) (accept_all wr s.pkt_queue (record s { pkt_queue = [] })) ≡ m
      → (m >>= λ t. ok (t, receiver_acking)) ≡ ok q
      → Holds ws wr n q.0 p h sent out
  received-Holds n s (ok t) q p h sent out b v d e =
      let came : (t, receiver_acking) ≡ q = cc in
      let (u, i) = receive-Inv ws wr n sent out s t v.inv (fits ws wr w n s b) d in
      subst (λ (r : Net × ReceiverPc). Holds ws wr n r.0 p h sent out) came
        (record {
          inv = i;
          sending = SendInv-other ws wr n s t p u.seq (omega (arith, u.base)) u.buf v.sending;
          handling = HandlerInv-other ws wr s t h u.base (omega (arith, u.seq)) v.handling;
          to_receiver = u.to_receiver ∙ v.to_receiver;
          to_sender = u.to_sender ∙ v.to_sender;
        })
  received-Holds n s (thrown x) q p h sent out b v d e = absurd cc
  received-Holds n s assert_failed q p h sent out b v d e = absurd cc
  received-Holds n s undefined q p h sent out b v d e = absurd cc

  pub receive-Holds :
      (n : ℕ) (s : Net) (q : Net × ReceiverPc) (p : SendPc) (h : HandlerPc) (sent : ℕ → ℕ)
      (out : List ℕ)
      → n < 2 ^ 31
      → Holds ws wr n s p h sent out
      → receive_step wr s ≡ ok q
      → Holds ws wr n q.0 p h sent out
  unfolding receive_step
  receive-Holds n s q p h sent out b v e =
      received-Holds n s
        (deliver wr (suc wr) (accept_all wr s.pkt_queue (record s { pkt_queue = [] }))) q p h sent
        out b v refl e

  pub reply-Holds :
      (n : ℕ) (s : Net) (q : Net × ReceiverPc) (p : SendPc) (h : HandlerPc) (sent : ℕ → ℕ)
      (out : List ℕ)
      → Holds ws wr n s p h sent out
      → reply_step s ≡ ok q
      → Holds ws wr n q.0 p h sent out
  unfolding reply_step send_ack
  reply-Holds n s q p h sent out v e =
      subst (λ (r : Net × ReceiverPc). Holds ws wr n r.0 p h sent out) replied
        (record {
          inv = acked_to-Inv ws wr sent out (counted n s) v.inv;
          sending =
              SendInv-other ws wr n s (acked_to ws wr sent out s) p refl (omega arith) refl
                v.sending;
          handling =
              HandlerInv-other ws wr s (acked_to ws wr sent out s) h refl (omega arith) v.handling;
          to_receiver = v.to_receiver;
          to_sender = v.to_sender;
        })
    where
      replied : (acked_to ws wr sent out s, receiver_waiting) ≡ q
      replied = let f = rw v.to_sender at e in cc

  taken-Holds :
      (n : ℕ) (s : Net) (c : SendPc) (h : HandlerPc) (sent : ℕ → ℕ) (out : List ℕ) (p : IpPkt)
      (rest : List IpPkt)
      → s.app_buf ≡ p ∷ rest
      → Holds ws wr n s c h sent out
      → Holds ws wr n (record s { app_buf = rest }) c h sent (out ++ p.byte ∷ [])
  taken-Holds n s c h sent out p rest e v = record {
    inv = record {
      acked = v.inv.acked;
      received = v.inv.received;
      window = v.inv.window;
      packets = v.inv.packets;
      acks = v.inv.acks;
      kept = v.inv.kept;
      ready = v.inv.ready;
      delivered =
          append_assoc out (p.byte ∷ []) (bytes rest)
          ∙ ap (λ l. out ++ bytes l) (sym e)
          ∙ v.inv.delivered;
    };
    sending =
        SendInv-other ws wr n s (record s { app_buf = rest }) c refl (omega arith) refl v.sending;
    handling =
        HandlerInv-other ws wr s (record s { app_buf = rest }) h refl (omega arith) v.handling;
    to_receiver = v.to_receiver;
    to_sender = v.to_sender;
  }

  pub take-Holds :
      (n : ℕ) (s t : Net) (c : SendPc) (h : HandlerPc) (sent : ℕ → ℕ) (out : List ℕ) (p : IpPkt)
      (l : List IpPkt)
      → s.app_buf ≡ l
      → Holds ws wr n s c h sent out
      → tcp_recv_from s l ≡ (some p, t)
      → Holds ws wr n t c h sent (out ++ p.byte ∷ [])
  unfolding tcp_recv_from
  take-Holds n s t c h sent out p [] e v f = absurd (cc (ap (λ q. q.0) f))
  take-Holds n s t c h sent out p (a ∷ rest) e v f =
      subst (λ u. Holds ws wr n u c h sent (out ++ p.byte ∷ [])) (ap (λ q. q.1) f)
        (subst
          (λ (b : IpPkt). Holds ws wr n (record s { app_buf = rest }) c h sent (out ++ b.byte ∷ []))
          same_packet (taken-Holds n s c h sent out a rest e v))
    where
      same_packet : a ≡ p
      same_packet = cc (ap (λ q. q.0) f)
