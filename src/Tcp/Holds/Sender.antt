-- ===== src/Tcp/Holds/Sender.antt =====
-- The steps of `tcp_send` keep the invariant of a run.
use mod_cpp.Common.{
  ℕ, suc, ◌%◌, ◌^◌, ◌<◌, ◌≡◌, refl, subst, update, List, [], ◌∷◌, ◌++◌, arith, ◌∙◌, sym, ap,
}
use mod_cpp.Common.Outcome.{ok}
use mod_cpp.Tcp.{IpPkt, Net, ip_send}
use mod_cpp.Tcp.Interleaving.{
  SendPc, send_idle, send_checked, send_stored, send_queued, HandlerPc, check_step, store_step,
  queue_step, count_step,
}
use mod_cpp.Tcp.Steps.{HandlerInv-other, check-room, store-Inv, queue-Inv}
use mod_cpp.Tcp.Holds.{Holds, Windows, fits}

module _ (ws wr : ℕ) (w : Windows ws wr) where
  pub call-Holds :
      (n : ℕ) (s : Net) (byte : ℕ) (q : Net × SendPc) (h : HandlerPc) (sent : ℕ → ℕ) (out : List ℕ)
      → n < 2 ^ 31
      → Holds ws wr n s send_idle h sent out
      → check_step ws s byte ≡ ok q
      → Holds ws wr n q.0 q.1 h sent out
  call-Holds n s byte q h sent out b v e =
      let (same, room) =
        check-room ws wr n sent out s byte q v.inv (fits ws wr w n s b) v.to_receiver v.sending e in
      subst (λ (r : Net × SendPc). Holds ws wr n r.0 r.1 h sent out) (sym same)
        (record {
          inv = v.inv;
          sending = (v.sending, room);
          handling = v.handling;
          to_receiver = v.to_receiver;
          to_sender = v.to_sender;
        })

  pub store-Holds :
      (n : ℕ) (s : Net) (byte : ℕ) (h : HandlerPc) (sent : ℕ → ℕ) (out : List ℕ)
      → Holds ws wr n s (send_checked byte) h sent out
      → Holds ws wr n (store_step ws s byte).0 (store_step ws s byte).1 h sent out
  unfolding store_step
  store-Holds n s byte h sent out v = record {
    inv = store-Inv ws wr n sent out s byte v.inv v.sending.0 v.sending.1;
    sending = (v.sending.0, v.sending.1, ground (arith, v.sending.0));
    handling = HandlerInv-other ws wr s (store_step ws s byte).0 h refl (omega arith) v.handling;
    to_receiver = v.to_receiver;
    to_sender = v.to_sender;
  }

  pub queue-Holds :
      (n : ℕ) (s : Net) (q : Net × SendPc) (h : HandlerPc) (sent : ℕ → ℕ) (out : List ℕ)
      → Holds ws wr n s send_stored h sent out
      → queue_step ws s ≡ ok q
      → Holds ws wr (suc n) q.0 q.1 h (update sent n (s.buf (s.current_seq % ws)).byte) out
  unfolding queue_step ip_send
  queue-Holds n s q h sent out v e =
      subst (λ (r : Net × SendPc). Holds ws wr (suc n) r.0 r.1 h (update sent n pkt.byte) out)
        stepped
        (record {
          inv =
              queue-Inv ws wr n sent out s pkt v.inv v.sending.1 here
                (ap (λ (p : IpPkt). p.seq) (sym here) ∙ v.sending.2);
          sending = omega (arith, v.sending.0);
          handling = HandlerInv-other ws wr s queued h refl (omega arith) v.handling;
          to_receiver = v.to_receiver;
          to_sender = v.to_sender;
        })
    where
      pkt : IpPkt
      pkt = s.buf (s.current_seq % ws)

      queued : Net
      queued = record s { pkt_queue = s.pkt_queue ++ pkt ∷ [] }

      here : s.buf (n % ws) ≡ pkt
      here = ap (λ k. s.buf (k % ws)) (sym v.sending.0)

      stepped : (queued, send_queued) ≡ q
      stepped = cc (e, passes_on)
        where
          passes_on : queue_step ws s ≡ ok (queued, send_queued)
          passes_on = rw v.to_receiver refl

  pub count-Holds :
      (n : ℕ) (s : Net) (h : HandlerPc) (sent : ℕ → ℕ) (out : List ℕ)
      → n < 2 ^ 31
      → Holds ws wr n s send_queued h sent out
      → Holds ws wr n (count_step ws s).0 (count_step ws s).1 h sent out
  unfolding count_step
  count-Holds n s h sent out b v = record {
    inv = v.inv;
    sending = ground (arith, v.sending);
    handling =
        HandlerInv-other ws wr s (count_step ws s).0 h refl (ground (arith, v.sending)) v.handling;
    to_receiver = v.to_receiver;
    to_sender = v.to_sender;
  }
