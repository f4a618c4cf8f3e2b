-- ===== src/Tcp/Receiving.antt =====
-- Both loops of `do_recv` with the number of packets sent in place of `current_seq`, which they do not read.
use mod_cpp.Common.{
  ℕ, zero, suc, ◌%◌, ◌≡◌, refl, subst, Bool-cases, inl, inr, List, [], ◌∷◌, ◌++◌, arith, ◌∙◌, ap,
}
use mod_cpp.Common.Outcome.{ok}
use mod_cpp.Tcp.{IpPkt, Net, add_64, accept, accept_all, deliver}
use mod_cpp.Tcp.Invariant.{Inv, Fits}
use mod_cpp.Tcp.Receive.{drained, received-Delivered}
use mod_cpp.Tcp.Steps.{counted}

module _ (wr : ℕ) where
  -- The receiver does not touch the sender.
  pub record Untouched (s t : Net) : Type 0 where
    pub seq : t.current_seq ≡ s.current_seq
    pub base : t.send_base ≡ s.send_base
    pub buf : t.buf ≡ s.buf
    pub to_receiver : t.recv_cond ≡ s.recv_cond
    pub to_sender : t.send_cond ≡ s.send_cond

  abbrev advanced : Net → Net
  advanced s = record s {
    app_buf = s.app_buf ++ s.tcp_buf (s.recv_base % wr) ∷ [];
    recv_base = add_64 s.recv_base 1;
  }

  stopped : {s t : Net} → ok s ≡ ok t → s ≡ t
  stopped e = cc

  accept-counted :
      (n : ℕ) (s : Net) (p : IpPkt) → accept wr (counted n s) p ≡ counted n (accept wr s p)
  unfolding accept
  accept-counted n s p = ground arith

  accept_all-counted :
      (n : ℕ) (ps : List IpPkt) (s : Net)
      → accept_all wr ps (counted n s) ≡ counted n (accept_all wr ps s)
  unfolding accept_all
  accept_all-counted n [] s = refl
  accept_all-counted n (p ∷ ps) s =
      ap (accept_all wr ps) (accept-counted n s p) ∙ accept_all-counted n ps (accept wr s p)

  deliver-counted :
      (n fuel : ℕ) (s t : Net)
      → deliver wr fuel s ≡ ok t
      → deliver wr fuel (counted n s) ≡ ok (counted n t)
  unfolding deliver
  deliver-counted n zero s t e = absurd cc
  deliver-counted n (suc fuel) s t e = elim (Bool-cases (s.ready_seq s.recv_base)) [
    | inl more ↦ rw more (deliver-counted n fuel (advanced s) t (rw more at e))
    | inr none_left ↦
        let same : s ≡ t = stopped (rw none_left at e) in
        rw none_left (ap (λ u. ok (counted n u)) same)
  ]

  Untouched-trans : {s t u : Net} → Untouched s t → Untouched t u → Untouched s u
  Untouched-trans a b = record {
    seq = b.seq ∙ a.seq;
    base = b.base ∙ a.base;
    buf = b.buf ∙ a.buf;
    to_receiver = b.to_receiver ∙ a.to_receiver;
    to_sender = b.to_sender ∙ a.to_sender;
  }

  accept-Untouched : (s : Net) (p : IpPkt) → Untouched s (accept wr s p)
  unfolding accept
  accept-Untouched s p = record {
    seq = ground arith;
    base = ground arith;
    buf = ground arith;
    to_receiver = ground arith;
    to_sender = ground arith;
  }

  accept_all-Untouched : (ps : List IpPkt) (s : Net) → Untouched s (accept_all wr ps s)
  unfolding accept_all
  accept_all-Untouched [] s = record {
    seq = refl;
    base = refl;
    buf = refl;
    to_receiver = refl;
    to_sender = refl;
  }
  accept_all-Untouched (p ∷ ps) s =
      Untouched-trans (accept-Untouched s p) (accept_all-Untouched ps (accept wr s p))

  deliver-Untouched : (fuel : ℕ) (s t : Net) → deliver wr fuel s ≡ ok t → Untouched s t
  unfolding deliver
  deliver-Untouched zero s t e = absurd cc
  deliver-Untouched (suc fuel) s t e = elim (Bool-cases (s.ready_seq s.recv_base)) [
    | inl more ↦
        let u = deliver-Untouched fuel (advanced s) t (rw more at e) in
        record {
          seq = u.seq;
          base = u.base;
          buf = u.buf;
          to_receiver = u.to_receiver;
          to_sender = u.to_sender;
        }
    | inr none_left ↦
        let same : s ≡ t = stopped (rw none_left at e) in
        subst (Untouched s) same
          (record { seq = refl; base = refl; buf = refl; to_receiver = refl; to_sender = refl })
  ]

-- Both loops of `do_recv` keep the invariant and leave the sender alone.
pub receive-Inv :
    (ws wr n : ℕ) (sent : ℕ → ℕ) (out : List ℕ) (s t : Net)
    → Inv ws wr (counted n s) sent out
    → Fits ws wr (counted n s)
    → deliver wr (suc wr) (accept_all wr s.pkt_queue (record s { pkt_queue = [] })) ≡ ok t
    → Untouched wr s t × Inv ws wr (counted n t) sent out
receive-Inv ws wr n sent out s t v f e = (untouched, kept)
  where
    start : Net
    start = accept_all wr s.pkt_queue (record s { pkt_queue = [] })

    untouched : Untouched wr s t
    untouched =
        let a = accept_all-Untouched wr s.pkt_queue (record s { pkt_queue = [] }) in
        let b = deliver-Untouched wr (suc wr) start t e in
        record {
          seq = b.seq ∙ a.seq;
          base = b.base ∙ a.base;
          buf = b.buf ∙ a.buf;
          to_receiver = b.to_receiver ∙ a.to_receiver;
          to_sender = b.to_sender ∙ a.to_sender;
        }

    seen : deliver wr (suc wr) (drained ws wr sent out (counted n s)) ≡ ok (counted n t)
    seen =
        ap (deliver wr (suc wr)) (accept_all-counted wr n s.pkt_queue (record s { pkt_queue = [] }))
        ∙ deliver-counted wr n (suc wr) start t e

    kept : Inv ws wr (counted n t) sent out
    kept =
        let (k, (u, g, d)) = received-Delivered ws wr sent out (counted n s) v f in
        let same : u ≡ counted n t = cc (g, seen) in subst (λ x. Inv ws wr x sent out) same d.inv
