-- ===== src/Tcp/Invariant.antt =====
-- The invariant of the two windows. `sent i` is the byte of the i-th `tcp_send`, and `out` is what
-- `tcp_recv` has returned.
use mod_cpp.Common.{
  ℕ, zero, suc, ◌+◌, ◌%◌, ◌^◌, ◌≤◌, ◌<◌, ◌≡◌, refl, Bool, true, false, not, String, update, List,
  [], ◌∷◌, ◌++◌, map, arith,
}
use mod_cpp.Common.Outcome.{Outcome, ◌>>◌, throw_if}
use mod_cpp.Tcp.{IpPkt, Net, new_net}

abbrev pub All {ℓ} : {A : Type ℓ} → (A → Type 0) → List A → Type 0
All P [] = Unit
All P (x ∷ xs) = P x × All P xs

pub All-append {ℓ} :
    {A : Type ℓ} (P : A → Type 0) (xs : List A) (x : A) → All P xs → P x → All P (xs ++ x ∷ [])
All-append P [] x h e = (e, tt)
All-append P (y ∷ ys) x h e = (h.0, All-append P ys x h.1 e)

pub All-map {ℓ} :
    {A : Type ℓ} (P Q : A → Type 0) (xs : List A) → All P xs → ((x : A) → P x → Q x) → All Q xs
All-map P Q [] h f = tt
All-map P Q (y ∷ ys) h f = (f y h.0, All-map P Q ys h.1 f)

-- The first `n` bytes that were sent.
unfoldable pub firsts : (ℕ → ℕ) → ℕ → List ℕ
firsts sent zero = []
firsts sent (suc n) = firsts sent n ++ sent n ∷ []

-- The packet is that of one of the first `n` bytes.
abbrev pub IsSent : (ℕ → ℕ) → ℕ → IpPkt → Type 0
IsSent sent n p = (p.seq < n) × (p.byte ≡ sent p.seq)

abbrev pub Acks : ℕ → IpPkt → Type 0
Acks n p = p.seq ≤ n

abbrev pub packet : (ℕ → ℕ) → ℕ → IpPkt
packet sent i = record { byte = sent i; seq = i }

-- `ws` and `wr` are the windows.
pub record Inv (ws wr : ℕ) (s : Net) (sent : ℕ → ℕ) (out : List ℕ) : Type 0 where
  pub acked : s.send_base ≤ s.recv_base
  pub received : s.recv_base ≤ s.current_seq
  pub window : s.current_seq ≤ s.send_base + ws
  pub packets : All (IsSent sent s.current_seq) s.pkt_queue
  pub acks : All (Acks s.recv_base) s.ack_queue
  pub kept : (i : ℕ) → s.send_base ≤ i → i < s.current_seq → s.buf (i % ws) ≡ packet sent i
  pub ready :
      (i : ℕ)
      → s.recv_base ≤ i
      → s.ready_seq i ≡ true
      → (i < s.current_seq) × (i < s.recv_base + wr) × (s.tcp_buf (i % wr) ≡ packet sent i)
  pub delivered : out ++ map (λ (p : IpPkt). p.byte) s.app_buf ≡ firsts sent s.recv_base

-- The numbers stay where neither `int` nor `uint64_t` overflows.
abbrev pub Fits : ℕ → ℕ → Net → Type 0
Fits ws wr s = (s.current_seq < 2 ^ 31) × (ws < 2 ^ 31) × (wr < 2 ^ 31) × (0 < ws) × (0 < wr)

pub new_net-Inv : (ws wr : ℕ) (t b : ℕ → IpPkt) (sent : ℕ → ℕ) → Inv ws wr (new_net t b) sent []
unfolding firsts
new_net-Inv ws wr t b sent = record {
  acked = omega arith;
  received = omega arith;
  window = omega arith;
  packets = tt;
  acks = tt;
  kept = λ i h l. absurd (omega arith);
  ready = λ i h e. ground arith;
  delivered = refl;
}

pub firsts-update : (sent : ℕ → ℕ) (c b n : ℕ) → n ≤ c → firsts (update sent c b) n ≡ firsts sent n
unfolding firsts
firsts-update sent c b zero h = refl
firsts-update sent c b (suc n) h = ground (arith, firsts-update sent c b n)

-- A guard that is met.
pub passes :
    {A : Type 0} (b : Bool) (e : String) (m : Outcome A) → b ≡ true → (throw_if (not b) e >> m) ≡ m
passes true e m h = refl
passes false e m h = absurd (cc)
