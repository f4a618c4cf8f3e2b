-- ===== src/Tcp/Delivery.antt =====
-- All runs of a connected sender and receiver.
use mod_cpp.Common.{ℕ, List}
use mod_cpp.Tcp.Interleaving.{Run}
use mod_cpp.Tcp.Holds.{Holds, Windows}

module _ (ws wr : ℕ) (w : Windows ws wr) where
  abbrev RunHolds : ℕ → Run → (ℕ → ℕ) → List ℕ → Type 0
  RunHolds n r sent out = Holds ws wr n r.net r.sender r.handler sent out
