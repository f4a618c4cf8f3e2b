-- ===== src/Tcp/Progress.antt =====
-- A timeout makes up for everything that was lost.
use mod_cpp.Common.{ℕ, ◌-◌, ◌^◌, ◌≤◌, ◌<◌, ◌≡◌, refl, arith}
use mod_cpp.Common.Outcome.{ok, ◌>>=◌}
use mod_cpp.Tcp.{Net, handle_timeout, resend, reset_timer, through_int}

-- Where the unacknowledged bytes start between 2 ^ 31 and 2 ^ 32, a timeout resends nothing: the loop
-- counter is an int that starts negative, which compares as a number above every sequence number.
pub timeout_resends_nothing :
    (ws : ℕ) (s : Net)
    → 2 ^ 31 ≤ s.send_base
    → s.send_base < 2 ^ 32
    → s.current_seq < 2 ^ 63
    → handle_timeout ws s ≡ ok (reset_timer s)
unfolding handle_timeout resend
timeout_resends_nothing ws s a b c = rw none_left refl
  where
    none_left : s.current_seq - through_int s.send_base ≡ 0
    none_left = ground arith
