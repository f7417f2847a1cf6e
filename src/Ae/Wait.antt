-- ===== src/Ae/Wait.antt =====
-- `aeWait` of redis/src/ae.c.
use homemade.Prelude.{ℕ, ◌+◌, Bool, not, List, [], ◌∷◌, if◌then◌else◌}
use homemade.Prelude.Int.{ℤ, pos, negsuc, ltb_ℤ}
use homemade.Ae.Loop.{has_bit, fd_isset, Sets}
use homemade.Net.System.{M, ◌>>=◌, pure, call, Streams}

-- `mask & bit` of an `int`, whose bits below zero are the complement's
abbrev pub is_set : ℤ → ℕ → Bool
is_set (pos mask) bit = has_bit mask bit
is_set (negsuc mask) bit = not (has_bit mask bit)

abbrev with_fd : Bool → ℕ → List ℕ
with_fd b fd = if b then fd ∷ [] else []

-- The sets that `aeWait` waits for, by `AE_READABLE`, `AE_WRITABLE` and `AE_EXCEPTION`.
abbrev pub wait_sets : ℕ → ℕ → Sets
wait_sets fd mask = record {
  rfds = with_fd (has_bit mask 1) fd;
  wfds = with_fd (has_bit mask 2) fd;
  efds = with_fd (has_bit mask 4) fd;
}

abbrev bit_of : ℕ → List ℕ → ℕ → ℕ
bit_of fd fds bit = if fd_isset fd fds then bit else 0

-- What is ready of the descriptor.
unfoldable pub remask : ℕ → Sets → ℕ
remask fd s = bit_of fd s.rfds 1 + bit_of fd s.wfds 2 + bit_of fd s.efds 4

-- What `aeWait` makes of what `select` returned.
unfoldable pub wait_result : ℕ → ℤ × Sets → ℤ
unfolding remask
wait_result fd (retval, sets) = if ltb_ℤ (pos 0) retval then pos (remask fd sets) else retval

-- `aeWait`; a negative result is an error, 0 that the time is over
unfoldable pub ae_wait : {World : Type 0} → Streams World → ℕ → ℕ → ℕ → M World ℤ
unfolding wait_result
ae_wait io fd mask milliseconds = do
  r ← call (io.select (wait_sets fd mask) milliseconds)
  pure (wait_result fd r)
