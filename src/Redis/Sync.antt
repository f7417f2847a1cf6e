-- ===== src/Redis/Sync.antt =====
-- `syncWrite`, `syncRead` and `syncReadLine` of redis/src/redis.c, which wait for a descriptor. `timeout` is
-- in seconds; a result of -1, `ETIMEDOUT` too, is `none`.
use homemade.Prelude.{
  ℕ, zero, suc, ◌+◌, ◌-◌, Bool, true, false, Option, none, some, [], ◌∷◌, ◌++◌, length, drop,
  if◌then◌else◌, ltb, ◌==◌, get_or, take,
}
use homemade.Redis.Object.{Bytes}
use homemade.Net.System.{M, ◌>>=◌, pure, call, out_of_fuel, Streams}
use homemade.Ae.Wait.{is_set, ae_wait}

abbrev left_of : Bytes → Option ℕ → Option Bytes
left_of bytes none = none
left_of bytes (some n) = some (drop n bytes)

module _ {World : Type 0} (io : Streams World) where
  -- The test against the timeout at the end of a round.
  unfoldable pub in_time : {A : Type 0} → Bool → M World (Option A) → M World (Option A)
  in_time true rest = pure none
  in_time false rest = rest

  -- The end of a round, unless its call failed.
  unfoldable pub end_round :
      {A : Type 0} → ℕ → Option Bytes → (Bytes → M World (Option A)) → M World (Option A)
  unfolding in_time
  end_round deadline none rest = pure none
  end_round deadline (some bytes) rest = do
    now ← call io.time
    in_time (ltb deadline now) (rest bytes)

  module _ (fd : ℕ) where
    -- A `write` if the descriptor is ready, and the bytes that it leaves.
    unfoldable pub write_if : Bool → Bytes → M World (Option Bytes)
    write_if true bytes = do nwritten ← call (io.write fd bytes); pure (left_of bytes nwritten)
    write_if false bytes = pure (some bytes)

    -- The loop of `syncWrite` over the bytes that are left, until the clock is past `deadline`
    unfoldable pub sync_write_loop : ℕ → ℕ → ℕ → Bytes → M World (Option ℕ)
    unfolding write_if end_round
    sync_write_loop zero deadline size bytes = out_of_fuel
    sync_write_loop (suc fuel) deadline size [] = pure (some size)
    sync_write_loop (suc fuel) deadline size (x ∷ bytes) = do
      mask ← ae_wait io fd 2 1000
      left ← write_if (is_set mask 2) (x ∷ bytes)
      end_round deadline left (sync_write_loop fuel deadline size)

    -- `syncWrite`; the fuel is enough where each round writes a byte or takes a second
    unfoldable pub sync_write : Bytes → ℕ → M World (Option ℕ)
    unfolding sync_write_loop
    sync_write bytes timeout = do
      start ← call io.time
      sync_write_loop (length bytes + timeout + 4) (start + timeout + 1) (length bytes) bytes

    -- A `read` if the descriptor is ready, or else no bytes.
    unfoldable pub read_if : Bool → ℕ → M World (Option Bytes)
    read_if true size = call (io.read fd size)
    read_if false size = pure (some [])

    -- The loop of `syncRead`, with `size` bytes to come and `buf` read
    unfoldable pub sync_read_loop : ℕ → ℕ → ℕ → Bytes → M World (Option Bytes)
    unfolding read_if end_round
    sync_read_loop zero deadline size buf = out_of_fuel
    sync_read_loop (suc fuel) deadline zero buf = pure (some buf)
    sync_read_loop (suc fuel) deadline (suc size) buf = do
      mask ← ae_wait io fd 1 1000
      chunk ← read_if (is_set mask 1) (suc size)
      end_round deadline chunk
          (λ bytes. sync_read_loop fuel deadline (suc size - length bytes) (buf ++ bytes))

    -- `syncRead`, with the bytes that it leaves at `ptr`; their number is what it returns. At the end of
    -- the input the loop goes on until the time is over, so the fuel is an argument
    unfoldable pub sync_read : ℕ → ℕ → ℕ → M World (Option Bytes)
    unfolding sync_read_loop
    sync_read fuel size timeout = do
      start ← call io.time
      sync_read_loop fuel (start + timeout + 1) size []

    -- A line without the `\r` at its end.
    unfoldable pub without_cr : Bytes → Bytes
    without_cr line =
        if get_or line (length line - 1) 0 == 13 then take (length line - 1) line else line

    unfoldable pub line_step :
        Option Bytes → Bytes → (Bytes → M World (Option (ℕ × Bytes))) → M World (Option (ℕ × Bytes))
    unfolding without_cr
    line_step none line rest = pure none
    line_step (some []) line rest = rest line
    line_step (some (c ∷ _)) line rest =
        if c == 10 then pure (some (length line, without_cr line)) else rest (line ++ c ∷ [])

    unfoldable pub line_loop : ℕ → ℕ → ℕ → Bytes → M World (Option (ℕ × Bytes))
    unfolding line_step
    line_loop fuel timeout zero line = pure (some (length line, line))
    line_loop fuel timeout (suc size) line = do
      r ← sync_read fuel 1 timeout
      line_step r line (line_loop fuel timeout size)

    -- `syncReadLine` into `size` bytes, at least one: the number that it returns, which counts a `\r` at
    -- the end, and the line that it leaves at `ptr`
    unfoldable pub sync_read_line : ℕ → ℕ → ℕ → M World (Option (ℕ × Bytes))
    unfolding line_loop
    sync_read_line fuel size timeout = line_loop fuel timeout (size - 1) []
