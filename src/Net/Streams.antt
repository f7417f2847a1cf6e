-- ===== src/Net/Streams.antt =====
-- `anetRead` and `anetWrite` of redis/src/anet.c.
use homemade.Prelude.{
  ℕ, zero, suc, ◌+◌, ◌-◌, Option, none, some, [], ◌++◌, length, drop, if◌then◌else◌, ◌==◌,
}
use homemade.Redis.Object.{Bytes}
use homemade.Net.System.{M, ◌>>=◌, pure, call, out_of_fuel, Streams}

module _ {World : Type 0} (io : Streams World) where
  -- The loop of `anetWrite` over the bytes that are left, with `totlen` of them written; `none` is -1
  unfoldable pub write_loop : ℕ → ℕ → Bytes → ℕ → M World (Option ℕ)
  write_loop zero fd bytes totlen = out_of_fuel
  write_loop (suc fuel) fd bytes totlen = if length bytes == 0 then pure (some totlen) else (do
    nwritten ← call (io.write fd bytes)
    elim nwritten [
      | none ↦ pure none
      | some n ↦
          if n == 0 then pure (some totlen) else write_loop fuel fd (drop n bytes) (totlen + n)
    ])

  -- `anetWrite`
  unfoldable pub anet_write : ℕ → Bytes → M World (Option ℕ)
  anet_write fd bytes = write_loop (suc (length bytes)) fd bytes 0

  -- The loop of `anetRead`, with `buf` what was read; `none` is -1
  unfoldable pub read_loop : ℕ → ℕ → ℕ → Bytes → M World (Option Bytes)
  read_loop zero fd left buf = out_of_fuel
  read_loop (suc fuel) fd left buf = if left == 0 then pure (some buf) else (do
    nread ← call (io.read fd left)
    elim nread [
      | none ↦ pure none
      | some chunk ↦
          if length chunk == 0
          then pure (some buf)
          else read_loop fuel fd (left - length chunk) (buf ++ chunk)
    ])

  -- `anetRead`, with the bytes that it leaves in `buf`; their number is what it returns
  unfoldable pub anet_read : ℕ → ℕ → M World (Option Bytes)
  anet_read fd count = read_loop (suc count) fd count []
