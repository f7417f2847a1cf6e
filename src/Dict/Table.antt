-- ===== src/Dict/Table.antt =====
-- Creating and growing a table in redis/src/dict.c. `none` is a fault: a failed `assert`, or a loop that
-- is still running when its fuel is spent, or a table that is not allocated.
use homemade.Prelude.{
  ◌&&◌, ℕ, zero, suc, ◌-◌, ◌*◌, ◌%◌, Option, none, some, List, [], ◌∷◌, ltb, leb, ◌==◌,
  if◌then◌else◌, get_or, set, replicate, dec32, ◌>>=◌,
}
use homemade.Dict.Types.{DictType, Status, dict_ok, dict_err, Chain, Dict, initial_size, slot_of}

-- `_dictNextPower`: the loop doubles `i`; 28 rounds lead from 16 to 2 ^ 31.
unfoldable pub next_power_loop : ℕ → ℕ → ℕ → Option ℕ
next_power_loop zero i size = none
next_power_loop (suc fuel) i size =
    let rest = next_power_loop fuel ((i * 2) % 4294967296) size in
    if leb size i then some i else rest

unfoldable pub next_power : ℕ → Option ℕ
next_power size =
    if leb 2147483648 size then some 2147483648 else next_power_loop 28 initial_size size

module _ {K V : Type 0} where
  -- `_dictReset`
  unfoldable pub reset : Dict K V
  reset = record { table = []; size = 0; sizemask = 0; used = 0 }

  -- `dictCreate` with `_dictInit`
  unfoldable pub create : Dict K V
  unfolding reset
  create = reset

module _ {K V : Type 0} (T : DictType K V) where
  -- The inner loop of `dictExpand`: each entry goes to the head of its new slot.
  unfoldable pub move_chain : ℕ → ℕ → Chain K V → List (Chain K V) → ℕ × List (Chain K V)
  move_chain mask used [] fresh = (used, fresh)
  move_chain mask used (e ∷ c) fresh =
      let slot = slot_of T e.key mask in
      move_chain mask (dec32 used) c (set fresh slot (e ∷ get_or fresh slot []))

  -- The outer loop, which stops early once no entry is left.
  unfoldable pub rehash : ℕ → ℕ → List (Chain K V) → List (Chain K V) → ℕ × List (Chain K V)
  rehash mask used [] fresh = (used, fresh)
  rehash mask used (c ∷ cs) fresh =
      let (used', fresh') = move_chain mask used c fresh in
      let rest = rehash mask used' cs fresh' in if ltb 0 used then rest else (used, fresh)

  -- The new table of `dictExpand`, with its `assert(ht->used == 0)`. `_dictAlloc` takes the number of bytes
  -- as an `int`: from 2 ^ 28 slots on it is negative, and the server panics, or 0, and `memset` leaves the
  -- allocated bytes.
  unfoldable pub rebuild : ℕ → Dict K V → Option (Dict K V)
  rebuild realsize ht =
      let (left, table) = rehash (realsize - 1) ht.used ht.table (replicate realsize []) in
      if ltb (realsize * 8) 2147483648 && (left == 0)
      then some (record { table = table; size = realsize; sizemask = realsize - 1; used = ht.used })
      else none

  -- `dictExpand`
  unfoldable pub expand : Dict K V → ℕ → Option (Dict K V × Status)
  expand ht size =
      if ltb size ht.used
      then some (ht, dict_err)
      else do realsize ← next_power size; n ← rebuild realsize ht; some (n, dict_ok)

  -- `dictResize`
  unfoldable pub resize : Dict K V → Option (Dict K V × Status)
  resize ht = expand ht (if ltb ht.used initial_size then initial_size else ht.used)
