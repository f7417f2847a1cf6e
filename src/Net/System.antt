-- ===== src/Net/System.antt =====
-- The system calls of redis/src/anet.c, ae.c and redis.c, on a world that they change: an interface, which
-- the program's functions take as an argument. A computation is `none` where its fuel runs out.
use homemade.Prelude.{ℕ, Option, none, some}
use homemade.Prelude.Int.{ℤ}
use homemade.Redis.Object.{Bytes}
use homemade.Ae.Loop.{Sets}

abbrev pub M : Type 0 → Type 0 → Type 0
M World A = World → Option (A × World)

infixl 5 ◌>>=◌ ◌>>◌
abbrev pub ◌>>=◌ : {World A B : Type 0} → M World A → (A → M World B) → M World B
◌>>=◌ m f w = elim (m w) [ none ↦ none | some (a, w') ↦ f a w' ]

abbrev pub ◌>>◌ : {World A B : Type 0} → M World A → M World B → M World B
m >> k = m >>= λ _. k

abbrev pub pure : {World A : Type 0} → A → M World A
pure a w = some (a, w)

-- A call of the system.
abbrev pub call : {World A : Type 0} → (World → A × World) → M World A
call f w = some (f w)

abbrev pub tell : {World : Type 0} → (World → World) → M World (Unit {0})
tell f w = some (tt, f w)

abbrev pub out_of_fuel : {World A : Type 0} → M World A
out_of_fuel w = none

-- Descriptors that are open. `none` is a result of -1, `read` of no bytes the end of the file.
pub record Streams (World : Type 0) : Type 0 where
  pub time : World → ℕ × World
  pub select : Sets → ℕ → World → (ℤ × Sets) × World
  pub read : ℕ → ℕ → World → Option Bytes × World
  pub write : ℕ → Bytes → World → Option ℕ × World
  pub close : ℕ → World → World
