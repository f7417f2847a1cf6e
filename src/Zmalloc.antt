-- ===== src/Zmalloc.antt =====
-- redis/src/zmalloc.c: allocation with a count of the used memory. Each block has its size in the word in
-- front of it. `malloc` and `realloc` are the C library's: the address that they return is an argument.
mod Tests
use homemade.Prelude.{
  ℕ, zero, suc, ◌+◌, ◌-◌, ◌*◌, ◌%◌, ◌≤◌, ◌<◌, ◌≡◌, ◌≢◌, refl, sym, ap, ◌∙◌, Option-cases, Bool,
  true, false, ◌||◌, Option, none, some, List, [], ◌∷◌, ◌++◌, arith, ◌==◌, if◌then◌else◌,
  Bool-cases, inl, inr,
}

abbrev word : ℕ
word = 18446744073709551616

-- The blocks that are live, by their address, with the size in front, and `used_memory`.
pub record Memory : Type 0 where
  pub blocks : List (ℕ × ℕ)
  pub used_memory : ℕ

-- The size in front of a block; `none` is a read through a pointer that is not one.
unfoldable pub size_at : ℕ → List (ℕ × ℕ) → Option ℕ
size_at p [] = none
size_at p ((a, size) ∷ bs) = if a == p then some size else size_at p bs

unfoldable pub without : ℕ → List (ℕ × ℕ) → List (ℕ × ℕ)
without p [] = []
without p ((a, size) ∷ bs) = if a == p then bs else (a, size) ∷ without p bs

-- `zmalloc`; it writes through what `malloc` returns before any test, so NULL is a fault
unfoldable pub zmalloc : ℕ → ℕ → Memory → Option (ℕ × Memory)
zmalloc fresh size m =
    if fresh == 0
    then none
    else some (
      fresh,
      record {
        blocks = (fresh, size) ∷ m.blocks;
        used_memory = (m.used_memory + (size + 8) % word) % word;
      },
    )

-- `zrealloc` of a block that it found, of `oldsize` bytes
unfoldable pub zrealloc_found : ℕ → ℕ → ℕ → ℕ → Memory → Option (ℕ × Memory)
unfolding without
zrealloc_found fresh p oldsize size m =
    if fresh == 0
    then some (0, m)
    else some (
      fresh,
      record {
        blocks = (fresh, size) ∷ without p m.blocks;
        used_memory = ((m.used_memory + (word - oldsize % word)) % word + size % word) % word;
      },
    )

-- `zrealloc`; the result 0 is NULL
unfoldable pub zrealloc : ℕ → ℕ → ℕ → Memory → Option (ℕ × Memory)
unfolding zmalloc zrealloc_found size_at
zrealloc fresh p size m = if p == 0 then zmalloc fresh size m else elim (size_at p m.blocks) [
  | none ↦ none
  | some oldsize ↦ zrealloc_found fresh p oldsize size m
]

-- `zfree`
unfoldable pub zfree : ℕ → Memory → Option Memory
unfolding size_at without
zfree p m = if p == 0 then some m else elim (size_at p m.blocks) [
  | none ↦ none
  | some oldsize ↦ some (record {
    blocks = without p m.blocks;
    used_memory = (m.used_memory + (word - (oldsize + 8) % word)) % word;
  })
]

-- What the live blocks take: each its size and the word in front.
abbrev pub total : List (ℕ × ℕ) → ℕ
total [] = 0
total ((a, size) ∷ bs) = (size + 8) + total bs

-- The counter is what the live blocks take, in a word.
abbrev pub IsCounted : Memory → Type 0
IsCounted m = m.used_memory ≡ total m.blocks % word

total-without :
    (p size : ℕ) (bs : List (ℕ × ℕ))
    → size_at p bs ≡ some size
    → total bs ≡ (size + 8) + total (without p bs)
unfolding size_at without
total-without p size [] h = cc
total-without p size ((a, s) ∷ bs) h = elim (Bool-cases (a == p)) [
  | inl here ↦
      let e : some s ≡ some size = rw here at h in
      rw here (let e' : s ≡ size = cc in omega (arith, e'))
  | inr other ↦ let e = rw other at h in rw other (omega (arith, total-without p size bs e))
]

-- An operation of the program on its memory.
pub data Step (m n : Memory) : Type 0 where
  malloc_step : (fresh size p : ℕ) → zmalloc fresh size m ≡ some (p, n) → Step m n
  realloc_step : (fresh p size q : ℕ) → zrealloc fresh p size m ≡ some (q, n) → Step m n
  free_step : (p : ℕ) → zfree p m ≡ some n → Step m n

pub data Reach (m : Memory) : Memory → Type 0 where
  here : Reach m m
  next : {n k : Memory} → Reach m n → Step n k → Reach m k

memory_of : Memory → Option (ℕ × Memory) → Memory
memory_of d none = d
memory_of d (some (p, m)) = m

zmalloc-IsCounted :
    (fresh size p : ℕ) (m n : Memory)
    → zmalloc fresh size m ≡ some (p, n)
    → IsCounted m
    → IsCounted n
unfolding zmalloc memory_of
zmalloc-IsCounted fresh size p m n run c = elim (Bool-cases (fresh == 0)) [
  | inl null ↦ absurd (let r = rw null at run in cc)
  | inr given ↦ let e = ap (memory_of m) (rw given at run) in rw (sym e) (omega (arith, c))
]

zrealloc_found-IsCounted :
    (fresh p oldsize size q : ℕ) (m n : Memory)
    → size_at p m.blocks ≡ some oldsize
    → zrealloc_found fresh p oldsize size m ≡ some (q, n)
    → IsCounted m
    → IsCounted n
unfolding zrealloc_found memory_of
zrealloc_found-IsCounted fresh p oldsize size q m n found run c = elim (Bool-cases (fresh == 0)) [
  | inl null ↦ let e = ap (memory_of m) (rw null at run) in rw (sym e) c
  | inr given ↦
      let e = ap (memory_of m) (rw given at run) in
      rw (sym e) (omega (arith, c, total-without p oldsize m.blocks found))
]

zrealloc-IsCounted :
    (fresh p size q : ℕ) (m n : Memory)
    → zrealloc fresh p size m ≡ some (q, n)
    → IsCounted m
    → IsCounted n
unfolding zrealloc
zrealloc-IsCounted fresh p size q m n run c = elim (Bool-cases (p == 0)) [
  | inl null ↦ zmalloc-IsCounted fresh size q m n (rw null at run) c
  | inr block ↦ elim (Option-cases (size_at p m.blocks)) [
    | inl lost ↦ absurd (let r = rw (block, lost) at run in cc)
    | inr (oldsize, found) ↦
        zrealloc_found-IsCounted fresh p oldsize size q m n found (rw (block, found) at run) c
  ]
]

block_of : Memory → Option Memory → Memory
block_of d none = d
block_of d (some m) = m

zfree-IsCounted : (p : ℕ) (m n : Memory) → zfree p m ≡ some n → IsCounted m → IsCounted n
unfolding zfree block_of
zfree-IsCounted p m n run c = elim (Bool-cases (p == 0)) [
  | inl null ↦ let e = ap (block_of m) (rw null at run) in rw (sym e) c
  | inr block ↦ elim (Option-cases (size_at p m.blocks)) [
    | inl lost ↦ absurd (let r = rw (block, lost) at run in cc)
    | inr (oldsize, found) ↦
        let e = ap (block_of m) (rw (block, found) at run) in
        rw (sym e) (omega (arith, c, total-without p oldsize m.blocks found))
  ]
]

-- After any calls of `zmalloc`, `zrealloc` and `zfree`, from a memory whose counter is right, the counter
-- is what the live blocks take with the word in front of each, modulo 2 ^ 64.
pub Reach-IsCounted : {m n : Memory} → IsCounted m → Reach m n → IsCounted n
Reach-IsCounted c here = c
Reach-IsCounted c (next r (malloc_step fresh size p run)) =
    zmalloc-IsCounted fresh size p _ _ run (Reach-IsCounted c r)
Reach-IsCounted c (next r (realloc_step fresh p size q run)) =
    zrealloc-IsCounted fresh p size q _ _ run (Reach-IsCounted c r)
Reach-IsCounted c (next r (free_step p run)) = zfree-IsCounted p _ _ run (Reach-IsCounted c r)
