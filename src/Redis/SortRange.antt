-- ===== src/Redis/SortRange.antt =====
-- The range that LIMIT leaves in `sortCommand` of redis/src/redis.c.
use homemade.Prelude.{
  ℕ, zero, suc, ◌+◌, ◌-◌, ◌≤◌, ◌<◌, ◌≡◌, refl, true, false, arith, min, leb, if◌then◌else◌,
  Bool-cases, inl, inr,
}
use homemade.Prelude.Int.{ℤ, pos, negsuc, pos_part, neg_part, sub_ℕ, ◌+ℤ◌, ◌-ℤ◌, ltb_ℤ}
use homemade.Redis.SortSyntax.{limit_range, clip_range, range_end}

-- The number of elements from `start` on that LIMIT asks for.
abbrev pub asked : ℤ → ℕ → ℕ
asked (pos count) rest = min count rest
asked (negsuc count) rest = rest

-- The first index and the number of elements of a range.
abbrev pub rounds_of : ℤ × ℤ → ℕ
rounds_of r = pos_part (r.1 -ℤ r.0 +ℤ pos 1)

asked-zero : (limit_count : ℤ) → asked limit_count 0 ≡ 0
asked-zero (pos count) = omega arith
asked-zero (negsuc count) = refl

-- A range that stays within a vector of `n` elements and has `count` of them, from `start` on.
pub record Covers (start count n : ℕ) (r : ℤ × ℤ) : Type 0 where
  pub rounds : rounds_of r ≡ count
  pub positive : neg_part (r.1 -ℤ r.0 +ℤ pos 1) ≡ 0
  pub within : pos_part r.0 + count ≤ n
  pub first : 0 < count → pos_part r.0 ≡ start

-- From one index to another, or to the one before it.
upto-Covers : (s c n : ℕ) → s + c ≤ n → Covers s c n (pos s, sub_ℕ (s + c) 1)
upto-Covers zero zero n h = record {
  rounds = refl;
  positive = refl;
  within = omega arith;
  first = λ p. refl;
}
upto-Covers zero (suc c) n h = record {
  rounds = ground arith;
  positive = ground arith;
  within = omega arith;
  first = λ p. refl;
}
upto-Covers (suc s) c n h = record {
  rounds = ground arith;
  positive = ground arith;
  within = omega arith;
  first = λ p. refl;
}

nothing-Covers : (s n : ℕ) → Covers s 0 n (sub_ℕ n 1, sub_ℕ n 2)
nothing-Covers s zero = record {
  rounds = refl;
  positive = refl;
  within = omega arith;
  first = λ p. absurd (omega arith);
}
nothing-Covers s (suc zero) = record {
  rounds = refl;
  positive = refl;
  within = omega arith;
  first = λ p. absurd (omega arith);
}
nothing-Covers s (suc (suc n)) = record {
  rounds = ground arith;
  positive = ground arith;
  within = ground arith;
  first = λ p. absurd (omega arith);
}

below : (m n : ℕ) → m ≤ n → 0 < n → ltb_ℤ (sub_ℕ m 1) (pos n) ≡ true
below zero n h k = ground arith
below (suc m) n h k = ground arith

above : (m n : ℕ) → n < m → ltb_ℤ (sub_ℕ m 1) (pos n) ≡ false
above zero n h = absurd (omega arith)
above (suc m) n h = ground arith

-- An end that is clipped to the length of the vector.
clipped_end :
    (s n count : ℕ)
    → s < n
    → (if ltb_ℤ (sub_ℕ (s + count) 1) (pos n) then sub_ℕ (s + count) 1 else sub_ℕ n 1)
      ≡ sub_ℕ (s + min count (n - s)) 1
clipped_end s n count h = elim (Bool-cases (leb (s + count) n)) [
  | inl short ↦
      let low : s + count ≤ n = ground (arith, short) in
      let c : min count (n - s) ≡ count = omega (arith, low) in
      rw (below (s + count) n low (omega arith), c) refl
  | inr long ↦
      let high : n < s + count = ground (arith, long) in
      let m : s + min count (n - s) ≡ n = omega (arith, high) in
      rw (above (s + count) n high, m) refl
]

-- Behind the length of the vector the range is empty; before it, it is clipped.
clip_range-Covers :
    (s n : ℕ) (limit_count : ℤ)
    → Covers s (asked limit_count (n - s)) n (clip_range s (range_end s limit_count n) n)
unfolding clip_range range_end
clip_range-Covers s n limit_count = elim (Bool-cases (leb n s)) [
  | inl past ↦
      let rest : n - s ≡ 0 = ground (arith, past) in
      let none_left : asked limit_count 0 ≡ 0 = asked-zero limit_count in
      let below : ltb_ℤ (sub_ℕ n 2) (pos n) ≡ true = ground arith in
      rw (past, rest, none_left, below) (nothing-Covers s n)
  | inr before ↦ rw before (clipped limit_count (ground (arith, before)))
]
  where
    clipped :
        (count : ℤ)
        → s < n
        → Covers s
            (asked count (n - s))
            n
            (pos s, if ltb_ℤ (range_end s count n) (pos n) then range_end s count n else sub_ℕ n 1)
    clipped (pos count) h =
        rw (clipped_end s n count h) (upto-Covers s (min count (n - s)) n (omega arith))
    clipped (negsuc count) h =
        let m : s + (n - s) ≡ n = omega arith in
        rw (below n n (omega arith) (omega arith)) (rw m at (upto-Covers s (n - s) n (omega arith)))

-- For any LIMIT and any length of the vector, the range that SORT replies stays within the vector, from
-- the first index that LIMIT asks for, a negative one as 0, and has as many elements as LIMIT asks for and
-- the vector has from there on; a negative count asks for all of them. Its length is never negative.
pub limit_range-Covers :
    (limit_start limit_count : ℤ) (n : ℕ)
    → Covers
        (pos_part limit_start)
        (asked limit_count (n - pos_part limit_start))
        n
        (limit_range limit_start limit_count n)
unfolding limit_range
limit_range-Covers limit_start limit_count n =
    clip_range-Covers (pos_part limit_start) n limit_count
