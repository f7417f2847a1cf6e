-- ===== src/Sds/Range.antt =====
-- What `sdsrange` of redis/src/sds.c does to the text of a string.
use homemade.Prelude.{
  ℕ, suc, ◌+◌, ◌-◌, ◌<◌, ◌≡◌, refl, sym, ap, ◌∙◌, false, some, List, [], arith, if◌then◌else◌, ltb,
  leb, ◌==◌, take, drop, min, take_nil, drop_nil, Bool-cases, inl, inr,
}
use homemade.Prelude.Int.{ℤ, pos, negsuc, IsIndex}
use homemade.Sds.Ops.{Sds, range_from, to_offset, sds_range}
use homemade.Sds.Laws.{text, IsSds}
use homemade.Sds.Trim.{cut-IsSds}

-- The bytes from index `a` to index `b`, both of which stop at the last byte.
abbrev pub between : ℕ → ℕ → ℕ → List ℕ → List ℕ
between len a b t =
    if ltb b a
    then []
    else take (suc (min b (len - 1)) - min a (len - 1)) (drop (min a (len - 1)) t)

between_nil : (len a b : ℕ) → between len a b [] ≡ []
between_nil len a b = elim (Bool-cases (ltb b a)) [
  | inl empty ↦ rw empty refl
  | inr full ↦
      let n = suc (min b (len - 1)) - min a (len - 1) in
      rw full (ap (take n) (drop_nil (min a (len - 1))) ∙ take_nil n)
]

clip_lem : (len i : ℕ) → 0 < len → (if leb len i then len - 1 else i) ≡ min i (len - 1)
clip_lem len i h = ground arith

positive : (n : ℕ) → ((n + 1) == 0) ≡ false
positive n = ground arith

width_lem : (a b : ℕ) → (if ltb b a then 0 else (b - a) + 1) ≡ suc b - a
width_lem a b = ground arith

range_from-IsSds :
    (s : Sds) (a b : ℕ)
    → IsSds s
    → 0 < s.len
    → (r : Sds) × (range_from s a b ≡ some r) × IsSds r × (text r ≡ between s.len a b (text s))
unfolding range_from
range_from-IsSds s a b v some_byte = elim (Bool-cases (ltb b a)) [
  | inl empty ↦ rw empty (cut-IsSds s 0 0 v (omega arith))
  | inr full ↦
      let a' = min a (s.len - 1) in
      let b' = min b (s.len - 1) in
      rw
        (
          full,
          positive (b - a),
          clip_lem s.len a some_byte,
          clip_lem s.len b some_byte,
          width_lem a' b',
        )
        (cut-IsSds s a' (suc b' - a') v (omega arith))
]

to_offset-IsIndex : (len : ℕ) (z : ℤ) (k : ℕ) → IsIndex len z k → to_offset z len ≡ k
unfolding to_offset
to_offset-IsIndex len (pos i) k h = sym h
to_offset-IsIndex len (negsuc i) k h = omega (arith, h)

sds_range_offsets :
    (s : Sds) (start end : ℤ)
    → IsSds s
    → (r : Sds) × (sds_range s start end ≡ some r)
      × IsSds r
      × (text r ≡ between s.len (to_offset start s.len) (to_offset end s.len) (text s))
unfolding sds_range
sds_range_offsets s start end v = elim (Bool-cases (s.len == 0)) [
  | inl empty ↦
      let zero_len : s.len ≡ 0 = ground arith in
      let nil : text s ≡ [] = ap (λ n. take n s.buf) zero_len in
      let a = to_offset start s.len in
      let b = to_offset end s.len in
      (s, rw empty refl, v, nil ∙ sym (ap (between s.len a b) nil ∙ between_nil s.len a b))
  | inr full ↦
      rw full (range_from-IsSds s (to_offset start s.len) (to_offset end s.len) v (ground arith))
]

-- On a well-formed string `sdsrange` stays within its bytes and leaves a well-formed string, whose text is
-- the part of the old one from `start` to `end`, both included: a negative index counts from the end, -1
-- being the last byte, and stops at the first byte, an index behind the text is that of its last byte, and
-- where the end is before the start nothing is left.
pub sds_range-IsSds :
    (s : Sds) (start end : ℤ) (a b : ℕ)
    → IsSds s
    → IsIndex s.len start a
    → IsIndex s.len end b
    → (r : Sds) × (sds_range s start end ≡ some r) × IsSds r × (text r ≡ between s.len a b (text s))
sds_range-IsSds s start end a b v from upto =
    rw (← to_offset-IsIndex s.len start a from, ← to_offset-IsIndex s.len end b upto)
      (sds_range_offsets s start end v)
