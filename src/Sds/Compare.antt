-- ===== src/Sds/Compare.antt =====
-- `sdscmp` of redis/src/sds.c. `memcmp` is a parameter, on two sequences of as many bytes as it is given.
use homemade.Prelude.{
  ℕ, zero, suc, ◌≡◌, ◌↔◌, refl, sym, ap, ◌∙◌, List, arith, length, if◌then◌else◌, ltb, false, take,
  length-take,
}
use homemade.Prelude.Int.{ℤ, pos, negsuc, pos_part, neg_part, sub_ℕ}
use homemade.Sds.Ops.{Sds}
use homemade.Sds.Laws.{IsSds, text}

-- `cmp == 0 ? l1 - l2 : cmp`
unfoldable pub or_length : ℤ → ℕ → ℕ → ℤ
or_length (pos zero) l1 l2 = sub_ℕ l1 l2
or_length (pos (suc n)) l1 l2 = pos (suc n)
or_length (negsuc n) l1 l2 = negsuc n

or_length-zero : (cmp : ℤ) (l1 l2 : ℕ) → or_length cmp l1 l2 ≡ pos 0 → (cmp ≡ pos 0) × (l1 ≡ l2)
unfolding or_length
or_length-zero (pos zero) l1 l2 h = (refl, ground (arith, h))
or_length-zero (pos (suc n)) l1 l2 h = absurd (omega (arith, ap pos_part h))
or_length-zero (negsuc n) l1 l2 h = absurd (omega (arith, ap neg_part h))

length-text : (s : Sds) → IsSds s → length (text s) ≡ s.len
length-text s v = length-take s.len s.buf ∙ omega (arith, v.allocated)

module _ (memcmp : List ℕ → List ℕ → ℤ) where
  -- `sdscmp`; the lengths differ by less than 2 ^ 31
  unfoldable pub sds_cmp : Sds → Sds → ℤ
  sds_cmp s1 s2 =
      let minlen = if ltb s1.len s2.len then s1.len else s2.len in
      or_length (memcmp (take minlen s1.buf) (take minlen s2.buf)) s1.len s2.len

  sds_cmp_same :
      (s t : Sds) → s.len ≡ t.len → sds_cmp s t ≡ or_length (memcmp (text s) (text t)) s.len t.len
  unfolding sds_cmp
  sds_cmp_same s t h = let never : ltb s.len t.len ≡ false = ground (arith, h) in rw (never, h) refl

  module _
      (memcmp_law : (a b : List ℕ) → length a ≡ length b → (memcmp a b ≡ pos 0) ↔ (a ≡ b)) where
    -- For a `memcmp` that gives 0 exactly for equal sequences of one length, `sdscmp` of two strings gives 0
    -- exactly where their texts are equal.
    pub sds_cmp_iff : (s t : Sds) → IsSds s → IsSds t → (sds_cmp s t ≡ pos 0) ↔ (text s ≡ text t)
    unfolding sds_cmp or_length
    sds_cmp_iff s t vs vt = (equal, zero_for)
      where
        equal : sds_cmp s t ≡ pos 0 → text s ≡ text t
        equal h =
            let r = or_length-zero _ s.len t.len h in
            let h' = sym (sds_cmp_same s t r.1) ∙ h in
            let z = (or_length-zero _ s.len t.len h').0 in
            (memcmp_law (text s) (text t) (length-text s vs ∙ r.1 ∙ sym (length-text t vt))).0 z

        zero_for : text s ≡ text t → sds_cmp s t ≡ pos 0
        zero_for h =
            let same = sym (length-text s vs) ∙ ap length h ∙ length-text t vt in
            let z = (memcmp_law (text s) (text t) (ap length h)).1 h in
            let none_left : sub_ℕ s.len t.len ≡ pos 0 = ground (arith, same) in
            sds_cmp_same s t same ∙ ap (λ c. or_length c s.len t.len) z ∙ none_left
