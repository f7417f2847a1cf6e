-- ===== src/Sds/SplitLaws.antt =====
-- What `sdssplitlen` of redis/src/sds.c returns.
use homemade.Prelude.{
  ℕ, zero, suc, ◌+◌, ◌-◌, ◌≤◌, ◌<◌, ◌≡◌, refl, sym, ap, ◌∙◌, true, false, List, [], ◌∷◌, ◌++◌,
  arith, length, if◌then◌else◌, leb, ◌==◌, ==_iff, take, drop, Bool-cases, inl, inr, append_assoc,
  append-nil, take-append-drop, length-drop, drop_nil, drop-drop, List-cases,
}
use homemade.Sds.Split.{starts_with, slice, split_loop, sds_splitlen}

-- The tokens with the separator between two.
abbrev pub join : List ℕ → List (List ℕ) → List ℕ
join sep [] = []
join sep (t ∷ []) = t
join sep (t ∷ u ∷ ts) = t ++ sep ++ join sep (u ∷ ts)

-- The pieces of a string between the occurrences of a byte, by recursion on the string.
abbrev pub prepend : List ℕ → List (List ℕ) → List (List ℕ)
prepend p [] = p ∷ []
prepend p (t ∷ ts) = (p ++ t) ∷ ts

abbrev pub pieces : ℕ → List ℕ → List (List ℕ)
pieces c [] = [] ∷ []
pieces c (x ∷ s) = let rest = pieces c s in if x == c then [] ∷ rest else prepend (x ∷ []) rest

starts_with-append : (sep s : List ℕ) → starts_with sep s ≡ true → s ≡ sep ++ drop (length sep) s
unfolding starts_with
starts_with-append [] s h = refl
starts_with-append (c ∷ sep) [] h = cc
starts_with-append (c ∷ sep) (x ∷ s) h =
    let e : x ≡ c = (==_iff x c).0 (ground (arith, h)) in
    rw e (ap (λ t. c ∷ t) (starts_with-append sep s (ground (arith, h))))

slice-drop : (s : List ℕ) (start i : ℕ) → start ≤ i → slice s start i ++ drop i s ≡ drop start s
slice-drop s start i h =
    let e : start + (i - start) ≡ i = omega arith in
    ap (λ d. slice s start i ++ d) (sym (rw e at (drop-drop (i - start) start s)))
    ∙ take-append-drop (i - start) (drop start s)

split_loop-join :
    (fuel : ℕ) (s sep : List ℕ) (i start : ℕ)
    → start ≤ i
    → (t : List ℕ) × (ts : List (List ℕ)) × (split_loop fuel s sep i start ≡ t ∷ ts)
      × (join sep (t ∷ ts) ≡ drop start s)
unfolding split_loop
split_loop-join zero s sep i start h = (drop start s, [], refl, refl)
split_loop-join (suc fuel) s sep i start h =
    let (u, us, cut, whole) =
      split_loop-join fuel s sep (i + length sep) (i + length sep) (omega arith) in
    elim (Bool-cases (leb (i + length sep) (length s))) [
      | inr end ↦ (drop start s, [], rw end refl, refl)
      | inl more ↦ elim (Bool-cases (starts_with sep (drop i s))) [
        | inr other ↦
            let (t, ts, run, joined) = split_loop-join fuel s sep (i + 1) start (omega arith) in
            (t, ts, rw (more, other) run, joined)
        | inl here ↦ (
          slice s start i,
          u ∷ us,
          rw (more, here, cut) refl,
          ap (λ j. slice s start i ++ sep ++ j) (whole ∙ sym (drop-drop (length sep) i s))
              ∙ append_assoc (slice s start i) sep (drop (length sep) (drop i s))
              ∙ ap (λ d. slice s start i ++ d) (sym (starts_with-append sep (drop i s) here))
              ∙ slice-drop s start i h,
        )
      ]
    ]

-- `sdssplitlen` with any separator loses nothing: the tokens, with the separator between two, are the
-- string.
pub sds_splitlen-join : (s sep : List ℕ) → join sep (sds_splitlen s sep) ≡ s
unfolding sds_splitlen
sds_splitlen-join s sep =
    let (t, ts, run, joined) = split_loop-join (length s + 1) s sep 0 0 (omega arith) in
    rw run joined

prepend-append :
    (p q : List ℕ) (ts : List (List ℕ)) → prepend p (prepend q ts) ≡ prepend (p ++ q) ts
prepend-append p q [] = refl
prepend-append p q (t ∷ ts) = ap (λ u. u ∷ ts) (sym (append_assoc p q t))

prepend_nil-pieces : (c : ℕ) (s : List ℕ) → prepend [] (pieces c s) ≡ pieces c s
prepend_nil-pieces c [] = refl
prepend_nil-pieces c (x ∷ s) = elim (Bool-cases (x == c)) [
  | inl hit ↦ rw hit refl
  | inr miss ↦ rw miss (prepend-append [] (x ∷ []) (pieces c s))
]

drop-suc : (i : ℕ) (s : List ℕ) (x : ℕ) (r : List ℕ) → drop i s ≡ x ∷ r → drop (i + 1) s ≡ r
drop-suc i s x r h = sym (drop-drop 1 i s) ∙ ap (drop 1) h

take-suc :
    (n : ℕ) (ys : List ℕ) (x : ℕ) (r : List ℕ)
    → drop n ys ≡ x ∷ r
    → take (suc n) ys ≡ take n ys ++ x ∷ []
take-suc n [] x r e = let bad : [] ≡ x ∷ r = sym (drop_nil n) ∙ e in cc
take-suc zero (y ∷ ys) x r e = ap (take 1) e
take-suc (suc n) (y ∷ ys) x r e = ap (λ zs. y ∷ zs) (take-suc n ys x r e)

slice-suc :
    (s : List ℕ) (start i x : ℕ) (r : List ℕ)
    → start ≤ i
    → drop i s ≡ x ∷ r
    → slice s start (i + 1) ≡ slice s start i ++ x ∷ []
slice-suc s start i x r h e =
    let n : i + 1 - start ≡ suc (i - start) = omega arith in
    let j : start + (i - start) ≡ i = omega arith in
    ap (λ k. take k (drop start s)) n
    ∙ take-suc (i - start) (drop start s) x r
        (drop-drop (i - start) start s ∙ ap (λ k. drop k s) j ∙ e)

split_loop-pieces :
    (fuel c : ℕ) (s : List ℕ) (i start : ℕ)
    → start ≤ i
    → length s < i + fuel
    → i ≤ length s
    → split_loop fuel s (c ∷ []) i start ≡ prepend (slice s start i) (pieces c (drop i s))
unfolding split_loop starts_with
split_loop-pieces zero c s i start h f le = absurd (omega arith)
split_loop-pieces (suc fuel) c s i start h f le = elim (List-cases (drop i s)) [
  | inl e ↦
      let end : leb (i + 1) (length s) ≡ false = ground (arith, ap length e, length-drop i s) in
      rw (end, e)
        (ap (λ t. t ∷ []) (sym (slice-drop s start i h) ∙ ap (λ d. slice s start i ++ d) e))
  | inr (x, r, e) ↦
      let more : leb (i + 1) (length s) ≡ true = ground (arith, ap length e, length-drop i s) in
      let next : i + 1 ≤ length s = ground (arith, more) in
      let behind = drop-suc i s x r e in
      elim (Bool-cases (x == c)) [
        | inl hit ↦
            let n : i + 1 - (i + 1) ≡ 0 = omega arith in
            let rest : split_loop fuel s (c ∷ []) (i + 1) (i + 1) ≡ pieces c r =
              split_loop-pieces fuel c s (i + 1) (i + 1) (omega arith) (omega arith) next
              ∙ rw (n, behind) (prepend_nil-pieces c r) in
            rw (more, e, hit, rest, append-nil (slice s start i)) refl
        | inr miss ↦
            rw (more, e, miss, prepend-append (slice s start i) (x ∷ []) (pieces c r))
              (split_loop-pieces fuel c s (i + 1) start (omega arith) (omega arith) next
                ∙ rw (behind, slice-suc s start i x r h e) refl)
      ]
]

-- `sdssplitlen` with a separator of one byte returns the pieces of the string between the occurrences of
-- that byte, as recursion on the string gives them.
pub sds_splitlen-pieces : (s : List ℕ) (c : ℕ) → sds_splitlen s (c ∷ []) ≡ pieces c s
unfolding sds_splitlen
sds_splitlen-pieces s c =
    split_loop-pieces (length s + 1) c s 0 0 (omega arith) (omega arith) (omega arith)
    ∙ prepend_nil-pieces c s
