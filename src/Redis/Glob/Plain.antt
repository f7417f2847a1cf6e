-- ===== src/Redis/Glob/Plain.antt =====
-- `stringmatchlen` of redis/src/redis.c on patterns without `[`, compared with a matcher by recursion on
-- the pattern. Patterns and strings stand here without the zero that ends them.
use homemade.Prelude.{
  ℕ, zero, suc, ◌≤◌, ◌<◌, ◌≡◌, ◌≢◌, refl, sym, ap, ◌∙◌, Bool, true, false, ◌||◌, some, List, [],
  ◌∷◌, ◌++◌, length, length-append, if◌then◌else◌, ◌==◌, ==_iff, arith, Bool-cases, inl, inr,
}
use homemade.Redis.Glob.{
  Glob, answer, skip_stars, at_end, end_stars, next_round, literal, try_suffixes, star, class,
  escape, any_byte, stringmatchlen,
}

-- The zero behind a string.
abbrev pub ended : List ℕ → List ℕ
ended s = s ++ 0 ∷ []

-- Whether a test holds of some suffix of a string.
abbrev pub any_suffix : (List ℕ → Bool) → List ℕ → Bool
any_suffix f [] = f []
any_suffix f (x ∷ s) = f (x ∷ s) || any_suffix f s

abbrev pub after_byte : (List ℕ → Bool) → List ℕ → Bool
after_byte f [] = false
after_byte f (x ∷ s) = f s

abbrev pub after_this : ℕ → (List ℕ → Bool) → List ℕ → Bool
after_this c f [] = false
after_this c f (x ∷ s) = if c == x then f s else false

-- `*` any bytes, `?` one byte, `\` the byte behind it, every other byte itself
abbrev pub matches : List ℕ → List ℕ → Bool
matches [] [] = true
matches [] (x ∷ s) = false
matches (c ∷ []) s =
    if c == 42
    then true
    else if c == 63
    then after_byte (matches []) s
    else after_this c (matches []) s
matches (c ∷ d ∷ p) s =
    if c == 42
    then any_suffix (matches (d ∷ p)) s
    else if c == 63
    then after_byte (matches (d ∷ p)) s
    else if c == 92
    then after_this d (matches p) s
    else after_this c (matches (d ∷ p)) s

-- Without `[`, and without the byte that ends a string.
abbrev pub IsPlain : List ℕ → Type 0
IsPlain [] = Unit
IsPlain (c ∷ p) = (c ≢ 0) × (c ≢ 91) × IsPlain p

abbrev unstar : List ℕ → List ℕ
unstar [] = []
unstar (c ∷ p) = let rest = unstar p in if c == 42 then rest else c ∷ p

abbrev is_nil : List ℕ → Bool
is_nil [] = true
is_nil (c ∷ p) = false

any_suffix-nil : (s : List ℕ) → any_suffix (matches []) s ≡ true
any_suffix-nil [] = refl
any_suffix-nil (x ∷ s) = any_suffix-nil s

any_suffix_idem : (f : List ℕ → Bool) (s : List ℕ) → any_suffix (any_suffix f) s ≡ any_suffix f s
any_suffix_idem f [] = refl
any_suffix_idem f (x ∷ s) = ground (arith, any_suffix_idem f s)

matches_star : (p s : List ℕ) → matches (42 ∷ p) s ≡ any_suffix (matches p) s
matches_star [] s = sym (any_suffix-nil s)
matches_star (d ∷ p) s = refl

any_suffix-ext :
    (f g : List ℕ → Bool) (s : List ℕ)
    → ((t : List ℕ) → f t ≡ g t)
    → any_suffix f s ≡ any_suffix g s
any_suffix-ext f g [] h = h []
any_suffix-ext f g (x ∷ s) h = rw (h (x ∷ s), any_suffix-ext f g s h) refl

-- Stars in a row match what one matches.
any_suffix-unstar : (p s : List ℕ) → any_suffix (matches p) s ≡ any_suffix (matches (unstar p)) s
any_suffix-unstar [] s = refl
any_suffix-unstar (c ∷ p) s = elim (Bool-cases (c == 42)) [
  | inl e ↦
      rw (e, (==_iff c 42).0 e)
        (any_suffix-ext (matches (42 ∷ p)) (any_suffix (matches p)) s (matches_star p)
          ∙ any_suffix_idem (matches p) s
          ∙ any_suffix-unstar p s)
  | inr e ↦ rw e refl
]

matches-nil : (p : List ℕ) → matches p [] ≡ is_nil (unstar p)
matches-nil [] = refl
matches-nil (c ∷ []) = ground arith
matches-nil (c ∷ d ∷ p) = ground (arith, matches-nil (d ∷ p))

skip_stars-ended : (p : List ℕ) → skip_stars (ended p) ≡ some (ended (unstar p))
unfolding skip_stars
skip_stars-ended [] = refl
skip_stars-ended (c ∷ p) = ground (arith, skip_stars-ended p)

stringmatchlen-ended :
    (fuel : ℕ) (nocase : Bool) (c : ℕ) (p s : List ℕ)
    → stringmatchlen (suc fuel) nocase (c ∷ ended p) s ≡ (
        if c == 42
        then star (stringmatchlen fuel nocase) (skip_stars (ended p)) s
        else if c == 63
        then any_byte (stringmatchlen fuel nocase) (ended p) s
        else if c == 91
        then class nocase (stringmatchlen fuel nocase) (ended p) s
        else if c == 92
        then escape nocase (stringmatchlen fuel nocase) (ended p) s
        else literal nocase c (stringmatchlen fuel nocase) (ended p) s)
unfolding stringmatchlen
stringmatchlen-ended fuel nocase c [] s = refl
stringmatchlen-ended fuel nocase c (d ∷ p) s = refl

escape-ended :
    (again : List ℕ → List ℕ → Glob) (d : ℕ) (p s : List ℕ)
    → escape false again (d ∷ ended p) s ≡ literal false d again (ended p) s
unfolding escape
escape-ended again d [] s = refl
escape-ended again d (e ∷ p) s = refl

-- `again` decides as `matches` does for the pattern `p`.
abbrev Decides : (List ℕ → List ℕ → Glob) → List ℕ → Type 0
Decides again p = (s : List ℕ) → again (ended p) (ended s) ≡ answer (matches p s)

at_end-nil : (p : List ℕ) → at_end (ended p) (ended []) ≡ answer (is_nil p)
unfolding at_end
at_end-nil [] = refl
at_end-nil (c ∷ p) = ground (arith, length-append p (0 ∷ []))

next_round-Decides :
    (again : List ℕ → List ℕ → Glob) (p s : List ℕ)
    → Decides again p
    → next_round again (ended p) (ended s) ≡ answer (matches p s)
unfolding next_round end_stars
next_round-Decides again p [] h = rw (skip_stars-ended p, matches-nil p) (at_end-nil (unstar p))
next_round-Decides again p (x ∷ s) h = ground (arith, h (x ∷ s), length-append s (0 ∷ []))

any_byte-Decides :
    (again : List ℕ → List ℕ → Glob) (p s : List ℕ)
    → Decides again p
    → any_byte again (ended p) (ended s) ≡ answer (after_byte (matches p) s)
unfolding any_byte
any_byte-Decides again p [] h = refl
any_byte-Decides again p (x ∷ []) h = next_round-Decides again p [] h
any_byte-Decides again p (x ∷ y ∷ s) h = next_round-Decides again p (y ∷ s) h

literal-Decides :
    (again : List ℕ → List ℕ → Glob) (c : ℕ) (p s : List ℕ)
    → c ≢ 0
    → Decides again p
    → literal false c again (ended p) (ended s) ≡ answer (after_this c (matches p) s)
unfolding literal
literal-Decides again c p [] nz h = ground arith
literal-Decides again c p (x ∷ s) nz h = ground (arith, next_round-Decides again p s h)

try_suffixes-ended :
    (f : List ℕ → Glob) (g : List ℕ → Bool) (s : List ℕ)
    → ((t : List ℕ) → f (ended t) ≡ answer (g t))
    → g [] ≡ false
    → try_suffixes f (ended s) ≡ answer (any_suffix g s)
unfolding try_suffixes
try_suffixes-ended f g [] h e = ap answer (sym e)
try_suffixes-ended f g (x ∷ []) h e = rw (h (x ∷ [])) (ground (arith, e))
try_suffixes-ended f g (x ∷ y ∷ s) h e =
    rw (h (x ∷ y ∷ s), try_suffixes-ended f g (y ∷ s) h e) (ground arith)

star-rest :
    (again : List ℕ → List ℕ → Glob) (q s : List ℕ)
    → Decides again q
    → matches q [] ≡ is_nil q
    → star again (some (ended q)) (ended s) ≡ answer (any_suffix (matches q) s)
unfolding star
star-rest again [] s h e = ap answer (sym (any_suffix-nil s))
star-rest again (c ∷ q) s h e = ground (
  arith,
  length-append q (0 ∷ []),
  try_suffixes-ended (again (ended (c ∷ q))) (matches (c ∷ q)) s h e,
)

star-Decides :
    (again : List ℕ → List ℕ → Glob) (p s : List ℕ)
    → Decides again (unstar p)
    → star again (skip_stars (ended p)) (ended s) ≡ answer (any_suffix (matches p) s)
star-Decides again p s h =
    rw (skip_stars-ended p, any_suffix-unstar p s)
      (star-rest again (unstar p) s h (sym (any_suffix-unstar p []) ∙ matches-nil p))

unstar-IsPlain : (p : List ℕ) → IsPlain p → IsPlain (unstar p)
unstar-IsPlain [] h = h
unstar-IsPlain (c ∷ p) h = elim (Bool-cases (c == 42)) [
  | inl e ↦ rw e (unstar-IsPlain p h.2)
  | inr e ↦ rw e h
]

length-unstar : (p : List ℕ) → length (unstar p) ≤ length p
length-unstar [] = omega arith
length-unstar (c ∷ p) = ground (arith, length-unstar p)

stringmatchlen-Decides :
    (fuel : ℕ) (p : List ℕ) → IsPlain p → length p < fuel → Decides (stringmatchlen fuel false) p
unfolding stringmatchlen at_end
stringmatchlen-Decides zero p plain le s = ground arith
stringmatchlen-Decides (suc fuel) [] plain le [] = refl
stringmatchlen-Decides (suc fuel) [] plain le (x ∷ s) = ground (arith, length-append s (0 ∷ []))
stringmatchlen-Decides (suc fuel) (c ∷ []) plain le s =
    let again = stringmatchlen fuel false in
    let shorter = stringmatchlen-Decides fuel [] tt (omega arith) in
    rw (stringmatchlen-ended fuel false c [] (ended s)) (
      ground (
        arith,
        plain.1,
        star-Decides again [] s shorter,
        any_suffix-nil s,
        any_byte-Decides again [] s shorter,
        literal-Decides again c [] s plain.0 shorter,
      ))
stringmatchlen-Decides (suc fuel) (c ∷ d ∷ p) plain le s =
    let again = stringmatchlen fuel false in
    let shorter = stringmatchlen-Decides fuel (d ∷ p) plain.2 (omega arith) in
    let behind = stringmatchlen-Decides fuel p plain.2.2 (omega arith) in
    let starless =
      stringmatchlen-Decides fuel (unstar (d ∷ p)) (unstar-IsPlain (d ∷ p) plain.2)
        (omega (arith, length-unstar (d ∷ p))) in
    rw (stringmatchlen-ended fuel false c (d ∷ p) (ended s)) (
      ground (
        arith,
        plain.1,
        star-Decides again (d ∷ p) s starless,
        any_byte-Decides again (d ∷ p) s shorter,
        escape-ended again d p (ended s),
        literal-Decides again d p s plain.2.0 behind,
        literal-Decides again c (d ∷ p) s plain.0 shorter,
      ))

-- For a pattern of no `[` and no zero byte, and every string, `stringmatchlen` with case taken into
-- account, on more fuel than the pattern has bytes, stays within both strings, ends, and answers as the
-- matcher by recursion on the pattern does.
pub stringmatchlen-matches :
    (fuel : ℕ) (p s : List ℕ)
    → IsPlain p
    → length p < fuel
    → stringmatchlen fuel false (ended p) (ended s) ≡ answer (matches p s)
stringmatchlen-matches fuel p s plain le = stringmatchlen-Decides fuel p plain le s
