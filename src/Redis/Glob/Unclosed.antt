-- ===== src/Redis/Glob/Unclosed.antt =====
-- `stringmatchlen` of redis/src/redis.c on a pattern that ends inside `[`, with `\` as its last byte.
use homemade.Prelude.{
  ℕ, suc, ◌≡◌, ◌≢◌, refl, Bool, false, none, ◌||◌, ◌==◌, List, [], ◌∷◌, ◌++◌, arith,
}
use homemade.Redis.Glob.{overrun, bracket, class, class_end, folded, stringmatchlen}

-- Members of a class that stand for themselves: no `\`, no `]` and no `-`.
abbrev pub IsMembers : List ℕ → Type 0
IsMembers [] = Unit
IsMembers (c ∷ p) = (c ≢ 92) × (c ≢ 93) × (c ≢ 45) × IsMembers p

-- A member takes one round, unless a `-` follows it.
bracket-member :
    (nocase : Bool) (c : ℕ) (found : Bool) (a b : ℕ) (p : List ℕ)
    → a ≢ 92
    → a ≢ 93
    → b ≢ 45
    → bracket nocase c found (a ∷ b ∷ p)
      ≡ bracket nocase c (found || (folded nocase a == folded nocase c)) (b ∷ p)
unfolding bracket
bracket-member nocase c found a b [] h k l = ground arith
bracket-member nocase c found a b (d ∷ p) h k l = ground arith

bracket-none :
    (nocase : Bool) (c : ℕ) (found : Bool) (p : List ℕ)
    → IsMembers p
    → bracket nocase c found (p ++ 92 ∷ 0 ∷ []) ≡ none
unfolding bracket
bracket-none nocase c found [] h = refl
bracket-none nocase c found (a ∷ []) h = ground (arith, h.0, h.1)
bracket-none nocase c found (a ∷ b ∷ p) h =
    rw (bracket-member nocase c found a b (p ++ 92 ∷ 0 ∷ []) h.0 h.1 h.3.2)
      (bracket-none nocase c (found || (folded nocase a == folded nocase c)) (b ∷ p) h.3)

-- A pattern that ends inside `[`, after members that stand for themselves and a `\`, makes
-- `stringmatchlen` read behind the end of the pattern, whatever the string and whether or not it takes
-- case into account.
pub stringmatchlen-overrun :
    (fuel : ℕ) (nocase : Bool) (p s : List ℕ) (x : ℕ)
    → IsMembers p
    → stringmatchlen (suc fuel) nocase (91 ∷ (p ++ 92 ∷ 0 ∷ [])) (x ∷ s) ≡ overrun
unfolding stringmatchlen class class_end
stringmatchlen-overrun fuel nocase [] s x h = refl
stringmatchlen-overrun fuel nocase (a ∷ p) s x h =
    rw (bracket-none nocase x false p h.3, bracket-none nocase x false (a ∷ p) h) (ground arith)
