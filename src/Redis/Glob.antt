-- ===== src/Redis/Glob.antt =====
-- `stringmatchlen` of redis/src/redis.c. A pattern or string is what its pointer still has in front of it,
-- with the zero that ends an `sds`: the length that the C code counts down is one less than that of the
-- list, so it is 0 at the zero, and -1 behind it, where a read runs over.
pub mod Plain
pub mod Unclosed
use homemade.Prelude.{
  ℕ, zero, suc, ◌+◌, ◌%◌, ◌≤◌, ◌<◌, Bool, true, false, not, ◌||◌, ◌&&◌, Option, none, some, List,
  [], ◌∷◌, length, if◌then◌else◌, ltb, leb, ◌==◌,
}
use homemade.Sds.Ops.{tolower}

-- The result, a pointer moved past the byte behind a string or read there, or the end of the fuel.
pub data Glob : Type 0 where
  answer : Bool → Glob
  overrun : Glob
  starved : Glob

-- The value of a `char`, up to 128: bytes from 128 on are negative.
abbrev pub schar : ℕ → ℕ
schar c = (c + 128) % 256

abbrev pub folded : Bool → ℕ → ℕ
folded nocase c = if nocase then tolower c else c

-- `while (*pattern == '*') pattern++`, from a byte of the pattern; `none` where it runs over
unfoldable pub skip_stars : List ℕ → Option (List ℕ)
skip_stars [] = none
skip_stars (c ∷ p) = let rest = skip_stars p in if c == 42 then rest else some (c ∷ p)

-- The end test of the function.
unfoldable pub at_end : List ℕ → List ℕ → Glob
at_end p s = answer ((length p == 1) && (length s == 1))

unfoldable pub end_stars : Option (List ℕ) → List ℕ → Glob
unfolding at_end
end_stars none s = overrun
end_stars (some p) s = at_end p s

-- The end of a round: `pattern` and `string` are on their next bytes.
unfoldable pub next_round : (List ℕ → List ℕ → Glob) → List ℕ → List ℕ → Glob
unfolding skip_stars end_stars
next_round again p s = if length s == 1 then end_stars (skip_stars p) s else again p s

-- A byte of the pattern against the first of the string.
unfoldable pub literal : Bool → ℕ → (List ℕ → List ℕ → Glob) → List ℕ → List ℕ → Glob
unfolding next_round
literal nocase c again p [] = overrun
literal nocase c again p (x ∷ s) =
    let onward = next_round again p s in
    if folded nocase c == folded nocase x then onward else answer false

-- The loop of `*` over the string.
unfoldable pub try_suffixes : (List ℕ → Glob) → List ℕ → Glob
try_suffixes f [] = overrun
try_suffixes f (x ∷ []) = answer false
try_suffixes f (x ∷ y ∷ s) =
    let rest = try_suffixes f (y ∷ s) in
    elim (f (x ∷ y ∷ s)) [
      | answer b ↦ if b then answer true else rest
      | overrun ↦ overrun
      | starved ↦ starved
    ]

-- `*`, once the stars behind it are skipped
unfoldable pub star : (List ℕ → List ℕ → Glob) → Option (List ℕ) → List ℕ → Glob
unfolding try_suffixes
star again none s = overrun
star again (some q) s = if length q == 1 then answer true else try_suffixes (again q) s

-- Whether the byte `c` is between two others, in either order.
abbrev pub in_range : Bool → ℕ → ℕ → ℕ → Bool
in_range nocase a b c =
    let low = if ltb (schar b) (schar a) then b else a in
    let high = if ltb (schar b) (schar a) then a else b in
    leb (schar (folded nocase low)) (schar (folded nocase c))
    && leb (schar (folded nocase c)) (schar (folded nocase high))

-- The loop over `[...]`: whether it matches the byte `c`, and the pattern behind it; `none` where it runs
-- over.
unfoldable pub bracket : Bool → ℕ → Bool → List ℕ → Option (Bool × List ℕ)
bracket nocase c found [] = none
bracket nocase c found (a ∷ []) =
    if a == 92 then none else some (found, if a == 93 then [] else a ∷ [])
bracket nocase c found (a ∷ b ∷ []) =
    let single = bracket nocase c (found || (folded nocase a == folded nocase c)) (b ∷ []) in
    if a == 92 then none else if a == 93 then some (found, b ∷ []) else single
bracket nocase c found (a ∷ b ∷ d ∷ p) =
    let escape = bracket nocase c (found || (b == c)) (d ∷ p) in
    let single = bracket nocase c (found || (folded nocase a == folded nocase c)) (b ∷ d ∷ p) in
    let range = bracket nocase c (found || in_range nocase a d c) p in
    if a == 92
    then escape
    else if a == 93
    then some (found, b ∷ d ∷ p)
    else if (b == 45) && leb 1 (length p)
    then range
    else single

-- Behind `[` and `^`; the byte of the string is read in the loop.
unfoldable pub class_end : Bool → (List ℕ → List ℕ → Glob) → List ℕ → Option (Bool × List ℕ) → Glob
unfolding next_round
class_end negated again s none = overrun
class_end negated again s (some (found, p)) =
    let onward = next_round again p s in
    if (if negated then not found else found) then onward else answer false

unfoldable pub class : Bool → (List ℕ → List ℕ → Glob) → List ℕ → List ℕ → Glob
unfolding bracket class_end
class nocase again [] s = overrun
class nocase again (a ∷ p) [] = overrun
class nocase again (a ∷ p) (x ∷ s) =
    if a == 94
    then class_end true again s (bracket nocase x false p)
    else class_end false again s (bracket nocase x false (a ∷ p))

-- `\` with a byte behind it stands for that byte.
unfoldable pub escape : Bool → (List ℕ → List ℕ → Glob) → List ℕ → List ℕ → Glob
unfolding literal
escape nocase again [] s = overrun
escape nocase again (d ∷ []) s = literal nocase 92 again (d ∷ []) s
escape nocase again (d ∷ e ∷ p) s = literal nocase d again (e ∷ p) s

-- `?`
unfoldable pub any_byte : (List ℕ → List ℕ → Glob) → List ℕ → List ℕ → Glob
unfolding next_round
any_byte again p [] = overrun
any_byte again p (x ∷ []) = answer false
any_byte again p (x ∷ y ∷ s) = next_round again p (y ∷ s)

-- `stringmatchlen`, on fuel: each round and each call of it reads a byte of the pattern
unfoldable pub stringmatchlen : ℕ → Bool → List ℕ → List ℕ → Glob
unfolding at_end star skip_stars any_byte class escape literal
stringmatchlen zero nocase p s = starved
stringmatchlen (suc fuel) nocase [] s = overrun
stringmatchlen (suc fuel) nocase (z ∷ []) s = at_end (z ∷ []) s
stringmatchlen (suc fuel) nocase (c ∷ d ∷ p) s =
    let again = stringmatchlen fuel nocase in
    if c == 42
    then star again (skip_stars (d ∷ p)) s
    else if c == 63
    then any_byte again (d ∷ p) s
    else if c == 91
    then class nocase again (d ∷ p) s
    else if c == 92
    then escape nocase again (d ∷ p) s
    else literal nocase c again (d ∷ p) s
