-- ===== src/Redis/SortSyntax.antt =====
-- The options of `sortCommand` of redis/src/redis.c, and the range that LIMIT leaves.
use homemade.Prelude.{
  ℕ, ◌+◌, Bool, true, false, ◌||◌, Option, none, some, List, [], ◌∷◌, ◌++◌, map, if◌then◌else◌,
  ◌>>=◌, leb, ◌==◌,
}
use homemade.Prelude.Int.{ℤ, pos, negsuc, pos_part, sub_ℕ, ltb_ℤ}
use homemade.Sds.Ops.{tolower}
use homemade.Redis.Object.{Bytes, codes, memcmp_eq}
use homemade.Redis.Decimal.{atoi}

-- `redisSortOperation`; the test for `decr` is one for `get` again, so no operation decrements
pub data SortOperation : Type 0 where
  sort_get sort_del sort_incr : Bytes → SortOperation

pub record SortOptions : Type 0 where
  pub desc : Bool
  pub alpha : Bool
  pub limit_start : ℤ
  pub limit_count : ℤ
  pub sortby : Option Bytes
  pub dontsort : Bool
  pub operations : List SortOperation
  pub getop : ℕ

unfoldable pub sort_defaults : SortOptions
sort_defaults = record {
  desc = false;
  alpha = false;
  limit_start = pos 0;
  limit_count = negsuc 0;
  sortby = none;
  dontsort = false;
  operations = [];
  getop = 0;
}

-- The bytes that a C function sees, up to the first 0.
unfoldable pub c_string : Bytes → Bytes
c_string [] = []
c_string (c ∷ s) = let rest = c_string s in if c == 0 then [] else c ∷ rest

-- `!strcasecmp`
abbrev pub is_word : Bytes → Bytes → Bool
is_word arg word = memcmp_eq (map tolower (c_string arg)) word

-- `strchr(spat, '*')`: the bytes before and behind the star
unfoldable pub split_star : Bytes → Option (Bytes × Bytes)
split_star [] = none
split_star (c ∷ p) =
    let rest = split_star p >>= λ r. some (c ∷ r.0, r.1) in
    if c == 42 then some ([], p) else if c == 0 then none else rest

abbrev is_none : Option (Bytes × Bytes) → Bool
is_none none = true
is_none (some r) = false

-- An option that is a word.
unfoldable pub word_option : Bytes → SortOptions → Option SortOptions
word_option a o =
    if is_word a (codes "asc")
    then some (record o { desc = false })
    else if is_word a (codes "desc")
    then some (record o { desc = true })
    else if is_word a (codes "alpha")
    then some (record o { alpha = true })
    else none

abbrev add_operation : SortOperation → SortOptions → SortOptions
add_operation op o = record o { operations = o.operations ++ op ∷ [] }

-- An option with one argument.
unfoldable pub argument_option : Bytes → Bytes → SortOptions → Option SortOptions
argument_option a b o =
    if is_word a (codes "by")
    then some (record o { sortby = some b; dontsort = is_none (split_star b) || o.dontsort })
    else if is_word a (codes "get")
    then some (record (add_operation (sort_get b) o) { getop = o.getop + 1 })
    else if is_word a (codes "del")
    then some (add_operation (sort_del b) o)
    else if is_word a (codes "incr")
    then some (add_operation (sort_incr b) o)
    else none

-- The first of two ways to go on that is open.
abbrev or_try :
    Option SortOptions
    → (SortOptions → Option SortOptions)
    → Option SortOptions
    → Option SortOptions
or_try none more other = other
or_try (some o) more other = more o

-- The loop over the options; `none` is a syntax error
unfoldable pub sort_options : List Bytes → SortOptions → Option SortOptions
sort_options [] o = some o
sort_options (a ∷ []) o = word_option a o
sort_options (a ∷ b ∷ []) o =
    or_try (word_option a o) (λ p. sort_options (b ∷ []) p) (argument_option a b o)
sort_options (a ∷ b ∷ c ∷ args) o =
    let limited = sort_options args (record o { limit_start = atoi b; limit_count = atoi c }) in
    let onward = or_try (argument_option a b o) (λ p. sort_options (c ∷ args) p) none in
    or_try (word_option a o) (λ p. sort_options (b ∷ c ∷ args) p)
      (if is_word a (codes "limit") then limited else onward)

-- Whether `start+limit_count` is an `int`, where it is computed; it overflows else, which C leaves undefined.
unfoldable pub limit_fits : ℕ → ℤ → Bool
limit_fits start (pos count) = leb (start + count) 2147483647
limit_fits start (negsuc count) = true

-- `end` before it is clipped
unfoldable pub range_end : ℕ → ℤ → ℕ → ℤ
range_end start (pos count) vectorlen = sub_ℕ (start + count) 1
range_end start (negsuc count) vectorlen = sub_ℕ vectorlen 1

-- The two tests against the length of the vector.
unfoldable pub clip_range : ℕ → ℤ → ℕ → ℤ × ℤ
clip_range start end vectorlen =
    let past = leb vectorlen start in
    let start' = if past then sub_ℕ vectorlen 1 else pos start in
    let end' = if past then sub_ℕ vectorlen 2 else end in
    (start', if ltb_ℤ end' (pos vectorlen) then end' else sub_ℕ vectorlen 1)

-- The part of the range that LIMIT leaves: the first index and the last one; a negative `limit_start` is 0
unfoldable pub limit_range : ℤ → ℤ → ℕ → ℤ × ℤ
unfolding range_end clip_range
limit_range limit_start limit_count vectorlen =
    clip_range (pos_part limit_start) (range_end (pos_part limit_start) limit_count vectorlen)
      vectorlen
