-- ===== src/Redis/InterLaws.antt =====
-- What SINTER and SINTERSTORE of redis/src/redis.c answer.
use homemade.Prelude.{
  ◌⊎◌, ◌<◌, ◌≡◌, refl, sym, ap, ◌∙◌, true, false, ◌||◌, ◌&&◌, Option, none, some, List, [], ◌∷◌,
  ◌++◌, arith, if◌then◌else◌, length, length-append, ◌≤◌, get_or, ◌>>=◌, Bool-cases, inl, inr,
  is_some,
}
use mathlib.Core.List.{flatten, Permᴰ}
use homemade.Dict.Types.{Entry, Chain, compare_hash_keys}
use homemade.Dict.Chain.{find_entry}
use homemade.Dict.Placed.{or_else}
use homemade.Dict.Rehash.{find_all, find_all-find_in}
use homemade.Dict.Grow.{IsValid, find-find_in}
use homemade.Dict.Iterator.{visit_all_but_last, length-flatten}
use homemade.Redis.Object.{
  Bytes, codes, set_obj, set_dict_type, set_dict_type-IsLawful, sds_dict_key_compare,
  sds_dict_key_compare_iff,
}
use homemade.Redis.State.{State, holds}
use homemade.Redis.Strings.{bulks}
use homemade.Redis.Decimal.{print_ℕ}
use homemade.Redis.Members.{Members, has}
use homemade.Redis.Inter.{
  sets, gather, gather_next, gather_more, in_all, common, among, walk_first, sinter_gathered,
  sinter_generic_command, sinter_command,
}

-- The keys hold set objects with these members, in the same order.
abbrev pub HoldsSets : State → List Bytes → List Members → Type 0
HoldsSets st [] [] = Unit
HoldsSets st (k ∷ ks) [] = ⊥
HoldsSets st [] (d ∷ ds) = ⊥
HoldsSets st (k ∷ ks) (d ∷ ds) = (holds st k ≡ some (set_obj d)) × HoldsSets st ks ds

abbrev pub keys_of : List (Entry Bytes (Unit {0})) → List Bytes
keys_of [] = []
keys_of (e ∷ es) = e.key ∷ keys_of es

pub gather-sets :
    (st : State) (ks : List Bytes) (ds : List Members) → HoldsSets st ks ds → gather st ks ≡ sets ds
unfolding gather gather_next gather_more
gather-sets st [] [] h = refl
gather-sets st [] (d ∷ ds) h = absurd h
gather-sets st (k ∷ ks) [] h = absurd h
gather-sets st (k ∷ ks) (d ∷ ds) h = rw (h.0, gather-sets st ks ds h.1) refl

among-append :
    (x : Bytes) (es fs : List (Entry Bytes (Unit {0})))
    → among x (keys_of (es ++ fs)) ≡ (among x (keys_of es) || among x (keys_of fs))
among-append x [] fs = refl
among-append x (e ∷ es) fs = ground (arith, among-append x es fs)

find_entry-among :
    (x : Bytes) (c : Chain Bytes (Unit {0}))
    → is_some (find_entry set_dict_type x c) ≡ among x (keys_of c)
unfolding find_entry compare_hash_keys set_dict_type
find_entry-among x [] = refl
find_entry-among x (e ∷ c) = ground (arith, find_entry-among x c)

is_some-or_else : {A : Type 0} (a b : Option A) → is_some (or_else a b) ≡ (is_some a || is_some b)
is_some-or_else none b = refl
is_some-or_else (some a) b = refl

find_all-among :
    (x : Bytes) (cs : List (Chain Bytes (Unit {0})))
    → is_some (find_all {T = set_dict_type} set_dict_type-IsLawful x cs)
      ≡ among x (keys_of (flatten cs))
unfolding flatten
find_all-among x [] = refl
find_all-among x (c ∷ cs) =
    rw (among-append x c (flatten cs), ← find_entry-among x c, ← find_all-among x cs)
      (is_some-or_else (find_entry set_dict_type x c) (find_all set_dict_type-IsLawful x cs))

has-among :
    (d : Members) (x : Bytes)
    → IsValid set_dict_type d
    → has d x ≡ among x (keys_of (flatten d.table))
has-among d x v =
    ap is_some (
      find-find_in set_dict_type-IsLawful d v x
      ∙ sym (find_all-find_in set_dict_type-IsLawful x d.sizemask d.table v.homes))
    ∙ find_all-among x d.table

among-common :
    (ds : List Members) (x : Bytes) (es : List (Entry Bytes (Unit {0})))
    → among x (common ds es) ≡ (among x (keys_of es) && in_all ds x)
among-common ds x [] = refl
among-common ds x (e ∷ es) = elim (Bool-cases (sds_dict_key_compare x e.key)) [
  | inl same ↦
      let alike : in_all ds x ≡ in_all ds e.key =
        ap (λ y. in_all ds y) ((sds_dict_key_compare_iff x e.key).0 same) in
      ground (arith, same, alike, among-common ds x es)
  | inr other ↦ ground (arith, other, among-common ds x es)
]

in_all-Perm : {ds ds' : List Members} (x : Bytes) → Permᴰ ds ds' → in_all ds x ≡ in_all ds' x
in_all-Perm x Permᴰ.nil = refl
in_all-Perm x (Permᴰ.cons e p) = rw e (ground (arith, in_all-Perm x p))
in_all-Perm x (Permᴰ.swap e f) = rw (e, f) (ground arith)
in_all-Perm x (Permᴰ.trans p q) = in_all-Perm x p ∙ in_all-Perm x q

length-common :
    (ds : List Members) (es : List (Entry Bytes (Unit {0}))) → length (common ds es) ≤ length es
length-common ds [] = omega arith
length-common ds (e ∷ es) = ground (arith, length-common ds es)

-- `x` is a member of every set.
abbrev pub InEvery : List Members → Bytes → Type 0
InEvery [] x = Unit
InEvery (d ∷ ds) x = (has d x ≡ true) × InEvery ds x

in_all-InEvery : (ds : List Members) (x : Bytes) → in_all ds x ≡ true → InEvery ds x
in_all-InEvery [] x h = tt
in_all-InEvery (d ∷ ds) x h = elim (Bool-cases (has d x)) [
  | inl member ↦ (member, in_all-InEvery ds x (ground (arith, h, member)))
  | inr other ↦ absurd (ground (arith, h, other))
]

InEvery-in_all : (ds : List Members) (x : Bytes) → InEvery ds x → in_all ds x ≡ true
InEvery-in_all [] x h = refl
InEvery-in_all (d ∷ ds) x h = ground (arith, h.0, InEvery-in_all ds x h.1)

-- `xs` lists the members of every set of `ds`, but for entries of the last slot of `d`'s table.
pub record IsIntersection (ds : List Members) (d : Members) (xs : List Bytes) : Type 0 where
  pub sound : (x : Bytes) → among x xs ≡ true → InEvery ds x
  pub complete :
      (x : Bytes)
      → InEvery ds x
      → (among x xs ≡ true) ⊎ (among x (keys_of (get_or d.table d.sizemask [])) ≡ true)

pub walk_first-IsIntersection :
    {ds sorted : List Members} (d : Members) (others : List Members)
    → Permᴰ sorted ds
    → sorted ≡ d ∷ others
    → IsValid set_dict_type d
    → 0 < d.size
    → (xs : List Bytes) × (walk_first sorted ≡ some xs)
      × IsIntersection ds d xs
      × (length xs ≤ d.used)
walk_first-IsIntersection {ds} {sorted} d others perm first v slots =
    let (es, seen, split) = visit_all_but_last set_dict_type d v slots in
    let last = get_or d.table d.sizemask [] in
    let members : (x : Bytes) → has d x ≡ (among x (keys_of es) || among x (keys_of last)) =
      λ x. has-among d x v ∙ ap (λ t. among x (keys_of t)) split ∙ among-append x es last in
    let all : (x : Bytes) → in_all ds x ≡ (if has d x then in_all others x else false) =
      λ x. sym (in_all-Perm x perm) ∙ ap (λ l. in_all l x) first in
    (
      common others es,
      rw (first, seen, ◌>>=◌) refl,
      record {
        sound =
            λ x h. in_all-InEvery ds x (ground (arith, members x, all x, among-common others x es));
        complete = λ x every.
            let h = InEvery-in_all ds x every in
            ground (arith, members x, all x, among-common others x es);
      },
      omega (
        arith,
        length-common others es,
        ap length split,
        length-append es last,
        length-flatten d.table,
        v.counted,
      ),
    )

-- Where the keys hold the sets `ds`, whatever order `qsort` puts them in, and the first set in that order
-- is a valid table with slots: SINTER replies with the number of some values and each of them in bulk, and
-- changes nothing else. Each member
-- that it lists is in every set. Each value that is in every set is listed, or is an entry of the last
-- slot of the first set's table.
pub sinter_command-IsIntersection :
    (qsort : List Members → List Members) (st : State) (ks : List Bytes) (ds : List Members)
    (d : Members) (others : List Members)
    → HoldsSets st ks ds
    → Permᴰ (qsort ds) ds
    → qsort ds ≡ d ∷ others
    → IsValid set_dict_type d
    → 0 < d.size
    → (xs : List Bytes) × (sinter_command qsort ks st
        ≡ some (record st {
          reply = st.reply ++ (print_ℕ (length xs) ++ codes "\r\n") ∷ [] ++ bulks xs;
        }))
      × IsIntersection ds d xs
unfolding sinter_command sinter_generic_command sinter_gathered
sinter_command-IsIntersection qsort st ks ds d others held perm first v slots =
    let (xs, run, x, _) = walk_first-IsIntersection d others perm first v slots in
    (xs, rw (gather-sets st ks ds held, run, ◌>>=◌) refl, x)
