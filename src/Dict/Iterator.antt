-- ===== src/Dict/Iterator.antt =====
-- `dictGetIterator` and `dictNext`. The fields `entry` and `nextEntry` point into a bucket: they are the
-- rest of it from there on, and NULL is the empty list. `index` starts at -1 and is read only after its
-- increment, so the model keeps `index + 1`.
use homemade.Prelude.{
  ℕ, zero, suc, ◌+◌, ◌<◌, ◌≡◌, refl, ap, ◌∙◌, Bool, true, false, Option, none, some, List, [], ◌∷◌,
  ◌++◌, arith, leb, if◌then◌else◌, length, get_or, ◌>>=◌, inl, inr, append_assoc, take, append-nil,
  length-append, List-cases,
}
use mathlib.Core.List.{flatten}
use homemade.Dict.Types.{Entry, DictType, Chain, Dict}
use homemade.Dict.Placed.{total}
use homemade.Dict.Grow.{IsValid}

pub record Iterator (K V : Type 0) : Type 0 where
  pub next_index : ℕ
  pub entry : Chain K V
  pub next_entry : Chain K V

module _ {K V : Type 0} where
  -- `dictGetIterator`
  unfoldable pub get_iterator : Iterator K V
  get_iterator = record { next_index = 0; entry = []; next_entry = [] }

  -- The first half of a round of `dictNext`: whether it breaks, and the iterator then.
  unfoldable pub move_on : Dict K V → Iterator K V → Chain K V → Bool × Iterator K V
  move_on ht it [] =
      if leb ht.sizemask it.next_index
      then (true, record it { next_index = it.next_index + 1 })
      else (
        false,
        record it { next_index = it.next_index + 1; entry = get_or ht.table it.next_index [] },
      )
  move_on ht it (e ∷ c) = (false, record it { entry = it.next_entry })

  -- The second half: the entry to return, or another round.
  unfoldable pub settle :
      Iterator K V
      → Chain K V
      → Option (Option (Entry K V) × Iterator K V)
      → Option (Option (Entry K V) × Iterator K V)
  settle it [] again = again
  settle it (e ∷ c) again = some (some e, record it { next_entry = c })

  -- `dictNext`, on fuel
  unfoldable pub next : ℕ → Dict K V → Iterator K V → Option (Option (Entry K V) × Iterator K V)
  unfolding move_on settle
  next zero ht it = none
  next (suc fuel) ht it =
      let (stop, it') = move_on ht it it.entry in
      let again = next fuel ht it' in
      let onward = settle it' it'.entry again in if stop then some (none, it') else onward

  -- `while ((entry = dictNext(it)) != NULL)`: the entries that the loop body sees, in order.
  unfoldable pub visit : ℕ → ℕ → Dict K V → Iterator K V → Option (List (Entry K V))
  visit zero fuel ht it = none
  visit (suc rounds) fuel ht it = next fuel ht it >>= λ r. elim r.0 [
    | none ↦ some []
    | some e ↦ visit rounds fuel ht r.1 >>= λ es. some (e ∷ es)
  ]

  -- The entries of `n` slots from slot `i` on.
  abbrev slots_from : List (Chain K V) → ℕ → ℕ → List (Entry K V)
  slots_from cs i zero = []
  slots_from cs i (suc n) = get_or cs i [] ++ slots_from cs (i + 1) n

  abbrev rest_of : Iterator K V → Chain K V → List (Entry K V)
  rest_of it [] = []
  rest_of it (e ∷ c) = it.next_entry

  -- What an iterator has still to deliver.
  abbrev remaining : Dict K V → Iterator K V → ℕ → List (Entry K V)
  remaining ht it n = rest_of it it.entry ++ slots_from ht.table it.next_index n

  abbrev Delivers :
      Dict K V → List (Entry K V) → Option (Option (Entry K V) × Iterator K V) → Type 0
  Delivers ht es none = ⊥
  Delivers ht es (some (none, it)) = es ≡ []
  Delivers ht es (some (some e, it)) =
      (n : ℕ) × (it.next_index + n ≡ ht.sizemask) × (es ≡ e ∷ remaining ht it n)

  -- Between two buckets.
  next-Delivers_between :
      (fuel n : ℕ) (ht : Dict K V) (i : ℕ) (nx : Chain K V)
      → i + n ≡ ht.sizemask
      → n < fuel
      → Delivers ht
          (slots_from ht.table i n)
          (next fuel ht (record { next_index = i; entry = []; next_entry = nx }))
  unfolding next
  next-Delivers_between zero n ht i nx e f = absurd (omega arith)
  next-Delivers_between (suc fuel) zero ht i nx e f =
      let stop : leb ht.sizemask i ≡ true = ground arith in rw stop refl
  next-Delivers_between (suc fuel) (suc n) ht i nx e f =
      let go : leb ht.sizemask i ≡ false = ground arith in
      elim (List-cases (get_or ht.table i [])) [
        | inl empty ↦
            rw (go, empty) (next-Delivers_between fuel n ht (i + 1) nx (omega arith) (omega arith))
        | inr (x, d, there) ↦ rw (go, there) (n, omega arith, refl)
      ]

  next-Delivers :
      (fuel n : ℕ) (ht : Dict K V) (it : Iterator K V)
      → it.next_index + n ≡ ht.sizemask
      → n + 1 < fuel
      → Delivers ht (remaining ht it n) (next fuel ht it)
  unfolding next
  next-Delivers fuel n ht it e f = within fuel n ht it.next_index it.entry it.next_entry e f
    where
      within :
          (fuel n : ℕ) (ht : Dict K V) (i : ℕ) (c nx : Chain K V)
          → i + n ≡ ht.sizemask
          → n + 1 < fuel
          → Delivers ht
              (remaining ht (record { next_index = i; entry = c; next_entry = nx }) n)
              (next fuel ht (record { next_index = i; entry = c; next_entry = nx }))
      within fuel n ht i [] nx e f = next-Delivers_between fuel n ht i nx e (omega arith)
      within zero n ht i (x ∷ c) nx e f = absurd (omega arith)
      within (suc fuel) n ht i (x ∷ c) [] e f = next-Delivers_between fuel n ht i [] e (omega arith)
      within (suc fuel) n ht i (x ∷ c) (y ∷ nx) e f = (n, e, refl)

  visit-remaining :
      (rounds fuel n : ℕ) (ht : Dict K V) (it : Iterator K V)
      → it.next_index + n ≡ ht.sizemask
      → ht.sizemask + 1 < fuel
      → length (remaining ht it n) < rounds
      → visit rounds fuel ht it ≡ some (remaining ht it n)
  unfolding visit
  visit-remaining zero fuel n ht it e f r = absurd (omega arith)
  visit-remaining (suc rounds) fuel n ht it e f r =
      deliver (next fuel ht it) refl (next-Delivers fuel n ht it e (omega arith))
        (visit-remaining rounds fuel)
    where
      deliver :
          (o : Option (Option (Entry K V) × Iterator K V))
          → next fuel ht it ≡ o
          → Delivers ht (remaining ht it n) o
          → ((m : ℕ) (h : Dict K V) (j : Iterator K V)
              → j.next_index + m ≡ h.sizemask
              → h.sizemask + 1 < fuel
              → length (remaining h j m) < rounds
              → visit rounds fuel h j ≡ some (remaining h j m))
          → visit (suc rounds) fuel ht it ≡ some (remaining ht it n)
      deliver none run d ih = absurd d
      deliver (some (none, j)) run d ih = rw (run, ◌>>=◌, d)
      deliver (some (some x, j)) run (m, g, d) ih =
          rw (run, ◌>>=◌, d, ih m ht j g f (omega (arith, ap length d)))

  slots_from-suc :
      (c : Chain K V) (cs : List (Chain K V)) (i n : ℕ)
      → slots_from (c ∷ cs) (suc i) n ≡ slots_from cs i n
  slots_from-suc c cs i zero = refl
  slots_from-suc c cs i (suc n) =
      let e : suc i + 1 ≡ suc (i + 1) = omega arith in rw (e, slots_from-suc c cs (i + 1) n)

  slots_from-nil : (i n : ℕ) → slots_from [] i n ≡ []
  slots_from-nil i zero = refl
  slots_from-nil i (suc n) = slots_from-nil (i + 1) n

  slots_from-take : (n : ℕ) (cs : List (Chain K V)) → slots_from cs 0 n ≡ flatten (take n cs)
  unfolding flatten
  slots_from-take zero cs = refl
  slots_from-take (suc n) [] = slots_from-nil 1 n
  slots_from-take (suc n) (c ∷ cs) = rw (slots_from-suc c cs 0 n, slots_from-take n cs)

  flatten-split :
      (n : ℕ) (cs : List (Chain K V))
      → length cs ≡ n + 1
      → flatten cs ≡ flatten (take n cs) ++ get_or cs n []
  unfolding flatten
  flatten-split n [] e = absurd (omega arith)
  flatten-split zero (c ∷ []) e = append-nil c
  flatten-split zero (c ∷ d ∷ cs) e = absurd (omega arith)
  flatten-split (suc n) (c ∷ cs) e =
      rw (flatten-split n cs (omega arith), append_assoc c (flatten (take n cs)) (get_or cs n []))

  pub length-flatten : (cs : List (Chain K V)) → length (flatten cs) ≡ total cs
  unfolding flatten
  length-flatten [] = refl
  length-flatten (c ∷ cs) = omega (arith, length-append c (flatten cs), length-flatten cs)

  -- Walking a valid table with slots by `dictNext` ends, and delivers each entry of every slot but the
  -- last one exactly once, in the order of the slots: the entries of the last slot are never delivered.
  -- The rounds and the fuel are those that the table's own counts give.
  pub visit_all_but_last :
      (T : DictType K V) (ht : Dict K V)
      → IsValid T ht
      → 0 < ht.size
      → (es : List (Entry K V)) × (visit (ht.used + 1) (ht.size + 1) ht get_iterator ≡ some es)
        × (flatten ht.table ≡ es ++ get_or ht.table ht.sizemask [])
  unfolding get_iterator
  visit_all_but_last T ht v h =
      let all = slots_from-take ht.sizemask ht.table in
      let split = flatten-split ht.sizemask ht.table (omega (arith, v.width, v.mask)) in
      let counts =
        length-append (flatten (take ht.sizemask ht.table)) (get_or ht.table ht.sizemask []) in
      let start : Iterator K V = record { next_index = 0; entry = []; next_entry = [] } in
      (
        flatten (take ht.sizemask ht.table),
        visit-remaining (ht.used + 1) (ht.size + 1) ht.sizemask ht start (omega arith)
              (omega (arith, v.mask))
              (rw all (omega (arith, counts, ap length split, length-flatten ht.table, v.counted)))
            ∙ ap some all,
        split,
      )
