-- ===== src/Dict/Clear.antt =====
-- `_dictClear` and `dictGetRandomKey`.
use homemade.Prelude.{
  ℕ, zero, suc, ◌+◌, ◌%◌, ◌<◌, ◌≡◌, refl, ◌∙◌, false, none, some, List, [], ◌∷◌, ◌++◌, arith, ◌==◌,
  ltb, length, get_or, Bool-cases, inl, inr, ◌>>=◌, dec32, append_assoc, bit_and, >>=-eq-some,
}
use mathlib.Core.List.{flatten}
use homemade.Dict.Types.{
  Entry, DictType, Chain, Dict, Freed, slot_of, free_entry_key, free_entry_val,
}
use homemade.Dict.Chain.{find_entry, IsLawful}
use homemade.Dict.Table.{create}
use homemade.Dict.Ops.{
  find, clear, clear_table, clear_chain, draw_slot, draw_entry, nth_entry, get_random_key,
}
use homemade.Dict.Placed.{total, HomeChain, Homes-get_or, find_entry_congr}
use homemade.Dict.Grow.{IsValid, find-find_in}

module _ {K V : Type 0} (T : DictType K V) where
  -- The destructor calls for a list of entries: key, then value, of each.
  pub free_all : List (Entry K V) → List (Freed K V)
  free_all [] = []
  free_all (e ∷ es) = free_entry_key T e ++ free_entry_val T e ++ free_all es

  free_all-append : (es fs : List (Entry K V)) → free_all (es ++ fs) ≡ free_all es ++ free_all fs
  unfolding free_all
  free_all-append [] fs = refl
  free_all-append (e ∷ es) fs = simp (free_all-append es fs, append_assoc)

  clear_chain-free_all :
      (n used : ℕ) (c : Chain K V)
      → used ≡ length c + n
      → used < 4294967296
      → clear_chain T used c ≡ (n, free_all c)
  unfolding clear_chain free_all
  clear_chain-free_all n used [] e lt = let e' : used ≡ n = omega arith in rw e'
  clear_chain-free_all n used (x ∷ c) e lt =
      rw (clear_chain-free_all n (dec32 used) c (omega arith) (omega arith))

  free_all-empty : (cs : List (Chain K V)) → total cs ≡ 0 → free_all (flatten cs) ≡ []
  unfolding free_all flatten
  free_all-empty [] h = refl
  free_all-empty ([] ∷ cs) h = free_all-empty cs (omega arith)
  free_all-empty ((e ∷ c) ∷ cs) h = absurd (omega arith)

  clear_table-free_all :
      (used : ℕ) (cs : List (Chain K V))
      → used ≡ total cs
      → used < 4294967296
      → clear_table T used cs ≡ free_all (flatten cs)
  unfolding clear_table flatten free_all
  clear_table-free_all used [] e lt = refl
  clear_table-free_all used (c ∷ cs) e lt = elim (Bool-cases (ltb 0 used)) [
    | inl more ↦ rw (
      more,
      clear_chain-free_all (total cs) used c e lt,
      clear_table-free_all (total cs) cs refl (omega arith),
      free_all-append c (flatten cs),
    )
    | inr over ↦ rw (over, free_all-empty (c ∷ cs) (ground arith))
  ]

  -- `dictEmpty` on a valid table leaves the table of `dictCreate`, and calls the destructors of every
  -- entry exactly once, in the order of the slots.
  pub clear-free_all :
      (ht : Dict K V) → IsValid T ht → clear T ht ≡ (create, free_all (flatten ht.table))
  unfolding clear create
  clear-free_all ht v =
      rw (clear_table-free_all ht.used ht.table v.counted (omega (arith, v.room, v.bound)))

  get_or-empty : (cs : List (Chain K V)) (i : ℕ) → total cs ≡ 0 → get_or cs i [] ≡ []
  get_or-empty [] i h = refl
  get_or-empty ([] ∷ cs) zero h = refl
  get_or-empty ([] ∷ cs) (suc i) h = get_or-empty cs i (omega arith)
  get_or-empty ((e ∷ c) ∷ cs) i h = absurd (omega arith)

  draw_slot-empty :
      (random : List ℕ) (ht : Dict K V) → total ht.table ≡ 0 → draw_slot T random ht ≡ none
  unfolding draw_slot
  draw_slot-empty [] ht h = refl
  draw_slot-empty (r ∷ random) ht h =
      rw (get_or-empty ht.table (bit_and r ht.sizemask) h, draw_slot) (draw_slot-empty random ht h)

  -- On a valid table with slots and no entries, `dictGetRandomKey` never returns, whatever `random()`
  -- answers and however often it is called.
  pub get_random_key-spins :
      (random : List ℕ) (ht : Dict K V)
      → IsValid T ht
      → 0 < ht.size
      → ht.used ≡ 0
      → get_random_key T random ht ≡ none
  unfolding get_random_key
  get_random_key-spins random ht v h e =
      let slots : (ht.size == 0) ≡ false = ground arith in
      rw (slots, draw_slot-empty random ht (omega (arith, v.counted)), ◌>>=◌)

module _ {K V : Type 0} {T : DictType K V} (L : IsLawful T) where
  nth_entry-find :
      (mask j i : ℕ) (c : Chain K V) (e : Entry K V)
      → HomeChain T mask j c
      → nth_entry c i ≡ some e
      → (find_entry T e.key c ≡ some e) × (slot_of T e.key mask ≡ j)
  unfolding nth_entry find_entry
  nth_entry-find mask j i [] e h p = cc
  nth_entry-find mask j zero (x ∷ c) e h p = ground (arith, L.same_refl x.key)
  nth_entry-find mask j (suc i) (x ∷ c) e h p = ground (
    arith,
    nth_entry-find mask j i c e h.2 p,
    find_entry_congr L e.key x.key c,
    L.same_symm e.key x.key,
  )

  draw_slot-slot :
      (random rest : List ℕ) (ht : Dict K V) (c : Chain K V)
      → draw_slot T random ht ≡ some (c, rest)
      → (j : ℕ) × (get_or ht.table j [] ≡ c)
  unfolding draw_slot
  draw_slot-slot [] rest ht c p = cc
  draw_slot-slot (r ∷ random) rest ht c p =
      occupied (get_or ht.table (bit_and r ht.sizemask) []) refl p (draw_slot-slot random rest ht c)
    where
      occupied :
          (d : Chain K V)
          → get_or ht.table (bit_and r ht.sizemask) [] ≡ d
          → draw_slot T (r ∷ random) ht ≡ some (c, rest)
          → (draw_slot T random ht ≡ some (c, rest) → (j : ℕ) × (get_or ht.table j [] ≡ c))
          → (j : ℕ) × (get_or ht.table j [] ≡ c)
      occupied [] there p' ih = ih (rw (there, draw_slot) at p')
      occupied (e ∷ d) there p' ih = (
        bit_and r ht.sizemask,
        let q : some (e ∷ d, random) ≡ some (c, rest) = rw (there, draw_slot) at p' in ground arith,
      )

  draw_entry-nth :
      (c : Chain K V) (random : List ℕ) (e : Entry K V)
      → draw_entry T (c, random) ≡ some (some e)
      → (i : ℕ) × (nth_entry c i ≡ some e)
  unfolding draw_entry
  draw_entry-nth c [] e p = cc
  draw_entry-nth c (r ∷ random) e p = (r % length c, cc)

  -- With lawful callbacks and a valid table, an entry that `dictGetRandomKey` returns is one that `dictFind` finds under its key.
  pub get_random_key-find :
      (random : List ℕ) (ht : Dict K V) (e : Entry K V)
      → IsValid T ht
      → get_random_key T random ht ≡ some (some e)
      → find T ht e.key ≡ some e
  unfolding get_random_key
  get_random_key-find random ht e v p = elim (Bool-cases (ht.size == 0)) [
    | inl empty ↦ let q : some none ≡ some (some e) = rw empty at p in cc
    | inr slots ↦
        let ((c, rest), drawn, q) =
          >>=-eq-some (draw_slot T random ht) (draw_entry T) (rw slots at p) in
        let (j, there) = draw_slot-slot random rest ht c drawn in
        let (i, picked) = draw_entry-nth c rest e q in
        let (found, home) =
          nth_entry-find ht.sizemask j i c e
            (rw there at (Homes-get_or T ht.sizemask 0 j j ht.table (omega arith) v.homes))
            picked in
        find-find_in L ht v e.key ∙ rw (home, there) found
  ]
