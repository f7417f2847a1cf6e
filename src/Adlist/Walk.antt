-- ===== src/Adlist/Walk.antt =====
-- Loops over the nodes of redis/src/adlist.c: iteration, indices, search and release.
use mathlib.Core.List.{reverse, reverse-append}
use homemade.Prelude.{
  ℕ, zero, suc, ◌+◌, ◌<◌, ◌≡◌, ◌≢◌, refl, sym, ap, ◌∙◌, Bool, true, false, none, some, List, [],
  ◌∷◌, ◌++◌, arith, ◌==◌, if◌then◌else◌, inl, inr, ◌⊎◌, length,
}
use homemade.Prelude.Int.{ℤ, pos, negsuc}
use homemade.Adlist.Heap.{Address, null, Node, linked, Heap, assign}
use homemade.Adlist.Links.{
  Row, covers, first, last, Links, last-append, Links-split, frame-assign, fetch-eq, free-eq,
}
use homemade.Adlist.Ops.{
  Handle, Iter, list_get_iterator, list_next_element, values_of, search_loop, list_search_key, walk,
  list_index, release_loop, list_release,
}
use homemade.Adlist.Laws.{IsList, values}

abbrev pub iter : Address → Bool → Iter
iter p forth = record { next = p; from_head = forth }

values_of-Links :
    (h : Heap) (prv : Address) (cs : Row) (fuel : ℕ)
    → Links h prv cs null
    → length cs < fuel
    → values_of fuel (iter (first cs null) true) h ≡ some (some (values cs), h)
unfolding values_of list_next_element
values_of-Links h prv cs zero links enough = absurd (omega arith)
values_of-Links h prv [] (suc fuel) links enough = refl
values_of-Links h prv ((p, v) ∷ cs) (suc fuel) (ne, here, out, links) enough =
    let full : (p == null) ≡ false = ground arith in
    let again = fetch-eq h p (linked prv (first cs null) v) ne here in
    rw (full, again, full, again, values_of-Links h p cs fuel links (omega arith)) refl

-- A walk with an iterator from the head sees the values of the list in order, and changes nothing; one
-- round more than the list has nodes is enough.
pub values_of-IsList :
    (h : Heap) (l : Handle) (cs : Row)
    → IsList h l cs
    → values_of (length cs + 1) (list_get_iterator l true) h ≡ some (some (values cs), h)
unfolding list_get_iterator
values_of-IsList h l cs is =
    rw is.head (values_of-Links h null cs (length cs + 1) is.links (omega arith))

-- The address of a cell, NULL behind the end.
abbrev pub address : Row → ℕ → Address
address [] i = null
address ((p, v) ∷ cs) zero = p
address ((p, v) ∷ cs) (suc i) = address cs i

walk_forth :
    (h : Heap) (prv : Address) (cs : Row) (i : ℕ)
    → Links h prv cs null
    → walk true i (first cs null) h ≡ some (address cs i, h)
unfolding walk
walk_forth h prv [] zero links = refl
walk_forth h prv [] (suc i) links = refl
walk_forth h prv ((p, v) ∷ cs) zero links = refl
walk_forth h prv ((p, v) ∷ cs) (suc i) (ne, here, out, links) =
    let full : (p == null) ≡ false = ground arith in
    rw (full, fetch-eq h p (linked prv (first cs null) v) ne here) (walk_forth h p cs i links)

-- A list is empty or has a last cell.
snoc_cases :
    (cs : Row) → (cs ≡ []) ⊎ ((xs : Row) × (p : Address) × (v : ℕ) × (cs ≡ xs ++ (p, v) ∷ []))
snoc_cases [] = inl refl
snoc_cases ((p, v) ∷ cs) = elim (snoc_cases cs) [
  | inl e ↦ inr ([], p, v, ap (λ l. (p, v) ∷ l) e)
  | inr (xs, q, w, e) ↦ inr ((p, v) ∷ xs, q, w, ap (λ l. (p, v) ∷ l) e)
]

address-snoc :
    (xs : Row) (p : Address) (v i : ℕ)
    → address (reverse (xs ++ (p, v) ∷ [])) (suc i) ≡ address (reverse xs) i
address-snoc xs p v i = ap (λ l. address l (suc i)) (reverse-append xs ((p, v) ∷ []))

address-snoc_zero :
    (xs : Row) (p : Address) (v : ℕ) → address (reverse (xs ++ (p, v) ∷ [])) zero ≡ p
address-snoc_zero xs p v = ap (λ l. address l zero) (reverse-append xs ((p, v) ∷ []))

walk_back :
    (i : ℕ) (h : Heap) (cs : Row) (nxt : Address)
    → Links h null cs nxt
    → walk false i (last null cs) h ≡ some (address (reverse cs) i, h)
unfolding walk
walk_back zero h cs nxt links = elim (snoc_cases cs) [
  | inl e ↦ rw e refl
  | inr (xs, p, v, e) ↦
      rw (e, last-append null xs ((p, v) ∷ []))
        (ap (λ q. some (q, h)) (sym (address-snoc_zero xs p v)))
]
walk_back (suc i) h cs nxt links = elim (snoc_cases cs) [
  | inl e ↦ rw e refl
  | inr (xs, p, v, e) ↦
      let (left, (ne, here, _, _), _) = Links-split h null xs ((p, v) ∷ []) nxt (rw e at links) in
      let full : (p == null) ≡ false = ground arith in
      rw
        (
          e,
          last-append null xs ((p, v) ∷ []),
          full,
          fetch-eq h p (linked (last null xs) nxt v) ne here,
        )
        (walk_back i h xs p left ∙ ap (λ q. some (q, h)) (sym (address-snoc xs p v i)))
]

-- The cell that an index names: from the front, or from the end where it is negative.
abbrev pub address_of : Row → ℤ → Address
address_of cs (pos i) = address cs i
address_of cs (negsuc i) = address (reverse cs) i

-- `listIndex` finds the node at an index, counted from the end where it is negative, and NULL where there
-- is none; it changes nothing.
pub list_index-address_of :
    (h : Heap) (l : Handle) (cs : Row) (i : ℤ)
    → IsList h l cs
    → list_index l i h ≡ some (address_of cs i, h)
unfolding list_index
list_index-address_of h l cs (pos i) is = rw is.head (walk_forth h null cs i is.links)
list_index-address_of h l cs (negsuc i) is = rw is.tail (walk_back i h cs null is.links)

search_loop-spins :
    (h : Heap) (same : ℕ → Bool) (p : Address) (n : Node) (fuel : ℕ)
    → p ≢ null
    → h p ≡ some n
    → same n.value ≡ false
    → search_loop same fuel p h ≡ some (none, h)
unfolding search_loop
search_loop-spins h same p n zero ne here miss = refl
search_loop-spins h same p n (suc fuel) ne here miss =
    let full : (p == null) ≡ false = ground arith in
    rw (full, fetch-eq h p n ne here, miss) (search_loop-spins h same p n fuel ne here miss)

-- `listSearchKey` looks at the first node only: where that one does not match, it never returns, however
-- many rounds it is given, and whatever the other nodes hold.
pub list_search_key-spins :
    (h : Heap) (l : Handle) (p : Address) (v : ℕ) (cs : Row) (same : ℕ → Bool) (fuel : ℕ)
    → IsList h l ((p, v) ∷ cs)
    → same v ≡ false
    → list_search_key same fuel l h ≡ some (none, h)
unfolding list_search_key
list_search_key-spins h l p v cs same fuel is miss =
    let (ne, here, _, _) = is.links in
    rw is.head (search_loop-spins h same p (linked null (first cs null) v) fuel ne here miss)

-- The values that the callback gets.
abbrev pub freed : Bool → Row → List ℕ
freed frees [] = []
freed frees ((p, v) ∷ cs) = if frees then v ∷ freed frees cs else freed frees cs

release_loop-Links :
    (frees : Bool) (h : Heap) (prv : Address) (cs : Row) (nxt : Address)
    → Links h prv cs nxt
    → (g : Heap) × (release_loop frees (length cs) (first cs nxt) h ≡ some (freed frees cs, g))
      × ((a : Address) → g a ≡ (if covers a cs then none else h a))
unfolding release_loop assign
release_loop-Links frees h prv [] nxt links = (h, refl, λ a. refl)
release_loop-Links frees h prv ((p, v) ∷ cs) nxt (ne, here, out, links) =
    let n = linked prv (first cs nxt) v in
    let (g, run, all) =
      release_loop-Links frees (assign h p none) p cs nxt
        (frame-assign h p cs nxt p none links out) in
    (g, rw (fetch-eq h p n ne here, free-eq h p n ne here, run) refl, λ a. all a ∙ ground arith)

-- `listRelease` of a list of less than 2 ^ 32 nodes frees each of its nodes, and no other, and calls
-- `list->free`, if there is such a callback, on every value once, in the order of the list.
pub list_release-freed :
    (h : Heap) (l : Handle) (cs : Row)
    → IsList h l cs
    → length cs < 4294967296
    → (g : Heap) × (list_release l h ≡ some (freed l.frees cs, g))
      × ((a : Address) → g a ≡ (if covers a cs then none else h a))
unfolding list_release
list_release-freed h l cs is small =
    let (g, run, all) = release_loop-Links l.frees h null cs null is.links in
    let rounds : l.len ≡ length cs = omega (arith, is.len, small) in
    (g, rw (rounds, is.head) run, all)
