-- ===== src/Adlist/Tests.antt =====
-- Runs of redis/src/adlist.c and its theorems at a list of three nodes.
use homemade.Prelude.{ℕ, ◌≡◌, refl, true, Option, none, some, [], ◌∷◌, arith, ◌==◌, if◌then◌else◌}
use homemade.Adlist.Heap.{linked, Heap, assign, fetch, set_next}
use homemade.Adlist.Links.{Row}
use homemade.Adlist.Ops.{
  Handle, list_create, list_add_node_tail, list_del_node, list_get_iterator, values_of,
  list_search_key, list_dup, dup_loop, copy_of,
}
use homemade.Adlist.Laws.{IsList, list_del_node-IsList}
use homemade.Adlist.Walk.{values_of-IsList, list_search_key-spins}

abbrev three : Heap
three a =
    if a == 8
    then some (linked 0 16 100)
    else if a == 16
    then some (linked 8 24 200)
    else if a == 24
    then some (linked 16 0 300)
    else none

abbrev cells : Row
cells = (8, 100) ∷ (16, 200) ∷ (24, 300) ∷ []

abbrev l : Handle
l = record { head = 8; tail = 24; len = 3; frees = true }

l-IsList : IsList three l cells
l-IsList = record {
  links = (omega arith, refl, refl, (omega arith, refl, refl, (omega arith, refl, refl, tt)));
  head = refl;
  tail = refl;
  len = refl;
}

abbrev handle_of : Option (Handle × Heap) → ℕ
handle_of none = 0
handle_of (some (l', g)) = l'.len

dup_run : handle_of (list_dup none (32 ∷ 40 ∷ 48 ∷ []) l three) ≡ 3
unfolding list_dup dup_loop copy_of list_add_node_tail list_create fetch set_next assign
dup_run = refl

list_del_node-IsList_example :
    (l' : Handle) × (g : Heap) × (list_del_node l 16 three ≡ some ((l', 200 ∷ []), g))
    × IsList g l' ((8, 100) ∷ (24, 300) ∷ [])
    × (g 16 ≡ none)
list_del_node-IsList_example =
    list_del_node-IsList three l ((8, 100) ∷ []) ((24, 300) ∷ []) 16 200 l-IsList

values_of-IsList_example :
    values_of 4 (list_get_iterator l true) three ≡ some (some (100 ∷ 200 ∷ 300 ∷ []), three)
values_of-IsList_example = values_of-IsList three l cells l-IsList

list_search_key-spins_example : list_search_key (λ v. v == 200) 1000 l three ≡ some (none, three)
list_search_key-spins_example =
    list_search_key-spins three l 8 100 ((16, 200) ∷ (24, 300) ∷ []) (λ v. v == 200) 1000 l-IsList
      refl
