-- ===== src/Adlist/Ops.antt =====
-- The functions of redis/src/adlist.c. A `list` lives outside of the nodes' heap, so a function that
-- changes one returns the new one. The address that `zmalloc` returns is an argument. `frees` tells whether
-- `list->free` is set; the values that it is called with are part of the result.
use homemade.Prelude.{
  ℕ, zero, suc, Bool, true, false, Option, none, some, List, [], ◌∷◌, ◌==◌, if◌then◌else◌, inc32,
  dec32,
}
use homemade.Prelude.Int.{ℤ, pos, negsuc}
use homemade.Adlist.Heap.{
  Address, null, linked, Access, pure, ◌>>=◌, ◌>>◌, put_back, fetch, set_next, set_prev, free,
}

-- `list`, without the callbacks `dup` and `match`
pub record Handle : Type 0 where
  pub head : Address
  pub tail : Address
  pub len : ℕ
  pub frees : Bool

-- `listCreate`
unfoldable pub list_create : Handle
list_create = record { head = null; tail = null; len = 0; frees = false }

-- `listAddNodeHead`; `none` is NULL
unfoldable pub list_add_node_head : Address → Handle → ℕ → Access (Option Handle)
list_add_node_head fresh l value = if fresh == null then pure none else do
  put_back fresh (some (linked null l.head value))
  if l.head == null
      then pure (some (record l { head = fresh; tail = fresh; len = inc32 l.len }))
      else do set_prev l.head fresh; pure (some (record l { head = fresh; len = inc32 l.len }))

-- `listAddNodeTail`
unfoldable pub list_add_node_tail : Address → Handle → ℕ → Access (Option Handle)
list_add_node_tail fresh l value = if fresh == null then pure none else do
  put_back fresh (some (linked l.tail null value))
  if l.tail == null
      then pure (some (record l { head = fresh; tail = fresh; len = inc32 l.len }))
      else do set_next l.tail fresh; pure (some (record l { tail = fresh; len = inc32 l.len }))

-- The first half of `listDelNode`: the node behind it is reached from the one before it.
unfoldable pub unlink_prev : Handle → Address → Access Handle
unlink_prev l p = do
  n ← fetch p
  if n.prev == null then pure (record l { head = n.next }) else do set_next n.prev n.next; pure l

-- The second half.
unfoldable pub unlink_next : Handle → Address → Access Handle
unlink_next l p = do
  n ← fetch p
  if n.next == null then pure (record l { tail = n.prev }) else do set_prev n.next n.prev; pure l

-- `listDelNode`, with the values that the callback frees
unfoldable pub list_del_node : Handle → Address → Access (Handle × List ℕ)
list_del_node l p = do
  l' ← unlink_prev l p
  l'' ← unlink_next l' p
  n ← fetch p
  free p
  pure (record l'' { len = dec32 l''.len }, if l.frees then n.value ∷ [] else [])

-- The loop of `listRelease`, of `len` rounds.
unfoldable pub release_loop : Bool → ℕ → Address → Access (List ℕ)
release_loop frees zero current = pure []
release_loop frees (suc i) current = do
  n ← fetch current
  free current
  rest ← release_loop frees i n.next
  pure (if frees then n.value ∷ rest else rest)

-- `listRelease`
unfoldable pub list_release : Handle → Access (List ℕ)
list_release l = release_loop l.frees l.len l.head

-- `listIter`; the field `prev` is never used
pub record Iter : Type 0 where
  pub next : Address
  pub from_head : Bool

-- `listGetIterator`
unfoldable pub list_get_iterator : Handle → Bool → Iter
list_get_iterator l from_head = record {
  next = if from_head then l.head else l.tail;
  from_head = from_head;
}

-- `listNextElement`: NULL at the end
unfoldable pub list_next_element : Iter → Access (Address × Iter)
list_next_element it = if it.next == null then pure (null, it) else do
  n ← fetch it.next
  pure (it.next, record it { next = if it.from_head then n.next else n.prev })

-- The walk of a `while ((node = listNextElement(it)) != NULL)` loop: the values that it sees.
unfoldable pub values_of : ℕ → Iter → Access (Option (List ℕ))
values_of zero it = pure none
values_of (suc fuel) it = do
  (p, it') ← list_next_element it
  if p == null then pure (some []) else do
    n ← fetch p
    rest ← values_of fuel it'
    pure (elim rest [ none ↦ none | some vs ↦ some (n.value ∷ vs) ])

-- `listSearchKey`, on fuel: `node` is not moved on; `same` is `match`, or the equality of pointers
unfoldable pub search_loop : (ℕ → Bool) → ℕ → Address → Access (Option Address)
search_loop same zero p = pure none
search_loop same (suc fuel) p =
    if p == null
    then pure (some null)
    else do n ← fetch p; if same n.value then pure (some p) else search_loop same fuel p

unfoldable pub list_search_key : (ℕ → Bool) → ℕ → Handle → Access (Option Address)
list_search_key same fuel l = search_loop same fuel l.head

-- The loops of `listIndex`.
unfoldable pub walk : Bool → ℕ → Address → Access Address
walk forth zero p = pure p
walk forth (suc i) p =
    if p == null then pure p else do n ← fetch p; walk forth i (if forth then n.next else n.prev)

-- `listIndex`
unfoldable pub list_index : Handle → ℤ → Access Address
list_index l (pos i) = walk true i l.head
list_index l (negsuc i) = walk false i l.tail

unfoldable pub copy_of : Option (ℕ → Option ℕ) → ℕ → Option ℕ
copy_of none v = some v
copy_of (some f) v = f v

-- The loop of `listDup`, of `len` rounds, with the addresses that `zmalloc` returns; NULL where they are
-- used up. After a failure it calls `listRelease` on the value and not on the list: a fault here.
unfoldable pub dup_loop :
    Option (ℕ → Option ℕ) → List Address → ℕ → Address → Handle → Access Handle
dup_loop dup fresh zero p new = pure new
dup_loop dup [] (suc i) p new = λ h. none
dup_loop dup (a ∷ fresh) (suc i) p new = do
  n ← fetch p
  elim (copy_of dup n.value) [
    | none ↦ λ h. none
    | some v ↦ do
      added ← list_add_node_tail a new v
      elim added [ none ↦ λ h. none | some new' ↦ dup_loop dup fresh i n.next new' ]
  ]

-- `listDup`
unfoldable pub list_dup : Option (ℕ → Option ℕ) → List Address → Handle → Access Handle
list_dup dup fresh orig =
    dup_loop dup fresh orig.len orig.head (record list_create { frees = orig.frees })
