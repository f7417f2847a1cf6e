-- ===== src/Adlist/Heap.antt =====
-- The nodes of a list, by their address, and what the program does to them. A fault, which is a read or a
-- write at NULL or where no node lives, is `none`.
use homemade.Prelude.{ℕ, Option, none, some, ◌==◌, if◌then◌else◌}

-- The number that an address is; 0 is NULL.
abbrev pub Address : Type 0
Address = ℕ

-- `listNode`; a value is the `void *` that the node holds
pub record Node : Type 0 where
  pub prev : Address
  pub next : Address
  pub value : ℕ

abbrev pub null : Address
null = 0

-- A node between two addresses.
abbrev pub linked : Address → Address → ℕ → Node
linked before behind v = record { value = v; prev = before; next = behind }

abbrev pub Heap : Type 0
Heap = Address → Option Node

abbrev pub Access : Type 0 → Type 0
Access A = Heap → Option (A × Heap)

-- The heap where `there` holds `content`, a node or nothing.
unfoldable pub assign : Heap → Address → Option Node → Heap
assign heap there content at_ = if at_ == there then content else heap at_

-- The node at an address.
unfoldable pub fetch : Address → Access Node
fetch there heap =
    if there == null
    then none
    else elim (heap there) [ some found ↦ some (found, heap) | none ↦ none ]

abbrev pub put_back : Address → Option Node → Access (Unit {0})
put_back there content heap = some (tt, assign heap there content)

-- A result without an access.
abbrev pub pure : {R : Type 0} → R → Access R
pure result heap = some (result, heap)

-- One access after another; a fault ends the chain.
module _ {R S : Type 0} where
  abbrev pub go_on_with : Option (R × Heap) → (R → Access S) → Option (S × Heap)
  go_on_with (some (result, heap)) rest = rest result heap
  go_on_with none rest = none

  infixl 5 ◌>>=◌ ◌>>◌
  abbrev pub ◌>>=◌ : Access R → (R → Access S) → Access S
  access >>= rest = λ heap. go_on_with (access heap) rest

  abbrev pub ◌>>◌ : Access R → Access S → Access S
  access >> rest = access >>= λ result. rest

-- `p->prev = q`
unfoldable pub set_prev : Address → Address → Access (Unit {0})
set_prev p q = do old ← fetch p; put_back p (some (record old { prev = q }))

-- `p->next = q`
unfoldable pub set_next : Address → Address → Access (Unit {0})
set_next p q = do old ← fetch p; put_back p (some (record old { next = q }))

-- `zfree(p)`
unfoldable pub free : Address → Access (Unit {0})
free p = do old ← fetch p; put_back p none
