-- ===== src/Redis/Refcounts.antt =====
-- Reference counts in redis/src/redis.c: `createObject` and its kin, `incrRefCount` and `decrRefCount` with
-- the list of objects to use again. An object is known by its address; one that is not in the store is not
-- in use. `none` is an `assert` that fails, or the end of the fuel.
use homemade.Prelude.{
  ℕ, zero, suc, ◌+◌, ◌-◌, Option, none, some, List, [], ◌∷◌, length, if◌then◌else◌, ltb, ◌==◌,
  ◌>>=◌,
}
use homemade.Redis.Object.{Bytes}

-- What `ptr` points at: the bytes of a string, or the objects that a list or a set holds.
pub data Payload : Type 0 where
  text : Bytes → Payload
  items members : List ℕ → Payload

pub record Counted : Type 0 where
  pub payload : Payload
  pub refcount : ℕ

pub record Store : Type 0 where
  pub objects : List (ℕ × Counted)
  pub objfreelist : List ℕ

abbrev pub unused : Counted
unused = record { payload = text []; refcount = 0 }

unfoldable pub object_at : ℕ → List (ℕ × Counted) → Counted
object_at a [] = unused
object_at a ((b, o) ∷ os) = if b == a then o else object_at a os

unfoldable pub put_object : ℕ → Counted → List (ℕ × Counted) → List (ℕ × Counted)
put_object a o [] = (a, o) ∷ []
put_object a o ((b, p) ∷ os) = if b == a then (a, o) ∷ os else (b, p) ∷ put_object a o os

-- The objects that one refers to.
abbrev pub children : Payload → List ℕ
children (text b) = []
children (items xs) = xs
children (members xs) = xs

abbrev pub written : ℕ → Counted → List ℕ → Store → Store
written a o free st = record { objects = put_object a o st.objects; objfreelist = free }

-- `createObject`, with the address that `zmalloc` would give; it returns the address of the object
unfoldable pub create_from : List ℕ → ℕ → Payload → Store → ℕ × Store
unfolding put_object
create_from [] fresh ptr st = (fresh, written fresh (record { payload = ptr; refcount = 1 }) [] st)
create_from (o ∷ free) fresh ptr st =
    (o, written o (record { payload = ptr; refcount = 1 }) free st)

unfoldable pub create_object : ℕ → Payload → Store → ℕ × Store
unfolding create_from
create_object fresh ptr st = create_from st.objfreelist fresh ptr st

-- `createStringObject`
unfoldable pub create_string_object : ℕ → Bytes → Store → ℕ × Store
unfolding create_object
create_string_object fresh bytes st = create_object fresh (text bytes) st

-- `createListObject`
unfoldable pub create_list_object : ℕ → Store → ℕ × Store
unfolding create_object
create_list_object fresh st = create_object fresh (items []) st

-- `createSetObject`
unfoldable pub create_set_object : ℕ → Store → ℕ × Store
unfolding create_object
create_set_object fresh st = create_object fresh (members []) st

abbrev pub with_count : ℕ → ℕ → Store → Store
with_count a n st =
    let o = object_at a st.objects in written a (record o { refcount = n }) st.objfreelist st

-- `incrRefCount`
unfoldable pub incr_ref_count : ℕ → Store → Store
unfolding object_at put_object
incr_ref_count a st = with_count a ((object_at a st.objects).refcount + 1) st

-- The end of `decrRefCount`: the object is kept for use again, at most `REDIS_OBJFREELIST_MAX` + 1 of them,
-- or freed.
unfoldable pub recycle : ℕ → Store → Store
recycle a st =
    if ltb 1000000 (length st.objfreelist)
    then st
    else record st { objfreelist = a ∷ st.objfreelist }

-- `decrRefCount` on each object that a list or a set held; `decr` is the function itself
unfoldable pub release_all : (ℕ → Store → Option Store) → List ℕ → Store → Option Store
release_all decr [] st = some st
release_all decr (x ∷ xs) st = decr x st >>= λ t. release_all decr xs t

-- `decrRefCount` on an object with a count
unfoldable pub decr_ref_count : ℕ → ℕ → Store → Option Store
unfolding object_at put_object recycle release_all
decr_ref_count zero a st = none
decr_ref_count (suc fuel) a st =
    let o = object_at a st.objects in
    let t = with_count a (o.refcount - 1) st in
    let freed =
      release_all (decr_ref_count fuel) (children o.payload) t >>= λ u. some (recycle a u) in
    if o.refcount == 0 then none else if o.refcount == 1 then freed else some t
