-- ===== src/Redis/Members.antt =====
-- What adding and deleting a member does to the members of a set.
use homemade.Prelude.{
  ◌+◌, ◌<◌, ◌≡◌, refl, ap, ◌∙◌, Bool, true, false, some, arith, if◌then◌else◌, Option-cases, inl,
  inr, Bool-cases, is_some,
}
use homemade.Dict.Types.{Dict, dict_ok, dict_err, compare_hash_keys}
use homemade.Dict.Ops.{find, add, delete}
use homemade.Dict.Grow.{IsValid}
use homemade.Dict.Add.{max_size, add-IsAdded, add-present}
use homemade.Dict.Change.{delete-IsDeleted, delete_absent}
use homemade.Redis.Object.{Bytes, set_dict_type, set_dict_type-IsLawful, same-set_dict_type_iff}

abbrev pub Members : Type 0
Members = Dict Bytes (Unit {0})

abbrev pub has : Members → Bytes → Bool
has d x = is_some (find set_dict_type d x)

-- `d'` has the members of `d` and `v`, and the right count of them.
pub record IsWith (d d' : Members) (v : Bytes) : Type 0 where
  pub valid : IsValid set_dict_type d'
  pub used : d'.used ≡ (if has d v then d.used else d.used + 1)
  pub members :
      (x : Bytes) → has d' x ≡ (if compare_hash_keys set_dict_type x v then true else has d x)

-- `d'` has the members of `d` but `v`, and the right count of them.
pub record IsWithout (d d' : Members) (v : Bytes) : Type 0 where
  pub valid : IsValid set_dict_type d'
  pub used : d'.used + (if has d v then 1 else 0) ≡ d.used
  pub members :
      (x : Bytes) → has d' x ≡ (if compare_hash_keys set_dict_type x v then false else has d x)

-- The members are compared by their bytes, so what holds of one holds of the other.
has-same :
    (d : Members) (x v : Bytes) → compare_hash_keys set_dict_type x v ≡ true → has d x ≡ has d v
has-same d x v same = ap (λ y. has d y) ((same-set_dict_type_iff x v).0 same)

has_member :
    (d : Members) (x v : Bytes) (b : Bool)
    → has d v ≡ b
    → has d x ≡ (if compare_hash_keys set_dict_type x v then b else has d x)
has_member d x v b h = elim (Bool-cases (compare_hash_keys set_dict_type x v)) [
  | inl same ↦ rw same (has-same d x v same ∙ h)
  | inr other ↦ rw other refl
]

pub add-IsWith :
    (d : Members) (v : Bytes)
    → IsValid set_dict_type d
    → d.used < max_size
    → (d' : Members) × (add set_dict_type d v tt ≡ some (d', if has d v then dict_err else dict_ok))
      × IsWith d d' v
add-IsWith d v valid room = elim (Option-cases (find set_dict_type d v)) [
  | inl absent ↦
      let (d', run, a) = add-IsAdded set_dict_type-IsLawful d v tt valid room absent in
      (
        d',
        rw absent run,
        record {
          valid = a.valid;
          used = rw absent a.used;
          members = λ x. rw (a.finds x) (ground arith);
        },
      )
  | inr (e, present) ↦
      let (d', run, r) = add-present set_dict_type-IsLawful d v tt e valid room present in
      (
        d',
        rw present run,
        record {
          valid = r.valid;
          used = rw present r.used;
          members = λ x. rw (r.finds x) (has_member d x v true (ap is_some present));
        },
      )
]

pub delete-IsWithout :
    (d : Members) (v : Bytes)
    → IsValid set_dict_type d
    → (d' : Members) × ((delete set_dict_type d v).0 ≡ d')
      × ((delete set_dict_type d v).1 ≡ (if has d v then dict_ok else dict_err))
      × IsWithout d d' v
unfolding delete
delete-IsWithout d v valid = elim (Option-cases (find set_dict_type d v)) [
  | inl absent ↦
      let run = delete_absent set_dict_type-IsLawful d v false valid absent in
      (
        d,
        ap (λ r. r.0) run,
        rw absent (ap (λ r. r.1) run),
        record {
          valid = valid;
          used = rw absent (omega arith);
          members = λ x. has_member d x v false (ap is_some absent);
        },
      )
  | inr (e, present) ↦
      let (d', run, r) = delete-IsDeleted set_dict_type-IsLawful d v false e valid present in
      (
        d',
        ap (λ r. r.0) run,
        rw present (ap (λ r. r.1) run),
        record {
          valid = r.valid;
          used = rw present r.used;
          members = λ x. rw (r.finds x) (ground arith);
        },
      )
]
