-- ===== src/Redis/SortOrder.antt =====
-- The order in which SORT of redis/src/redis.c replies.
use homemade.Prelude.{◌≡◌, Bool, true, false, List, [], ◌∷◌, ◌⊎◌}
use homemade.Prelude.Int.{ℤ, pos_part, neg_part}
use homemade.Redis.Object.{Bytes}
use homemade.Redis.State.{State}
use homemade.Redis.Sort.{SortObject}
use homemade.Redis.SortLaws.{Vector}

module _ {Score : Type 0} (zero_score : Score) (strtod : Bytes → Score)
    (less : Score → Score → Bool) (strcoll : Bytes → Bytes → ℤ) where
  abbrev Item : Type 0
  Item = SortObject zero_score strtod less strcoll

  -- Whether `x` may stand in front of `y`, under DESC and under ALPHA.
  abbrev pub InOrder : Bool → Bool → Bytes → Bytes → Type 0
  InOrder false false x y = less (strtod y) (strtod x) ≡ false
  InOrder true false x y =
      (less (strtod y) (strtod x) ≡ true) ⊎ (less (strtod x) (strtod y) ≡ false)
  InOrder false true x y = pos_part (strcoll x y) ≡ 0
  InOrder true true x y = neg_part (strcoll x y) ≡ 0

  abbrev pub AllInOrder : Bool → Bool → List Bytes → Type 0
  AllInOrder desc alpha [] = Unit
  AllInOrder desc alpha (x ∷ []) = Unit
  AllInOrder desc alpha (x ∷ y ∷ xs) = InOrder desc alpha x y × AllInOrder desc alpha (y ∷ xs)

  -- What `qsort` leaves: no element is greater than the next one.
  abbrev pub Ascending : (Item → Item → ℤ) → Vector zero_score strtod less strcoll → Type 0
  Ascending f [] = Unit
  Ascending f (a ∷ []) = Unit
  Ascending f (a ∷ b ∷ v) = (pos_part (f a b) ≡ 0) × Ascending f (b ∷ v)

  -- The weight of an element that is sorted by its own number.
  abbrev Weighed : Bool → Item → Type 0
  Weighed false a = a.score ≡ strtod a.obj
  Weighed true a = Unit

  abbrev AllWeighed : Bool → List Item → Type 0
  AllWeighed alpha [] = Unit
  AllWeighed alpha (a ∷ v) = Weighed alpha a × AllWeighed alpha v
