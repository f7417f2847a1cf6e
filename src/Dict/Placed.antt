-- ===== src/Dict/Placed.antt =====
-- Where the entries of a table stand, what the table means, and a write at the head of a slot.
use homemade.Prelude.{
  ℕ, zero, suc, ◌+◌, ◌≤◌, ◌<◌, ◌≡◌, ◌≢◌, refl, true, Option, none, some, List, [], ◌∷◌, arith, ◌==◌,
  if◌then◌else◌, length, get_or, set,
}
use homemade.Prelude.Bits.{bit_and-le}
use homemade.Dict.Types.{Entry, DictType, Chain, compare_hash_keys, slot_of}
use homemade.Dict.Chain.{find_entry, IsLawful}

abbrev pub or_else {ℓ} : {A : Type ℓ} → Option A → Option A → Option A
or_else none b = b
or_else (some a) b = some a

abbrev pub total : {K V : Type 0} → List (Chain K V) → ℕ
total [] = 0
total (c ∷ cs) = length c + total cs

pub get_or-set {ℓ} :
    {A : Type ℓ} (cs : List A) (i j : ℕ) (c d : A)
    → j < length cs
    → get_or (set cs j c) i d ≡ (if i == j then c else get_or cs i d)
get_or-set [] i j c d h = elim h [ ]
get_or-set (x ∷ cs) zero zero c d h = refl
get_or-set (x ∷ cs) zero (suc j) c d h = ground arith
get_or-set (x ∷ cs) (suc i) zero c d h = ground arith
get_or-set (x ∷ cs) (suc i) (suc j) c d h = ground (arith, get_or-set cs i j c d)

pub total-set :
    {K V : Type 0} (cs : List (Chain K V)) (j : ℕ) (c : Chain K V)
    → j < length cs
    → total (set cs j c) + length (get_or cs j []) ≡ total cs + length c
total-set [] j c h = elim h [ ]
total-set (x ∷ cs) zero c h = omega arith
total-set (x ∷ cs) (suc j) c h = omega (arith, total-set cs j c (omega arith))

module _ {K V : Type 0} (T : DictType K V) where
  -- Every entry of slot `i` has its home there, and no key occurs twice.
  abbrev pub HomeChain : ℕ → ℕ → Chain K V → Type 0
  HomeChain mask i [] = Unit
  HomeChain mask i (e ∷ c) =
      (slot_of T e.key mask ≡ i) × (find_entry T e.key c ≡ none) × HomeChain mask i c

  -- The chains from slot `i` on.
  abbrev pub Homes : ℕ → ℕ → List (Chain K V) → Type 0
  Homes mask i [] = Unit
  Homes mask i (c ∷ cs) = HomeChain mask i c × Homes mask (suc i) cs

  -- What `dictFind` reads in a table with slots.
  abbrev pub find_in : ℕ → List (Chain K V) → K → Option (Entry K V)
  find_in mask cs q = find_entry T q (get_or cs (slot_of T q mask) [])

  pub slot_of-le : (q : K) (mask : ℕ) → slot_of T q mask ≤ mask
  unfolding slot_of
  slot_of-le q mask = bit_and-le (T.hash_function q) mask

  pub Homes-get_or :
      (mask i j k : ℕ) (cs : List (Chain K V))
      → i + j ≡ k
      → Homes mask i cs
      → HomeChain mask k (get_or cs j [])
  Homes-get_or mask i j k [] e h = tt
  Homes-get_or mask i zero k (c ∷ cs) e h = let e' : i ≡ k = omega arith in rw (← e') h.0
  Homes-get_or mask i (suc j) k (c ∷ cs) e h = Homes-get_or mask (suc i) j k cs (omega arith) h.1

  pub Homes-set :
      (mask i j k : ℕ) (cs : List (Chain K V)) (c : Chain K V)
      → i + j ≡ k
      → Homes mask i cs
      → HomeChain mask k c
      → Homes mask i (set cs j c)
  Homes-set mask i j k [] c e h hc = tt
  Homes-set mask i zero k (x ∷ cs) c e h hc = let e' : i ≡ k = omega arith in (rw e' hc, h.1)
  Homes-set mask i (suc j) k (x ∷ cs) c e h hc =
      (h.0, Homes-set mask (suc i) j k cs c (omega arith) h.1 hc)

module _ {K V : Type 0} {T : DictType K V} (L : IsLawful T) where
  pub slot_of_congr :
      (a b : K) (mask : ℕ) → compare_hash_keys T a b ≡ true → slot_of T a mask ≡ slot_of T b mask
  unfolding slot_of
  slot_of_congr a b mask h = rw (L.hash-same a b h)

  pub same_congr :
      (a b c : K)
      → compare_hash_keys T a b ≡ true
      → compare_hash_keys T a c ≡ compare_hash_keys T b c
  same_congr a b c h = ground (arith, L.same_symm a b, L.same_trans a b c, L.same_trans b a c)

  pub find_entry_congr :
      (a b : K) (c : Chain K V)
      → compare_hash_keys T a b ≡ true
      → find_entry T a c ≡ find_entry T b c
  unfolding find_entry
  find_entry_congr a b [] h = refl
  find_entry_congr a b (e ∷ c) h = ground (arith, same_congr a b e.key, find_entry_congr a b c)

  -- A key is not found outside its home.
  pub find_entry-elsewhere :
      (q : K) (mask i : ℕ) (c : Chain K V)
      → HomeChain T mask i c
      → slot_of T q mask ≢ i
      → find_entry T q c ≡ none
  unfolding find_entry
  find_entry-elsewhere q mask i [] h ne = refl
  find_entry-elsewhere q mask i (e ∷ c) h ne =
      ground (arith, slot_of_congr q e.key mask, find_entry-elsewhere q mask i c)

  -- A new entry at the head of its home slot.
  module _ (mask : ℕ) (cs : List (Chain K V)) (width : length cs ≡ mask + 1)
      (homes : Homes T mask 0 cs) (e : Entry K V) (absent : find_in T mask cs e.key ≡ none) where
    abbrev pub push_head : List (Chain K V)
    push_head = set cs (slot_of T e.key mask) (e ∷ get_or cs (slot_of T e.key mask) [])

    slot-lt : slot_of T e.key mask < length cs
    slot-lt = omega (arith, slot_of-le T e.key mask)

    pub push_head-Homes : Homes T mask 0 push_head
    push_head-Homes =
        Homes-set T mask 0 _ _ cs _ (omega arith) homes
          (refl, absent, Homes-get_or T mask 0 _ _ cs (omega arith) homes)

    pub find_in-push_head :
        (q : K)
        → find_in T mask push_head q
          ≡ (if compare_hash_keys T q e.key then some e else find_in T mask cs q)
    unfolding find_entry
    find_in-push_head q =
        rw (get_or-set cs (slot_of T q mask) (slot_of T e.key mask) _ [] slot-lt)
          (ground (arith, slot_of_congr q e.key mask))

    pub total-push_head : total push_head ≡ total cs + 1
    total-push_head = omega (
      arith,
      total-set cs (slot_of T e.key mask) (e ∷ get_or cs (slot_of T e.key mask) []) slot-lt,
    )
