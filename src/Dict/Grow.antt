-- ===== src/Dict/Grow.antt =====
-- `dictExpand` and `dictResize`: a table of the next power of two that holds the same entries.
use homemade.Prelude.{
  ℕ, zero, suc, ◌+◌, ◌-◌, ◌*◌, ◌%◌, ◌^◌, ◌≤◌, ◌<◌, ◌≡◌, ◌≢◌, refl, sym, ap, ◌∙◌, true, false,
  Option, none, some, List, [], ◌∷◌, arith, ◌==◌, leb, if◌then◌else◌, length, get_or, Bool-cases,
  inl, inr, ==_iff, replicate, length-replicate, ltb, ◌>>=◌, max, min, ◌⊎◌,
}
use native.Mathlib.Nat.{pow-suc, pow-le-pow_right}
use homemade.Dict.Types.{DictType, Chain, Dict, dict_ok, dict_err, initial_size}
use homemade.Dict.Chain.{find_entry, IsLawful}
use homemade.Dict.Table.{next_power_loop, next_power, rehash, rebuild, expand, resize, create}
use homemade.Dict.Ops.{find}
use homemade.Dict.Placed.{or_else, total, Homes, find_in}
use homemade.Dict.Rehash.{Holds, find_all-find_in, rehash-Holds}

next_power_loop_lem :
    (fuel k size : ℕ)
    → size < 2147483648
    → k + fuel ≡ 32
    → k ≤ 31
    → 16 ≤ 2 ^ k
    → (2 ^ k ≡ 16) ⊎ (2 ^ k < size * 2)
    → (r n : ℕ) × (next_power_loop fuel (2 ^ k) size ≡ some r)
      × (r ≡ 2 ^ n)
      × (size ≤ r)
      × (16 ≤ r)
      × (r ≤ 2147483648)
      × ((r ≡ 16) ⊎ (r < size * 2))
unfolding next_power_loop
next_power_loop_lem zero k size h e le lo small = absurd (omega arith)
next_power_loop_lem (suc fuel) k size h e le lo small = elim (Bool-cases (leb size (2 ^ k))) [
  | inl stop ↦
      (2 ^ k, k, rw stop, refl, ground arith, lo, pow-le-pow_right {n = 2} (omega arith) le, small)
  | inr more ↦
      let below : 2 ^ k < size = ground arith in
      let next : (2 ^ k * 2) % 4294967296 ≡ 2 ^ suc k = omega (arith, pow-suc 2 k) in
      let ne : k ≢ 31 = λ k31. absurd (omega (arith, ap (λ (t : ℕ). 2 ^ t) k31)) in
      rw (more, next)
        (next_power_loop_lem fuel (suc k) size h (omega arith) (omega arith)
          (omega (arith, pow-suc 2 k)) (inr (omega (arith, pow-suc 2 k))))
]

-- `r` is the power of two that a request for `size` slots should get.
pub record IsNextPower (size r : ℕ) : Type 0 where
  pub exponent : ℕ
  pub power : r ≡ 2 ^ exponent
  pub covers : min size 2147483648 ≤ r
  pub within : (16 ≤ r) × (r ≤ 2147483648)
  pub least : (r ≡ 16) ⊎ (r < size * 2)

-- `_dictNextPower` ends and answers a power of two between 16 and 2 ^ 31 that covers the request (or
-- is 2 ^ 31, where the request is above that), and that is 16 or less than twice the request.
pub next_power-IsNextPower : (size : ℕ) → (r : ℕ) × (next_power size ≡ some r) × IsNextPower size r
unfolding next_power
next_power-IsNextPower size = elim (Bool-cases (leb 2147483648 size)) [
  | inl big ↦ (
    2147483648,
    rw big,
    record {
      exponent = 31;
      power = refl;
      covers = omega arith;
      within = omega arith;
      least = inr (ground arith);
    },
  )
  | inr small ↦
      let (r, n, run, power, covers, lo, hi, least) =
        next_power_loop_lem 28 4 size (ground arith) (omega arith) (omega arith) (omega arith)
          (inl refl) in
      (
        r,
        rw small run,
        record {
          exponent = n;
          power = power;
          covers = omega arith;
          within = (lo, hi);
          least = least;
        },
      )
]

-- What every client of a table relies on.
pub record IsValid {K V : Type 0} (T : DictType K V) (ht : Dict K V) : Type 0 where
  pub width : length ht.table ≡ ht.size
  pub mask : ht.sizemask ≡ ht.size - 1
  pub homes : Homes T ht.sizemask 0 ht.table
  pub counted : ht.used ≡ total ht.table
  pub room : ht.used ≤ ht.size
  pub bound : (ht.size ≤ 67108864) ⊎ (ht.size ≡ 134217728)

-- A power of two of less than 2 ^ 28.
power_bound : (r n : ℕ) → r ≡ 2 ^ n → r < 268435456 → (r ≤ 67108864) ⊎ (r ≡ 134217728)
power_bound r n e h = elim (Bool-cases (leb n 26)) [
  | inl few ↦
      let low : n ≤ 26 = ground arith in
      inl (omega (arith, e, pow-le-pow_right {n = 2} (omega arith) low))
  | inr many ↦ elim (Bool-cases (leb n 27)) [
    | inl last ↦ let n27 : n ≡ 27 = ground arith in inr (e ∙ ap (λ (t : ℕ). 2 ^ t) n27)
    | inr more ↦
        let high : 28 ≤ n = ground arith in
        absurd (omega (arith, e, h, pow-le-pow_right {n = 2} (omega arith) high))
  ]
]

or_else-none {ℓ} : {A : Type ℓ} (o : Option A) → or_else o none ≡ o
or_else-none none = refl
or_else-none (some a) = refl

total-replicate : (K V : Type 0) (n : ℕ) → total {K = K} {V = V} (replicate n []) ≡ 0
total-replicate K V zero = refl
total-replicate K V (suc n) = omega (arith, total-replicate K V n)

module _ {K V : Type 0} (T : DictType K V) where
  pub create-IsValid : IsValid T create
  unfolding create
  create-IsValid = record {
    width = refl;
    mask = refl;
    homes = tt;
    counted = refl;
    room = omega arith;
    bound = inl (omega arith);
  }

  replicate-Homes : (mask i n : ℕ) → Homes T mask i (replicate n [])
  replicate-Homes mask i zero = tt
  replicate-Homes mask i (suc n) = (tt, replicate-Homes mask (suc i) n)

  find_entry-replicate : (q : K) (n i : ℕ) → find_entry T q (get_or (replicate n []) i []) ≡ none
  unfolding find_entry
  find_entry-replicate q zero i = refl
  find_entry-replicate q (suc n) zero = refl
  find_entry-replicate q (suc n) (suc i) = find_entry-replicate q n i

  pub find-slots :
      (ht : Dict K V) (q : K) → 0 < ht.size → find T ht q ≡ find_in T ht.sizemask ht.table q
  unfolding find
  find-slots ht q h = let slots : (ht.size == 0) ≡ false = ground arith in rw slots

  find_entry-empty :
      (q : K) (cs : List (Chain K V)) (i : ℕ)
      → length cs ≡ 0
      → find_entry T q (get_or cs i []) ≡ none
  unfolding find_entry
  find_entry-empty q [] i h = refl
  find_entry-empty q (c ∷ cs) i h = absurd (omega arith)

  replicate-Holds : (mask n : ℕ) → n ≡ mask + 1 → Holds T mask 0 (λ _. none) (replicate n [])
  replicate-Holds mask n e = record {
    width = length-replicate n [] ∙ e;
    homes = replicate-Homes mask 0 n;
    count = total-replicate K V n;
    reads = λ q. find_entry-replicate q n _;
  }

module _ {K V : Type 0} {T : DictType K V} (L : IsLawful T) (ht : Dict K V) (v : IsValid T ht) where
  -- `find` reads the abstract map of the table.
  pub find-find_in : (q : K) → find T ht q ≡ find_in T ht.sizemask ht.table q
  unfolding find find_entry
  find-find_in q = elim (Bool-cases (ht.size == 0)) [
    | inl empty ↦
        rw empty (sym (find_entry-empty T q ht.table _ (v.width ∙ (==_iff ht.size 0).0 empty)))
    | inr slots ↦ rw slots
  ]

  -- The new table: the `assert` holds, and every lookup answers as before.
  pub record IsGrown (size : ℕ) (n : Dict K V) : Type 0 where
    pub valid : IsValid T n
    pub power : IsNextPower size n.size
    pub used : n.used ≡ ht.used
    pub finds : (q : K) → find T n q ≡ find T ht q

  rebuild-IsGrown :
      (size r : ℕ)
      → ht.used ≤ size
      → size ≤ 134217728
      → IsNextPower size r
      → (n : Dict K V) × (rebuild T r ht ≡ some n) × IsGrown size n
  unfolding rebuild
  rebuild-IsGrown size r le few p =
      let fits : ltb (r * 8) 2147483648 ≡ true = ground (arith, p.least) in
      let (left, t) =
        rehash-Holds L ht.sizemask (r - 1) 0 ht.used ht.table (replicate r []) (λ _. none) v.homes
          v.counted (omega (arith, v.room, v.bound)) 0
          (replicate-Holds T (r - 1) r (omega (arith, p.within.0))) (λ q ne. refl) in
      let n : Dict K V = record {
        table = (rehash T (r - 1) ht.used ht.table (replicate r [])).1;
        size = r;
        sizemask = r - 1;
        used = ht.used;
      } in
      (
        n,
        rw (fits, left),
        record {
          valid = record {
            width = omega (arith, t.width, p.within.0);
            mask = refl;
            homes = t.homes;
            counted = omega (arith, v.counted, t.count);
            room = omega (arith, v.room, v.bound, p.covers);
            bound = power_bound r p.exponent p.power (omega (arith, p.least));
          };
          power = p;
          used = refl;
          finds = λ q.
              find-slots T n q (omega (arith, p.within.0))
              ∙ t.reads q
              ∙ or_else-none _
              ∙ find_all-find_in L q ht.sizemask ht.table v.homes
              ∙ sym (find-find_in q);
        },
      )

  -- On a valid table, with lawful callbacks and a size that covers the entries and is no more than 2 ^ 27,
  -- so that the bytes of the new slots fit the `int` of the allocation, `dictExpand` succeeds: its `assert` holds, the new table is valid, its size is the next power of two, `used` is kept, and
  -- `dictFind` answers for every key as before.
  pub expand-IsGrown :
      (size : ℕ)
      → ht.used ≤ size
      → size ≤ 134217728
      → (n : Dict K V) × (expand T ht size ≡ some (n, dict_ok)) × IsGrown size n
  unfolding expand
  expand-IsGrown size le few =
      let (r, power, p) = next_power-IsNextPower size in
      let (n, built, grown) = rebuild-IsGrown size r le few p in
      let covered : ltb size ht.used ≡ false = ground arith in
      (n, rw (covered, power, ◌>>=◌, built), grown)

  -- A request below the number of entries is refused and changes nothing.
  pub expand-eq-err : (size : ℕ) → size < ht.used → expand T ht size ≡ some (ht, dict_err)
  unfolding expand
  expand-eq-err size lt = let refused : ltb size ht.used ≡ true = ground arith in rw refused

  -- `dictResize` never fails on a valid table.
  pub resize-IsGrown :
      (n : Dict K V) × (resize T ht ≡ some (n, dict_ok)) × IsGrown (max ht.used initial_size) n
  unfolding resize
  resize-IsGrown =
      let request : (if ltb ht.used initial_size then initial_size else ht.used)
          ≡ max ht.used initial_size =
        ground arith in
      rw request
        (expand-IsGrown (max ht.used initial_size) (omega arith) (omega (arith, v.room, v.bound)))
