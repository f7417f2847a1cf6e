-- ===== src/Dict/Rehash.antt =====
-- The loops of `dictExpand`: every entry reaches its home in the new table, and `used` counts down to
-- zero.
use homemade.Prelude.{
  ℕ, zero, suc, ◌+◌, ◌<◌, ◌≡◌, ◌≢◌, refl, ◌∙◌, Option, none, some, List, [], ◌∷◌, arith,
  if◌then◌else◌, length, get_or, set, length-set, Bool-cases, inl, inr, dec32, ltb,
}
use homemade.Dict.Types.{Entry, DictType, Chain, compare_hash_keys, slot_of}
use homemade.Dict.Chain.{find_entry, IsLawful}
use homemade.Dict.Table.{move_chain, rehash}
use homemade.Dict.Placed.{
  or_else, total, HomeChain, Homes, find_in, find_entry_congr, find_entry-elsewhere,
  push_head-Homes, find_in-push_head, total-push_head,
}

-- What a table with slots holds.
pub record Holds {K V : Type 0} (T : DictType K V) (mask n : ℕ) (f : K → Option (Entry K V))
    (cs : List (Chain K V)) : Type 0 where
  pub width : length cs ≡ mask + 1
  pub homes : Homes T mask 0 cs
  pub count : total cs ≡ n
  pub reads : (q : K) → find_in T mask cs q ≡ f q

module _ {K V : Type 0} {T : DictType K V} (L : IsLawful T) where
  -- What a walk over all chains finds first.
  abbrev pub find_all : K → List (Chain K V) → Option (Entry K V)
  find_all q [] = none
  find_all q (c ∷ cs) = or_else (find_entry T q c) (find_all q cs)

  find_all-below :
      (q : K) (mask i : ℕ) (cs : List (Chain K V))
      → Homes T mask i cs
      → slot_of T q mask < i
      → find_all q cs ≡ none
  find_all-below q mask i [] h lt = refl
  find_all-below q mask i (c ∷ cs) h lt =
      rw (find_entry-elsewhere L q mask i c h.0 (omega arith))
        (find_all-below q mask (suc i) cs h.1 (omega arith))

  find_all-home :
      (q : K) (mask i j : ℕ) (cs : List (Chain K V))
      → Homes T mask i cs
      → slot_of T q mask ≡ i + j
      → find_all q cs ≡ find_entry T q (get_or cs j [])
  unfolding find_entry
  find_all-home q mask i j [] h e = refl
  find_all-home q mask i zero (c ∷ cs) h e =
      ground (arith, find_all-below q mask (suc i) cs h.1 (omega arith))
  find_all-home q mask i (suc j) (c ∷ cs) h e =
      rw (find_entry-elsewhere L q mask i c h.0 (omega arith))
        (find_all-home q mask (suc i) j cs h.1 (omega arith))

  pub find_all-find_in :
      (q : K) (mask : ℕ) (cs : List (Chain K V))
      → Homes T mask 0 cs
      → find_all q cs ≡ find_in T mask cs q
  find_all-find_in q mask cs h = find_all-home q mask 0 _ cs h (omega arith)

  find_all-empty : (q : K) (cs : List (Chain K V)) → total cs ≡ 0 → find_all q cs ≡ none
  unfolding find_entry
  find_all-empty q [] h = refl
  find_all-empty q ([] ∷ cs) h = find_all-empty q cs (omega arith)
  find_all-empty q ((e ∷ c) ∷ cs) h = absurd (omega arith)

  pub Holds-ext :
      {mask n n' : ℕ} {f g : K → Option (Entry K V)} {cs : List (Chain K V)}
      → Holds T mask n f cs
      → n ≡ n'
      → ((q : K) → f q ≡ g q)
      → Holds T mask n' g cs
  Holds-ext t e h = record {
    width = t.width;
    homes = t.homes;
    count = t.count ∙ e;
    reads = λ q. t.reads q ∙ h q;
  }

  -- A new entry at the head of its slot.
  pub push_head-Holds :
      {mask n : ℕ} {f : K → Option (Entry K V)} {cs : List (Chain K V)} (e : Entry K V)
      → Holds T mask n f cs
      → f e.key ≡ none
      → Holds T mask
          (n + 1)
          (λ q. if compare_hash_keys T q e.key then some e else f q)
          (set cs (slot_of T e.key mask) (e ∷ get_or cs (slot_of T e.key mask) []))
  push_head-Holds {mask} {cs} e t absent =
      let absent' = t.reads e.key ∙ absent in
      record {
        width = length-set cs _ _ ∙ t.width;
        homes = push_head-Homes L mask cs t.width t.homes e absent';
        count = omega (arith, total-push_head L mask cs t.width t.homes e absent');
        reads = λ q. rw (find_in-push_head L mask cs t.width t.homes e absent' q, t.reads q);
      }

  -- One chain, whose keys the new table does not hold yet.
  move_chain-Holds :
      (mask mask' i used n : ℕ) (c : Chain K V) (fresh : List (Chain K V))
      (f : K → Option (Entry K V))
      → HomeChain T mask i c
      → used ≡ length c + n
      → used < 4294967296
      → (m : ℕ) → Holds T mask' m f fresh
      → ((q : K) → find_entry T q c ≢ none → f q ≡ none)
      → ((move_chain T mask' used c fresh).0 ≡ n)
        × Holds T mask'
            (m + length c)
            (λ q. or_else (find_entry T q c) (f q))
            (move_chain T mask' used c fresh).1
  unfolding move_chain find_entry
  move_chain-Holds mask mask' i used n [] fresh f h u lt m t apart =
      (omega arith, Holds-ext t (omega arith) (λ q. refl))
  move_chain-Holds mask mask' i used n (e ∷ c) fresh f h u lt m t apart =
      let absent : f e.key ≡ none = apart e.key (ground (arith, L.same_refl e.key)) in
      let pushed = push_head-Holds e t absent in
      let (count, rest) =
        move_chain-Holds mask mask' i (dec32 used) n c _ _ h.2 (omega arith) (omega arith) (m + 1)
          pushed (λ q ne. ground (arith, apart q, h.1, find_entry_congr L q e.key c)) in
      (
        count,
        Holds-ext rest (omega arith)
            (λ q. ground (arith, h.1, absent, find_entry_congr L q e.key c)),
      )

  pub rehash-Holds :
      (mask mask' i used : ℕ) (cs fresh : List (Chain K V)) (f : K → Option (Entry K V))
      → Homes T mask i cs
      → used ≡ total cs
      → used < 4294967296
      → (m : ℕ) → Holds T mask' m f fresh
      → ((q : K) → find_all q cs ≢ none → f q ≡ none)
      → ((rehash T mask' used cs fresh).0 ≡ 0)
        × Holds T mask'
            (m + total cs)
            (λ q. or_else (find_all q cs) (f q))
            (rehash T mask' used cs fresh).1
  unfolding rehash
  rehash-Holds mask mask' i used [] fresh f h u lt m t apart =
      (omega arith, Holds-ext t (omega arith) (λ q. refl))
  rehash-Holds mask mask' i used (c ∷ cs) fresh f h u lt m t apart =
      elim (Bool-cases (ltb 0 used)) [
        | inl more ↦
            let (left, moved) =
              move_chain-Holds mask mask' i used (total cs) c fresh f h.0 u lt m t
                (λ q ne. apart q (ground arith)) in
            let (done, rest) =
              rehash-Holds mask mask' (suc i) _ cs _ _ h.1 left (omega arith) (m + length c) moved
                (λ q ne. ground (
                  arith,
                  apart q,
                  find_all-below q mask (suc i) cs h.1,
                  find_entry-elsewhere L q mask i c h.0,
                )) in
            rw more (
              done,
              Holds-ext rest (omega arith) (λ q. ground (
                arith,
                find_all-below q mask (suc i) cs h.1,
                find_entry-elsewhere L q mask i c h.0,
              )),
            )
        | inr over ↦
            let empty : total (c ∷ cs) ≡ 0 = ground arith in
            rw over
              (ground arith, Holds-ext t (omega arith) (λ q. rw (find_all-empty q (c ∷ cs) empty)))
      ]
