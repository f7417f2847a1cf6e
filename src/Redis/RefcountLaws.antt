-- ===== src/Redis/RefcountLaws.antt =====
-- The reference counts of redis/src/redis.c count the references, and an object that is used again or freed
-- has none.
use homemade.Prelude.{
  ℕ, zero, suc, ◌+◌, ◌-◌, ◌≤◌, ◌<◌, ◌≡◌, ◌≢◌, refl, sym, ap, ◌∙◌, false, Option, some, List, [],
  ◌∷◌, ◌++◌, arith, inl, inr, length, if◌then◌else◌, ltb, ◌==◌, Bool-cases,
}
use homemade.Redis.Refcounts.{
  Counted, Store, object_at, put_object, children, with_count, recycle, release_all, decr_ref_count,
}

abbrev pub count : ℕ → List ℕ → ℕ
count x [] = 0
count x (y ∷ ys) = (if y == x then 1 else 0) + count x ys

-- How often an object refers to another; one that is not in use does not count.
abbrev pub contrib : ℕ → Counted → ℕ
contrib x o = if o.refcount == 0 then 0 else count x (children o.payload)

abbrev pub refs : ℕ → List (ℕ × Counted) → ℕ
refs x [] = 0
refs x ((a, o) ∷ os) = contrib x o + refs x os

abbrev pub total : List (ℕ × Counted) → ℕ
total [] = 0
total ((a, o) ∷ os) = o.refcount + total os

-- The count of an object is the number of references to it, from objects in use and from `held`, the
-- references that the program holds elsewhere. `dying` and the objects to use again are not in use, and
-- none of them is there twice.
pub record IsCounted (held dying : List ℕ) (st : Store) : Type 0 where
  pub counts : (x : ℕ) → (object_at x st.objects).refcount ≡ refs x st.objects + count x held
  pub once : (x : ℕ) → count x dying + count x st.objfreelist ≤ 1
  pub idle :
      (x : ℕ) → 0 < count x dying + count x st.objfreelist → (object_at x st.objects).refcount ≡ 0

object_at-put_object :
    (x a : ℕ) (o : Counted) (os : List (ℕ × Counted))
    → object_at x (put_object a o os) ≡ (if a == x then o else object_at x os)
unfolding object_at put_object
object_at-put_object x a o [] = refl
object_at-put_object x a o ((b, p) ∷ os) = ground (arith, object_at-put_object x a o os)

total-put_object :
    (a : ℕ) (o : Counted) (os : List (ℕ × Counted))
    → total (put_object a o os) + (object_at a os).refcount ≡ total os + o.refcount
unfolding object_at put_object
total-put_object a o [] = omega arith
total-put_object a o ((b, p) ∷ os) = ground (arith, total-put_object a o os)

pub refs-put_object :
    (x a : ℕ) (o : Counted) (os : List (ℕ × Counted))
    → refs x (put_object a o os) + contrib x (object_at a os) ≡ refs x os + contrib x o
unfolding object_at put_object
refs-put_object x a o [] = omega arith
refs-put_object x a o ((b, p) ∷ os) = elim (Bool-cases (b == a)) [
  | inl here ↦ rw here (omega arith)
  | inr other ↦ rw other (omega (arith, refs-put_object x a o os))
]

refcount-le-total : (a : ℕ) (os : List (ℕ × Counted)) → (object_at a os).refcount ≤ total os
unfolding object_at
refcount-le-total a [] = omega arith
refcount-le-total a ((b, p) ∷ os) = ground (arith, refcount-le-total a os)

pub count-append : (x : ℕ) (ys zs : List ℕ) → count x (ys ++ zs) ≡ count x ys + count x zs
count-append x [] zs = omega arith
count-append x (y ∷ ys) zs = omega (arith, count-append x ys zs)

-- A run that ends, with the references that are left and fewer counts.
pub record Drops (fewer : ℕ) (held dying : List ℕ) (st : Store) (run : Option Store) : Type 0 where
  pub store : Store
  pub ends : run ≡ some store
  pub counted : IsCounted held dying store
  pub less : total store.objects + fewer ≤ total st.objects

recycle-IsCounted :
    (a : ℕ) (held dying : List ℕ) (st : Store)
    → IsCounted held (a ∷ dying) st
    → IsCounted held dying (recycle a st)
unfolding recycle
recycle-IsCounted a held dying st v = elim (Bool-cases (ltb 1000000 (length st.objfreelist))) [
  | inl full ↦ rw full (record {
    counts = v.counts;
    once = λ x. omega (arith, v.once x);
    idle = λ x h. v.idle x (omega arith);
  })
  | inr room ↦ rw room (record {
    counts = v.counts;
    once = λ x. omega (arith, v.once x);
    idle = λ x h. v.idle x (omega arith);
  })
]

contrib_one : (x : ℕ) (o : Counted) → o.refcount ≡ 1 → contrib x o ≡ count x (children o.payload)
contrib_one x o one = ground (arith, one)

-- The count after a write.
pub refcount-put_object :
    (x a : ℕ) (o : Counted) (os : List (ℕ × Counted))
    → (object_at x (put_object a o os)).refcount
      ≡ (if a == x then o.refcount else (object_at x os).refcount)
unfolding object_at put_object
refcount-put_object x a o [] = ground arith
refcount-put_object x a o ((b, p) ∷ os) = ground (arith, refcount-put_object x a o os)

-- The last reference to an object is gone: its own references are held now, and it is dying.
last-IsCounted :
    (a : ℕ) (held dying : List ℕ) (st : Store)
    → (object_at a st.objects).refcount ≡ 1
    → IsCounted (a ∷ held) dying st
    → IsCounted (children (object_at a st.objects).payload ++ held) (a ∷ dying) (with_count a 0 st)
last-IsCounted a held dying st one v =
    let o = object_at a st.objects in
    let o' : Counted = record o { refcount = 0 } in
    let ch = children o.payload in
    let at_a : 1 ≡ refs a st.objects + (1 + count a held) = sym one ∙ v.counts a ∙ ground arith in
    let new = put_object a o' st.objects in
    let at_new = λ (x : ℕ). refcount-put_object x a o' st.objects in
    let moved : (x : ℕ) → refs x new + count x ch ≡ refs x st.objects =
      λ x. omega (arith, refs-put_object x a o' st.objects, contrib_one x o one) in
    record {
      counts = λ x. elim (Bool-cases (a == x)) [
        | inl here ↦
            let same : a ≡ x = ground (arith, here) in
            rw (← same) (ground (arith, at_new a, moved a, at_a, count-append a ch held))
        | inr other ↦ ground (arith, at_new x, moved x, other, v.counts x, count-append x ch held)
      ];
      once = λ x. elim (Bool-cases (a == x)) [
        | inl here ↦
            let same : a ≡ x = ground (arith, here) in
            rw (← same) (ground (arith, v.once a, v.idle a, one))
        | inr other ↦ ground (arith, other, v.once x)
      ];
      idle = λ x h. elim (Bool-cases (a == x)) [
        | inl here ↦ ground (arith, at_new x, here)
        | inr other ↦ ground (arith, at_new x, other, v.idle x)
      ];
    }

-- Another count, where the object stays in use: as many references more or fewer are held.
pub recount-IsCounted :
    (a n : ℕ) (held held' dying : List ℕ) (st : Store)
    → (object_at a st.objects).refcount ≢ 0
    → n ≢ 0
    → ((x : ℕ)
        → count x held' + (if a == x then (object_at a st.objects).refcount else 0)
          ≡ count x held + (if a == x then n else 0))
    → IsCounted held dying st
    → IsCounted held' dying (with_count a n st)
recount-IsCounted a n held held' dying st used used' same v =
    let o = object_at a st.objects in
    let o' : Counted = record o { refcount = n } in
    let new = put_object a o' st.objects in
    let at_new = λ (x : ℕ). refcount-put_object x a o' st.objects in
    let kept : (x : ℕ) → contrib x o' ≡ contrib x o = λ x. ground arith in
    let moved : (x : ℕ) → refs x new ≡ refs x st.objects =
      λ x. omega (arith, refs-put_object x a o' st.objects, kept x) in
    record {
      counts = λ x. elim (Bool-cases (a == x)) [
        | inl here ↦
            let it : a ≡ x = ground (arith, here) in
            rw (← it) (ground (arith, at_new a, moved a, v.counts a, same a))
        | inr other ↦ ground (arith, at_new x, moved x, other, v.counts x, same x)
      ];
      once = v.once;
      idle = λ x h. elim (Bool-cases (a == x)) [
        | inl here ↦
            let it : a ≡ x = ground (arith, here) in
            absurd (used (ap (λ y. (object_at y st.objects).refcount) it ∙ v.idle x h))
        | inr other ↦ ground (arith, at_new x, other, v.idle x)
      ];
    }

release_all-Drops :
    (decr : ℕ → Store → Option Store) (fuel : ℕ)
    → ((a : ℕ) (held dying : List ℕ) (st : Store)
        → IsCounted (a ∷ held) dying st
        → total st.objects ≤ fuel
        → Drops 1 held dying st (decr a st))
    → (xs held dying : List ℕ) (st : Store) → IsCounted (xs ++ held) dying st
    → total st.objects ≤ fuel
    → Drops 0 held dying st (release_all decr xs st)
unfolding release_all
release_all-Drops decr fuel ih [] held dying st v h = record {
  store = st;
  ends = refl;
  counted = v;
  less = omega arith;
}
release_all-Drops decr fuel ih (x ∷ xs) held dying st v h =
    let d = ih x (xs ++ held) dying st v h in
    let e =
      release_all-Drops decr fuel ih xs held dying d.store d.counted (omega (arith, d.less)) in
    record {
      store = e.store;
      ends = rw d.ends e.ends;
      counted = e.counted;
      less = omega (arith, d.less, e.less);
    }

total-recycle : (a : ℕ) (st : Store) → total (recycle a st).objects ≡ total st.objects
unfolding recycle
total-recycle a st = elim (Bool-cases (ltb 1000000 (length st.objfreelist))) [
  | inl full ↦ rw full refl
  | inr room ↦ rw room refl
]

-- Where the counts are the references, `decrRefCount` of an object that the program holds ends, with a fuel
-- that is the sum of all counts, which is smaller by one at least. The counts are the references again, with
-- the one to this object gone; no object in use is on the list of those to use again, and none is there
-- twice.
pub decr_ref_count-Drops :
    (fuel a : ℕ) (held dying : List ℕ) (st : Store)
    → IsCounted (a ∷ held) dying st
    → total st.objects ≤ fuel
    → Drops 1 held dying st (decr_ref_count fuel a st)
unfolding decr_ref_count
decr_ref_count-Drops zero a held dying st v h =
    absurd (omega (arith, v.counts a, refcount-le-total a st.objects, count_self a held))
  where
    count_self : (a : ℕ) (held : List ℕ) → 1 ≤ count a (a ∷ held)
    count_self a held = ground arith
decr_ref_count-Drops (suc fuel) a held dying st v h =
    let o = object_at a st.objects in
    let some_refs : 1 ≤ o.refcount = ground (arith, v.counts a) in
    let t = with_count a (o.refcount - 1) st in
    let fewer : total t.objects + 1 ≡ total st.objects =
      omega (arith, total-put_object a (record o { refcount = o.refcount - 1 }) st.objects) in
    let in_use : (o.refcount == 0) ≡ false = ground arith in
    elim (Bool-cases (o.refcount == 1)) [
      | inl last ↦
          let one : o.refcount ≡ 1 = ground (arith, last) in
          let none_left : o.refcount - 1 ≡ 0 = omega (arith, one) in
          let w = with_count a 0 st in
          let less : total w.objects + 1 ≡ total st.objects =
            omega (arith, one, total-put_object a (record o { refcount = 0 }) st.objects) in
          let d =
            release_all-Drops (decr_ref_count fuel) fuel (decr_ref_count-Drops fuel)
              (children o.payload) held (a ∷ dying) w (last-IsCounted a held dying st one v)
              (omega (arith, less)) in
          rw (in_use, last, none_left, d.ends)
            (record {
              store = recycle a d.store;
              ends = refl;
              counted = recycle-IsCounted a held dying d.store d.counted;
              less = omega (arith, less, d.less, total-recycle a d.store);
            })
      | inr more ↦
          let counted : IsCounted held dying t =
            recount-IsCounted a (o.refcount - 1) (a ∷ held) held dying st (ground arith)
              (ground arith) (λ x. ground (arith, some_refs)) v in
          rw (in_use, more)
            (record { store = t; ends = refl; counted = counted; less = omega (arith, fewer) })
    ]
