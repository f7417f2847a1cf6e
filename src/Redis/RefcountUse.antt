-- ===== src/Redis/RefcountUse.antt =====
-- `createObject` and `incrRefCount` of redis/src/redis.c keep the counts of the references.
use homemade.Prelude.{
  ℕ, ◌+◌, ◌≤◌, ◌<◌, ◌≡◌, ◌≢◌, List, [], ◌∷◌, ◌++◌, arith, inl, inr, ◌==◌, Bool-cases, List-cases,
}
use homemade.Redis.Refcounts.{
  Payload, Counted, Store, object_at, put_object, children, written, create_from, create_object,
  incr_ref_count,
}
use homemade.Redis.RefcountLaws.{
  count, refs, contrib, IsCounted, refcount-put_object, refs-put_object, count-append,
  recount-IsCounted,
}

-- An object that is not in use gets a content whose references were held, and a count of one.
fresh-IsCounted :
    (a : ℕ) (ptr : Payload) (held dying free : List ℕ) (st : Store)
    → (object_at a st.objects).refcount ≡ 0
    → count a dying + count a free ≡ 0
    → ((x : ℕ) → count x free ≤ count x st.objfreelist)
    → IsCounted (children ptr ++ held) dying st
    → IsCounted (a ∷ held) dying (written a (record { payload = ptr; refcount = 1 }) free st)
fresh-IsCounted a ptr held dying free st unused apart fewer v =
    let o' : Counted = record { payload = ptr; refcount = 1 } in
    let new = put_object a o' st.objects in
    let ch = children ptr in
    let at_new = λ (x : ℕ). refcount-put_object x a o' st.objects in
    let nothing : (x : ℕ) → contrib x (object_at a st.objects) ≡ 0 = λ x. ground (arith, unused) in
    let moved : (x : ℕ) → refs x new ≡ refs x st.objects + count x ch =
      λ x. omega (arith, refs-put_object x a o' st.objects, nothing x) in
    record {
      counts = λ x. elim (Bool-cases (a == x)) [
        | inl here ↦
            let it : a ≡ x = ground (arith, here) in
            rw (← it)
              (ground (arith, at_new a, moved a, v.counts a, count-append a ch held, unused))
        | inr other ↦ ground (arith, at_new x, moved x, other, v.counts x, count-append x ch held)
      ];
      once = λ x. omega (arith, v.once x, fewer x);
      idle = λ x h. elim (Bool-cases (a == x)) [
        | inl here ↦
            let it : a ≡ x = ground (arith, here) in
            absurd (let e = rw (← it) at h in omega (arith, e, apart))
        | inr other ↦ ground (arith, at_new x, other, v.idle x, fewer x)
      ];
    }

-- Where the counts are the references and the program holds those in the content of a new object, which
-- may then lie where nothing is in use: `createObject` takes the first object to use again, or the fresh
-- one, and the counts are the references with one to the new object in place of those in its content.
pub create_object-IsCounted :
    (fresh : ℕ) (ptr : Payload) (held dying : List ℕ) (st : Store)
    → (object_at fresh st.objects).refcount ≡ 0
    → count fresh dying + count fresh st.objfreelist ≡ 0
    → IsCounted (children ptr ++ held) dying st
    → let r = create_object fresh ptr st in IsCounted (r.0 ∷ held) dying r.1
unfolding create_object
create_object-IsCounted fresh ptr held dying st unused apart v = elim (List-cases st.objfreelist) [
  | inl empty ↦
      rw (empty, create_from)
        (fresh-IsCounted fresh ptr held dying [] st unused (omega (arith, apart)) (λ x. omega arith)
          v)
  | inr (o, free, cached) ↦
      let once = λ (x : ℕ). rw cached at (v.once x) in
      let there : 0 < count o dying + count o st.objfreelist = rw cached (ground arith) in
      rw (cached, create_from)
        (fresh-IsCounted o ptr held dying free st (v.idle o there) (ground (arith, once o))
          (λ x. rw cached (omega arith)) v)
]

-- `incrRefCount` of an object in use: the counts are the references with one more to it.
pub incr_ref_count-IsCounted :
    (a : ℕ) (held dying : List ℕ) (st : Store)
    → (object_at a st.objects).refcount ≢ 0
    → IsCounted held dying st
    → IsCounted (a ∷ held) dying (incr_ref_count a st)
unfolding incr_ref_count
incr_ref_count-IsCounted a held dying st used v =
    recount-IsCounted a ((object_at a st.objects).refcount + 1) held (a ∷ held) dying st used
      (λ e. omega arith) (λ x. ground arith) v
