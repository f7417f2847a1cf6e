-- ===== src/Redis/ClientFree.antt =====
-- The events after a client of redis/src/redis.c is freed.
use homemade.Prelude.{
  ℕ, ◌≤◌, ◌≡◌, ◌≢◌, refl, sym, ap, ◌∙◌, Bool, true, false, Option, none, some, List, [], ◌∷◌, arith,
  inl, inr, if◌then◌else◌, ◌==◌, Bool-cases, Option-cases,
}
use homemade.Ae.Events.{EventLoop, delete_file, delete_file_event}
use homemade.Redis.Clients.{
  RedisClient, Clients, find_client, drop_first, drop_slave, drop_master, drop_events, free_client,
}
use homemade.Redis.ClientEvents.{
  handlers, reading, writing, Distinct, IsServed, handlers-delete_file, has_replies-le-one,
}

-- The client that is dropped is the first one, and no other has its descriptor.
find-drop_first :
    (q fd : ℕ) (cs rest : List RedisClient)
    → drop_first fd cs ≡ some rest
    → Distinct cs
    → (find_client q rest ≡ (if fd == q then none else find_client q cs)) × Distinct rest
unfolding find_client drop_first
find-drop_first q fd [] rest h v = cc
find-drop_first q fd (d ∷ ds) rest h v = elim (Bool-cases (d.fd == fd)) [
  | inl here ↦
      let e : some ds ≡ some rest = rw here at h in
      let same : ds ≡ rest = cc in
      let at_fd : d.fd ≡ fd = ground (arith, here) in
      rw (← same) (elim (Bool-cases (fd == q)) [
        | inl it ↦
            let e' : d.fd ≡ q = ground (arith, it, at_fd) in
            let gone : find_client q ds ≡ none = rw e' at v.0 in (rw (it, gone) refl, v.1)
        | inr other ↦
            let e' : (d.fd == q) ≡ false = ground (arith, other, at_fd) in
            (rw (other, e') refl, v.1)
      ])
  | inr lost ↦ absurd (let e = rw lost at h in cc)
]

-- The events of a descriptor whose client is freed.
handlers-drop_events :
    (fd q : ℕ) (el : EventLoop)
    → handlers fd 1 el.file_events ≤ 1
    → handlers fd 2 el.file_events ≤ 1
    → (handlers q 1 (drop_events fd el).file_events
        ≡ (if fd == q then 0 else handlers q 1 el.file_events))
      × (handlers q 2 (drop_events fd el).file_events
          ≡ (if fd == q then 0 else handlers q 2 el.file_events))
unfolding delete_file_event
handlers-drop_events fd q el one two =
    let es = el.file_events in
    let fs = (delete_file fd 1 es).0 in
    elim (Bool-cases (fd == q)) [
      | inl here ↦
          let at_q : fd ≡ q = ground (arith, here) in
          let none_left : (handlers fd 1 (delete_file fd 2 fs).0 ≡ 0)
              × (handlers fd 2 (delete_file fd 2 fs).0 ≡ 0) =
            (
              ground (arith, handlers-delete_file fd 1 fd 1 es, handlers-delete_file fd 2 fd 1 fs),
              ground (arith, handlers-delete_file fd 1 fd 2 es, handlers-delete_file fd 2 fd 2 fs),
            ) in
          rw (here, ← at_q) none_left
      | inr other ↦ (
        ground (arith, other, handlers-delete_file fd 1 q 1 es, handlers-delete_file fd 2 q 1 fs),
        ground (arith, other, handlers-delete_file fd 1 q 2 es, handlers-delete_file fd 2 q 2 fs),
      )
    ]

reading-le-one : (c : Option RedisClient) → reading c ≤ 1
reading-le-one none = omega arith
reading-le-one (some c) = omega arith

writing-le-one : (c : Option RedisClient) → writing c ≤ 1
writing-le-one none = omega arith
writing-le-one (some c) = has_replies-le-one c.replies

freed-IsServed :
    (listening fd : ℕ) (s t : Clients)
    → fd ≢ listening
    → IsServed listening s
    → drop_first fd s.clients ≡ some t.clients
    → t.loop ≡ drop_events fd s.loop
    → IsServed listening t
freed-IsServed listening fd s t ne v dropped gone =
    let fine = find-drop_first listening fd s.clients t.clients dropped v.distinct in
    let one : handlers fd 1 s.loop.file_events ≤ 1 =
      omega (arith, v.readers fd ne, reading-le-one (find_client fd s.clients)) in
    let two : handlers fd 2 s.loop.file_events ≤ 1 =
      omega (arith, v.writers fd ne, writing-le-one (find_client fd s.clients)) in
    record {
      distinct = fine.1;
      apart = fine.0 ∙ ground (arith, v.apart);
      readers = λ q other.
          rw (gone, (find-drop_first q fd s.clients t.clients dropped v.distinct).0)
            ((handlers-drop_events fd q s.loop one two).0 ∙ ground (arith, v.readers q other));
      writers = λ q other.
          rw (gone, (find-drop_first q fd s.clients t.clients dropped v.distinct).0)
            ((handlers-drop_events fd q s.loop one two).1 ∙ ground (arith, v.writers q other));
    }

drop_master_keeps :
    (b : Bool) (u : Clients)
    → ((drop_master b u).clients ≡ u.clients) × ((drop_master b u).loop ≡ u.loop)
unfolding drop_master
drop_master_keeps false u = (refl, refl)
drop_master_keeps true u = (refl, refl)

pub free_client-IsServed :
    (listening : ℕ) (c : RedisClient) (s t : Clients)
    → c.fd ≢ listening
    → free_client c s ≡ some t
    → IsServed listening s
    → IsServed listening t
unfolding free_client
free_client-IsServed listening c s t ne run v = elim (Option-cases (drop_first c.fd s.clients)) [
  | inl lost ↦ absurd (let e = rw (lost, free_client) at run in cc)
  | inr (cs, dropped) ↦ elim (Option-cases (drop_slave c.is_slave c.fd s.slaves)) [
    | inl lost ↦ absurd (let e = rw (dropped, lost, free_client) at run in cc)
    | inr (slaves, kept) ↦
        let u = record s { loop = drop_events c.fd s.loop; clients = cs; slaves = slaves } in
        let e : some (drop_master c.is_master u) ≡ some t =
          rw (dropped, kept, free_client) at run in
        let e' : drop_master c.is_master u ≡ t = cc in
        rw (← e') (
          freed-IsServed listening c.fd s (drop_master c.is_master u) ne v
            (dropped ∙ ap some (sym (drop_master_keeps c.is_master u).0))
            (drop_master_keeps c.is_master u).1)
  ]
]
