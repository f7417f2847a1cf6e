-- ===== src/Redis/ClientEvents.antt =====
-- The events that a client of redis/src/redis.c has, and those after a connection or a reply.
use homemade.Prelude.{
  ℕ, ◌+◌, ◌-◌, ◌≤◌, ◌≡◌, ◌≢◌, refl, ap, ◌∙◌, Bool, true, false, ◌&&◌, Option, none, some, List, [],
  ◌∷◌, ◌++◌, arith, inl, inr, if◌then◌else◌, ◌==◌, Bool-cases,
}
use homemade.Ae.Events.{FileEvent, EventLoop, delete_file, create_file_event}
use homemade.Redis.Object.{Bytes}
use homemade.Redis.Clients.{
  RedisClient, Clients, watch_first, new_client, create_client, find_client, update_client,
  add_client_reply,
}

abbrev pub one_if : Bool → ℕ
one_if true = 1
one_if false = 0

-- How many events a descriptor has with a mask.
abbrev pub handlers : ℕ → ℕ → List FileEvent → ℕ
handlers fd mask [] = 0
handlers fd mask (fe ∷ es) = one_if ((fe.fd == fd) && (fe.mask == mask)) + handlers fd mask es

-- The events that a descriptor has to have: none where no client has it.
abbrev pub reading : Option RedisClient → ℕ
reading none = 0
reading (some c) = 1

abbrev pub has_replies : List Bytes → ℕ
has_replies [] = 0
has_replies (r ∷ rs) = 1

abbrev pub writing : Option RedisClient → ℕ
writing none = 0
writing (some c) = has_replies c.replies

abbrev pub Distinct : List RedisClient → Type 0
Distinct [] = Unit
Distinct (c ∷ cs) = (find_client c.fd cs ≡ none) × Distinct cs

-- Each descriptor but the one that listens has the events of its client, and no other.
pub record IsServed (listening : ℕ) (s : Clients) : Type 0 where
  pub distinct : Distinct s.clients
  pub apart : find_client listening s.clients ≡ none
  pub readers :
      (fd : ℕ)
      → fd ≢ listening
      → handlers fd 1 s.loop.file_events ≡ reading (find_client fd s.clients)
  pub writers :
      (fd : ℕ)
      → fd ≢ listening
      → handlers fd 2 s.loop.file_events ≡ writing (find_client fd s.clients)

-- One descriptor less has the event, if one had it.
pub handlers-delete_file :
    (fd mask q m : ℕ) (es : List FileEvent)
    → handlers q m es
      ≡ handlers q m (delete_file fd mask es).0
        + (if (fd == q) && (mask == m) then (if handlers fd mask es == 0 then 0 else 1) else 0)
unfolding delete_file
handlers-delete_file fd mask q m [] = ground arith
handlers-delete_file fd mask q m (fe ∷ es) = ground (arith, handlers-delete_file fd mask q m es)

find-append :
    (q : ℕ) (c : RedisClient) (cs : List RedisClient)
    → find_client c.fd cs ≡ none
    → find_client q (cs ++ c ∷ []) ≡ (if c.fd == q then some c else find_client q cs)
unfolding find_client
find-append q c [] h = ground arith
find-append q c (d ∷ ds) h = ground (arith, find-append q c ds)

pub find-update :
    (q : ℕ) (c d : RedisClient) (cs : List RedisClient)
    → find_client c.fd cs ≡ some d
    → find_client q (update_client c cs) ≡ (if c.fd == q then some c else find_client q cs)
unfolding find_client update_client
find-update q c d [] h = cc
find-update q c d (e ∷ es) h = ground (arith, find-update q c d es)

Distinct-append :
    (c : RedisClient) (cs : List RedisClient)
    → find_client c.fd cs ≡ none
    → Distinct cs
    → Distinct (cs ++ c ∷ [])
unfolding find_client
Distinct-append c [] h v = (refl, tt)
Distinct-append c (d ∷ ds) h v =
    let rest : find_client c.fd ds ≡ none = ground arith in
    (ground (arith, find-append d.fd c ds rest), Distinct-append c ds rest v.1)

Distinct-update :
    (c d : RedisClient) (cs : List RedisClient)
    → find_client c.fd cs ≡ some d
    → Distinct cs
    → Distinct (update_client c cs)
unfolding find_client update_client
Distinct-update c d [] h v = cc
Distinct-update c d (e ∷ es) h v = elim (Bool-cases (e.fd == c.fd)) [
  | inl here ↦ let same : e.fd ≡ c.fd = ground (arith, here) in rw here (rw (← same) v.0, v.1)
  | inr other ↦
      let rest : find_client c.fd es ≡ some d = rw other at h in
      rw other (ground (arith, find-update e.fd c d es rest), Distinct-update c d es rest v.1)
]

pub create_client-IsServed :
    (listening fd now : ℕ) (s : Clients)
    → fd ≢ listening
    → find_client fd s.clients ≡ none
    → IsServed listening s
    → IsServed listening (create_client fd now s)
unfolding create_client new_client create_file_event
create_client-IsServed listening fd now s ne new v = record {
  distinct = Distinct-append (new_client fd now) s.clients new v.distinct;
  apart = ground (arith, find-append listening (new_client fd now) s.clients new, v.apart);
  readers = λ q other.
      ground (arith, find-append q (new_client fd now) s.clients new, v.readers q other, new);
  writers = λ q other.
      ground (arith, find-append q (new_client fd now) s.clients new, v.writers q other, new);
}

handlers-watch_first :
    (rs : List Bytes) (q m fd : ℕ) (el : EventLoop)
    → handlers q m (watch_first rs fd el).file_events
      ≡ (if (fd == q) && (2 == m) then 1 - has_replies rs else 0) + handlers q m el.file_events
unfolding create_file_event
handlers-watch_first [] q m fd el = ground arith
handlers-watch_first (r ∷ rs) q m fd el = ground arith

has_replies-append : (rs : List Bytes) (r : Bytes) → has_replies (rs ++ r ∷ []) ≡ 1
has_replies-append [] r = refl
has_replies-append (x ∷ rs) r = refl

pub has_replies-le-one : (rs : List Bytes) → has_replies rs ≤ 1
has_replies-le-one [] = omega arith
has_replies-le-one (x ∷ rs) = omega arith

pub add_client_reply-IsServed :
    (listening : ℕ) (r : Bytes) (c : RedisClient) (s : Clients)
    → find_client c.fd s.clients ≡ some c
    → IsServed listening s
    → IsServed listening (add_client_reply r c s)
unfolding add_client_reply create_file_event
add_client_reply-IsServed listening r c s known v =
    let c' = record c { replies = c.replies ++ r ∷ [] } in
    record {
      distinct = Distinct-update c' c s.clients known v.distinct;
      apart = ground (arith, find-update listening c' c s.clients known, v.apart, known);
      readers = λ q other.
          let found = find-update q c' c s.clients known in
          let kept = handlers-watch_first c.replies q 1 c.fd s.loop in
          elim (Bool-cases (c.fd == q)) [
            | inl here ↦
                let same : c.fd ≡ q = ground (arith, here) in
                let there : find_client q s.clients ≡ some c = rw (← same) known in
                ground (arith, found, kept, v.readers q other, here, there)
            | inr elsewhere ↦ ground (arith, found, kept, v.readers q other, elsewhere)
          ];
      writers = λ q other.
          let found = find-update q c' c s.clients known in
          let more = handlers-watch_first c.replies q 2 c.fd s.loop in
          elim (Bool-cases (c.fd == q)) [
            | inl here ↦
                let same : c.fd ≡ q = ground (arith, here) in
                let there : find_client q s.clients ≡ some c = rw (← same) known in
                let had : handlers q 2 s.loop.file_events ≡ has_replies c.replies =
                  v.writers q other ∙ ap writing there in
                ground (
                  arith,
                  found,
                  more,
                  had,
                  here,
                  has_replies-append c.replies r,
                  has_replies-le-one c.replies,
                )
            | inr elsewhere ↦ ground (arith, found, more, v.writers q other, elsewhere)
          ];
    }
