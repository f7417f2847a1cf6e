-- ===== src/Ae/Laws.antt =====
-- What the operations on the lists of events do.
use homemade.Prelude.{
  ℕ, ◌+◌, ◌-◌, ◌*◌, ◌%◌, ◌≤◌, ◌<◌, ◌≡◌, refl, ap, Bool, true, false, ◌&&◌, none, some, List, [],
  ◌∷◌, ◌++◌, arith, ltb, leb, ◌==◌, Bool-cases, inl, inr, ◌⊎◌,
}
use homemade.Prelude.Int.{pos, ◌-ℤ◌}
use homemade.Ae.Events.{
  FileEvent, TimeEvent, EventLoop, delete_file, finalized, delete_file_event,
  add_milliseconds_to_now, create_time_event, delete_time, delete_time_event, earlier, nearest_of,
  search_nearest_timer,
}
use homemade.Ae.Loop.{until, World, process_events}

-- `n` is due no later than `te`, to the millisecond.
abbrev pub NotLater : TimeEvent → TimeEvent → Type 0
NotLater n te = (n.when_sec < te.when_sec) ⊎ (n.when_sec ≡ te.when_sec) × (n.when_ms ≤ te.when_ms)

NotLater-earlier : (te n : TimeEvent) → earlier te n ≡ false → NotLater n te
NotLater-earlier te n h = ground (arith, h)

-- No event of the list is due before `n`.
abbrev pub NoneEarlier : TimeEvent → List TimeEvent → Type 0
NoneEarlier n [] = Unit
NoneEarlier n (te ∷ tes) = NotLater n te × NoneEarlier n tes

-- `m` is an event of the list.
abbrev pub Among : TimeEvent → List TimeEvent → Type 0
Among m tes = (front : List TimeEvent) × (back : List TimeEvent) × (tes ≡ front ++ m ∷ back)

Among-cons : (m te : TimeEvent) (tes : List TimeEvent) → Among m tes → Among m (te ∷ tes)
Among-cons m te tes (front, back, e) = (te ∷ front, back, ap (λ l. te ∷ l) e)

nearest_of-NoneEarlier :
    (n : TimeEvent) (tes : List TimeEvent)
    → (m : TimeEvent) × (nearest_of (some n) tes ≡ some m)
      × NoneEarlier m (n ∷ tes)
      × Among m (n ∷ tes)
unfolding nearest_of
nearest_of-NoneEarlier n [] = (n, refl, (ground arith, tt), ([], [], refl))
nearest_of-NoneEarlier n (te ∷ tes) = elim (Bool-cases (earlier te n)) [
  | inl sooner ↦
      let (m, run, (head, tail), among) = nearest_of-NoneEarlier te tes in
      (m, rw sooner run, (ground arith, (head, tail)), Among-cons m n (te ∷ tes) among)
  | inr later ↦
      let (m, run, (head, tail), (front, back, split)) = nearest_of-NoneEarlier n tes in
      (m, rw later run, (head, (ground arith, tail)), insert m front back split)
]
  where
    insert :
        (m : TimeEvent) (front back : List TimeEvent)
        → n ∷ tes ≡ front ++ m ∷ back
        → Among m (n ∷ te ∷ tes)
    insert m [] back split = ([], te ∷ tes, cc)
    insert m (x ∷ front) back split = (n ∷ te ∷ front, back, cc)

-- `aeSearchNearestTimer` finds an event of the list before which no other is due; it finds none only in
-- the empty list.
pub search_nearest_timer-NoneEarlier :
    (el : EventLoop)
    → (el.time_events ≡ []) × (search_nearest_timer el ≡ none)
      ⊎ ((m : TimeEvent) × (search_nearest_timer el ≡ some m)
          × NoneEarlier m el.time_events
          × Among m el.time_events)
unfolding search_nearest_timer nearest_of
search_nearest_timer-NoneEarlier el = split el.time_events
  where
    split :
        (tes : List TimeEvent)
        → (tes ≡ []) × (nearest_of none tes ≡ none)
          ⊎ ((m : TimeEvent) × (nearest_of none tes ≡ some m) × NoneEarlier m tes × Among m tes)
    split [] = inl (refl, refl)
    split (te ∷ tes) = inr (nearest_of-NoneEarlier te tes)

-- `aeAddMillisecondsToNow` gives the time that many milliseconds on, with less than 1000 of them.
pub add_milliseconds_to_now_lem :
    (milliseconds cur_sec cur_ms : ℕ)
    → cur_ms < 1000
    → let due = add_milliseconds_to_now milliseconds (cur_sec, cur_ms) in
      (due.1 < 1000) × (due.0 * 1000 + due.1 ≡ (cur_sec * 1000 + cur_ms) + milliseconds)
unfolding add_milliseconds_to_now
add_milliseconds_to_now_lem ms s m h = elim (Bool-cases (leb 1000 (m + ms % 1000))) [
  | inl over ↦ rw over (ground arith)
  | inr under ↦ rw under (ground arith)
]

pos-minus : (a b : ℕ) → b ≤ a → pos a -ℤ pos b ≡ pos (a - b)
pos-minus a b h =
    let fits : leb (0 + b) (a + 0) ≡ true = ground arith in rw fits (ap pos (omega arith))

-- The timeout up to an event that is not over is the time left, in microseconds, and its seconds are not
-- negative.
pub until_lem :
    (te : TimeEvent) (now_sec now_ms : ℕ)
    → now_ms < 1000
    → te.when_ms < 1000
    → now_sec * 1000 + now_ms ≤ te.when_sec * 1000 + te.when_ms
    → (s : ℕ) × ((until te (now_sec, now_ms)).tv_sec ≡ pos s)
      × ((until te (now_sec, now_ms)).tv_usec < 1000000)
      × ((now_sec * 1000 + now_ms) * 1000 + (s * 1000000 + (until te (now_sec, now_ms)).tv_usec)
          ≡ (te.when_sec * 1000 + te.when_ms) * 1000)
unfolding until
until_lem te now_sec now_ms h k later = elim (Bool-cases (ltb te.when_ms now_ms)) [
  | inl borrow ↦
      let less : te.when_ms < now_ms = ground arith in
      let whole = pos-minus te.when_sec now_sec (omega arith) in
      let one = pos-minus (te.when_sec - now_sec) 1 (omega arith) in
      (
        (te.when_sec - now_sec) - 1,
        rw (borrow, whole) one,
        rw borrow (omega arith),
        rw borrow (omega arith),
      )
  | inr fits ↦
      let more : now_ms ≤ te.when_ms = ground arith in
      let whole = pos-minus te.when_sec now_sec (omega arith) in
      (te.when_sec - now_sec, rw fits whole, rw fits (omega arith), rw fits (omega arith))
]

-- A time event that was just created is deleted by its id, and the other events stay.
pub delete_time_event-create_time_event :
    (el : EventLoop) (now : ℕ × ℕ) (milliseconds proc client_data : ℕ)
    → let r = create_time_event el now milliseconds proc client_data in
      delete_time_event r.0 r.1
      ≡ (record el { time_event_next_id = el.time_event_next_id + 1 }, true)
unfolding create_time_event delete_time_event delete_time
delete_time_event-create_time_event el now milliseconds proc client_data =
    let same : (el.time_event_next_id == el.time_event_next_id) ≡ true = ground arith in
    rw (delete_time_event, same) refl

-- Waiting for time events alone, AE_TIME_EVENTS, does nothing at all: the test for it reads the bit of the
-- file events.
pub process_events_times_only :
    (world : World) (fuel : ℕ) (el : EventLoop) → process_events world fuel 2 el ≡ some (el, 0)
unfolding process_events
process_events_times_only world fuel el = refl

abbrev pub matches : ℕ → ℕ → FileEvent → Bool
matches fd mask fe = (fe.fd == fd) && (fe.mask == mask)

-- No event of the list is the one for `fd` and `mask`.
abbrev pub NoMatch : ℕ → ℕ → List FileEvent → Type 0
NoMatch fd mask [] = Unit
NoMatch fd mask (fe ∷ fes) = (matches fd mask fe ≡ false) × NoMatch fd mask fes

delete_file-first :
    (fd mask : ℕ) (fes : List FileEvent)
    → ((front : List FileEvent) × (fe : FileEvent) × (back : List FileEvent) × (fes
          ≡ front ++ fe ∷ back)
        × NoMatch fd mask front
        × (matches fd mask fe ≡ true)
        × (delete_file fd mask fes ≡ (front ++ back, some fe)))
      ⊎ NoMatch fd mask fes × (delete_file fd mask fes ≡ (fes, none))
unfolding delete_file
delete_file-first fd mask [] = inr (tt, refl)
delete_file-first fd mask (fe ∷ fes) = elim (Bool-cases (matches fd mask fe)) [
  | inl here ↦ inl ([], fe, fes, refl, tt, here, rw here refl)
  | inr other ↦ elim (delete_file-first fd mask fes) [
    | inl (front, x, back, split, before, hit, run) ↦
        inl
          (fe ∷ front, x, back, ap (λ l. fe ∷ l) split, (other, before), hit, rw (other, run) refl)
    | inr (none', run) ↦ inr ((other, none'), rw (other, run) refl)
  ]
]

-- `aeDeleteFileEvent` removes the first event for the descriptor and the mask, keeps the rest in order and
-- calls the finalizer of that event alone, if it has one; where there is no such event nothing changes.
pub delete_file_event-first :
    (el : EventLoop) (fd mask : ℕ)
    → ((front : List FileEvent) × (fe : FileEvent) × (back : List FileEvent) × (el.file_events
          ≡ front ++ fe ∷ back)
        × NoMatch fd mask front
        × (matches fd mask fe ≡ true)
        × (delete_file_event el fd mask
            ≡ (record el { file_events = front ++ back }, finalized (some fe))))
      ⊎ NoMatch fd mask el.file_events × (delete_file_event el fd mask ≡ (el, none))
unfolding delete_file_event finalized
delete_file_event-first el fd mask = elim (delete_file-first fd mask el.file_events) [
  | inl (front, fe, back, split, before, hit, run) ↦
      inl (front, fe, back, split, before, hit, rw run refl)
  | inr (none', run) ↦ inr (none', rw run refl)
]
