-- ===== src/Ae/Events.antt =====
-- The lists of events of redis/src/ae.c. A callback is a number that names it; the memory for an event is
-- there. `finalizer` tells whether `finalizerProc` is set.
use homemade.Prelude.{
  ℕ, ◌+◌, ◌-◌, ◌/◌, ◌%◌, Bool, true, false, ◌&&◌, ◌||◌, Option, none, some, List, [], ◌∷◌,
  if◌then◌else◌, ltb, leb, ◌==◌,
}

pub record FileEvent : Type 0 where
  pub fd : ℕ
  pub mask : ℕ
  pub file_proc : ℕ
  pub finalizer : Bool
  pub client_data : ℕ

pub record TimeEvent : Type 0 where
  pub id : ℕ
  pub when_sec : ℕ
  pub when_ms : ℕ
  pub time_proc : ℕ
  pub client_data : ℕ

pub record EventLoop : Type 0 where
  pub time_event_next_id : ℕ
  pub file_events : List FileEvent
  pub time_events : List TimeEvent
  pub stop : Bool

-- `aeCreateEventLoop`
unfoldable pub create_event_loop : EventLoop
create_event_loop = record {
  time_event_next_id = 0;
  file_events = [];
  time_events = [];
  stop = false;
}

-- `aeStop`
unfoldable pub stop_loop : EventLoop → EventLoop
stop_loop el = record el { stop = true }

-- `aeCreateFileEvent`
unfoldable pub create_file_event : EventLoop → FileEvent → EventLoop
create_file_event el fe = record el { file_events = fe ∷ el.file_events }

-- The loop of `aeDeleteFileEvent`: what is left, and the event that it freed.
unfoldable pub delete_file : ℕ → ℕ → List FileEvent → List FileEvent × Option FileEvent
delete_file fd mask [] = ([], none)
delete_file fd mask (fe ∷ fes) =
    let rest = delete_file fd mask fes in
    if (fe.fd == fd) && (fe.mask == mask) then (fes, some fe) else (fe ∷ rest.0, rest.1)

-- The data that a finalizer is called with.
unfoldable pub finalized : Option FileEvent → Option ℕ
finalized none = none
finalized (some fe) = if fe.finalizer then some fe.client_data else none

-- `aeDeleteFileEvent`, with the call of the finalizer
unfoldable pub delete_file_event : EventLoop → ℕ → ℕ → EventLoop × Option ℕ
unfolding delete_file finalized
delete_file_event el fd mask =
    let r = delete_file fd mask el.file_events in (record el { file_events = r.0 }, finalized r.1)

-- `aeAddMillisecondsToNow`, from the time that `aeGetTime` gives
unfoldable pub add_milliseconds_to_now : ℕ → ℕ × ℕ → ℕ × ℕ
add_milliseconds_to_now milliseconds (cur_sec, cur_ms) =
    let when_sec = cur_sec + milliseconds / 1000 in
    let when_ms = cur_ms + milliseconds % 1000 in
    if leb 1000 when_ms then (when_sec + 1, when_ms - 1000) else (when_sec, when_ms)

-- `aeCreateTimeEvent`, which returns the id
unfoldable pub create_time_event : EventLoop → ℕ × ℕ → ℕ → ℕ → ℕ → EventLoop × ℕ
unfolding add_milliseconds_to_now
create_time_event el now milliseconds proc client_data =
    let due = add_milliseconds_to_now milliseconds now in
    let te : TimeEvent = record {
      id = el.time_event_next_id;
      when_sec = due.0;
      when_ms = due.1;
      time_proc = proc;
      client_data = client_data;
    } in
    (
      record el {
        time_event_next_id = el.time_event_next_id + 1;
        time_events = te ∷ el.time_events;
      },
      el.time_event_next_id,
    )

-- The loop of `aeDeleteTimeEvent`: `none` where it finds no event.
unfoldable pub delete_time : ℕ → List TimeEvent → Option (List TimeEvent)
delete_time id [] = none
delete_time id (te ∷ tes) =
    let rest : Option (List TimeEvent) = elim (delete_time id tes) [
      | none ↦ none
      | some r ↦ some (te ∷ r)
    ] in
    if te.id == id then some tes else rest

-- `aeDeleteTimeEvent`: whether it returns AE_OK; the finalizer is not called
unfoldable pub delete_time_event : EventLoop → ℕ → EventLoop × Bool
unfolding delete_time
delete_time_event el id = elim (delete_time id el.time_events) [
  | none ↦ (el, false)
  | some tes ↦ (record el { time_events = tes }, true)
]

-- Whether a time event is due before another.
abbrev pub earlier : TimeEvent → TimeEvent → Bool
earlier a b = ltb a.when_sec b.when_sec || ((a.when_sec == b.when_sec) && ltb a.when_ms b.when_ms)

-- The loop of `aeSearchNearestTimer`
unfoldable pub nearest_of : Option TimeEvent → List TimeEvent → Option TimeEvent
nearest_of nearest [] = nearest
nearest_of none (te ∷ tes) = nearest_of (some te) tes
nearest_of (some n) (te ∷ tes) = nearest_of (some (if earlier te n then te else n)) tes

-- `aeSearchNearestTimer`
unfoldable pub search_nearest_timer : EventLoop → Option TimeEvent
unfolding nearest_of
search_nearest_timer el = nearest_of none el.time_events
