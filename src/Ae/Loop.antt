-- ===== src/Ae/Loop.antt =====
-- A round of the event loop of redis/src/ae.c. What `select` finds, the clock and the callbacks are
-- parameters.
use homemade.Prelude.{
  ℕ, zero, suc, ◌+◌, ◌-◌, ◌*◌, Bool, false, not, ◌&&◌, ◌||◌, Option, none, some, List, [], ◌∷◌,
  if◌then◌else◌, ltb, leb, ◌==◌, bit_and,
}
use homemade.Prelude.Int.{ℤ, pos, ◌-ℤ◌}
use homemade.Ae.Events.{
  FileEvent, TimeEvent, EventLoop, add_milliseconds_to_now, delete_time_event, search_nearest_timer,
}

-- `isReadable`, `isWritable` and `isException`
abbrev pub has_bit : ℕ → ℕ → Bool
has_bit mask bit = not (bit_and mask bit == 0)

-- The members of an `fd_set`
abbrev pub fd_isset : ℕ → List ℕ → Bool
fd_isset fd [] = false
fd_isset fd (x ∷ xs) = (x == fd) || fd_isset fd xs

abbrev pub fd_clr : ℕ → List ℕ → List ℕ
fd_clr fd [] = []
fd_clr fd (x ∷ xs) = if x == fd then fd_clr fd xs else x ∷ fd_clr fd xs

-- The three sets that `select` reads and writes.
pub record Sets : Type 0 where
  pub rfds : List ℕ
  pub wfds : List ℕ
  pub efds : List ℕ

-- `distinguishFileEventAndGetMaxFD`: the sets, the largest descriptor and the number of events
unfoldable pub distinguish : Sets → ℕ → List FileEvent → Sets × ℕ × ℕ
distinguish sets maxfd [] = (sets, maxfd, 0)
distinguish sets maxfd (fe ∷ fes) =
    let sets' : Sets = record {
      rfds = if has_bit fe.mask 1 then fe.fd ∷ sets.rfds else sets.rfds;
      wfds = if has_bit fe.mask 2 then fe.fd ∷ sets.wfds else sets.wfds;
      efds = if has_bit fe.mask 4 then fe.fd ∷ sets.efds else sets.efds;
    } in
    let r = distinguish sets' (if ltb maxfd fe.fd then fe.fd else maxfd) fes in (r.0, r.1, r.2 + 1)

-- A `struct timeval`
pub record Timeval : Type 0 where
  pub tv_sec : ℤ
  pub tv_usec : ℕ

-- How long until an event; the seconds are negative where it is over.
unfoldable pub until : TimeEvent → ℕ × ℕ → Timeval
until te (now_sec, now_ms) =
    if ltb te.when_ms now_ms
    then record {
      tv_sec = (pos te.when_sec -ℤ pos now_sec) -ℤ pos 1;
      tv_usec = ((te.when_ms + 1000) - now_ms) * 1000;
    }
    else record { tv_sec = pos te.when_sec -ℤ pos now_sec; tv_usec = (te.when_ms - now_ms) * 1000 }

-- The test that `isTimeEventSet` is: it reads the bit of the file events, 1.
abbrev pub is_time_event_set : ℕ → Bool
is_time_event_set flags = has_bit flags 1

-- `fillSelectTimeout`: `none` is NULL, to wait for ever
unfoldable pub fill_select_timeout : EventLoop → ℕ → ℕ × ℕ → Option Timeval
unfolding search_nearest_timer until
fill_select_timeout el flags now =
    let shortest =
      if is_time_event_set flags && not (has_bit flags 4) then search_nearest_timer el else none in
    elim shortest [
      | some te ↦ some (until te now)
      | none ↦ if has_bit flags 4 then some (record { tv_sec = pos 0; tv_usec = 0 }) else none
    ]

-- What of an event's mask is ready.
abbrev pub ready_mask : Sets → FileEvent → ℕ
ready_mask sets fe =
    ((if has_bit fe.mask 1 && fd_isset fe.fd sets.rfds then 1 else 0)
      + (if has_bit fe.mask 2 && fd_isset fe.fd sets.wfds then 2 else 0))
    + (if has_bit fe.mask 4 && fd_isset fe.fd sets.efds then 4 else 0)

abbrev pub clear_fd : ℕ → Sets → Sets
clear_fd fd sets = record {
  rfds = fd_clr fd sets.rfds;
  wfds = fd_clr fd sets.wfds;
  efds = fd_clr fd sets.efds;
}

module _ (file_proc : FileEvent → ℕ → EventLoop → EventLoop) where
  -- `processedFileEvent`, from the event `fe` on, on fuel: after a call it starts at the head again
  unfoldable pub processed_file_event :
      ℕ → Sets → List FileEvent → EventLoop → Option (EventLoop × ℕ)
  processed_file_event zero sets fes el = none
  processed_file_event (suc fuel) sets [] el = some (el, 0)
  processed_file_event (suc fuel) sets (fe ∷ fes) el =
      let mask = ready_mask sets fe in
      let el' = file_proc fe mask el in
      let again : Option (EventLoop × ℕ) =
        elim (processed_file_event fuel (clear_fd fe.fd sets) el'.file_events el') [
          | none ↦ none
          | some (e, n) ↦ some (e, n + 1)
        ] in
      let onward = processed_file_event fuel sets fes el in if mask == 0 then onward else again

-- A time event is processed where the time is strictly behind it.
abbrev pub is_due : ℕ × ℕ → TimeEvent → Bool
is_due (now_sec, now_ms) te =
    ltb te.when_sec now_sec || ((now_sec == te.when_sec) && ltb te.when_ms now_ms)

-- The write through `te` after its callback returned.
abbrev pub reschedule : ℕ → ℕ × ℕ → List TimeEvent → List TimeEvent
reschedule id due [] = []
reschedule id due (te ∷ tes) =
    if te.id == id
    then record te { when_sec = due.0; when_ms = due.1 } ∷ tes
    else te ∷ reschedule id due tes

-- The callback returns in how many milliseconds to call it again, and `none` for AE_NOMORE.
module _ (time_proc : TimeEvent → EventLoop → Option ℕ × EventLoop) (clock : ℕ → ℕ × ℕ) where
  unfoldable pub after_proc : ℕ → ℕ → Option ℕ × EventLoop → EventLoop × ℕ
  unfolding add_milliseconds_to_now delete_time_event
  after_proc id tick (none, el) = ((delete_time_event el id).0, tick)
  after_proc id tick (some retval, el) = (
    record el {
      time_events = reschedule id (add_milliseconds_to_now retval (clock tick)) el.time_events;
    },
    tick + 1,
  )

  -- `processedTimeEvent`, from the event `te` on, on fuel: `tick` counts the readings of the clock, and
  -- `next_id` is the first id that was free at the start
  unfoldable pub processed_time_event :
      ℕ → ℕ → ℕ → List TimeEvent → EventLoop → Option (EventLoop × ℕ)
  unfolding after_proc
  processed_time_event zero next_id tick tes el = none
  processed_time_event (suc fuel) next_id tick [] el = some (el, tick)
  processed_time_event (suc fuel) next_id tick (te ∷ tes) el =
      let r = after_proc te.id (tick + 1) (time_proc te el) in
      let again = processed_time_event fuel next_id r.1 r.0.time_events r.0 in
      let onward = processed_time_event fuel next_id (tick + 1) tes el in
      let skip = processed_time_event fuel next_id tick tes el in
      if leb next_id te.id then skip else if is_due (clock tick) te then again else onward

-- The calls of a round that are not in this file: `select`, whose result is the ready descriptors where
-- it is positive, and the callbacks.
pub record World : Type 0 where
  pub select : ℕ → Sets → Option Timeval → Option Sets
  pub file_proc : FileEvent → ℕ → EventLoop → EventLoop
  pub time_proc : TimeEvent → EventLoop → Option ℕ × EventLoop
  pub clock : ℕ → ℕ × ℕ

module _ (world : World) where
  unfoldable pub process_ready : ℕ → Option Sets → EventLoop → Option (EventLoop × ℕ)
  unfolding processed_file_event
  process_ready fuel none el = some (el, 0)
  process_ready fuel (some sets) el =
      processed_file_event world.file_proc fuel sets el.file_events el

  unfoldable pub process_times : ℕ → ℕ → Option (EventLoop × ℕ) → Option (EventLoop × ℕ)
  unfolding processed_time_event
  process_times fuel flags none = none
  process_times fuel flags (some (el, processed)) =
      if is_time_event_set flags
      then elim (processed_time_event world.time_proc world.clock fuel el.time_event_next_id 1
          el.time_events el) [ none ↦ none | some (el', tick) ↦ some (el', processed) ]
      else some (el, processed)

  -- `aeProcessEvents`: the event loop after it, and the number of file events that it processed
  unfoldable pub process_events : ℕ → ℕ → EventLoop → Option (EventLoop × ℕ)
  unfolding distinguish fill_select_timeout process_ready process_times
  process_events fuel flags el =
      let sets : Sets = record { rfds = []; wfds = []; efds = [] } in
      let found = if has_bit flags 1 then distinguish sets 0 el.file_events else (sets, 0, 0) in
      let timeout = fill_select_timeout el flags (world.clock 0) in
      let waits = not (found.2 == 0) || (is_time_event_set flags && not (has_bit flags 4)) in
      let retval = if waits then world.select (found.1 + 1) found.0 timeout else none in
      if not (has_bit flags 1) && not (is_time_event_set flags)
      then some (el, 0)
      else process_times fuel flags (process_ready fuel retval el)

  -- `aeMain`, on fuel for its rounds
  unfoldable pub main_loop : ℕ → ℕ → EventLoop → Option EventLoop
  unfolding process_events
  main_loop zero fuel el = none
  main_loop (suc rounds) fuel el =
      let next : Option EventLoop = elim (process_events fuel 3 el) [
        | none ↦ none
        | some (e, n) ↦ main_loop rounds fuel e
      ] in
      if el.stop then some el else next
