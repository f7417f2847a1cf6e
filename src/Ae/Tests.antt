-- ===== src/Ae/Tests.antt =====
-- The theorems on the event loop at a concrete one.
use homemade.Prelude.{ℕ, ◌≡◌, refl, true, false, none, some, [], ◌∷◌, ◌⊎◌}
use homemade.Ae.Events.{FileEvent, TimeEvent, EventLoop, search_nearest_timer, nearest_of}
use homemade.Ae.Loop.{World}
use homemade.Ae.Laws.{NoneEarlier, Among, search_nearest_timer-NoneEarlier}

abbrev timer : ℕ → ℕ → ℕ → TimeEvent
timer id s ms = record { id = id; when_sec = s; when_ms = ms; time_proc = 0; client_data = 0 }

abbrev watch : ℕ → ℕ → FileEvent
watch fd mask = record { fd = fd; mask = mask; file_proc = 0; finalizer = true; client_data = fd }

abbrev busy : EventLoop
busy = record {
  time_event_next_id = 3;
  file_events = watch 5 1 ∷ watch 6 1 ∷ watch 5 1 ∷ [];
  time_events = timer 2 9 0 ∷ timer 1 7 300 ∷ timer 0 7 200 ∷ [];
  stop = false;
}

nearest_run : search_nearest_timer busy ≡ some (timer 0 7 200)
unfolding search_nearest_timer nearest_of
nearest_run = refl

abbrev idle_world : World
idle_world = record {
  select = λ n sets timeout. none;
  file_proc = λ fe mask el. el;
  time_proc = λ te el. (none, el);
  clock = λ tick. (7, tick);
}

search_nearest_timer-NoneEarlier_example :
    (busy.time_events ≡ []) × (search_nearest_timer busy ≡ none)
    ⊎ ((m : TimeEvent) × (search_nearest_timer busy ≡ some m)
        × NoneEarlier m busy.time_events
        × Among m busy.time_events)
search_nearest_timer-NoneEarlier_example = search_nearest_timer-NoneEarlier busy
