-- ===== src/Manager/Examples.antt =====
-- The guards and watchers of one guild.
use go_discord_caller.Base.{
  ◌==◌, if◌then◌else◌, nat_eq, string_eq, pair_eq, nat_zero, bool_zero, list_zero, string_zero,
  Elem, Distinct, ℕ, ◌≡◌, refl, ◌↔◌, true, false, ◌&&◌, Option, none, some, List, [], ◌∷◌, ◌++◌,
  map, arith,
}
use go_discord_caller.Store.{InMemoryStore, get_bound_channel}
use go_discord_caller.Manager.AllowFilter.{Member}
use go_discord_caller.Manager.Bindings.{
  ChannelAccessWarning, Status, speakers_with_missing_channel, channel_deleted, kept_if, is_among,
  channel_deleted_lem, Warned, speakers_with_missing_channel_lem,
}
use go_discord_caller.Manager.SessionIdle.{Tick, has_caller, run, IdleStop, run-IdleStop, run_stops}
use go_discord_caller.Manager.StartGuard
use go_discord_caller.Manager.StartGuard.{
  StartGuard, Event, begins, stops, event, events, no_starts, events-Distinct, Answers,
  events-Answers,
}

-- Two starts of guild 1, the second of which is turned away, and a stop.
abbrev start_list : List StartGuard.Event
start_list =
    StartGuard.begins 1 100
    ∷ StartGuard.begins 1 101
    ∷ StartGuard.stops 1
    ∷ StartGuard.begins 2 102
    ∷ []

events-Distinct_example :
    Distinct (map (λ (r : ℕ × ℕ). r.0) (StartGuard.events no_starts start_list).running)
events-Distinct_example = StartGuard.events-Distinct start_list

events-Answers_example : Answers (StartGuard.events no_starts start_list) 1
events-Answers_example = StartGuard.events-Answers start_list 1

-- Somebody in channel 10 up to the time 60.
abbrev tick_at : ℕ → List ℕ → Tick
tick_at t users = record { now = t; callers = λ ch role. users; role = 7 }

abbrev tick_list : List Tick
tick_list = tick_at 60 (5 ∷ []) ∷ tick_at 120 [] ∷ (tick_at 180 [] ∷ []) ++ tick_at 240 [] ∷ []

stopped_at : run (10 ∷ []) 120 tick_list ≡ some 240
unfolding run
stopped_at = refl

run-IdleStop_example : IdleStop (10 ∷ []) 120 tick_list 240
run-IdleStop_example = run-IdleStop (10 ∷ []) 120 tick_list 240 stopped_at

no_callers : (t : ℕ) → has_caller (10 ∷ []) (tick_at t []) ≡ false
unfolding has_caller
no_callers t = refl

one_caller : has_caller (10 ∷ []) (tick_at 60 (5 ∷ [])) ≡ true
unfolding has_caller
one_caller = refl

run_stops_example :
    (n : ℕ) × (run (10 ∷ []) 120 (
        [] ++ tick_at 60 (5 ∷ []) ∷ tick_at 120 [] ∷ ((tick_at 180 [] ∷ []) ++ tick_at 240 [] ∷ []))
      ≡ some n)
run_stops_example =
    run_stops (10 ∷ []) 120 [] (tick_at 60 (5 ∷ [])) (tick_at 120 []) (tick_at 180 [] ∷ [])
      (tick_at 240 []) [] (omega arith) (omega arith) one_caller (no_callers 120)
      (no_callers 180, tt) (no_callers 240) (omega arith)

-- Guild 1 has the caller role 7; user 5 bears it.
abbrev bound_store : InMemoryStore
bound_store = record {
  channels = ((8, 1), 50) ∷ ((9, 1), 60) ∷ [];
  roles = ((1, "caller"), 7) ∷ [];
  relay_codes = [];
  locales = [];
  disabled = [];
}

abbrev cached : ℕ → Option Member
cached u = if u == 5 then some (record { is_bot = false; role_ids = 7 ∷ [] }) else none

abbrev after_deletion : InMemoryStore
after_deletion = channel_deleted 1 60 3 (8 ∷ 9 ∷ []) bound_store

channel_deleted_example :
    (get_bound_channel 1 9 after_deletion ≡ (
      if 1 == 1 && is_among 9 (3 ∷ 8 ∷ 9 ∷ [])
      then kept_if (λ bound. bound == 60) (get_bound_channel 1 9 bound_store)
      else get_bound_channel 1 9 bound_store))
    × (after_deletion.roles ≡ bound_store.roles)
    × (after_deletion.relay_codes ≡ bound_store.relay_codes)
    × (after_deletion.locales ≡ bound_store.locales)
    × (after_deletion.disabled ≡ bound_store.disabled)
channel_deleted_example = channel_deleted_lem 1 60 3 (8 ∷ 9 ∷ []) bound_store 1 9

abbrev speaker_status : Option Status
speaker_status = some (record {
  speakers = record { id = 8; enabled = true } ∷ record { id = 9; enabled = true } ∷ [];
  has_session = false;
})

speakers_with_missing_channel_example :
    let w : ChannelAccessWarning = record { bot_id = 9; channel_id = 60 } in
    Elem w (speakers_with_missing_channel (λ ch. ch == 50) 1 bound_store speaker_status)
    ↔ Warned (λ ch. ch == 50) 1 bound_store speaker_status w
speakers_with_missing_channel_example =
    speakers_with_missing_channel_lem (λ ch. ch == 50) 1 bound_store speaker_status
      (record { bot_id = 9; channel_id = 60 })
