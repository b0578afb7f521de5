-- ===== src/Opus/Examples.antt =====
-- Runs of the audio path.

use go_discord_caller.Base.{
  ltb, nat_eq, string_eq, pair_eq, nat_zero, bool_zero, list_zero, string_zero, ℕ, ◌+◌, ◌*◌, ◌≤◌,
  ◌≡◌, refl, Bool, true, false, none, some, List, [], ◌∷◌, arith,
}
use go_discord_caller.Opus.Ring.{
  new_source_buffer, Call, feeds, pulls, drains, fed, pulled, drained, ring_step, ring_run,
}
use go_discord_caller.Opus.Ring.Refines.{fifo_run, ring_run-fifo_run}
use go_discord_caller.Opus.Schedule.{
  mixer_frame_dur, new_tick_schedule, next, ticks, Boundary, next-Boundary, ticks-grid,
}
use go_discord_caller.Opus.Watcher.{
  idle_for, Watched, step, audio, router_sets, checks, events, router_pause_lifted, step_lem,
}

-- Four frames into a ring of three, then out.
abbrev overflow : List (Call ℕ)
overflow = feeds 1 ∷ feeds 2 ∷ feeds 3 ∷ feeds 4 ∷ pulls ∷ drains ∷ pulls ∷ []

overflow_lem :
    ring_run (new_source_buffer 0) overflow
    ≡ fed 0 none
      ∷ fed 1 none
      ∷ fed 2 none
      ∷ fed 3 (some 1)
      ∷ pulled (some 2)
      ∷ drained (3 ∷ 4 ∷ [])
      ∷ pulled none
      ∷ []
unfolding ring_run ring_step new_source_buffer
overflow_lem = refl

ring_run-fifo_run_example : ring_run (new_source_buffer 0) overflow ≡ fifo_run [] overflow
ring_run-fifo_run_example = ring_run-fifo_run 0 overflow

-- Two and a half frames late.
next-Boundary_example :
    Boundary (new_tick_schedule 100) 70000000 (next (new_tick_schedule 100) 70000000)
next-Boundary_example = next-Boundary (new_tick_schedule 100) 70000000

ticks-grid_example :
    (k : ℕ) × (3 ≤ k)
    × ((ticks (new_tick_schedule 100) (5000000 ∷ 70000000 ∷ 80000000 ∷ [])).deadline
        ≡ 100 + k * mixer_frame_dur)
ticks-grid_example = ticks-grid 100 (5000000 ∷ 70000000 ∷ 80000000 ∷ [])

abbrev watched : Bool → Bool → Watched
watched p c = record {
  watcher = record { idle = 5; paused_by_watcher = c };
  mixer = record { paused = p; last_activity_at = 100 };
}

router_pause_lifted_example :
    (events
      (watched true true)
      (router_sets 150 true ∷ audio 200 ∷ checks 202 false ∷ [])).mixer.paused
    ≡ false
router_pause_lifted_example =
    router_pause_lifted (watched true true) 150 200 202 refl refl (omega arith) (omega arith)

step_lem_example :
    ((step 101 (watched true true)).mixer.paused ≡ ltb 5 (idle_for 101 (watched true true).mixer))
    × ((step 101 (watched true true)).watcher.paused_by_watcher
        ≡ (step 101 (watched true true)).mixer.paused)
step_lem_example = step_lem 101 (watched true true) refl
