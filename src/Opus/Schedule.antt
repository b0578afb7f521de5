-- ===== src/Opus/Schedule.antt =====
-- internal/opus/mixer.go: the wall-clock schedule of the mixer's ticks. Times and durations are
-- nanoseconds, a time counted from before the schedule starts.
use go_discord_caller.Base.{
  ltb, if◌then◌else◌, Bool-cases, nat_eq, nat_zero, bool_zero, list_zero, length, ℕ, ◌+◌, ◌-◌, ◌*◌,
  ◌/◌, ◌≤◌, max, ◌≡◌, refl, ◌⊎◌, inl, inr, List, [], ◌∷◌, arith,
}

-- `mixerFrameDur`, 20 ms, and `time.Millisecond`
abbrev pub mixer_frame_dur : ℕ
mixer_frame_dur = 20000000

abbrev pub millisecond : ℕ
millisecond = 1000000

pub record TickSchedule : Type 0 where
  pub deadline : ℕ

unfoldable pub new_tick_schedule : ℕ → TickSchedule
new_tick_schedule start = record { deadline = start }

-- The subtraction that stops at 0 is the source's maximum with 0.
unfoldable pub lateness : TickSchedule → ℕ → ℕ
lateness s now = now - s.deadline

-- The wait is negative when the boundary has passed, which is tested on the times themselves.
unfoldable pub next : TickSchedule → ℕ → ℕ × TickSchedule
next s now =
    let due = s.deadline + mixer_frame_dur in
    if ltb due now
    then (let missed = (now - due) / mixer_frame_dur + 1 in
        let resumed = due + missed * mixer_frame_dur in
        (max (resumed - now) millisecond, record { deadline = resumed }))
    else (max (due - now) millisecond, record { deadline = due })

-- The loop of `Run`, at the times it asks the schedule.
unfoldable pub ticks : TickSchedule → List ℕ → TickSchedule
unfolding next
ticks s [] = s
ticks s (now ∷ nows) = ticks (next s now).1 nows

-- What `next` should answer: the schedule's later boundary some frames on, one that has not
-- passed and is at most a frame ahead where the schedule was late, and the wait for it.
pub record Boundary (s : TickSchedule) (now : ℕ) (r : ℕ × TickSchedule) : Type 0 where
  pub slots : ℕ
  pub moves : 1 ≤ slots
  pub on_grid : r.1.deadline ≡ s.deadline + slots * mixer_frame_dur
  pub ahead : now ≤ r.1.deadline
  pub soonest : (slots ≡ 1) ⊎ (r.1.deadline ≤ now + mixer_frame_dur)
  pub waits : r.0 ≡ max (r.1.deadline - now) millisecond

-- Every call of `next` moves the deadline by whole frames to a boundary that has not passed, at
-- most one frame away when any were missed, and waits for it, at least a millisecond.
pub next-Boundary : (s : TickSchedule) (now : ℕ) → Boundary s now (next s now)
unfolding next
next-Boundary s now = elim (Bool-cases (ltb (s.deadline + mixer_frame_dur) now)) [
  | inl late ↦
      rw (late, next)
        record {
          slots = (now - (s.deadline + mixer_frame_dur)) / mixer_frame_dur + 2;
          moves = omega arith;
          on_grid = omega arith;
          ahead = omega arith;
          soonest = inr (ground (arith, late));
          waits = refl;
        }
  | inr on_time ↦
      rw (on_time, next)
        record {
          slots = 1;
          moves = omega arith;
          on_grid = omega arith;
          ahead = ground (arith, on_time);
          soonest = inl refl;
          waits = refl;
        }
]

ticks_lem :
    (s : TickSchedule) (nows : List ℕ)
    → (k : ℕ) × (length nows ≤ k) × ((ticks s nows).deadline ≡ s.deadline + k * mixer_frame_dur)
unfolding ticks
ticks_lem s [] = (0, omega arith, omega arith)
ticks_lem s (now ∷ nows) =
    let b = next-Boundary s now in
    let (k, l, e) = ticks_lem (next s now).1 nows in
    (b.slots + k, omega (arith, b.moves, l), omega (arith, e, b.on_grid))

-- However late the ticks fire, the deadline never leaves the 20 ms grid of the schedule's start,
-- and each tick moves it by a frame at least.
pub ticks-grid :
    (start : ℕ) (nows : List ℕ)
    → (k : ℕ) × (length nows ≤ k)
      × ((ticks (new_tick_schedule start) nows).deadline ≡ start + k * mixer_frame_dur)
unfolding new_tick_schedule
ticks-grid start nows = ticks_lem (new_tick_schedule start) nows
