-- ===== src/Opus/Watcher.antt =====
-- internal/opus/drain.go: the watcher that pauses a mixer nobody feeds, and the part of the mixer
-- (internal/opus/mixer.go) that it reads and writes. Times are nanoseconds.
use go_discord_caller.Base.{
  ltb, ◌==◌, if◌then◌else◌, nat_eq, string_eq, pair_eq, nat_zero, bool_zero, list_zero, string_zero,
  ℕ, ◌+◌, ◌-◌, ◌≤◌, ◌≡◌, Bool, true, false, not, ◌&&◌, List, [], ◌∷◌, arith,
}

pub record Mixer : Type 0 where
  pub paused : Bool
  pub last_activity_at : ℕ

-- `SetPaused`, at the time `now`
unfoldable pub set_paused : ℕ → Bool → Mixer → Mixer
set_paused now p m = record {
  paused = p;
  last_activity_at = if m.paused && not p then now else m.last_activity_at;
}

unfoldable pub idle_for : ℕ → Mixer → ℕ
idle_for now m = if m.last_activity_at == 0 then 0 else now - m.last_activity_at

-- `keepAlive` is an argument of each check.
pub record DrainWatcher : Type 0 where
  pub idle : ℕ
  pub paused_by_watcher : Bool

pub record Watched : Type 0 where
  pub watcher : DrainWatcher
  pub mixer : Mixer

-- `step`, on a mixer that is not paused
unfoldable pub step_running : ℕ → Bool → Watched → Watched
unfolding set_paused
step_running now idle s =
    let w : DrainWatcher = record { idle = s.watcher.idle; paused_by_watcher = false } in
    if idle
    then record {
      watcher = record { idle = s.watcher.idle; paused_by_watcher = true };
      mixer = set_paused now true s.mixer;
    }
    else record { watcher = w; mixer = s.mixer }

-- `step`, on a paused mixer
unfoldable pub step_paused : ℕ → Bool → Watched → Watched
unfolding set_paused
step_paused now idle s =
    if s.watcher.paused_by_watcher && not idle
    then record {
      watcher = record { idle = s.watcher.idle; paused_by_watcher = false };
      mixer = set_paused now false s.mixer;
    }
    else s

-- `step` reads the idle time, reads the pause and then swaps it, each atomically. Here nothing comes
-- between the three; a pause of the router that does is swapped away or claimed in the code.
unfoldable pub step : ℕ → Watched → Watched
unfolding idle_for step_running step_paused
step now s =
    let idle = ltb s.watcher.idle (idle_for now s.mixer) in
    if not s.mixer.paused then step_running now idle s else step_paused now idle s

-- One round of `Run`
unfoldable pub check : ℕ → Bool → Watched → Watched
unfolding step
check now keep_alive s = if keep_alive then s else step now s

-- What happens to a watched mixer: audio arrives at a tick, the router sets the pause, or the
-- watcher checks.
pub data Event : Type 0 where
  audio : ℕ → Event
  router_sets : ℕ → Bool → Event
  checks : ℕ → Bool → Event

unfoldable pub event : Watched → Event → Watched
unfolding check set_paused
event s (audio now) = record s {
  mixer = record { paused = s.mixer.paused; last_activity_at = now };
}
event s (router_sets now p) = record s { mixer = set_paused now p s.mixer }
event s (checks now k) = check now k s

unfoldable pub events : Watched → List Event → Watched
unfolding event
events s [] = s
events s (e ∷ es) = events (event s e) es

-- A pause that the router repeats while the watcher claims the one in effect is lifted by the
-- watcher's next check after audio, if the check comes within the idle time.
pub router_pause_lifted :
    (s : Watched) (t₁ t₂ t₃ : ℕ)
    → s.mixer.paused ≡ true
    → s.watcher.paused_by_watcher ≡ true
    → 1 ≤ t₂
    → t₃ ≤ t₂ + s.watcher.idle
    → (events s (router_sets t₁ true ∷ audio t₂ ∷ checks t₃ false ∷ [])).mixer.paused ≡ false
unfolding events event check step step_paused step_running idle_for set_paused
router_pause_lifted s t₁ t₂ t₃ p c a b = ground (arith, p, c, a, b)

-- When the watcher claims the pause in effect and no other, its step leaves the mixer paused
-- exactly when it has been idle for longer than the threshold, and claims exactly that pause.
pub step_lem :
    (now : ℕ) (s : Watched)
    → (s.mixer.paused ≡ s.watcher.paused_by_watcher)
    → ((step now s).mixer.paused ≡ ltb s.watcher.idle (idle_for now s.mixer))
      × ((step now s).watcher.paused_by_watcher ≡ (step now s).mixer.paused)
unfolding step step_paused step_running set_paused
step_lem now s h = (ground (arith, h), ground (arith, h))
