-- ===== src/Manager/Deafen/Session.antt =====
-- internal/manager/speaker_deafen.go: a controller over a session, with the changes that it has under
-- way and the flags that Discord keeps.
use go_discord_caller.Base.{
  ◌==◌, if◌then◌else◌, bool_eq, nat_eq, string_eq, pair_eq, nat_zero, bool_zero, list_zero,
  string_zero, ℕ, Bool, true, false, ◌&&◌, ◌||◌, Option, none, some, List, [], ◌∷◌, ◌++◌, map,
}
use go_discord_caller.Manager.Deafen.{
  DeafController, new_deaf_controller, register, observe, apply_after_delay, applied, note_error,
  close_begin,
}

-- `launching` holds the changes that were decided under the lock and whose `apply` has not begun;
-- `applying` those that the wait group counts. An error means that Discord left the flag as it was.
pub record Session : Type 0 where
  pub controller : DeafController
  pub launching : List (ℕ × Bool)
  pub applying : List (ℕ × Bool)
  pub flags : ℕ → Bool

pub data Event : Type 0 where
  observes : (ℕ → Bool) → Event
  fires : ℕ → Event
  launches : ℕ → Bool → Event
  answers : ℕ → Bool → Bool → Event
  refuses closes : Event

unfoldable pub pending : ℕ → Bool → List (ℕ × Bool) → Bool
pending bot deaf [] = false
pending bot deaf ((b, d) ∷ ps) = (b == bot && bool_eq d deaf) || pending bot deaf ps

unfoldable pub take_out : ℕ → Bool → List (ℕ × Bool) → List (ℕ × Bool)
take_out bot deaf [] = []
take_out bot deaf ((b, d) ∷ ps) =
    if b == bot && bool_eq d deaf then ps else (b, d) ∷ take_out bot deaf ps

abbrev pub undeafen_all : List ℕ → List (ℕ × Bool)
undeafen_all = map (λ bot. (bot, false))

abbrev pub set_flag : ℕ → Bool → (ℕ → Bool) → ℕ → Bool
set_flag bot deaf flags b = if b == bot then deaf else flags b

-- A change that is launched, if there is one.
abbrev pub push : ℕ → Option Bool → List (ℕ × Bool) → List (ℕ × Bool)
push bot none ps = ps
push bot (some deaf) ps = (bot, deaf) ∷ ps

-- The answer to a change that is applying. The next change is counted before this one is done.
unfoldable pub answer : ℕ → Bool → Bool → Session → Session
unfolding applied take_out
answer bot deaf accepted s =
    let (undeafen, next) = applied bot deaf accepted s.controller in
    record {
      controller = next;
      launching = s.launching;
      applying =
          if undeafen
          then (bot, false) ∷ take_out bot deaf s.applying
          else take_out bot deaf s.applying;
      flags = if accepted then set_flag bot deaf s.flags else s.flags;
    }

-- The router observes, a timer fires, an `apply` begins, Discord answers one, a refusal for lack of
-- permission is noted, and `Close` begins.
unfoldable pub happen : Event → Session → Session
unfolding observe apply_after_delay pending take_out answer note_error close_begin
happen (observes capturing) s =
    let (undeafen, next) = observe capturing s.controller in
    record s { controller = next; launching = undeafen_all undeafen ++ s.launching }
happen (fires bot) s =
    let (change, next) = apply_after_delay bot s.controller in
    record s { controller = next; launching = push bot change s.launching }
happen (launches bot deaf) s =
    if pending bot deaf s.launching
    then record s { launching = take_out bot deaf s.launching; applying = (bot, deaf) ∷ s.applying }
    else s
happen (answers bot deaf accepted) s =
    if pending bot deaf s.applying then answer bot deaf accepted s else s
happen refuses s = record s { controller = note_error true s.controller }
happen closes s = record s { controller = close_begin s.controller }

unfoldable pub events : List Event → Session → Session
unfolding happen
events [] s = s
events (e ∷ es) s = events es (happen e s)

unfoldable pub is_observe : Event → Bool
is_observe (observes capturing) = true
is_observe (fires bot) = false
is_observe (launches bot deaf) = false
is_observe (answers bot deaf accepted) = false
is_observe refuses = false
is_observe closes = false

-- The speakers that joined, each with the state its join left, and the flags of all members.
unfoldable pub register_all : List (ℕ × Bool) → DeafController → DeafController
unfolding register
register_all [] c = c
register_all ((bot, deaf) ∷ bots) c = register_all bots (register bot deaf c)

unfoldable pub start : List (ℕ × Bool) → (ℕ → Bool) → Session
unfolding register_all new_deaf_controller
start bots flags = record {
  controller = register_all bots new_deaf_controller;
  launching = [];
  applying = [];
  flags = flags;
}

-- `Close` after its wait: one change for each bot that is to be undeafened, with Discord's answers.
unfoldable pub undo : (ℕ → Bool) → List ℕ → (ℕ → Bool) → ℕ → Bool
undo accepts [] flags = flags
undo accepts (bot ∷ bots) flags =
    undo accepts bots (if accepts bot then set_flag bot false flags else flags)
