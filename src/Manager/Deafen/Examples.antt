-- ===== src/Manager/Deafen/Examples.antt =====
-- Sessions of the deafen controller.

use go_discord_caller.Base.{
  ◌==◌, nat_eq, string_eq, pair_eq, nat_zero, bool_zero, list_zero, string_zero, ℕ, ◌≡◌, refl, Bool,
  true, false, List, [], ◌∷◌,
}
use go_discord_caller.Manager.Deafen.{DeafMember, restore}
use go_discord_caller.Manager.Deafen.Session.{
  Event, observes, fires, launches, answers, closes, events, start,
}
use go_discord_caller.Manager.Deafen.Closing.{undone}

-- Bot 1 hears and bot 2 is deaf. Then bot 2 comes to capture and bot 1 no longer does.
abbrev bots : List (ℕ × Bool)
bots = (1, false) ∷ (2, true) ∷ []

abbrev flags : ℕ → Bool
flags b = b == 2

abbrev two_captures : ℕ → Bool
two_captures b = b == 2

-- Discord refuses the undeafening of bot 2 once, and accepts it after the delay.
abbrev later : List Event
later =
    launches 2 false
    ∷ answers 2 false false
    ∷ fires 1
    ∷ launches 1 true
    ∷ fires 2
    ∷ answers 1 true true
    ∷ launches 2 false
    ∷ answers 2 false true
    ∷ []

-- The delay of bot 1 is over just before the close, and its `apply` begins just after the close has
-- found nothing to wait for: the flag is set when everything is over.
stranded :
    let s =
      events
        (observes two_captures ∷ fires 1 ∷ closes ∷ [])
        (start ((1, false) ∷ []) (λ b. false)) in
    (s.applying ≡ [])
    × (restore s.controller.members ≡ [])
    × ((events (launches 1 true ∷ answers 1 true true ∷ []) (undone s)).flags 1 ≡ true)
unfolding events start restore
stranded = (refl, refl, refl)

-- What the bots are like when all of it has come back.
abbrev heard : DeafMember
heard = record {
  deaf = false;
  want = false;
  in_flight = false;
  timer = false;
  failures = 0;
  rejected = false;
}
