-- ===== src/Manager/Reconnect/Examples.antt =====
-- A bot that stalls, and a reconnect whose first join fails.
use go_discord_caller.Base.{
  nat_eq, string_eq, pair_eq, nat_zero, bool_zero, list_zero, string_zero, ℕ, ◌≡◌, refl, true,
  false, List, [], ◌∷◌, arith,
}
use go_discord_caller.Manager.Reconnect.{BotKey}
use go_discord_caller.Manager.Reconnect.Backoff.{outcomes, AllPaced, reports-AllPaced}
use go_discord_caller.Manager.Reconnect.Rejoin.{opened, failed, Answers}

abbrev stalling : List (BotKey × ℕ)
stalling =
    ((7, 1), 100)
    ∷ ((7, 2), 105)
    ∷ ((7, 1), 110)
    ∷ ((7, 1), 130)
    ∷ ((7, 1), 140)
    ∷ ((7, 1), 1000)
    ∷ []

stalling_lem :
    outcomes (7, 1) stalling []
    ≡ (100, true) ∷ (110, false) ∷ (130, true) ∷ (140, false) ∷ (1000, true) ∷ []
unfolding outcomes
stalling_lem = refl

reports-AllPaced_example : AllPaced (outcomes (7, 1) stalling [])
reports-AllPaced_example =
    reports-AllPaced (7, 1) stalling 100
      (omega arith, (omega arith, (omega arith, (omega arith, (omega arith, (omega arith, tt))))))

abbrev flaky : Answers
flaky = record {
  active = true;
  channel = true;
  voice = true;
  still_active = true;
  first_join = failed;
  waited = true;
  active_again = true;
  second_join = opened;
}
