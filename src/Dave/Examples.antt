-- ===== src/Dave/Examples.antt =====
-- One sender, "9", on the bot "1", heard in two sessions.
use go_discord_caller.Base.{
  nat_eq, string_eq, pair_eq, nat_zero, bool_zero, list_zero, string_zero, lookup, ◌<◌, ◌≡◌, refl,
  sym, subst, none, some, List, [], ◌∷◌, arith,
}
use go_discord_caller.Dave.Stats.{AggKey, new_stats, reason, observe}
use go_discord_caller.Dave.Stats.Totals.{Call, frames, keeps, retires, calls}
use go_discord_caller.Dave.Stats.Holders.{held, observe-kept}

ratchet : reason (some "dave: missing key ratchet for user") ≡ "missing_key_ratchet"
unfolding reason
ratchet = refl

other_reason : reason (some "unexpected") ≡ "other"
unfolding reason
other_reason = refl

abbrev call_list : List Call
call_list =
    keeps "1" "9"
    ∷ keeps "1" "9"
    ∷ frames "1" "9" none
    ∷ frames "1" "9" (some "invalid nonce")
    ∷ retires "1" "9"
    ∷ []

abbrev success : AggKey
success = ("1", ("success", "none"))

one_holds : held ("1", "9") 0 call_list ≡ 1
unfolding held
one_holds = refl

observe-kept_example :
    lookup (("1", "9"), ("success", "none")) (observe (calls new_stats call_list)).1.counters
    ≡ lookup (("1", "9"), ("success", "none")) (calls new_stats call_list).counters
observe-kept_example =
    observe-kept call_list (("1", "9"), ("success", "none"))
      (subst (λ n. 0 < n) (sym one_holds) (omega arith))
