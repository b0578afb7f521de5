-- ===== src/Manager/Raid/Guest.antt =====
-- internal/manager/voice_raid.go: a guest's start that fails gives back what it took.
use go_discord_caller.Base.{
  if◌then◌else◌, nat_eq, string_eq, pair_eq, nat_zero, bool_zero, list_zero, string_zero, ◌≡◌, refl,
  Bool, true, false, not, ◌&&◌, Option, none, some, List, [], ◌∷◌, ◌++◌,
}
use go_discord_caller.Manager.Raid.{
  Resource, slot, speakers, owner_voice, owner_setup, relay, seat, Effect, takes, frees, commits,
  starts, StartError, session_exists, no_deafen_permission, no_caller_role, speakers_failed,
  build_failed, commit_failed, code_refused, before, guarded, GuestAnswers, effective_capture,
  Owner, set_up, bare, away, owner_state, guest_owner, guest_cleanup_owner, guest_commits,
  guest_checks, join_session,
}
use go_discord_caller.Manager.Raid.Released.{
  same, held, commit_count, Balanced, agree, if_elim, failing, working,
}

-- What a failed start of a guest still holds: nothing but the owner's connection where that was
-- opened and not set up, which the clean-up of a guest leaves alone.
abbrev pub is_bare : Owner → Bool
is_bare set_up = false
is_bare bare = true
is_bare away = false

unfoldable pub guest_left : Owner → StartError → Resource → Bool
guest_left o build_failed owner_voice = is_bare o
guest_left o commit_failed owner_voice = is_bare o
guest_left o e x = false

-- What a guest's session runs on.
unfoldable pub guest_needs : Owner → Resource → Bool
guest_needs o slot = false
guest_needs o relay = false
guest_needs o speakers = true
guest_needs o seat = true
guest_needs set_up owner_voice = true
guest_needs bare owner_voice = true
guest_needs away owner_voice = false
guest_needs set_up owner_setup = true
guest_needs bare owner_setup = false
guest_needs away owner_setup = false

abbrev Guest : Owner → Option StartError × List Effect → Type 0
Guest o = Balanced (guest_needs o) (guest_left o)

abbrev seated : Option StartError × List Effect → Option StartError × List Effect
seated r = guarded true (before (takes seat ∷ []) r)

abbrev guest_whole : Owner → Option StartError × List Effect → Option StartError × List Effect
guest_whole o r = seated (before (takes speakers ∷ guest_owner o) r)

-- The effects of a start whose last part fails, and of one that works.
abbrev undone_whole : Owner → List Effect
undone_whole o = (guest_whole o (none, frees speakers ∷ guest_cleanup_owner o ++ frees seat ∷ [])).1

abbrev done_whole : Owner → List Effect
done_whole o = (guest_whole o (none, commits ∷ starts ∷ [])).1

-- The last part, by its three ends.
three :
    (o : Owner) (a : GuestAnswers)
    → commit_count (undone_whole o) ≡ 0
    → agree (λ x. held x false (undone_whole o)) (guest_left o build_failed) ≡ true
    → commit_count (undone_whole o) ≡ 0
    → agree (λ x. held x false (undone_whole o)) (guest_left o commit_failed) ≡ true
    → commit_count (done_whole o) ≡ 1
    → agree (λ x. held x false (done_whole o)) (guest_needs o) ≡ true
    → Guest o (guest_whole o (guest_commits o a))
unfolding guest_commits
three o a c1 h1 c2 h2 c3 h3 =
    if_elim (λ r. Guest o (guest_whole o r)) (not a.builds)
      (failing (guest_needs o) (guest_left o) build_failed _ c1 h1)
      (if_elim (λ r. Guest o (guest_whole o r)) (not a.commit_works)
        (failing (guest_needs o) (guest_left o) commit_failed _ c2 h2)
        (working (guest_needs o) (guest_left o) _ c3 h3))

guest_commits-Balanced :
    (o : Owner) (a : GuestAnswers) → Guest o (guest_whole o (guest_commits o a))
unfolding guest_commits guest_owner guest_cleanup_owner held same commit_count guest_needs
    guest_left
guest_commits-Balanced set_up a = three set_up a refl refl refl refl refl refl
guest_commits-Balanced bare a = three bare a refl refl refl refl refl refl
guest_commits-Balanced away a = three away a refl refl refl refl refl refl

-- A guest's start that works has committed once and holds what the session runs on, its slot given
-- back. One that fails has not committed and holds nothing, but for the owner's voice connection when
-- that could be opened and not set up.
pub join_session-Balanced :
    (capture : Bool) (a : GuestAnswers)
    → Balanced
        (guest_needs (owner_state a.owner_joins a.applies))
        (guest_left (owner_state a.owner_joins a.applies))
        (join_session capture a)
unfolding join_session guest_checks held same commit_count guest_needs guest_left
join_session-Balanced capture a = given (owner_state a.owner_joins a.applies)
  where
    given :
        (o : Owner)
        → Guest o (
            guarded a.begins (
              if a.missing_permission
              then (some no_deafen_permission, [])
              else if not a.code_joins
              then (some code_refused, [])
              else before (takes seat ∷ []) (
                  if effective_capture capture a && not a.caller_role
                  then (some no_caller_role, frees seat ∷ [])
                  else if not a.speakers_join
                  then (some speakers_failed, frees seat ∷ [])
                  else before (takes speakers ∷ guest_owner o) (guest_commits o a))))
    given o =
        if_elim (Guest o) a.begins
          (if_elim (λ r. Guest o (guarded true r)) a.missing_permission
            (failing (guest_needs o) (guest_left o) no_deafen_permission _ refl refl)
            (if_elim (λ r. Guest o (guarded true r)) (not a.code_joins)
              (failing (guest_needs o) (guest_left o) code_refused _ refl refl)
              (if_elim (λ r. Guest o (seated r)) (effective_capture capture a && not a.caller_role)
                (failing (guest_needs o) (guest_left o) no_caller_role _ refl refl)
                (if_elim (λ r. Guest o (seated r)) (not a.speakers_join)
                  (failing (guest_needs o) (guest_left o) speakers_failed _ refl refl)
                  (guest_commits-Balanced o a)))))
          (failing (guest_needs o) (guest_left o) session_exists _ refl refl)
