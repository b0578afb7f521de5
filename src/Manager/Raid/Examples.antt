-- ===== src/Manager/Raid/Examples.antt =====
-- Starts that fail, and sessions that end.
use go_discord_caller.Base.{
  nat_eq, string_eq, pair_eq, nat_zero, bool_zero, list_zero, string_zero, ◌≡◌, refl, true, false,
  none, some, [], ◌∷◌,
}
use go_discord_caller.Manager.Raid.{
  owner_voice, commits, joined, owner_setup_failed, HostAnswers, start_voice_raid, GuestAnswers,
}
use go_discord_caller.Manager.Raid.Released.{held}
use go_discord_caller.Manager.Raid.Sessions.{
  Session, new_service, has_active_session, seeds, commits, stops, guest_ends, calls,
}

-- A host whose owner connection opens and cannot be set up.
abbrev unset_host : HostAnswers
unset_host = record {
  begins = true;
  missing_permission = false;
  caller_role = true;
  owner_channel = true;
  speakers_join = true;
  owner_joins = joined;
  applies = false;
  builds = true;
  context_done = false;
  commit_works = true;
}

-- Its owner stays in the voice channel.
owner_left_behind :
    ((start_voice_raid unset_host).0 ≡ some owner_setup_failed)
    × (held owner_voice false (start_voice_raid unset_host).1 ≡ true)
unfolding start_voice_raid held
owner_left_behind = (refl, refl)

-- A guest whose commit fails.
abbrev late_guest : GuestAnswers
late_guest = record {
  begins = true;
  missing_permission = false;
  code_joins = true;
  host_allows = true;
  caller_role = true;
  speakers_join = true;
  owner_joins = joined;
  applies = true;
  builds = true;
  commit_works = false;
}

abbrev guest_of_one : Session
guest_of_one = record { id = 1; auto_router = some 10; is_guest = true }

abbrev host_of_one : Session
host_of_one = record { id = 2; auto_router = some 20; is_guest = false }

-- A guest's session is stopped and another starts before the guest's goroutine has run: the new
-- session is gone from the statuses, though nothing has stopped it.
forgotten :
    has_active_session 7 (
      calls
        (seeds 7
          ∷ commits 7 guest_of_one
          ∷ stops none 7
          ∷ commits 7 host_of_one
          ∷ guest_ends 7
          ∷ [])
        new_service)
    ≡ false
unfolding calls new_service has_active_session
forgotten = refl
