-- ===== src/Manager/Raid.antt =====
-- internal/manager/voice_raid.go: how a raid starts, as host and as guest, with what it takes and
-- gives back on the way. What the other parts and Discord answer is a parameter.
pub mod Released
pub mod Guest
pub mod Sessions
mod Examples
use go_discord_caller.Base.{
  if◌then◌else◌, nat_eq, string_eq, pair_eq, nat_zero, bool_zero, list_zero, string_zero, take,
  here, there, ◌+◌, ◌-◌, ◌/◌, ap, Bool, not, ◌&&◌, Option, none, some, List, [], ◌∷◌, ◌++◌,
}

-- What a start holds: the guild's slot in the start guard, the joined speakers, the owner bot's voice
-- connection and what is set up on it, the host's relay session, and the guest's seat in one.
pub data Resource : Type 0 where
  slot speakers owner_voice owner_setup relay seat : Resource

pub data Effect : Type 0 where
  takes frees : Resource → Effect
  commits starts : Effect

-- What a `Join` of the owner's channel yields.
pub data Joining : Type 0 where
  joined failed no_conn : Joining

pub data StartError : Type 0 where
  session_exists no_deafen_permission no_caller_role no_owner_channel speakers_failed : StartError
  owner_failed owner_nil owner_setup_failed build_failed cancelled commit_failed : StartError
  code_refused : StartError

pub record HostAnswers : Type 0 where
  pub begins : Bool
  pub missing_permission : Bool
  pub caller_role : Bool
  pub owner_channel : Bool
  pub speakers_join : Bool
  pub owner_joins : Joining
  pub applies : Bool
  pub builds : Bool
  pub context_done : Bool
  pub commit_works : Bool

-- `errCleanup`
abbrev pub err_cleanup : List Effect
err_cleanup = frees speakers ∷ frees owner_setup ∷ frees owner_voice ∷ frees relay ∷ []

-- `StartVoiceRaid` from the relay session on.
unfoldable pub host_commits : HostAnswers → Option StartError × List Effect
host_commits a =
    if not a.builds
    then (some build_failed, err_cleanup)
    else if a.context_done
    then (some cancelled, err_cleanup)
    else if not a.commit_works
    then (some commit_failed, err_cleanup)
    else (none, commits ∷ starts ∷ [])

abbrev pub before : List Effect → Option StartError × List Effect → Option StartError × List Effect
before es r = (r.0, es ++ r.1)

-- From the owner's connection on.
unfoldable pub host_owner : HostAnswers → Option StartError × List Effect
unfolding host_commits
host_owner a = elim a.owner_joins [
  | failed ↦ (some owner_failed, frees speakers ∷ [])
  | no_conn ↦ (some owner_nil, frees speakers ∷ [])
  | joined ↦
      if not a.applies
      then (some owner_setup_failed, takes owner_voice ∷ frees speakers ∷ [])
      else before (takes owner_voice ∷ takes owner_setup ∷ takes relay ∷ []) (host_commits a)
]

unfoldable pub host_checks : HostAnswers → Option StartError × List Effect
unfolding host_owner
host_checks a =
    if a.missing_permission
    then (some no_deafen_permission, [])
    else if not a.caller_role
    then (some no_caller_role, [])
    else if not a.owner_channel
    then (some no_owner_channel, [])
    else if not a.speakers_join
    then (some speakers_failed, [])
    else before (takes speakers ∷ []) (host_owner a)

-- The slot is given back however the rest returns.
abbrev pub guarded : Bool → Option StartError × List Effect → Option StartError × List Effect
guarded begins r =
    if begins then (r.0, takes slot ∷ r.1 ++ frees slot ∷ []) else (some session_exists, [])

-- `StartVoiceRaid`
unfoldable pub start_voice_raid : HostAnswers → Option StartError × List Effect
unfolding host_checks
start_voice_raid a = guarded a.begins (host_checks a)

pub record GuestAnswers : Type 0 where
  pub begins : Bool
  pub missing_permission : Bool
  pub code_joins : Bool
  pub host_allows : Bool
  pub caller_role : Bool
  pub speakers_join : Bool
  pub owner_joins : Joining
  pub applies : Bool
  pub builds : Bool
  pub commit_works : Bool

-- Whether the guest captures in the end: it asks to, and the host allows it.
unfoldable pub effective_capture : Bool → GuestAnswers → Bool
effective_capture capture a = capture && a.host_allows

-- The owner's connection in a guest: set up, opened but not set up, or not there. None of these fails
-- the start.
pub data Owner : Type 0 where
  set_up bare away : Owner

unfoldable pub owner_state : Joining → Bool → Owner
owner_state failed applies = away
owner_state no_conn applies = away
owner_state joined applies = if applies then set_up else bare

unfoldable pub guest_owner : Owner → List Effect
guest_owner set_up = takes owner_voice ∷ takes owner_setup ∷ []
guest_owner bare = takes owner_voice ∷ []
guest_owner away = []

-- `guestCleanupOwner`, which does nothing unless the connection was set up.
unfoldable pub guest_cleanup_owner : Owner → List Effect
guest_cleanup_owner set_up = frees owner_setup ∷ frees owner_voice ∷ []
guest_cleanup_owner bare = []
guest_cleanup_owner away = []

unfoldable pub guest_commits : Owner → GuestAnswers → Option StartError × List Effect
unfolding guest_cleanup_owner
guest_commits o a =
    let undo = frees speakers ∷ guest_cleanup_owner o ++ frees seat ∷ [] in
    if not a.builds
    then (some build_failed, undo)
    else if not a.commit_works
    then (some commit_failed, undo)
    else (none, commits ∷ starts ∷ [])

unfoldable pub guest_checks : Bool → GuestAnswers → Option StartError × List Effect
unfolding guest_commits guest_owner effective_capture owner_state
guest_checks capture a =
    let o = owner_state a.owner_joins a.applies in
    if a.missing_permission
    then (some no_deafen_permission, [])
    else if not a.code_joins
    then (some code_refused, [])
    else before (takes seat ∷ []) (
        if effective_capture capture a && not a.caller_role
        then (some no_caller_role, frees seat ∷ [])
        else if not a.speakers_join
        then (some speakers_failed, frees seat ∷ [])
        else before (takes speakers ∷ guest_owner o) (guest_commits o a))

-- `JoinSession`
unfoldable pub join_session : Bool → GuestAnswers → Option StartError × List Effect
unfolding guest_checks
join_session capture a = guarded a.begins (guest_checks capture a)
