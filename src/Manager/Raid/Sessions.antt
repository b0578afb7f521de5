-- ===== src/Manager/Raid/Sessions.antt =====
-- internal/manager/service.go and voice_raid.go: the sessions that the service keeps, and the copy
-- of their routers that voice events read without a lock.
use go_discord_caller.Base.{
  ◌==◌, if◌then◌else◌, ==_iff, ==_refl, Option-cases, nat_eq, string_eq, pair_eq, nat_zero,
  bool_zero, list_zero, string_zero, Map, lookup, insert, delete, lookup-insert, lookup-delete, ℕ,
  ◌≡◌, refl, ◌≢◌, ◌⊎◌, inl, inr, Bool, true, false, Option, none, some, List, [], ◌∷◌, arith,
}

-- A session is known by a number, as is its router.
pub record Session : Type 0 where
  pub id : ℕ
  pub auto_router : Option ℕ
  pub is_guest : Bool

-- `statuses` has an entry for each guild that was seeded, with its session.
pub record Service : Type 0 where
  pub statuses : Map ℕ (Option Session)
  pub active_routers : Map ℕ ℕ

unfoldable pub new_service : Service
new_service = record { statuses = []; active_routers = [] }

-- `clearActiveRouter`
unfoldable pub clear_active_router : ℕ → Service → Service
unfolding delete
clear_active_router guild m = record m { active_routers = delete guild m.active_routers }

-- `setActiveRouter`
unfoldable pub set_active_router : ℕ → Option ℕ → Service → Service
unfolding clear_active_router insert
set_active_router guild none m = clear_active_router guild m
set_active_router guild (some r) m = record m { active_routers = insert guild r m.active_routers }

-- The part of `seedGuildSpeakers` that makes the status.
unfoldable pub seed : ℕ → Service → Service
unfolding lookup insert
seed guild m = elim (lookup guild m.statuses) [
  | none ↦ record m { statuses = insert guild none m.statuses }
  | some st ↦ m
]

pub data CommitResult : Type 0 where
  committed status_gone already_active : CommitResult

-- `commitSession`
unfoldable pub commit_session : ℕ → Session → Service → CommitResult × Service
unfolding lookup insert set_active_router
commit_session guild session m = elim (lookup guild m.statuses) [
  | none ↦ (status_gone, m)
  | some (some old) ↦ (already_active, m)
  | some none ↦
      (let n : Service = record m { statuses = insert guild (some session) m.statuses } in
        elim session.auto_router [
          | none ↦ (committed, n)
          | some r ↦ (committed, set_active_router guild (some r) n)
        ])
]

-- What a stop finds: the session it takes out, no session, or another than the one it is meant for.
pub data StopResult : Type 0 where
  stopped : Session → StopResult
  not_active not_wanted : StopResult

unfoldable pub is_wanted : Option ℕ → Session → Bool
is_wanted none session = true
is_wanted (some id) session = id == session.id

-- `stopSession` under the lock. `not_active` goes on to cancel a start that is under way.
unfoldable pub stop_session : Option ℕ → ℕ → Service → StopResult × Service
unfolding lookup insert clear_active_router is_wanted
stop_session want guild m = elim (lookup guild m.statuses) [
  | none ↦ (not_active, m)
  | some none ↦ (not_active, m)
  | some (some session) ↦
      if is_wanted want session
      then (
        stopped session,
        clear_active_router guild (record m { statuses = insert guild none m.statuses }),
      )
      else (not_wanted, m)
]

-- The end of a guest's goroutine, which clears whatever session the guild has.
unfoldable pub guest_ended : ℕ → Service → Service
unfolding lookup insert clear_active_router
guest_ended guild m = clear_active_router guild (elim (lookup guild m.statuses) [
  | none ↦ m
  | some st ↦ record m { statuses = insert guild none m.statuses }
])

-- `HasActiveSession`
unfoldable pub has_active_session : ℕ → Service → Bool
unfolding lookup
has_active_session guild m = elim (lookup guild m.statuses) [
  | none ↦ false
  | some none ↦ false
  | some (some session) ↦ true
]

-- `AutoRoute`: the router that a voice event debounces.
unfoldable pub auto_route : ℕ → Service → Option ℕ
unfolding lookup
auto_route guild m = lookup guild m.active_routers

pub data Call : Type 0 where
  seeds : ℕ → Call
  commits : ℕ → Session → Call
  stops : Option ℕ → ℕ → Call
  guest_ends : ℕ → Call

unfoldable pub call : Call → Service → Service
unfolding seed commit_session stop_session guest_ended
call (seeds guild) m = seed guild m
call (commits guild session) m = (commit_session guild session m).1
call (stops want guild) m = (stop_session want guild m).1
call (guest_ends guild) m = guest_ended guild m

unfoldable pub calls : List Call → Service → Service
unfolding call
calls [] m = m
calls (c ∷ cs) m = calls cs (call c m)

-- The router of the guild's session.
unfoldable pub router_of : ℕ → Service → Option ℕ
unfolding lookup
router_of guild m = elim (lookup guild m.statuses) [
  | none ↦ none
  | some none ↦ none
  | some (some session) ↦ session.auto_router
]

call-Mirrored :
    (c : Call) (m : Service)
    → ((g : ℕ) → auto_route g m ≡ router_of g m)
    → (g : ℕ) → auto_route g (call c m) ≡ router_of g (call c m)
unfolding call auto_route router_of seed commit_session stop_session guest_ended set_active_router
    clear_active_router
call-Mirrored (seeds k) m h g = ground (arith, h g, h k, lookup-insert k g none m.statuses)
call-Mirrored (commits k session) m h g = elim (Option-cases session.auto_router) [
  | inl n ↦ ground (arith, h g, h k, n, ==_iff k g, lookup-insert k g (some session) m.statuses)
  | inr (r, e) ↦ ground (
    arith,
    h g,
    h k,
    e,
    ==_iff k g,
    lookup-insert k g (some session) m.statuses,
    lookup-insert k g r m.active_routers,
  )
]
call-Mirrored (stops want k) m h g = ground (
  arith,
  h g,
  h k,
  ==_iff k g,
  lookup-insert k g none m.statuses,
  lookup-delete k g m.active_routers,
)
call-Mirrored (guest_ends k) m h g = ground (
  arith,
  h g,
  h k,
  ==_iff k g,
  lookup-insert k g none m.statuses,
  lookup-delete k g m.active_routers,
)

calls_from :
    (cs : List Call) (m : Service)
    → ((g : ℕ) → auto_route g m ≡ router_of g m)
    → (g : ℕ) → auto_route g (calls cs m) ≡ router_of g (calls cs m)
unfolding calls
calls_from [] m h = h
calls_from (c ∷ cs) m h = calls_from cs (call c m) (call-Mirrored c m h)

-- Whatever sessions are committed, stopped and ended, a voice event finds exactly the router of the
-- session that its guild has, and none when the guild has no session or one without a router.
pub calls-Mirrored :
    (cs : List Call) (g : ℕ)
    → auto_route g (calls cs new_service) ≡ router_of g (calls cs new_service)
unfolding router_of auto_route new_service
calls-Mirrored cs = calls_from cs new_service empty
  where
    empty : (g : ℕ) → auto_route g new_service ≡ router_of g new_service
    empty g = refl

-- What a stop does: with a session taken out, it was the guild's and the one that was wanted, and
-- the guild has none now; otherwise nothing has changed.
pub record Stops (want : Option ℕ) (guild : ℕ) (m : Service) (r : StopResult × Service)
    : Type 0 where
  pub others : (g : ℕ) → guild ≢ g → lookup g r.1.statuses ≡ lookup g m.statuses
  pub taken :
      (s : Session)
      → r.0 ≡ stopped s
      → (lookup guild m.statuses ≡ some (some s))
        × (is_wanted want s ≡ true)
        × (has_active_session guild r.1 ≡ false)
        × (auto_route guild r.1 ≡ none)
  pub kept : (r.0 ≡ not_active) ⊎ (r.0 ≡ not_wanted) → r.1 ≡ m

-- A stop takes out the guild's session and its router when it is the one that was wanted, or any was,
-- and then no other guild's session changes; in every other case it changes nothing.
pub stop_session-Stops :
    (want : Option ℕ) (guild : ℕ) (m : Service) → Stops want guild m (stop_session want guild m)
unfolding stop_session has_active_session auto_route clear_active_router
stop_session-Stops want guild m = record {
  others = λ g n. ground (arith, n, ==_iff guild g, lookup-insert guild g none m.statuses);
  taken = λ s h. ground (
    arith,
    h,
    ==_refl guild,
    lookup-insert guild guild none m.statuses,
    lookup-delete guild guild m.active_routers,
  );
  kept = λ h. ground (arith, h);
}
