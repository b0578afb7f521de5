-- ===== src/Manager/Deafen.antt =====
-- internal/manager/speaker_deafen.go: the controller of the server-deaf flags of a session's bots.
-- Every function that holds `c.mu` is one step. A timer is whether one is armed: a callback that was
-- under way when its timer stopped finds none, or one that was armed after, and takes it.
pub mod Session
pub mod Members
pub mod Table
pub mod Settled
pub mod Honest
pub mod Promises
pub mod Closing
pub mod Join
mod Examples
use go_discord_caller.Base.{
  leb, if◌then◌else◌, bool_eq, nat_eq, string_eq, pair_eq, nat_zero, bool_zero, list_zero,
  string_zero, Map, lookup, insert, ℕ, suc, Bool, true, false, not, ◌&&◌, ◌||◌, Option, none, some,
  List, [], ◌∷◌,
}

pub record DeafMember : Type 0 where
  pub deaf : Bool
  pub want : Bool
  pub in_flight : Bool
  pub timer : Bool
  pub failures : ℕ
  pub rejected : Bool

pub record DeafController : Type 0 where
  pub members : Map ℕ DeafMember
  pub closed : Bool
  pub disabled : Bool

abbrev pub deaf_retry_limit : ℕ
deaf_retry_limit = 3

unfoldable pub new_deaf_controller : DeafController
new_deaf_controller = record { members = []; closed = false; disabled = false }

abbrev pub off : DeafController → Bool
off c = c.closed || c.disabled

unfoldable pub new_member : Bool → DeafMember
new_member deaf = record {
  deaf = deaf;
  want = deaf;
  in_flight = false;
  timer = false;
  failures = 0;
  rejected = false;
}

-- `Register`
unfoldable pub register : ℕ → Bool → DeafController → DeafController
unfolding insert new_member
register bot deaf c =
    if c.closed then c else record c { members = insert bot (new_member deaf) c.members }

-- `stopTimer`
unfoldable pub stop_timer : DeafMember → DeafMember
stop_timer mem = record mem { timer = false }

-- `reconcileLocked`, where `idle` is whether the controller is closed or disabled: whether the caller
-- is to undeafen the bot, and the member.
unfoldable pub reconcile_locked : Bool → Bool → DeafMember → Bool × DeafMember
unfolding stop_timer
reconcile_locked idle immediate mem =
    if idle || mem.in_flight
    then (false, mem)
    else if bool_eq mem.want mem.deaf
    then (false, record (stop_timer mem) { failures = 0 })
    else if leb deaf_retry_limit mem.failures
    then (false, stop_timer mem)
    else if not mem.want && immediate
    then (true, record (stop_timer mem) { in_flight = true })
    else (false, record mem { timer = true })

-- One round of the loop of `Observe`, with the state that the router wants.
unfoldable pub observe_member : Bool → Bool → DeafMember → Bool × DeafMember
unfolding reconcile_locked
observe_member idle want mem =
    let retrying = mem.rejected && bool_eq want mem.want in
    reconcile_locked idle (not retrying)
      (record mem { failures = 0; rejected = retrying; want = want })

-- The loop, with the bots that are to be undeafened.
unfoldable pub observe_members : Bool → (ℕ → Bool) → Map ℕ DeafMember → List ℕ × Map ℕ DeafMember
unfolding observe_member
observe_members idle capturing [] = ([], [])
observe_members idle capturing ((bot, mem) ∷ m) =
    let rest = observe_members idle capturing m in
    let (undeafen, next) = observe_member idle (not (capturing bot)) mem in
    (if undeafen then bot ∷ rest.0 else rest.0, (bot, next) ∷ rest.1)

-- `Observe`
unfoldable pub observe : (ℕ → Bool) → DeafController → List ℕ × DeafController
unfolding observe_members
observe capturing c =
    if off c
    then ([], c)
    else (let (undeafen, next) = observe_members (off c) capturing c.members in
        (undeafen, record c { members = next }))

-- The guards of `applyAfterDelay`, and the change it makes: what to apply, if anything.
unfoldable pub after_delay : Bool → DeafMember → Option Bool × DeafMember
after_delay idle mem =
    if idle || mem.in_flight || not mem.timer
    then (none, mem)
    else if bool_eq mem.want mem.deaf
    then (none, record mem { timer = false })
    else (some mem.want, record mem { timer = false; in_flight = true })

unfoldable pub apply_after_delay : ℕ → DeafController → Option Bool × DeafController
unfolding after_delay lookup insert
apply_after_delay bot c = elim (lookup bot c.members) [
  | none ↦ (none, c)
  | some mem ↦
      (let (change, next) = after_delay (off c) mem in
        (change, record c { members = insert bot next c.members }))
]

-- The part of `apply` after Discord has answered: whether to undeafen the bot at once.
unfoldable pub settle : Bool → Bool → Bool → DeafMember → Bool × DeafMember
unfolding reconcile_locked
settle idle deaf accepted mem =
    if accepted
    then reconcile_locked idle true
        (record mem { in_flight = false; deaf = deaf; failures = 0; rejected = false })
    else reconcile_locked idle false
        (record mem { in_flight = false; failures = suc mem.failures; rejected = true })

unfoldable pub applied : ℕ → Bool → Bool → DeafController → Bool × DeafController
unfolding settle lookup insert
applied bot deaf accepted c = elim (lookup bot c.members) [
  | none ↦ (false, c)
  | some mem ↦
      (let (undeafen, next) = settle (off c) deaf accepted mem in
        (undeafen, record c { members = insert bot next c.members }))
]

unfoldable pub stop_timers : Map ℕ DeafMember → Map ℕ DeafMember
unfolding stop_timer
stop_timers [] = []
stop_timers ((bot, mem) ∷ m) = (bot, stop_timer mem) ∷ stop_timers m

-- `noteError`, for an error that is one of permission.
unfoldable pub note_error : Bool → DeafController → DeafController
unfolding stop_timers
note_error permission c =
    if not permission || c.disabled
    then c
    else record c { disabled = true; members = stop_timers c.members }

-- The first part of `Close`, up to the wait.
unfoldable pub close_begin : DeafController → DeafController
unfolding stop_timers
close_begin c = if c.closed then c else record c { closed = true; members = stop_timers c.members }

-- The bots that `Close` undeafens after the wait.
unfoldable pub restore : Map ℕ DeafMember → List ℕ
restore [] = []
restore ((bot, mem) ∷ m) = let rest = restore m in if mem.deaf then bot ∷ rest else rest
