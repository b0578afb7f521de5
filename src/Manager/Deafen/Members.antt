-- ===== src/Manager/Deafen/Members.antt =====
-- internal/manager/speaker_deafen.go: what every change of one member keeps to, and the loop of
-- `Observe` by the member.

use go_discord_caller.Base.{
  leb, if◌then◌else◌, bool_eq, nat_eq, string_eq, pair_eq, nat_zero, bool_zero, list_zero,
  string_zero, ℕ, suc, ◌+◌, ◌≤◌, ◌<◌, ◌≡◌, refl, Bool, true, false, not, ◌&&◌, ◌||◌, Option, none,
  some, arith,
}
use go_discord_caller.Manager.Deafen.{
  DeafMember, deaf_retry_limit, new_member, stop_timer, reconcile_locked, observe_member,
  after_delay, settle,
}

abbrev pub bit : Bool → ℕ
bit true = 1
bit false = 0

-- A member has a timer or a change in flight, never both, and either only within its budget; while
-- the controller is on, one that is not as wanted has one of them or is out of budget.
pub record Good (idle : Bool) (mem : DeafMember) : Type 0 where
  pub calm : mem.in_flight ≡ true → mem.timer ≡ false
  pub budget : mem.failures ≤ deaf_retry_limit
  pub flying : mem.in_flight ≡ true → mem.failures < deaf_retry_limit
  pub counting : mem.timer ≡ true → mem.failures < deaf_retry_limit
  pub driven :
      idle ≡ false
      → mem.in_flight ≡ false
      → mem.timer ≡ false
      → (bool_eq mem.want mem.deaf || leb deaf_retry_limit mem.failures) ≡ true

-- What `reconcileLocked` asks of the member it is given.
record Ready (mem : DeafMember) : Type 0 where
  calm : mem.in_flight ≡ true → mem.timer ≡ false
  budget : mem.failures ≤ deaf_retry_limit
  flying : mem.in_flight ≡ true → mem.failures < deaf_retry_limit
  counting : mem.timer ≡ true → mem.failures < deaf_retry_limit

reconcile_locked-Good :
    (idle immediate : Bool) (mem : DeafMember)
    → Ready mem
    → Good idle (reconcile_locked idle immediate mem).1
unfolding reconcile_locked stop_timer
reconcile_locked-Good idle immediate mem r = record {
  calm = ground (arith, r.calm);
  budget = ground (arith, r.budget);
  flying = ground (arith, r.flying);
  counting = ground (arith, r.counting);
  driven = ground arith;
}

-- A change is launched exactly when the member comes to be in flight.
reconcile_locked-bit :
    (idle immediate : Bool) (mem : DeafMember)
    → let (go, next) = reconcile_locked idle immediate mem in
      bit next.in_flight ≡ bit go + bit mem.in_flight
unfolding reconcile_locked stop_timer
reconcile_locked-bit idle immediate mem = ground arith

pub observe_member-Good :
    (idle want : Bool) (mem : DeafMember)
    → Good idle mem
    → Good idle (observe_member idle want mem).1
unfolding observe_member
observe_member-Good idle want mem g = reconcile_locked-Good _ _ _ (record {
  calm = g.calm;
  budget = omega arith;
  flying = λ h. omega arith;
  counting = λ h. omega arith;
})

pub observe_member-bit :
    (idle want : Bool) (mem : DeafMember)
    → let (go, next) = observe_member idle want mem in
      bit next.in_flight ≡ bit go + bit mem.in_flight
unfolding observe_member
observe_member-bit idle want mem =
    let retrying = mem.rejected && bool_eq want mem.want in
    reconcile_locked-bit idle (not retrying)
      (record mem { failures = 0; rejected = retrying; want = want })

pub after_delay-Good :
    (idle : Bool) (mem : DeafMember) → Good idle mem → Good idle (after_delay idle mem).1
unfolding after_delay
after_delay-Good idle mem g = record {
  calm = ground (arith, g.calm);
  budget = ground (arith, g.budget);
  flying = ground (arith, g.flying, g.counting);
  counting = ground (arith, g.counting);
  driven = ground (arith, g.driven);
}

abbrev pub launched : Option Bool → ℕ
launched none = 0
launched (some deaf) = 1

pub after_delay-bit :
    (idle : Bool) (mem : DeafMember)
    → let (change, next) = after_delay idle mem in
      bit next.in_flight ≡ launched change + bit mem.in_flight
unfolding after_delay
after_delay-bit idle mem = ground arith

pub settle-Good :
    (idle deaf accepted : Bool) (mem : DeafMember)
    → mem.in_flight ≡ true
    → Good idle mem
    → Good idle (settle idle deaf accepted mem).1
unfolding settle
settle-Good idle deaf true mem f g = reconcile_locked-Good _ _ _ (record {
  calm = λ h. g.calm f;
  budget = omega arith;
  flying = λ h. omega arith;
  counting = λ h. omega arith;
})
settle-Good idle deaf false mem f g = reconcile_locked-Good _ _ _ (record {
  calm = λ h. g.calm f;
  budget = omega (arith, g.flying f);
  flying = λ h. ground (arith, h);
  counting = λ h. ground (arith, h, g.calm f);
})

pub settle-bit :
    (idle deaf accepted : Bool) (mem : DeafMember)
    → let (go, next) = settle idle deaf accepted mem in bit next.in_flight ≡ bit go
unfolding settle
settle-bit idle deaf true mem = ground (
  arith,
  reconcile_locked-bit idle true
      (record mem { in_flight = false; deaf = deaf; failures = 0; rejected = false }),
)
settle-bit idle deaf false mem = ground (
  arith,
  reconcile_locked-bit idle false
      (record mem { in_flight = false; failures = suc mem.failures; rejected = true }),
)

pub stop_timer-Good : (idle : Bool) (mem : DeafMember) → Good idle mem → Good true (stop_timer mem)
unfolding stop_timer
stop_timer-Good idle mem g = record {
  calm = λ h. refl;
  budget = g.budget;
  flying = g.flying;
  counting = λ h. ground (arith, h);
  driven = λ h. ground (arith, h);
}

pub new_member-Good : (idle deaf : Bool) → Good idle (new_member deaf)
unfolding new_member
new_member-Good idle deaf = record {
  calm = λ h. refl;
  budget = omega arith;
  flying = λ h. omega arith;
  counting = λ h. omega arith;
  driven = λ h f t. ground arith;
}

-- What a step does to the state of a member and to what is wanted of it.
pub observe_member_states :
    (idle want : Bool) (mem : DeafMember)
    → let next = (observe_member idle want mem).1 in (next.deaf ≡ mem.deaf) × (next.want ≡ want)
unfolding observe_member reconcile_locked stop_timer
observe_member_states idle want mem = ground arith

pub after_delay_states :
    (idle : Bool) (mem : DeafMember)
    → let next = (after_delay idle mem).1 in (next.deaf ≡ mem.deaf) × (next.want ≡ mem.want)
unfolding after_delay
after_delay_states idle mem = ground arith

pub settle_states :
    (idle deaf accepted : Bool) (mem : DeafMember)
    → let next = (settle idle deaf accepted mem).1 in
      (next.deaf ≡ (if accepted then deaf else mem.deaf)) × (next.want ≡ mem.want)
unfolding settle reconcile_locked stop_timer
settle_states idle deaf accepted mem = ground arith
