-- ===== src/Manager/Reconnect.antt =====
-- internal/manager/voice_raid_reconnect.go and voice_reconnect.go: the reconnect of a bot, the appliers
-- that wire a new connection, and the back-off of a bot that stalls. A key is a guild and a bot.
pub mod Backoff
pub mod Rejoin
mod Examples
use go_discord_caller.Base.{
  leb, if◌then◌else◌, nat_eq, string_eq, pair_eq, nat_zero, bool_zero, list_zero, string_zero, Map,
  lookup, insert, delete, here, there, ℕ, ◌+◌, ◌-◌, ◌*◌, ◌/◌, min, max, ap, Bool, true, false,
  Option, none, some, List, [], ◌∷◌,
}

abbrev pub BotKey : Type 0
BotKey = ℕ × ℕ

-- Times are in seconds.
abbrev pub stall_rejoin_backoff_min : ℕ
stall_rejoin_backoff_min = 30

abbrev pub stall_rejoin_backoff_max : ℕ
stall_rejoin_backoff_max = 300

pub record StallRejoin : Type 0 where
  pub last_report : ℕ
  pub next_rejoin : ℕ
  pub delay : ℕ

-- The record that a report finds, or makes anew after a long silence.
unfoldable pub current : Option StallRejoin → ℕ → StallRejoin
current none now = record { last_report = 0; next_rejoin = 0; delay = stall_rejoin_backoff_min }
current (some r) now =
    if leb stall_rejoin_backoff_max (now - r.last_report)
    then record { last_report = 0; next_rejoin = 0; delay = stall_rejoin_backoff_min }
    else r

-- `due` on one key: whether to rejoin, and the record.
unfoldable pub due_one : Option StallRejoin → ℕ → Bool × StallRejoin
unfolding current
due_one seen now =
    let r = current seen now in
    if leb r.next_rejoin now
    then (
      true,
      record {
        last_report = now;
        next_rejoin = now + r.delay;
        delay = min (2 * r.delay) stall_rejoin_backoff_max;
      },
    )
    else (false, record r { last_report = now })

-- `due`
unfoldable pub due : BotKey → ℕ → Map BotKey StallRejoin → Bool × Map BotKey StallRejoin
unfolding due_one lookup insert
due k now m = let (go, r) = due_one (lookup k m) now in (go, insert k r m)

pub record ReconnectState : Type 0 where
  pub appliers : Map BotKey ℕ
  pub in_flight : Map BotKey (Unit {0})
  pub stalls : Map BotKey StallRejoin

unfoldable pub new_reconnect_state : ReconnectState
new_reconnect_state = record { appliers = []; in_flight = []; stalls = [] }

-- `tryLock`: `LoadOrStore` says whether the key was there.
unfoldable pub try_lock : BotKey → ReconnectState → Bool × ReconnectState
unfolding lookup insert
try_lock k rs = elim (lookup k rs.in_flight) [
  | some u ↦ (false, rs)
  | none ↦ (true, record rs { in_flight = insert k tt rs.in_flight })
]

unfoldable pub unlock : BotKey → ReconnectState → ReconnectState
unfolding delete
unlock k rs = record rs { in_flight = delete k rs.in_flight }

unfoldable pub store_applier : BotKey → ℕ → ReconnectState → ReconnectState
unfolding insert
store_applier k a rs = record rs { appliers = insert k a rs.appliers }

unfoldable pub load_applier : BotKey → ReconnectState → Option ℕ
unfolding lookup
load_applier k rs = lookup k rs.appliers

-- `stallRejoinDue`
unfoldable pub stall_rejoin_due : BotKey → ℕ → ReconnectState → Bool × ReconnectState
unfolding due
stall_rejoin_due k now rs =
    let (go, stalls) = due k now rs.stalls in (go, record rs { stalls = stalls })

unfoldable pub clear_bot : BotKey → ReconnectState → ReconnectState
unfolding delete
clear_bot k rs = record rs { appliers = delete k rs.appliers; stalls = delete k rs.stalls }

-- `clearGuild`: the pool's bots and the owner.
unfoldable pub clear_guild : ℕ → List ℕ → ℕ → ReconnectState → ReconnectState
unfolding clear_bot
clear_guild guild [] owner rs = clear_bot (guild, owner) rs
clear_guild guild (bot ∷ bots) owner rs = clear_guild guild bots owner (clear_bot (guild, bot) rs)
