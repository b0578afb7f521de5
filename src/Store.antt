-- ===== src/Store.antt =====
-- internal/store/store.go: the bindings of channels, roles, ally codes, locales and speakers, kept
-- in memory.
pub mod Calls
pub mod Flushing
pub mod Yaml
pub mod Save
pub mod Load
pub mod RoundTrip
pub mod File
mod Examples
use go_discord_caller.Base.{
  if◌then◌else◌, nat_eq, string_eq, pair_eq, nat_zero, bool_zero, list_zero, string_zero, Map,
  lookup, insert, delete, get, All, here, ℕ, ◌-◌, ◌/◌, String, ap, Bool, true, false, not, ◌||◌,
  Option, none, some, List, [], ◌∷◌, map,
}

-- `botKey`, the user before the guild, and `roleKey`, the guild before the role type.
abbrev pub BotKey : Type 0
BotKey = ℕ × ℕ

abbrev pub RoleType : Type 0
RoleType = String

abbrev pub RoleKey : Type 0
RoleKey = ℕ × RoleType

pub record InMemoryStore : Type 0 where
  pub channels : Map BotKey ℕ
  pub roles : Map RoleKey ℕ
  pub relay_codes : Map ℕ String
  pub locales : Map ℕ String
  pub disabled : Map BotKey (Unit {0})

unfoldable pub new_in_memory_store : InMemoryStore
new_in_memory_store = record {
  channels = [];
  roles = [];
  relay_codes = [];
  locales = [];
  disabled = [];
}

unfoldable pub bind_channel : ℕ → ℕ → ℕ → InMemoryStore → InMemoryStore
unfolding insert
bind_channel guild user channel s = record s { channels = insert (user, guild) channel s.channels }

unfoldable pub unbind_channel : ℕ → ℕ → InMemoryStore → InMemoryStore
unfolding delete
unbind_channel guild user s = record s { channels = delete (user, guild) s.channels }

unfoldable pub get_bound_channel : ℕ → ℕ → InMemoryStore → Option ℕ
unfolding lookup
get_bound_channel guild user s = lookup (user, guild) s.channels

unfoldable pub bind_role : ℕ → RoleType → ℕ → InMemoryStore → InMemoryStore
unfolding insert
bind_role guild role_type role s = record s { roles = insert (guild, role_type) role s.roles }

unfoldable pub unbind_role : ℕ → RoleType → InMemoryStore → InMemoryStore
unfolding delete
unbind_role guild role_type s = record s { roles = delete (guild, role_type) s.roles }

unfoldable pub get_bound_role : ℕ → RoleType → InMemoryStore → Option ℕ
unfolding lookup
get_bound_role guild role_type s = lookup (guild, role_type) s.roles

-- Whether a code is a value of the map: membership in the set `used`.
unfoldable pub used_code : String → Map ℕ String → Bool
used_code code [] = false
used_code code ((g, c) ∷ m) = string_eq.beq c code || used_code code m

-- The loop of `uniqueAllyCode`, on the codes that the random source draws, one after another;
-- `none` when it has drawn them all.
unfoldable pub unique_ally_code : List String → Map ℕ String → Option String
unfolding used_code
unique_ally_code [] existing = none
unique_ally_code (code ∷ draws) existing =
    if used_code code existing then unique_ally_code draws existing else some code

-- The code, and the store after it.
unfoldable pub get_or_create_ally_code :
    List String → ℕ → InMemoryStore → Option (String × InMemoryStore)
unfolding lookup insert unique_ally_code
get_or_create_ally_code draws guild s = elim (lookup guild s.relay_codes) [
  | some code ↦ some (code, s)
  | none ↦ elim (unique_ally_code draws s.relay_codes) [
    | none ↦ none
    | some code ↦ some (code, record s { relay_codes = insert guild code s.relay_codes })
  ]
]

unfoldable pub get_ally_code : ℕ → InMemoryStore → Option String
unfolding lookup
get_ally_code guild s = lookup guild s.relay_codes

unfoldable pub bind_locale : ℕ → String → InMemoryStore → InMemoryStore
unfolding insert delete
bind_locale guild locale s =
    if string_eq.beq locale ""
    then record s { locales = delete guild s.locales }
    else record s { locales = insert guild locale s.locales }

unfoldable pub unbind_locale : ℕ → InMemoryStore → InMemoryStore
unfolding delete
unbind_locale guild s = record s { locales = delete guild s.locales }

unfoldable pub get_locale : ℕ → InMemoryStore → Option String
unfolding lookup
get_locale guild s = lookup guild s.locales

unfoldable pub set_speaker_enabled : ℕ → ℕ → Bool → InMemoryStore → InMemoryStore
unfolding insert delete
set_speaker_enabled guild user enabled s =
    if enabled
    then record s { disabled = delete (user, guild) s.disabled }
    else record s { disabled = insert (user, guild) tt s.disabled }

unfoldable pub is_speaker_enabled : ℕ → ℕ → InMemoryStore → Bool
unfolding lookup
is_speaker_enabled guild user s = elim (lookup (user, guild) s.disabled) [
  | none ↦ true
  | some u ↦ false
]
