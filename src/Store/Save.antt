-- ===== src/Store/Save.antt =====
-- internal/store/yaml_store.go: the data that `save` writes, with the serialisation of that data
-- left to the YAML library.
use go_discord_caller.Base.{
  leb, if◌then◌else◌, nat_eq, string_eq, pair_eq, nat_zero, bool_zero, list_zero, string_zero, Map,
  lookup, insert, ℕ, String, Bool, true, false, Option, none, some, List, [], ◌∷◌, ◌++◌, map,
}
use go_discord_caller.Store.{BotKey, RoleType, RoleKey, InMemoryStore}

pub record YamlChannelEntry : Type 0 where
  pub user_id : ℕ
  pub channel_id : ℕ
  pub disabled_entry : Bool

pub record YamlRoleEntry : Type 0 where
  pub role_type : RoleType
  pub role_id : ℕ

pub record YamlGuildEntry : Type 0 where
  pub guild_id : ℕ
  pub ally_code : String
  pub locale : String
  pub channel_entries : List YamlChannelEntry
  pub role_entries : List YamlRoleEntry

abbrev pub YamlData : Type 0
YamlData = List YamlGuildEntry

-- `guildSet`, whose pointers are shared by nobody else.
abbrev pub GuildSet : Type 0
GuildSet = Map ℕ YamlGuildEntry

unfoldable pub empty_entry : ℕ → YamlGuildEntry
empty_entry id = record {
  guild_id = id;
  ally_code = "";
  locale = "";
  channel_entries = [];
  role_entries = [];
}

-- `ensureGuild`
unfoldable pub ensure_guild : ℕ → GuildSet → YamlGuildEntry
unfolding lookup empty_entry
ensure_guild id set = elim (lookup id set) [ none ↦ empty_entry id | some g ↦ g ]

-- A write through the pointer that `ensureGuild` returns.
unfoldable pub write_guild : ℕ → (YamlGuildEntry → YamlGuildEntry) → GuildSet → GuildSet
unfolding insert
write_guild id f set = insert id (f (ensure_guild id set)) set

unfoldable pub append_channel : YamlChannelEntry → YamlGuildEntry → YamlGuildEntry
append_channel c g = record g { channel_entries = g.channel_entries ++ c ∷ [] }

unfoldable pub append_role : YamlRoleEntry → YamlGuildEntry → YamlGuildEntry
append_role r g = record g { role_entries = g.role_entries ++ r ∷ [] }

unfoldable pub write_code : String → YamlGuildEntry → YamlGuildEntry
write_code code g = record g { ally_code = code }

unfoldable pub write_locale : String → YamlGuildEntry → YamlGuildEntry
write_locale locale g = record g { locale = locale }

abbrev pub is_some {ℓ} : {A : Type ℓ} → Option A → Bool
is_some none = false
is_some (some a) = true

unfoldable pub channel_entry : Map BotKey (Unit {0}) → BotKey × ℕ → YamlChannelEntry
unfolding lookup
channel_entry disabled (k, v) = record {
  user_id = k.0;
  channel_id = v;
  disabled_entry = is_some (lookup k disabled);
}

-- The loops of `save`, one for each map, over its entries in the order of the iteration.
unfoldable pub save_channels : Map BotKey (Unit {0}) → Map BotKey ℕ → GuildSet → GuildSet
save_channels disabled [] set = set
save_channels disabled ((k, v) ∷ m) set =
    save_channels disabled m (write_guild k.1 (append_channel (channel_entry disabled (k, v))) set)

unfoldable pub save_roles : Map RoleKey ℕ → GuildSet → GuildSet
save_roles [] set = set
save_roles ((k, v) ∷ m) set =
    save_roles m (write_guild k.0 (append_role (record { role_type = k.1; role_id = v })) set)

unfoldable pub save_codes : Map ℕ String → GuildSet → GuildSet
save_codes [] set = set
save_codes ((guild, code) ∷ m) set = save_codes m (write_guild guild (write_code code) set)

unfoldable pub save_locales : Map ℕ String → GuildSet → GuildSet
save_locales [] set = set
save_locales ((guild, locale) ∷ m) set =
    save_locales m (write_guild guild (write_locale locale) set)

unfoldable pub save_disabled : Map BotKey ℕ → Map BotKey (Unit {0}) → GuildSet → GuildSet
unfolding lookup
save_disabled channels [] set = set
save_disabled channels ((k, u) ∷ m) set =
    let unbound : YamlChannelEntry = record {
      user_id = k.0;
      channel_id = 0;
      disabled_entry = true;
    } in
    save_disabled channels m
      (if is_some (lookup k channels) then set else write_guild k.1 (append_channel unbound) set)

unfoldable pub guild_set : InMemoryStore → GuildSet
guild_set s = save_disabled s.channels s.disabled (
    save_locales s.locales
      (save_codes s.relay_codes (save_roles s.roles (save_channels s.disabled s.channels []))))

-- `slices.SortFunc` by the ids.
unfoldable pub insert_sorted : ℕ → List ℕ → List ℕ
insert_sorted x [] = x ∷ []
insert_sorted x (y ∷ ys) = if leb x y then x ∷ y ∷ ys else y ∷ insert_sorted x ys

unfoldable pub sort_ids : List ℕ → List ℕ
unfolding insert_sorted
sort_ids [] = []
sort_ids (x ∷ xs) = insert_sorted x (sort_ids xs)

-- The data that `save` hands to `yaml.Marshal`.
unfoldable pub save_data : InMemoryStore → YamlData
unfolding guild_set sort_ids ensure_guild
save_data s =
    let set = guild_set s in
    map (λ id. ensure_guild id set) (sort_ids (map (λ (e : ℕ × YamlGuildEntry). e.0) set))
