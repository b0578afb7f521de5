-- ===== src/Store/Load.antt =====
-- internal/store/yaml_store.go: what `load` reads from the data, into the maps it has.
use go_discord_caller.Base.{
  ◌==◌, if◌then◌else◌, nat_eq, string_eq, pair_eq, nat_zero, bool_zero, list_zero, string_zero,
  insert, ℕ, List, [], ◌∷◌,
}
use go_discord_caller.Store.{InMemoryStore}
use go_discord_caller.Store.Save.{YamlChannelEntry, YamlRoleEntry, YamlGuildEntry, YamlData}

-- One channel entry of a guild.
unfoldable pub load_channel : ℕ → YamlChannelEntry → InMemoryStore → InMemoryStore
unfolding insert
load_channel guild c s = record s {
  channels =
      if c.channel_id == 0 then s.channels else insert (c.user_id, guild) c.channel_id s.channels;
  disabled = if c.disabled_entry then insert (c.user_id, guild) tt s.disabled else s.disabled;
}

unfoldable pub load_channels : ℕ → List YamlChannelEntry → InMemoryStore → InMemoryStore
unfolding load_channel
load_channels guild [] s = s
load_channels guild (c ∷ cs) s = load_channels guild cs (load_channel guild c s)

unfoldable pub load_roles : ℕ → List YamlRoleEntry → InMemoryStore → InMemoryStore
unfolding insert
load_roles guild [] s = s
load_roles guild (r ∷ rs) s =
    load_roles guild rs (record s { roles = insert (guild, r.role_type) r.role_id s.roles })

-- The ally code and the locale of a guild.
unfoldable pub load_texts : YamlGuildEntry → InMemoryStore → InMemoryStore
unfolding insert
load_texts g s = record s {
  relay_codes =
      if string_eq.beq g.ally_code ""
      then s.relay_codes
      else insert g.guild_id g.ally_code s.relay_codes;
  locales = if string_eq.beq g.locale "" then s.locales else insert g.guild_id g.locale s.locales;
}

unfoldable pub load_guild : YamlGuildEntry → InMemoryStore → InMemoryStore
unfolding load_channels load_roles load_texts
load_guild g s =
    load_texts g
      (load_roles g.guild_id g.role_entries (load_channels g.guild_id g.channel_entries s))

unfoldable pub load_data : YamlData → InMemoryStore → InMemoryStore
unfolding load_guild
load_data [] s = s
load_data (g ∷ gs) s = load_data gs (load_guild g s)
