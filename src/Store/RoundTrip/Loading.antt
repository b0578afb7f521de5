-- ===== src/Store/RoundTrip/Loading.antt =====
-- `load` is one sequence of writes for each map.
use go_discord_caller.Base.{
  ◌==◌, if◌then◌else◌, Bool-cases, nat_eq, string_eq, pair_eq, nat_zero, bool_zero, list_zero,
  string_zero, Map, insert, gather, pick, inserts, inserts-append, ℕ, String, ◌≡◌, refl, sym, ap,
  ◌∙◌, inl, inr, Option, none, some, List, [], ◌∷◌, map,
}
use go_discord_caller.Store.{BotKey, RoleKey, InMemoryStore}
use go_discord_caller.Store.Save.{YamlChannelEntry, YamlRoleEntry, YamlGuildEntry, YamlData}
use go_discord_caller.Store.Load.{
  load_channel, load_channels, load_roles, load_texts, load_guild, load_data,
}

-- The writes of one entry of a guild.
abbrev pub channel_write : ℕ → YamlChannelEntry → Option (BotKey × ℕ)
channel_write guild c = if c.channel_id == 0 then none else some ((c.user_id, guild), c.channel_id)

abbrev pub disabled_write : ℕ → YamlChannelEntry → Option (BotKey × Unit {0})
disabled_write guild c = if c.disabled_entry then some ((c.user_id, guild), tt) else none

abbrev pub role_write : ℕ → YamlRoleEntry → RoleKey × ℕ
role_write guild r = ((guild, r.role_type), r.role_id)

unfoldable pub text_pairs : ℕ → String → List (ℕ × String)
text_pairs guild text = if string_eq.beq text "" then [] else (guild, text) ∷ []

load_channels_lem :
    (guild : ℕ) (cs : List YamlChannelEntry) (s : InMemoryStore)
    → load_channels guild cs s ≡ record s {
      channels = inserts (pick (channel_write guild) cs) s.channels;
      disabled = inserts (pick (disabled_write guild) cs) s.disabled;
    }
unfolding load_channels load_channel inserts
load_channels_lem guild [] s = refl
load_channels_lem guild (c ∷ cs) s =
    load_channels_lem guild cs (load_channel guild c s) ∙ elim (Bool-cases (c.channel_id == 0)) [
      | inl e ↦ elim (Bool-cases c.disabled_entry) [
        | inl d ↦ rw (e, d, pick) refl
        | inr d ↦ rw (e, d, pick) refl
      ]
      | inr e ↦ elim (Bool-cases c.disabled_entry) [
        | inl d ↦ rw (e, d, pick) refl
        | inr d ↦ rw (e, d, pick) refl
      ]
    ]

load_roles_lem :
    (guild : ℕ) (rs : List YamlRoleEntry) (s : InMemoryStore)
    → load_roles guild rs s ≡ record s { roles = inserts (map (role_write guild) rs) s.roles }
unfolding load_roles inserts
load_roles_lem guild [] s = refl
load_roles_lem guild (r ∷ rs) s = load_roles_lem guild rs _

inserts-text_pairs :
    (guild : ℕ) (text : String) (m : Map ℕ String)
    → (if string_eq.beq text "" then m else insert guild text m) ≡ inserts (text_pairs guild text) m
unfolding text_pairs inserts
inserts-text_pairs guild text m = elim (Bool-cases (string_eq.beq text "")) [
  | inl e ↦ rw e refl
  | inr e ↦ rw e refl
]

-- The writes of one guild's entry, and of all.
abbrev pub channels_of : YamlGuildEntry → List (BotKey × ℕ)
channels_of g = pick (channel_write g.guild_id) g.channel_entries

abbrev pub disabled_of : YamlGuildEntry → List (BotKey × Unit {0})
disabled_of g = pick (disabled_write g.guild_id) g.channel_entries

abbrev pub roles_of : YamlGuildEntry → List (RoleKey × ℕ)
roles_of g = map (role_write g.guild_id) g.role_entries

abbrev pub code_of : YamlGuildEntry → List (ℕ × String)
code_of g = text_pairs g.guild_id g.ally_code

abbrev pub locale_of : YamlGuildEntry → List (ℕ × String)
locale_of g = text_pairs g.guild_id g.locale

load_guild_lem :
    (g : YamlGuildEntry) (s : InMemoryStore)
    → load_guild g s ≡ record {
      channels = inserts (channels_of g) s.channels;
      roles = inserts (roles_of g) s.roles;
      relay_codes = inserts (code_of g) s.relay_codes;
      locales = inserts (locale_of g) s.locales;
      disabled = inserts (disabled_of g) s.disabled;
    }
unfolding load_guild load_texts
load_guild_lem g s =
    let s₁ = load_channels g.guild_id g.channel_entries s in
    ap (load_texts g) (
      load_roles_lem g.guild_id g.role_entries s₁
      ∙ ap (λ (t : InMemoryStore). record t { roles = inserts (roles_of g) t.roles })
          (load_channels_lem g.guild_id g.channel_entries s))
    ∙ λ i. record {
      channels = inserts (channels_of g) s.channels;
      roles = inserts (roles_of g) s.roles;
      relay_codes = inserts-text_pairs g.guild_id g.ally_code s.relay_codes i;
      locales = inserts-text_pairs g.guild_id g.locale s.locales i;
      disabled = inserts (disabled_of g) s.disabled;
    }

-- The writes of a list of guilds, after those of `s`.
abbrev pub rebuilt : YamlData → InMemoryStore → InMemoryStore
rebuilt gs s = record {
  channels = inserts (gather channels_of gs) s.channels;
  roles = inserts (gather roles_of gs) s.roles;
  relay_codes = inserts (gather code_of gs) s.relay_codes;
  locales = inserts (gather locale_of gs) s.locales;
  disabled = inserts (gather disabled_of gs) s.disabled;
}

pub load_data_lem : (gs : YamlData) (s : InMemoryStore) → load_data gs s ≡ rebuilt gs s
unfolding load_data inserts
load_data_lem [] s = refl
load_data_lem (g ∷ gs) s =
    load_data_lem gs (load_guild g s) ∙ ap (rebuilt gs) (load_guild_lem g s) ∙ λ i. record {
      channels = sym (inserts-append (channels_of g) (gather channels_of gs) s.channels) i;
      roles = sym (inserts-append (roles_of g) (gather roles_of gs) s.roles) i;
      relay_codes = sym (inserts-append (code_of g) (gather code_of gs) s.relay_codes) i;
      locales = sym (inserts-append (locale_of g) (gather locale_of gs) s.locales) i;
      disabled = sym (inserts-append (disabled_of g) (gather disabled_of gs) s.disabled) i;
    }
