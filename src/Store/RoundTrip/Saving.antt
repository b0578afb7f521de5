-- ===== src/Store/RoundTrip/Saving.antt =====
-- What `save` has for each guild.
use mathlib.Core.List.{append-nil}
use go_discord_caller.Base.{
  ◌==◌, if◌then◌else◌, Bool-cases, nat_eq, string_eq, pair_eq, nat_zero, bool_zero, list_zero,
  string_zero, Map, lookup, lookup-insert, pick, ℕ, String, ◌≡◌, refl, sym, ap, ◌∙◌, inl, inr, true,
  Option, none, some, List, [], ◌∷◌, ◌++◌, arith,
}
use go_discord_caller.Store.{BotKey, RoleKey, InMemoryStore}
use go_discord_caller.Store.Save.{
  YamlChannelEntry, YamlRoleEntry, YamlGuildEntry, GuildSet, empty_entry, ensure_guild, write_guild,
  append_channel, append_role, write_code, write_locale, is_some, channel_entry, save_channels,
  save_roles, save_codes, save_locales, save_disabled, guild_set,
}

ensure-write :
    (g h : ℕ) (f : YamlGuildEntry → YamlGuildEntry) (set : GuildSet)
    → ensure_guild h (write_guild g f set)
      ≡ (if g == h then f (ensure_guild h set) else ensure_guild h set)
unfolding ensure_guild write_guild
ensure-write g h f set = ground (arith, lookup-insert g h (f (ensure_guild g set)) set)

ensure-nil : (id : ℕ) → ensure_guild id [] ≡ empty_entry id
unfolding ensure_guild lookup
ensure-nil id = refl

-- The entry of one guild for an entry of a map, if it is of that guild.
abbrev pub bound_entry : ℕ → Map BotKey (Unit {0}) → BotKey × ℕ → Option YamlChannelEntry
bound_entry id disabled e = if e.0.1 == id then some (channel_entry disabled e) else none

abbrev pub role_entry : ℕ → RoleKey × ℕ → Option YamlRoleEntry
role_entry id e = if e.0.0 == id then some (record { role_type = e.0.1; role_id = e.1 }) else none

abbrev pub unbound_entry : ℕ → Map BotKey ℕ → BotKey × Unit {0} → Option YamlChannelEntry
unbound_entry id channels e =
    if is_some (lookup e.0 channels)
    then none
    else if e.0.1 == id
    then some (record { user_id = e.0.0; channel_id = 0; disabled_entry = true })
    else none

-- The text that the last entry of a guild leaves, `t` without one.
unfoldable pub last_text : ℕ → Map ℕ String → String → String
last_text id [] t = t
last_text id ((g, c) ∷ m) t = last_text id m (if g == id then c else t)

append-snoc {ℓ} :
    {A : Type ℓ} (xs : List A) (x : A) (ys : List A) → (xs ++ x ∷ []) ++ ys ≡ xs ++ x ∷ ys
append-snoc [] x ys = refl
append-snoc (y ∷ xs) x ys = ap (◌∷◌ y) (append-snoc xs x ys)

add_channels : List YamlChannelEntry → YamlGuildEntry → YamlGuildEntry
add_channels cs g = record g { channel_entries = g.channel_entries ++ cs }

add_roles : List YamlRoleEntry → YamlGuildEntry → YamlGuildEntry
add_roles rs g = record g { role_entries = g.role_entries ++ rs }

save_channels_lem :
    (id : ℕ) (disabled : Map BotKey (Unit {0})) (m : Map BotKey ℕ) (set : GuildSet)
    → ensure_guild id (save_channels disabled m set)
      ≡ add_channels (pick (bound_entry id disabled) m) (ensure_guild id set)
unfolding save_channels append_channel add_channels
save_channels_lem id disabled [] set =
    ap (λ cs. record (ensure_guild id set) { channel_entries = cs }) (sym (append-nil _))
save_channels_lem id disabled ((k, v) ∷ m) set =
    let c = channel_entry disabled (k, v) in
    let step = ensure-write k.1 id (append_channel c) set in
    save_channels_lem id disabled m (write_guild k.1 (append_channel c) set)
    ∙ elim (Bool-cases (k.1 == id)) [
      | inl e ↦
          rw (step, e, pick)
            (ap (λ cs. record (ensure_guild id set) { channel_entries = cs }) (append-snoc _ c _))
      | inr e ↦ rw (step, e, pick) refl
    ]

save_roles_lem :
    (id : ℕ) (m : Map RoleKey ℕ) (set : GuildSet)
    → ensure_guild id (save_roles m set) ≡ add_roles (pick (role_entry id) m) (ensure_guild id set)
unfolding save_roles append_role add_roles
save_roles_lem id [] set =
    ap (λ rs. record (ensure_guild id set) { role_entries = rs }) (sym (append-nil _))
save_roles_lem id ((k, v) ∷ m) set =
    let r : YamlRoleEntry = record { role_type = k.1; role_id = v } in
    let step = ensure-write k.0 id (append_role r) set in
    save_roles_lem id m (write_guild k.0 (append_role r) set) ∙ elim (Bool-cases (k.0 == id)) [
      | inl e ↦
          rw (step, e, pick)
            (ap (λ rs. record (ensure_guild id set) { role_entries = rs }) (append-snoc _ r _))
      | inr e ↦ rw (step, e, pick) refl
    ]

save_codes_lem :
    (id : ℕ) (m : Map ℕ String) (set : GuildSet)
    → ensure_guild id (save_codes m set)
      ≡ write_code (last_text id m (ensure_guild id set).ally_code) (ensure_guild id set)
unfolding save_codes last_text write_code
save_codes_lem id [] set = refl
save_codes_lem id ((g, c) ∷ m) set =
    save_codes_lem id m (write_guild g (write_code c) set) ∙ elim (Bool-cases (g == id)) [
      | inl e ↦ rw (ensure-write g id (write_code c) set, e) refl
      | inr e ↦ rw (ensure-write g id (write_code c) set, e) refl
    ]

save_locales_lem :
    (id : ℕ) (m : Map ℕ String) (set : GuildSet)
    → ensure_guild id (save_locales m set)
      ≡ write_locale (last_text id m (ensure_guild id set).locale) (ensure_guild id set)
unfolding save_locales last_text write_locale
save_locales_lem id [] set = refl
save_locales_lem id ((g, c) ∷ m) set =
    save_locales_lem id m (write_guild g (write_locale c) set) ∙ elim (Bool-cases (g == id)) [
      | inl e ↦ rw (ensure-write g id (write_locale c) set, e) refl
      | inr e ↦ rw (ensure-write g id (write_locale c) set, e) refl
    ]

save_disabled_lem :
    (id : ℕ) (channels : Map BotKey ℕ) (m : Map BotKey (Unit {0})) (set : GuildSet)
    → ensure_guild id (save_disabled channels m set)
      ≡ add_channels (pick (unbound_entry id channels) m) (ensure_guild id set)
unfolding save_disabled append_channel add_channels
save_disabled_lem id channels [] set =
    ap (λ cs. record (ensure_guild id set) { channel_entries = cs }) (sym (append-nil _))
save_disabled_lem id channels ((k, u) ∷ m) set =
    let c : YamlChannelEntry = record { user_id = k.0; channel_id = 0; disabled_entry = true } in
    let step = ensure-write k.1 id (append_channel c) set in
    elim (Bool-cases (is_some (lookup k channels))) [
      | inl b ↦ rw (b, pick) (save_disabled_lem id channels m set)
      | inr b ↦
          rw (b, pick)
            (save_disabled_lem id channels m (write_guild k.1 (append_channel c) set)
              ∙ elim (Bool-cases (k.1 == id)) [
                | inl e ↦
                    rw (step, e, pick)
                      (ap (λ cs. record (ensure_guild id set) { channel_entries = cs })
                        (append-snoc _ c _))
                | inr e ↦ rw (step, e, pick) refl
              ])
    ]

-- The entry of a guild in the finished set.
unfoldable pub saved_entry : InMemoryStore → ℕ → YamlGuildEntry
saved_entry s id = record {
  guild_id = id;
  ally_code = last_text id s.relay_codes "";
  locale = last_text id s.locales "";
  channel_entries =
      pick (bound_entry id s.disabled) s.channels ++ pick (unbound_entry id s.channels) s.disabled;
  role_entries = pick (role_entry id) s.roles;
}

pub guild_set_lem : (s : InMemoryStore) (id : ℕ) → ensure_guild id (guild_set s) ≡ saved_entry s id
unfolding guild_set saved_entry add_channels add_roles write_code write_locale empty_entry
guild_set_lem s id =
    let s₁ = save_channels s.disabled s.channels [] in
    let s₂ = save_roles s.roles s₁ in
    let s₃ = save_codes s.relay_codes s₂ in
    let s₄ = save_locales s.locales s₃ in
    rw
      (
        save_disabled_lem id s.channels s.disabled s₄,
        save_locales_lem id s.locales s₃,
        save_codes_lem id s.relay_codes s₂,
        save_roles_lem id s.roles s₁,
        save_channels_lem id s.disabled s.channels [],
        ensure-nil id,
      )
      refl
