-- ===== src/Store/Calls.antt =====
-- What every sequence of calls keeps of the file-backed store.

use go_discord_caller.Base.{
  Bool-cases, Option-cases, some_inj, Eq, nat_eq, string_eq, pair_eq, nat_zero, bool_zero,
  list_zero, string_zero, Map, lookup, insert, delete, lookup-insert_inv, Keyed, lookup-nil,
  Elem-lookup, insert-Keyed, delete-Keyed, All, Elem, here, there, Elem-All, ℕ, String, ◌≡◌, sym,
  ap, subst, ◌∙◌, ◌≢◌, inl, inr, Bool, true, false, none, some, List, [], ◌∷◌, arith,
}
use go_discord_caller.Store.{
  BotKey, RoleType, RoleKey, new_in_memory_store, bind_channel, unbind_channel, bind_role,
  unbind_role, used_code, unique_ally_code, get_ally_code, bind_locale, unbind_locale,
  set_speaker_enabled,
}
use go_discord_caller.Store.Yaml.{
  YamlStore, mark_dirty, yaml_bind_channel, yaml_unbind_channel, yaml_bind_role, yaml_unbind_role,
  yaml_get_or_create_ally_code, yaml_bind_locale, yaml_unbind_locale, yaml_set_speaker_enabled,
}
use go_discord_caller.Store.RoundTrip.Entries.{IsSaved}

-- A call that may change the store. The random source draws `draws` for a new code.
pub data Call : Type 0 where
  binds_channel : ℕ → ℕ → ℕ → Call
  unbinds_channel : ℕ → ℕ → Call
  binds_role : ℕ → RoleType → ℕ → Call
  unbinds_role : ℕ → RoleType → Call
  wants_code : List String → ℕ → Call
  binds_locale : ℕ → String → Call
  unbinds_locale : ℕ → Call
  sets_speaker : ℕ → ℕ → Bool → Call

-- A call that waits for ever for a fresh code leaves the store alone.
unfoldable pub call : YamlStore → Call → YamlStore
unfolding yaml_bind_channel yaml_unbind_channel yaml_bind_role yaml_unbind_role
    yaml_get_or_create_ally_code yaml_bind_locale yaml_unbind_locale yaml_set_speaker_enabled
call s (binds_channel g u c) = yaml_bind_channel g u c s
call s (unbinds_channel g u) = yaml_unbind_channel g u s
call s (binds_role g t r) = yaml_bind_role g t r s
call s (unbinds_role g t) = yaml_unbind_role g t s
call s (wants_code draws g) = elim (yaml_get_or_create_ally_code draws g s) [
  | none ↦ s
  | some r ↦ r.1
]
call s (binds_locale g l) = yaml_bind_locale g l s
call s (unbinds_locale g) = yaml_unbind_locale g s
call s (sets_speaker g u b) = yaml_set_speaker_enabled g u b s

unfoldable pub calls : YamlStore → List Call → YamlStore
calls s [] = s
calls s (c ∷ cs) = calls (call s c) cs

unfoldable pub new_yaml_store : YamlStore
unfolding new_in_memory_store
new_yaml_store = record { maps = new_in_memory_store; dirty = false }

-- What Discord and the generator guarantee: a channel's id is not 0, a code is not empty.
abbrev pub IsProper : Call → Type 0
IsProper (binds_channel g u c) = c ≢ 0
IsProper (wants_code draws g) = All (λ d. d ≢ "") draws
IsProper c = Unit

All-insert {ℓ} :
    {K V : Type 0} ⦃e : Eq K⦄ (P : K × V → Type ℓ) (k : K) (v : V) (m : Map K V)
    → P (k, v)
    → All P m
    → All P (insert k v m)
unfolding insert
All-insert P k v [] p h = (p, tt)
All-insert ⦃e⦄ P k v ((j, w) ∷ m) p h = elim (Bool-cases (e.beq j k)) [
  | inl t ↦ rw (t, insert) (p, h.1)
  | inr t ↦ rw (t, insert) (h.0, All-insert P k v m p h.1)
]

All-delete {ℓ} :
    {K V : Type 0} ⦃e : Eq K⦄ (P : K × V → Type ℓ) (k : K) (m : Map K V)
    → All P m
    → All P (delete k m)
unfolding delete
All-delete P k [] h = tt
All-delete ⦃e⦄ P k ((j, w) ∷ m) h = elim (Bool-cases (e.beq j k)) [
  | inl t ↦ rw (t, delete) (All-delete P k m h.1)
  | inr t ↦ rw (t, delete) (h.0, All-delete P k m h.1)
]

-- A code that the loop returns is one of the draws, and no guild has it.
unique_ally_code_lem :
    (draws : List String) (m : Map ℕ String) (code : String)
    → unique_ally_code draws m ≡ some code
    → Elem code draws × (used_code code m ≡ false)
unfolding unique_ally_code
unique_ally_code_lem [] m code h = absurd (ground (arith, h))
unique_ally_code_lem (d ∷ draws) m code h = elim (Bool-cases (used_code d m)) [
  | inl u ↦
      let (i, f) = unique_ally_code_lem draws m code (rw (u, unique_ally_code) at h) in (there i, f)
  | inr u ↦
      let same : d ≡ code = some_inj (rw (u, unique_ally_code) at h) in
      (here (sym same), subst (λ x. used_code x m ≡ false) same u)
]

used_code-Elem :
    (code : String) (m : Map ℕ String) (g : ℕ) → Elem (g, code) m → used_code code m ≡ true
unfolding used_code
used_code-Elem code [] g i = elim i [ ]
used_code-Elem code ((h, c) ∷ m) g (here p) =
    ground (arith, ap (λ x. x.1) p, string_eq.beq_iff c code)
used_code-Elem code ((h, c) ∷ m) g (there i) = ground (arith, used_code-Elem code m g i)

-- No two guilds have the same code.
abbrev pub Codes : Map ℕ String → Type 0
Codes m = (g h : ℕ) (c : String) → lookup g m ≡ some c → lookup h m ≡ some c → g ≡ h

insert-Codes :
    (guild : ℕ) (code : String) (m : Map ℕ String)
    → used_code code m ≡ false
    → Codes m
    → Codes (insert guild code m)
insert-Codes guild code m u k g h c e f = elim (lookup-insert_inv guild g code m e) [
  | inl (a, b) ↦ elim (lookup-insert_inv guild h code m f) [
    | inl (a', b') ↦ sym a ∙ a'
    | inr f' ↦ absurd (
        ground
          (arith, u, used_code-Elem code m h (subst (λ x. Elem (h, x) m) b (Elem-lookup h c m f'))))
  ]
  | inr e' ↦ elim (lookup-insert_inv guild h code m f) [
    | inl (a', b') ↦ absurd (
        ground (
          arith,
          u,
          used_code-Elem code m g (subst (λ x. Elem (g, x) m) b' (Elem-lookup g c m e')),
        ))
    | inr f' ↦ k g h c e' f'
  ]
]

-- What is kept: the map can be saved, and no two guilds share a code.
pub record Kept (s : YamlStore) : Type 0 where
  pub saved : IsSaved s.maps
  pub codes_apart : Codes s.maps.relay_codes

-- A change of one map.
channels-Kept :
    (s : YamlStore) (b : Bool) (m : Map BotKey ℕ)
    → Keyed m
    → All (λ (e : BotKey × ℕ). e.1 ≢ 0) m
    → Kept s
    → Kept (record { maps = record s.maps { channels = m }; dirty = b })
channels-Kept s b m d p k = record {
  saved = record {
    channels_keyed = d;
    roles_keyed = k.saved.roles_keyed;
    codes_keyed = k.saved.codes_keyed;
    locales_keyed = k.saved.locales_keyed;
    disabled_keyed = k.saved.disabled_keyed;
    channels_in = p;
    codes_in = k.saved.codes_in;
    locales_in = k.saved.locales_in;
  };
  codes_apart = k.codes_apart;
}

roles-Kept :
    (s : YamlStore) (b : Bool) (m : Map RoleKey ℕ)
    → Keyed m
    → Kept s
    → Kept (record { maps = record s.maps { roles = m }; dirty = b })
roles-Kept s b m d k = record {
  saved = record {
    channels_keyed = k.saved.channels_keyed;
    roles_keyed = d;
    codes_keyed = k.saved.codes_keyed;
    locales_keyed = k.saved.locales_keyed;
    disabled_keyed = k.saved.disabled_keyed;
    channels_in = k.saved.channels_in;
    codes_in = k.saved.codes_in;
    locales_in = k.saved.locales_in;
  };
  codes_apart = k.codes_apart;
}

locales-Kept :
    (s : YamlStore) (b : Bool) (m : Map ℕ String)
    → Keyed m
    → All (λ (e : ℕ × String). e.1 ≢ "") m
    → Kept s
    → Kept (record { maps = record s.maps { locales = m }; dirty = b })
locales-Kept s b m d p k = record {
  saved = record {
    channels_keyed = k.saved.channels_keyed;
    roles_keyed = k.saved.roles_keyed;
    codes_keyed = k.saved.codes_keyed;
    locales_keyed = d;
    disabled_keyed = k.saved.disabled_keyed;
    channels_in = k.saved.channels_in;
    codes_in = k.saved.codes_in;
    locales_in = p;
  };
  codes_apart = k.codes_apart;
}

disabled-Kept :
    (s : YamlStore) (b : Bool) (m : Map BotKey (Unit {0}))
    → Keyed m
    → Kept s
    → Kept (record { maps = record s.maps { disabled = m }; dirty = b })
disabled-Kept s b m d k = record {
  saved = record {
    channels_keyed = k.saved.channels_keyed;
    roles_keyed = k.saved.roles_keyed;
    codes_keyed = k.saved.codes_keyed;
    locales_keyed = k.saved.locales_keyed;
    disabled_keyed = d;
    channels_in = k.saved.channels_in;
    codes_in = k.saved.codes_in;
    locales_in = k.saved.locales_in;
  };
  codes_apart = k.codes_apart;
}

Codes-Kept :
    (s : YamlStore) (b : Bool) (m : Map ℕ String)
    → Keyed m
    → All (λ (e : ℕ × String). e.1 ≢ "") m
    → Codes m
    → Kept s
    → Kept (record { maps = record s.maps { relay_codes = m }; dirty = b })
Codes-Kept s b m d p u k = record {
  saved = record {
    channels_keyed = k.saved.channels_keyed;
    roles_keyed = k.saved.roles_keyed;
    codes_keyed = d;
    locales_keyed = k.saved.locales_keyed;
    disabled_keyed = k.saved.disabled_keyed;
    channels_in = k.saved.channels_in;
    codes_in = p;
    locales_in = k.saved.locales_in;
  };
  codes_apart = u;
}

wants_code-Kept :
    (s : YamlStore) (draws : List String) (g : ℕ)
    → All (λ d. d ≢ "") draws
    → Kept s
    → Kept (call s (wants_code draws g))
unfolding call yaml_get_or_create_ally_code mark_dirty
wants_code-Kept s draws g p k = elim (Option-cases (lookup g s.maps.relay_codes)) [
  | inr (code, e) ↦ rw (e, call, yaml_get_or_create_ally_code) k
  | inl n ↦ elim (Option-cases (unique_ally_code draws s.maps.relay_codes)) [
    | inl m ↦ rw (n, call, yaml_get_or_create_ally_code, m) k
    | inr (code, e) ↦
        let (i, u) = unique_ally_code_lem draws s.maps.relay_codes code e in
        let m = s.maps.relay_codes in
        rw (n, call, yaml_get_or_create_ally_code, e)
          (Codes-Kept s true (insert g code m) (insert-Keyed g code m k.saved.codes_keyed)
            (All-insert _ g code m (Elem-All _ draws i p) k.saved.codes_in)
            (insert-Codes g code m u k.codes_apart) k)
  ]
]

binds_locale-Kept : (s : YamlStore) (g : ℕ) (l : String) → Kept s → Kept (call s (binds_locale g l))
unfolding call yaml_bind_locale bind_locale mark_dirty
binds_locale-Kept s g l k = elim (Bool-cases (string_eq.beq l "")) [
  | inl e ↦ rw e (
      locales-Kept s true (delete g s.maps.locales)
        (delete-Keyed g s.maps.locales k.saved.locales_keyed)
        (All-delete _ g s.maps.locales k.saved.locales_in) k)
  | inr e ↦ rw e (
      locales-Kept s true (insert g l s.maps.locales)
        (insert-Keyed g l s.maps.locales k.saved.locales_keyed)
        (All-insert _ g l s.maps.locales (λ q. cc (e, (string_eq.beq_iff l "").1 q))
          k.saved.locales_in)
        k)
]

call-Kept : (s : YamlStore) (c : Call) → IsProper c → Kept s → Kept (call s c)
unfolding call yaml_bind_channel yaml_unbind_channel yaml_bind_role yaml_unbind_role
    yaml_unbind_locale yaml_set_speaker_enabled mark_dirty bind_channel unbind_channel bind_role
    unbind_role unbind_locale set_speaker_enabled
call-Kept s (binds_channel g u c) p k =
    channels-Kept s true (insert (u, g) c s.maps.channels)
      (insert-Keyed (u, g) c s.maps.channels k.saved.channels_keyed)
      (All-insert _ (u, g) c s.maps.channels p k.saved.channels_in) k
call-Kept s (unbinds_channel g u) p k =
    channels-Kept s true (delete (u, g) s.maps.channels)
      (delete-Keyed (u, g) s.maps.channels k.saved.channels_keyed)
      (All-delete _ (u, g) s.maps.channels k.saved.channels_in) k
call-Kept s (binds_role g t r) p k =
    roles-Kept s true (insert (g, t) r s.maps.roles)
      (insert-Keyed (g, t) r s.maps.roles k.saved.roles_keyed) k
call-Kept s (unbinds_role g t) p k =
    roles-Kept s true (delete (g, t) s.maps.roles)
      (delete-Keyed (g, t) s.maps.roles k.saved.roles_keyed) k
call-Kept s (wants_code draws g) p k = wants_code-Kept s draws g p k
call-Kept s (binds_locale g l) p k = binds_locale-Kept s g l k
call-Kept s (unbinds_locale g) p k =
    locales-Kept s true (delete g s.maps.locales)
      (delete-Keyed g s.maps.locales k.saved.locales_keyed)
      (All-delete _ g s.maps.locales k.saved.locales_in) k
call-Kept s (sets_speaker g u true) p k =
    disabled-Kept s true (delete (u, g) s.maps.disabled)
      (delete-Keyed (u, g) s.maps.disabled k.saved.disabled_keyed) k
call-Kept s (sets_speaker g u false) p k =
    disabled-Kept s true (insert (u, g) tt s.maps.disabled)
      (insert-Keyed (u, g) tt s.maps.disabled k.saved.disabled_keyed) k

calls-Kept : (s : YamlStore) (cs : List Call) → All IsProper cs → Kept s → Kept (calls s cs)
unfolding calls
calls-Kept s [] p k = k
calls-Kept s (c ∷ cs) p k = calls-Kept (call s c) cs p.1 (call-Kept s c p.0 k)

new_yaml_store-Kept : Kept new_yaml_store
unfolding new_yaml_store new_in_memory_store
new_yaml_store-Kept = record {
  saved = record {
    channels_keyed = tt;
    roles_keyed = tt;
    codes_keyed = tt;
    locales_keyed = tt;
    disabled_keyed = tt;
    channels_in = tt;
    codes_in = tt;
    locales_in = tt;
  };
  codes_apart = λ g h c e f. absurd (ground (arith, e, lookup-nil {0, 0} {V = String} g));
}

-- Whatever calls a new store has had, with channels that are not 0 and codes that are not empty,
-- no two guilds have the same ally code.
pub calls-codes_apart :
    (cs : List Call) (g h : ℕ) (code : String)
    → All IsProper cs
    → get_ally_code g (calls new_yaml_store cs).maps ≡ some code
    → get_ally_code h (calls new_yaml_store cs).maps ≡ some code
    → g ≡ h
unfolding get_ally_code
calls-codes_apart cs g h code p e f =
    (calls-Kept new_yaml_store cs p new_yaml_store-Kept).codes_apart g h code e f

-- Whatever calls a new store has had, with channels that are not 0 and codes that are not empty,
-- what it saves can be loaded again.
pub calls-IsSaved : (cs : List Call) → All IsProper cs → IsSaved (calls new_yaml_store cs).maps
calls-IsSaved cs p = (calls-Kept new_yaml_store cs p new_yaml_store-Kept).saved
