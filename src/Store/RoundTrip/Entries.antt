-- ===== src/Store/RoundTrip/Entries.antt =====
-- The writes of a saved entry are the entries of the maps.

use go_discord_caller.Base.{
  ◌==◌, Bool-cases, Option-cases, nat_eq, string_eq, pair_eq, nat_zero, bool_zero, list_zero,
  string_zero, Map, lookup, Elem-append, Elem-append_left, Elem-append_right, Elem-map_inv, pick,
  Elem-pick, Elem-pick_of, Keyed, lookup-cons, lookup-nil, Elem-lookup, lookup-Elem, All, Elem,
  here, Elem-cons, Elem-map, Elem-All, ℕ, String, ◌≡◌, refl, sym, ap, subst, ◌∙◌, ◌≢◌, inl, inr,
  true, none, some, [], ◌∷◌, arith,
}
use go_discord_caller.Store.{BotKey, RoleKey, InMemoryStore}
use go_discord_caller.Store.Save.{YamlChannelEntry, YamlRoleEntry, is_some, channel_entry}
use go_discord_caller.Store.RoundTrip.Loading.{
  channel_write, disabled_write, role_write, text_pairs, channels_of, disabled_of, roles_of,
}
use go_discord_caller.Store.RoundTrip.Saving.{
  bound_entry, role_entry, unbound_entry, last_text, saved_entry,
}

-- What `save` can write down: a bound channel is not 0, and a text is not empty.
pub record IsSaved (s : InMemoryStore) : Type 0 where
  pub channels_keyed : Keyed s.channels
  pub roles_keyed : Keyed s.roles
  pub codes_keyed : Keyed s.relay_codes
  pub locales_keyed : Keyed s.locales
  pub disabled_keyed : Keyed s.disabled
  pub channels_in : All (λ (e : BotKey × ℕ). e.1 ≢ 0) s.channels
  pub codes_in : All (λ (e : ℕ × String). e.1 ≢ "") s.relay_codes
  pub locales_in : All (λ (e : ℕ × String). e.1 ≢ "") s.locales

-- An entry of a map comes back from the entry that is saved for it.
bound-write :
    (id : ℕ) (disabled : Map BotKey (Unit {0})) (u g w : ℕ) (c : YamlChannelEntry) (k : BotKey)
    (v : ℕ)
    → bound_entry id disabled ((u, g), w) ≡ some c
    → channel_write id c ≡ some (k, v)
    → ◌≡◌ {A = BotKey × ℕ} ((u, g), w) (k, v)
unfolding channel_entry
bound-write id disabled u g w c (a, b) v e f = ground (arith, e, f)

write-bound :
    (disabled : Map BotKey (Unit {0})) (k : BotKey) (v : ℕ)
    → v ≢ 0
    → (bound_entry k.1 disabled (k, v) ≡ some (channel_entry disabled (k, v)))
      × (channel_write k.1 (channel_entry disabled (k, v)) ≡ some (k, v))
unfolding channel_entry
write-bound disabled (a, b) v n = (ground arith, ground (arith, n))

unbound-write :
    (id : ℕ) (channels : Map BotKey ℕ) (e : BotKey × Unit {0}) (c : YamlChannelEntry)
    → unbound_entry id channels e ≡ some c
    → channel_write id c ≡ none
unbound-write id channels e c h = ground (arith, h)

bound-disabled :
    (id : ℕ) (disabled : Map BotKey (Unit {0})) (u g w : ℕ) (c : YamlChannelEntry) (k : BotKey)
    (t : Unit {0})
    → bound_entry id disabled ((u, g), w) ≡ some c
    → disabled_write id c ≡ some (k, t)
    → ((u, g) ≡ k) × (is_some (lookup (u, g) disabled) ≡ true)
unfolding channel_entry
bound-disabled id disabled u g w c (a, b) t e f = (ground (arith, e, f), ground (arith, e, f))

disabled-bound :
    (disabled : Map BotKey (Unit {0})) (k : BotKey) (v : ℕ)
    → lookup k disabled ≡ some tt
    → disabled_write k.1 (channel_entry disabled (k, v)) ≡ some (k, tt)
unfolding channel_entry
disabled-bound disabled (a, b) v h = ground (arith, h)

unbound-disabled :
    (id : ℕ) (channels : Map BotKey ℕ) (u g : ℕ) (c : YamlChannelEntry) (k : BotKey) (t : Unit {0})
    → unbound_entry id channels ((u, g), tt) ≡ some c
    → disabled_write id c ≡ some (k, t)
    → ((u, g) ≡ k)
unbound-disabled id channels u g c (a, b) t e f = ground (arith, e, f)

disabled-unbound :
    (channels : Map BotKey ℕ) (k : BotKey)
    → lookup k channels ≡ none
    → let c : YamlChannelEntry = record { user_id = k.0; channel_id = 0; disabled_entry = true } in
      (unbound_entry k.1 channels (k, tt) ≡ some c) × (disabled_write k.1 c ≡ some (k, tt))
disabled-unbound channels (a, b) h = (ground (arith, h), refl)

role-write :
    (id : ℕ) (p : RoleKey × ℕ) (r : YamlRoleEntry) (q : RoleKey × ℕ)
    → role_entry id p ≡ some r
    → q ≡ role_write id r
    → p ≡ q
role-write id ((g, t), v) r ((a, b), c) e f = ground (arith, e, f)

text_pairs-only :
    (id : ℕ) (c : String) (k : ℕ) (v : String)
    → Elem (k, v) (text_pairs id c)
    → (k ≡ id) × (v ≡ c) × (c ≢ "")
unfolding text_pairs
text_pairs-only id c k v i = elim (Bool-cases (string_eq.beq c "")) [
  | inl e ↦ elim (rw e at i) [ ]
  | inr e ↦ elim (Elem-cons (rw e at i)) [
    | inl p ↦ (ap (λ x. x.0) p, ap (λ x. x.1) p, λ q. cc (e, (string_eq.beq_iff c "").1 q))
    | inr j ↦ elim j [ ]
  ]
]

text_pairs-has : (id : ℕ) (c : String) → c ≢ "" → Elem (id, c) (text_pairs id c)
unfolding text_pairs
text_pairs-has id c n = elim (Bool-cases (string_eq.beq c "")) [
  | inl e ↦ absurd (n ((string_eq.beq_iff c "").0 e))
  | inr e ↦ rw e (here refl)
]

module _ (s : InMemoryStore) where
  pub channels_sound :
      (id : ℕ) (k : BotKey) (v : ℕ)
      → IsSaved s
      → Elem (k, v) (channels_of (saved_entry s id))
      → lookup k s.channels ≡ some v
  unfolding saved_entry
  channels_sound id k v h i =
      let (c, j, e) = Elem-pick (channel_write id) _ i in
      elim (Elem-append (pick (bound_entry id s.disabled) s.channels) _ j) [
        | inl l ↦
            let (((u, g), w), m, f) = Elem-pick (bound_entry id s.disabled) s.channels l in
            lookup-Elem k v s.channels h.channels_keyed
              (subst (λ p. Elem p s.channels) (bound-write id s.disabled u g w c k v f e) m)
        | inr l ↦
            let (p, m, f) = Elem-pick (unbound_entry id s.channels) s.disabled l in
            absurd (ground (arith, e, unbound-write id s.channels p c f))
      ]

  pub channels_complete :
      (k : BotKey) (v : ℕ)
      → IsSaved s
      → lookup k s.channels ≡ some v
      → Elem (k, v) (channels_of (saved_entry s k.1))
  unfolding saved_entry
  channels_complete k v h e =
      let i = Elem-lookup k v s.channels e in
      let (b, w) = write-bound s.disabled k v (Elem-All _ s.channels i h.channels_in) in
      Elem-pick_of (channel_write k.1) _
        (Elem-append_left (pick (bound_entry k.1 s.disabled) s.channels) _
          (Elem-pick_of (bound_entry k.1 s.disabled) s.channels i b))
        w

  pub disabled_sound :
      (id : ℕ) (k : BotKey) (v : Unit {0})
      → IsSaved s
      → Elem (k, v) (disabled_of (saved_entry s id))
      → lookup k s.disabled ≡ some v
  unfolding saved_entry
  disabled_sound id k v h i =
      let (c, j, e) = Elem-pick (disabled_write id) _ i in
      elim (Elem-append (pick (bound_entry id s.disabled) s.channels) _ j) [
        | inl l ↦
            let (((u, g), w), m, f) = Elem-pick (bound_entry id s.disabled) s.channels l in
            let (same, there_is) = bound-disabled id s.disabled u g w c k v f e in
            subst (λ x. lookup x s.disabled ≡ some v) same
              (elim (Option-cases (lookup (u, g) s.disabled)) [
                | inl n ↦ absurd (ground (arith, n, there_is))
                | inr (t, d) ↦ d
              ])
        | inr l ↦
            let (((u, g), t), m, f) = Elem-pick (unbound_entry id s.channels) s.disabled l in
            subst (λ x. lookup x s.disabled ≡ some v) (unbound-disabled id s.channels u g c k v f e)
              (lookup-Elem (u, g) t s.disabled h.disabled_keyed m)
      ]

  pub disabled_complete :
      (k : BotKey) (v : Unit {0})
      → IsSaved s
      → lookup k s.disabled ≡ some v
      → Elem (k, v) (disabled_of (saved_entry s k.1))
  unfolding saved_entry
  disabled_complete k v h e = elim (Option-cases (lookup k s.channels)) [
    | inr (w, b) ↦
        Elem-pick_of (disabled_write k.1) {a = channel_entry s.disabled (k, w)} _
          (Elem-append_left (pick (bound_entry k.1 s.disabled) s.channels) _ (
            Elem-pick_of (bound_entry k.1 s.disabled) s.channels (Elem-lookup k w s.channels b)
              (ground arith)))
          (disabled-bound s.disabled k w e)
    | inl n ↦
        let (b, w) = disabled-unbound s.channels k n in
        Elem-pick_of (disabled_write k.1) _
          (Elem-append_right (pick (bound_entry k.1 s.disabled) s.channels) _ (
            Elem-pick_of (unbound_entry k.1 s.channels) s.disabled (Elem-lookup k v s.disabled e)
              b))
          w
  ]

  pub roles_sound :
      (id : ℕ) (k : RoleKey) (v : ℕ)
      → IsSaved s
      → Elem (k, v) (roles_of (saved_entry s id))
      → lookup k s.roles ≡ some v
  unfolding saved_entry
  roles_sound id k v h i =
      let (r, j, e) = Elem-map_inv (role_write id) _ i in
      let (p, m, f) = Elem-pick (role_entry id) s.roles j in
      lookup-Elem k v s.roles h.roles_keyed
        (subst (λ x. Elem x s.roles) (role-write id p r (k, v) f e) m)

  pub roles_complete :
      (k : RoleKey) (v : ℕ)
      → IsSaved s
      → lookup k s.roles ≡ some v
      → Elem (k, v) (roles_of (saved_entry s k.0))
  unfolding saved_entry
  roles_complete k v h e =
      let r : YamlRoleEntry = record { role_type = k.1; role_id = v } in
      Elem-map (role_write k.0) {a = r} _
        (Elem-pick_of (role_entry k.0) s.roles (Elem-lookup k v s.roles e) (ground arith))

-- The last entry of a guild is its only one.
last_text-other :
    (id : ℕ) (m : Map ℕ String) (t : String) → lookup id m ≡ none → last_text id m t ≡ t
unfolding last_text
last_text-other id [] t h = refl
last_text-other id ((g, c) ∷ m) t h = elim (Bool-cases (g == id)) [
  | inl e ↦ absurd (ground (arith, lookup-cons id g c m, e, h))
  | inr e ↦ rw e (last_text-other id m t (ground (arith, lookup-cons id g c m, e, h)))
]

last_text-lookup :
    (id : ℕ) (m : Map ℕ String) (t c : String)
    → Keyed m
    → lookup id m ≡ some c
    → last_text id m t ≡ c
unfolding last_text
last_text-lookup id [] t c d h = absurd (ground (arith, lookup-nil {0, 0} {V = String} id, h))
last_text-lookup id ((g, b) ∷ m) t c d h = elim (Bool-cases (g == id)) [
  | inl e ↦
      let same : g ≡ id = ground (arith, e) in
      let val : b ≡ c = ground (arith, lookup-cons id g b m, e, h) in
      rw e (last_text-other id m b (ap (λ x. lookup x m) (sym same) ∙ d.0) ∙ val)
  | inr e ↦ rw e (last_text-lookup id m t c d.1 (ground (arith, lookup-cons id g b m, e, h)))
]

pub texts_sound :
    (m : Map ℕ String) (id k : ℕ) (v : String)
    → Keyed m
    → Elem (k, v) (text_pairs id (last_text id m ""))
    → lookup k m ≡ some v
texts_sound m id k v d i = elim (Option-cases (lookup id m)) [
  | inl n ↦ absurd ((text_pairs-only id "" k v (rw (last_text-other id m "" n) at i)).2 refl)
  | inr (c, e) ↦
      let (same, val, n) = text_pairs-only id c k v (rw (last_text-lookup id m "" c d e) at i) in
      subst (λ x. lookup x m ≡ some v) (sym same) (e ∙ ap some (sym val))
]

pub texts_complete :
    (m : Map ℕ String) (k : ℕ) (v : String)
    → Keyed m
    → All (λ (e : ℕ × String). e.1 ≢ "") m
    → lookup k m ≡ some v
    → Elem (k, v) (text_pairs k (last_text k m ""))
texts_complete m k v d a e =
    rw (last_text-lookup k m "" v d e) (text_pairs-has k v (Elem-All _ m (Elem-lookup k v m e) a))
