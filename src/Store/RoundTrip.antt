-- ===== src/Store/RoundTrip.antt =====
-- A store that is saved and loaded again answers every query as before.
pub mod Loading
pub mod Saving
pub mod Entries
use go_discord_caller.Base.{
  leb, Bool-cases, Option-cases, nat_eq, string_eq, pair_eq, nat_zero, bool_zero, list_zero,
  string_zero, lookup, insert, get, lookup-insert, gather, Elem-gather, Elem-gather_of,
  Elem-map_inv, inserts, Elem-lookup, lookup-inserts_all, Elem, here, there, Elem-cons, Elem-map, ℕ,
  ◌-◌, ◌≡◌, refl, sym, ap, subst, ◌∙◌, ◌⊎◌, inl, inr, Bool, not, Option, none, some, List, [], ◌∷◌,
  map, arith,
}
use go_discord_caller.Store.{
  RoleType, InMemoryStore, new_in_memory_store, get_bound_channel, get_bound_role, get_ally_code,
  get_locale, is_speaker_enabled,
}
use go_discord_caller.Store.Save.{
  YamlGuildEntry, empty_entry, ensure_guild, guild_set, insert_sorted, sort_ids, save_data,
}
use go_discord_caller.Store.Load.{load_data}
use go_discord_caller.Store.RoundTrip.Loading.{
  text_pairs, channels_of, disabled_of, roles_of, code_of, locale_of, rebuilt, load_data_lem,
}
use go_discord_caller.Store.RoundTrip.Saving.{saved_entry, guild_set_lem}
use go_discord_caller.Store.RoundTrip.Entries.{
  IsSaved, channels_sound, channels_complete, disabled_sound, disabled_complete, roles_sound,
  roles_complete, texts_sound, texts_complete,
}

insert_sorted-Elem :
    (x : ℕ) (ys : List ℕ) {y : ℕ} → (y ≡ x) ⊎ Elem y ys → Elem y (insert_sorted x ys)
unfolding insert_sorted
insert_sorted-Elem x [] (inl e) = here e
insert_sorted-Elem x [] (inr i) = elim i [ ]
insert_sorted-Elem x (z ∷ zs) {y} c = elim (Bool-cases (leb x z)) [
  | inl l ↦ rw (l, insert_sorted) (elim c [ inl e ↦ here e | inr i ↦ there i ])
  | inr l ↦
      rw (l, insert_sorted)
        (elim c [
          | inl e ↦ there (insert_sorted-Elem x zs (inl e))
          | inr i ↦ elim (Elem-cons i) [
            | inl e ↦ here e
            | inr j ↦ there (insert_sorted-Elem x zs (inr j))
          ]
        ])
]

sort_ids-Elem : (xs : List ℕ) {y : ℕ} → Elem y xs → Elem y (sort_ids xs)
unfolding sort_ids
sort_ids-Elem [] i = elim i [ ]
sort_ids-Elem (x ∷ xs) (here e) = insert_sorted-Elem x (sort_ids xs) (inl e)
sort_ids-Elem (x ∷ xs) (there i) = insert_sorted-Elem x (sort_ids xs) (inr (sort_ids-Elem xs i))

module _ {K V : Type 0} (f : YamlGuildEntry → List (K × V)) (s : InMemoryStore) where
  -- What is written to the file is an entry of some guild, and the entry of every guild that has
  -- one is written.
  save_data_sound :
      {p : K × V} → Elem p (gather f (save_data s)) → (id : ℕ) × Elem p (f (saved_entry s id))
  unfolding save_data
  save_data_sound {p} i =
      let (g, j, k) = Elem-gather f _ i in
      let (id, l, e) = Elem-map_inv (λ id. ensure_guild id (guild_set s)) _ j in
      (id, subst (λ x. Elem p (f x)) (e ∙ guild_set_lem s id) k)

  ensure_guild-missing :
      (id : ℕ) → lookup id (guild_set s) ≡ none → ensure_guild id (guild_set s) ≡ empty_entry id
  unfolding ensure_guild
  ensure_guild-missing id n = rw (n, ensure_guild) refl

  save_data_complete :
      {p : K × V} (id : ℕ)
      → f (empty_entry id) ≡ []
      → Elem p (f (saved_entry s id))
      → Elem p (gather f (save_data s))
  unfolding save_data
  save_data_complete {p} id none_empty i = elim (Option-cases (lookup id (guild_set s))) [
    | inl n ↦
        elim (subst (Elem p)
          (ap f (sym (guild_set_lem s id) ∙ ensure_guild-missing id n) ∙ none_empty) i) [ ]
    | inr (g, e) ↦
        let listed =
          Elem-map (λ (e : ℕ × YamlGuildEntry). e.0) (guild_set s)
            (Elem-lookup id g (guild_set s) e) in
        Elem-gather_of f _
          (Elem-map (λ id. ensure_guild id (guild_set s)) _ (sort_ids-Elem _ listed))
          (subst (λ x. Elem p (f x)) (sym (guild_set_lem s id)) i)
  ]

-- What `load` makes of the file that `save` wrote, in the empty maps of a new store.
pub record Restored (s t : InMemoryStore) : Type 0 where
  pub channels_same :
      (guild user : ℕ) → get_bound_channel guild user t ≡ get_bound_channel guild user s
  pub roles_same :
      (guild : ℕ) (role_type : RoleType)
      → get_bound_role guild role_type t ≡ get_bound_role guild role_type s
  pub codes_same : (guild : ℕ) → get_ally_code guild t ≡ get_ally_code guild s
  pub locales_same : (guild : ℕ) → get_locale guild t ≡ get_locale guild s
  pub speakers_same :
      (guild user : ℕ) → is_speaker_enabled guild user t ≡ is_speaker_enabled guild user s

speaker_same :
    (guild user : ℕ) (s t : InMemoryStore)
    → lookup (user, guild) t.disabled ≡ lookup (user, guild) s.disabled
    → is_speaker_enabled guild user t ≡ is_speaker_enabled guild user s
unfolding is_speaker_enabled
speaker_same guild user s t e = ground (arith, e)

-- A store whose channels are not 0 and whose texts are not empty answers every query the same
-- after its data is saved and loaded into a new store.
pub load_data-save_data :
    (s : InMemoryStore) → IsSaved s → Restored s (load_data (save_data s) new_in_memory_store)
unfolding get_bound_channel get_bound_role get_ally_code get_locale is_speaker_enabled
    new_in_memory_store empty_entry text_pairs saved_entry
load_data-save_data s h =
    let gs = save_data s in
    let t : InMemoryStore = rebuilt gs new_in_memory_store in
    let done : Restored s t = record {
      channels_same = λ guild user.
          lookup-inserts_all s.channels (gather channels_of gs)
            (λ k v i. let (id, j) = save_data_sound channels_of s i in channels_sound s id k v h j)
            (λ k v e. save_data_complete channels_of s k.1 refl (channels_complete s k v h e))
            (user, guild);
      roles_same = λ guild role_type.
          lookup-inserts_all s.roles (gather roles_of gs)
            (λ k v i. let (id, j) = save_data_sound roles_of s i in roles_sound s id k v h j)
            (λ k v e. save_data_complete roles_of s k.0 refl (roles_complete s k v h e))
            (guild, role_type);
      codes_same =
          lookup-inserts_all s.relay_codes (gather code_of gs)
            (λ k v i.
              let (id, j) = save_data_sound code_of s i in
              texts_sound s.relay_codes id k v h.codes_keyed j)
            (λ k v e.
              save_data_complete code_of s k refl
                (texts_complete s.relay_codes k v h.codes_keyed h.codes_in e));
      locales_same =
          lookup-inserts_all s.locales (gather locale_of gs)
            (λ k v i.
              let (id, j) = save_data_sound locale_of s i in
              texts_sound s.locales id k v h.locales_keyed j)
            (λ k v e.
              save_data_complete locale_of s k refl
                (texts_complete s.locales k v h.locales_keyed h.locales_in e));
      speakers_same = λ guild user. speaker_same guild user s t (
          lookup-inserts_all s.disabled (gather disabled_of gs)
            (λ k v i. let (id, j) = save_data_sound disabled_of s i in disabled_sound s id k v h j)
            (λ k v e. save_data_complete disabled_of s k.1 refl (disabled_complete s k v h e))
            (user, guild));
    } in
    subst (Restored s) (sym (load_data_lem gs new_in_memory_store)) done
