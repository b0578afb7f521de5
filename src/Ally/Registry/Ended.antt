-- ===== src/Ally/Registry/Ended.antt =====
-- What RemoveHost leaves in the registry.
use go_discord_caller.Base.{
  ◌==◌, if◌then◌else◌, Eq, nat_eq, nat_zero, bool_zero, list_zero, Map, lookup, delete,
  lookup-delete, lookup-insert_self, Elem, here, there, Elem-cons, ℕ, ◌≡◌, refl, sym, subst, ◌∙◌,
  ◌≢◌, ◌⊎◌, inl, inr, none, some, List, [], ◌∷◌, arith,
}
use go_discord_caller.Ally.{Session, guest_guild_ids}
use go_discord_caller.Ally.Registry.{
  not_found, Manager, delete_guilds, get_by_guild, close_session, join, remove_session, remove_host,
}

lookup-delete_guilds :
    (gs : List ℕ) (g : ℕ) (m : Map ℕ ℕ)
    → ((Elem g gs → ⊥) → lookup g (delete_guilds gs m) ≡ lookup g m)
      × (lookup g m ≡ none → lookup g (delete_guilds gs m) ≡ none)
      × (Elem g gs → lookup g (delete_guilds gs m) ≡ none)
unfolding delete_guilds
lookup-delete_guilds [] g m = (λ n. refl, λ h. h, λ i. elim i [ ])
lookup-delete_guilds (h ∷ gs) g m =
    let (same, gone, hit) = lookup-delete_guilds gs g (delete h m) in
    (
      λ n.
          same (λ i. n (there i))
          ∙ ground (arith, lookup-delete h g m, λ (e : h ≡ g). n (here (sym e))),
      λ f. gone (ground (arith, lookup-delete h g m, f)),
      λ i. elim (Elem-cons i) [
        | inl e ↦ gone (ground (arith, lookup-delete h g m, e))
        | inr j ↦ hit j
      ],
    )

module _ {Code : Type 0} ⦃e : Eq Code⦄ where
  pub record Ended (m : Manager Code) (host r : ℕ) (s : Session Code) (m' : Manager Code)
      : Type 0 where
    pub closed : lookup r m'.heap ≡ some (close_session s)
    pub unlisted : (g : ℕ) → join m' s.code g ≡ (inl not_found, m')
    pub freed : (g : ℕ) → (g ≡ host) ⊎ Elem g (guest_guild_ids s) → get_by_guild m' g ≡ none
    pub others :
        (g : ℕ) → g ≢ host → (Elem g (guest_guild_ids s) → ⊥) → get_by_guild m' g ≡ get_by_guild m g

  join-unlisted :
      (m : Manager Code) (code : Code) (g : ℕ)
      → lookup code m.sessions ≡ none
      → join m code g ≡ (inl not_found, m)
  unfolding join
  join-unlisted m code g n = rw (n, join) refl

  remove_session-Ended :
      (m : Manager Code) (host r : ℕ) (s : Session Code)
      → Ended m host r s (remove_session m host r s)
  unfolding remove_session get_by_guild
  remove_session-Ended m host r s =
      let guests = guest_guild_ids s in
      let at : (g : ℕ)
          → lookup g (delete host m.by_guild) ≡ (if host == g then none else lookup g m.by_guild) =
        λ g. lookup-delete host g m.by_guild in
      record {
        closed = lookup-insert_self r (close_session s) m.heap;
        unlisted = λ g.
            join-unlisted (remove_session m host r s) s.code g
              (lookup-delete s.code s.code m.sessions ∙ rw ((e.beq_iff s.code s.code).1 refl) refl);
        freed = λ g c.
            let (same, gone, hit) = lookup-delete_guilds guests g (delete host m.by_guild) in
            elim c [ inl h ↦ gone (ground (arith, at g, h)) | inr i ↦ hit i ];
        others = λ g n i.
            let (same, gone, hit) = lookup-delete_guilds guests g (delete host m.by_guild) in
            same i ∙ ground (arith, at g, n);
      }

  -- RemoveHost of a guild with a session closes that session for everybody that holds it, its
  -- code is no longer found, the guild and the guests that attached themselves are free, and every
  -- other guild keeps the session it had.
  pub remove_host-Ended :
      (m : Manager Code) (host r : ℕ) (s : Session Code)
      → get_by_guild m host ≡ some r
      → lookup r m.heap ≡ some s
      → Ended m host r s (remove_host m host)
  unfolding get_by_guild remove_host
  remove_host-Ended m host r s h i =
      let whole : remove_host m host ≡ remove_session m host r s = rw (h, remove_host, i) refl in
      subst (Ended m host r s) (sym whole) (remove_session-Ended m host r s)
