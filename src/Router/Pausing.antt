-- ===== src/Router/Pausing.antt =====
-- The two calls of setDestPaused in applyModes: stopping mixers first, starting them last.
use go_discord_caller.Base.{
  bool_eq, Bool-cases, nat_eq, nat_zero, bool_zero, list_zero, Map, get, get-insert, Elem, here,
  there, ℕ, ◌≡◌, refl, subst, ◌⊎◌, inl, inr, Bool, true, false, not, [], ◌∷◌, arith,
}
use go_discord_caller.Router.{route_mode_zero}
use go_discord_caller.Router.Slots.{DestSlot, Router}
use go_discord_caller.Router.Apply.{set_paused, should_run, pause_dest, set_dest_paused}
use go_discord_caller.Router.Path.{Change, mixer, Run, rest, step}

-- A mixer that runs is one that the decision wants.
abbrev pub Wanted : Map ℕ Bool → Map ℕ DestSlot → Router → Type 0
Wanted dest_mix ds r =
    (c : ℕ) (d : DestSlot)
    → Elem (c, d) ds
    → d.has_mixer ≡ true
    → get c r.paused ≡ false
    → get c dest_mix ≡ true

should_run-dest_mix :
    (dest_mix listeners : Map ℕ Bool) (c : ℕ) (d : DestSlot)
    → should_run dest_mix listeners c d ≡ true
    → get c dest_mix ≡ true
unfolding should_run
should_run-dest_mix dest_mix listeners c d h = ground arith

module _ (dest_mix listeners : Map ℕ Bool) where
  pause_dest-Change :
      (pausing : Bool) (x : ℕ × DestSlot) (r : Router)
      → (pause_dest dest_mix listeners pausing x r ≡ r)
        ⊎ Change r (pause_dest dest_mix listeners pausing x r)
  unfolding pause_dest should_run
  pause_dest-Change pausing (c, d) r =
      let run = should_run dest_mix listeners c d in
      elim (Bool-cases d.has_mixer) [
        | inr e ↦ inl (rw e)
        | inl e ↦ elim (Bool-cases (bool_eq run pausing)) [
          | inl f ↦ inl (rw (e, f))
          | inr f ↦ inr (mixer c (not run) (rw (e, f)))
        ]
      ]

  -- An invariant of every single call is one of the whole loop, mutation by mutation.
  pub set_dest_paused-Run :
      (P : Router → Type 0) (pausing : Bool) (all xs : Map ℕ DestSlot) (r : Router)
      → ((c : ℕ) (d : DestSlot) (q : Router)
          → Elem (c, d) all
          → P q
          → P (pause_dest dest_mix listeners pausing (c, d) q))
      → ((x : ℕ × DestSlot) → Elem x xs → Elem x all)
      → P r
      → Run P r (set_dest_paused dest_mix listeners pausing xs r)
  unfolding set_dest_paused
  set_dest_paused-Run P pausing all [] r keep sub p = rest p
  set_dest_paused-Run P pausing all ((c, d) ∷ xs) r keep sub p =
      let more =
        set_dest_paused-Run P pausing all xs _ keep (λ x m. sub x (there m))
          (keep c d r (sub (c, d) (here refl)) p) in
      elim (pause_dest-Change pausing (c, d) r) [
        | inl same ↦
            subst
              (λ q. Run P q (
                set_dest_paused dest_mix listeners pausing xs
                  (pause_dest dest_mix listeners pausing (c, d) r)))
              same more
        | inr change ↦ step p change more
      ]

  pub pause_dest-lowers :
      (c : ℕ) (d : DestSlot) (r : Router) (c' : ℕ)
      → get c' (pause_dest dest_mix listeners true (c, d) r).paused ≡ false
      → (get c' r.paused ≡ false) × (c ≡ c' → d.has_mixer ≡ true → get c dest_mix ≡ true)
  unfolding pause_dest set_paused
  pause_dest-lowers c d r c' h =
      ground (arith, get-insert c c' true r.paused, h, should_run-dest_mix dest_mix listeners c d)

  pub pause_dest-raises :
      (c : ℕ) (d : DestSlot) (r : Router) (c' : ℕ)
      → get c' (pause_dest dest_mix listeners false (c, d) r).paused ≡ false
      → (get c' r.paused ≡ false) ⊎ ((c ≡ c') × (get c dest_mix ≡ true))
  unfolding pause_dest set_paused
  pause_dest-raises c d r c' h =
      ground (arith, get-insert c c' false r.paused, h, should_run-dest_mix dest_mix listeners c d)

  pub pause_dest-rest :
      (pausing : Bool) (x : ℕ × DestSlot) (r : Router)
      → ((pause_dest dest_mix listeners pausing x r).sources ≡ r.sources)
        × ((pause_dest dest_mix listeners pausing x r).destinations ≡ r.destinations)
  unfolding pause_dest set_paused
  pause_dest-rest pausing (c, d) r = ground arith
