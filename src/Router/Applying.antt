-- ===== src/Router/Applying.antt =====
-- applyModes as a whole.
use go_discord_caller.Base.{
  ==_iff, ==_refl, Option-cases, nat_eq, nat_zero, bool_zero, list_zero, Map, lookup, get, Elem,
  here, there, Distinct, Elem-map, Elem-All, ℕ, ◌≡◌, refl, sym, ap, ◌∙◌, ◌≢◌, inl, inr, Bool, true,
  false, some, List, [], ◌∷◌, map, arith,
}
use go_discord_caller.Router.{RouteMode, route_mode_zero, is_copy, Modes}
use go_discord_caller.Router.Slots.{DestSlot, Router}
use go_discord_caller.Router.Apply.{set_dest_paused, apply_sources, apply_modes}
use go_discord_caller.Router.Path.{writes_raw, Run, Run-append, Run-end, Run-map}
use go_discord_caller.Router.Pausing.{
  Wanted, set_dest_paused-Run, pause_dest-lowers, pause_dest-rest,
}
use go_discord_caller.Router.Safe.{Safe, Decided, pausing-Safe, resuming-Safe}
use go_discord_caller.Router.Installing.{
  Installs, not_raw, apply_sources-Run, apply_sources-Applied,
}

lookup-Elem :
    (modes : Modes) (i : ℕ) (m : RouteMode)
    → Distinct (map (λ x. x.0) modes)
    → Elem (i, m) modes
    → lookup i modes ≡ some m
unfolding lookup
lookup-Elem [] i m d e = elim e [ ]
lookup-Elem ((j, n) ∷ ms) i m d (here e) =
    rw (ap (λ x. x.0) e) (ground (arith, ==_refl j, ap (λ x. x.1) e))
lookup-Elem ((j, n) ∷ ms) i m d (there e) =
    let other : j ≢ i = Elem-All _ _ (Elem-map (λ x. x.0) ms e) d.0 in
    ground (arith, ==_iff j i, other, lookup-Elem ms i m d.1 e)

get-Elem :
    (modes : Modes) (i : ℕ) (m : RouteMode)
    → Distinct (map (λ x. x.0) modes)
    → Elem (i, m) modes
    → get i modes ≡ m
unfolding get
get-Elem modes i m d e = rw (lookup-Elem modes i m d e, get)

module _ (dest_mix listeners : Map ℕ Bool) where
  set_dest_paused-falls :
      (xs : Map ℕ DestSlot) (r : Router) (c : ℕ)
      → get c (set_dest_paused dest_mix listeners true xs r).paused ≡ false
      → get c r.paused ≡ false
  unfolding set_dest_paused
  set_dest_paused-falls [] r c h = h
  set_dest_paused-falls ((c', d') ∷ xs) r c h =
      (pause_dest-lowers dest_mix listeners c' d' r c (set_dest_paused-falls xs _ c h)).0

  set_dest_paused-Wanted :
      (xs : Map ℕ DestSlot) (r : Router)
      → Wanted dest_mix xs (set_dest_paused dest_mix listeners true xs r)
  unfolding set_dest_paused
  set_dest_paused-Wanted [] r c d m mx h = elim m [ ]
  set_dest_paused-Wanted ((c', d') ∷ xs) r c d (there m) mx h =
      set_dest_paused-Wanted xs _ c d m mx h
  set_dest_paused-Wanted ((c', d') ∷ xs) r c d (here e) mx h =
      let lowered =
        pause_dest-lowers dest_mix listeners c' d' r c (set_dest_paused-falls xs _ c h) in
      rw (ap (λ x. x.0) e) (lowered.1 (ap (λ x. x.0) (sym e)) (rw (ap (λ x. x.1) e) at mx))

module _ {modes : Modes} {dest_mix : Map ℕ Bool} {ds : Map ℕ DestSlot}
    (dec : Decided modes dest_mix ds) (users : Map ℕ (List ℕ)) (listeners : Map ℕ Bool) (r : Router)
    (safe : Safe ds r) where
  abbrev stopped : Router
  stopped = set_dest_paused dest_mix listeners true ds r

  stopped-Run : Run (Safe ds) r stopped
  stopped-Run =
      set_dest_paused-Run dest_mix listeners (Safe ds) true ds ds r
        (λ c d q m. pausing-Safe dec listeners c d q) (λ x m. m) safe

  installed-Run : Run (Installs dest_mix ds) stopped (apply_sources users modes stopped)
  installed-Run =
      apply_sources-Run dec users modes stopped (λ i m. get-Elem modes i m dec.ids)
        (record {
          safe = Run-end stopped-Run;
          wanted = set_dest_paused-Wanted dest_mix listeners ds r;
        })

  abbrev routed : Router
  routed = apply_sources users modes stopped

  not_raw_routed :
      (c : ℕ) (d : DestSlot) (i : ℕ)
      → Elem (c, d) ds
      → Elem i d.source_ids
      → is_copy (get i modes) ≡ false
      → writes_raw (lookup i routed.sources) ≡ false
  not_raw_routed c d i m n h = elim (Option-cases (lookup i routed.sources)) [
    | inl e ↦ rw e
    | inr (s, e) ↦
        let applied =
          apply_sources-Applied users modes modes i stopped dec.ids
            (λ j k. get-Elem modes j k dec.ids) (dec.covered c d i m n) s e in
        rw e (not_raw s ((Run-end installed-Run).safe.coherent i s e) (ground (arith, applied, h)))
  ]

  record Resumes (q : Router) : Type 0 where
    safe_too : Safe ds q
    same_sources : q.sources ≡ routed.sources

  resumed-Run : Run Resumes routed (set_dest_paused dest_mix listeners false ds routed)
  resumed-Run =
      set_dest_paused-Run dest_mix listeners Resumes false ds ds routed
        (λ c d q m p. record {
          safe_too =
              resuming-Safe dec listeners c d q
                (λ i n h. rw p.same_sources (not_raw_routed c d i m n h)) m p.safe_too;
          same_sources = (pause_dest-rest dest_mix listeners false (c, d) q).0 ∙ p.same_sources;
        })
        (λ x m. m) (record { safe_too = (Run-end installed-Run).safe; same_sources = refl })

  -- The destinations that the two loops visit are the same ones all along.
  pub apply_modes-stages :
      apply_modes modes dest_mix users listeners r
      ≡ set_dest_paused dest_mix listeners false ds routed
  unfolding apply_modes
  apply_modes-stages =
      ap
        (λ xs.
          let q = apply_sources users modes (set_dest_paused dest_mix listeners true xs r) in
          set_dest_paused dest_mix listeners false q.destinations q)
        safe.same_dests
      ∙ ap (λ xs. set_dest_paused dest_mix listeners false xs routed)
          (Run-end installed-Run).safe.same_dests

-- From a state where no destination has two kinds of writer, applyModes carries out a decision of
-- the cascade one mutation at a time, and after each of them there is still no destination whose
-- mixer runs while one of its sources writes raw packets.
pub apply_modes-Run :
    (modes : Modes) (dest_mix : Map ℕ Bool) (users : Map ℕ (List ℕ)) (listeners : Map ℕ Bool)
    (ds : Map ℕ DestSlot) (r : Router)
    → Decided modes dest_mix ds
    → Safe ds r
    → Run (Safe ds) r (apply_modes modes dest_mix users listeners r)
apply_modes-Run modes dest_mix users listeners ds r dec safe =
    rw (apply_modes-stages dec users listeners r safe) (
      Run-append (stopped-Run dec users listeners r safe) (
        Run-append (Run-map (λ q v. v.safe) (installed-Run dec users listeners r safe))
          (Run-map (λ q v. v.safe_too) (resumed-Run dec users listeners r safe))))
