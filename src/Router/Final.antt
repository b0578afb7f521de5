-- ===== src/Router/Final.antt =====
-- The state that applyModes leaves the mixers in.
use go_discord_caller.Router.Applying.{apply_modes-stages}
use go_discord_caller.Router.Safe.{Safe, Decided}
use go_discord_caller.Base.{
  ◌==◌, if◌then◌else◌, bool_eq, nat_eq, nat_zero, bool_zero, list_zero, Map, get, get-insert, All,
  Elem, here, there, Distinct, Elem-map, Elem-All, ℕ, ◌≡◌, refl, sym, ap, ◌∙◌, ◌≢◌, Bool, true,
  false, not, ◌&&◌, ◌||◌, List, [], ◌∷◌, arith,
}
use go_discord_caller.Router.{RouteMode, route_mode_zero, Modes}
use go_discord_caller.Router.Slots.{DestSlot, Router}
use go_discord_caller.Router.Apply.{
  set_paused, should_run, pause_dest, set_dest_paused, reinstall, apply_sources, apply_modes,
}
use go_discord_caller.Router.Installing.{
  Applies, unknown, unchanged, reinstalled, apply_source-Applies,
}
use go_discord_caller.Router.Keys.{keys}

module _ (dest_mix listeners : Map ℕ Bool) (pausing : Bool) where
  pause_dest-other :
      (c : ℕ) (d : DestSlot) (r : Router) (c' : ℕ)
      → c ≢ c'
      → get c' (pause_dest dest_mix listeners pausing (c, d) r).paused ≡ get c' r.paused
  unfolding pause_dest set_paused
  pause_dest-other c d r c' h =
      let run = should_run dest_mix listeners c d in
      ground (arith, get-insert c c' (not run) r.paused, h)

  pause_dest_self :
      (c : ℕ) (d : DestSlot) (r : Router)
      → d.has_mixer ≡ true
      → get c (pause_dest dest_mix listeners pausing (c, d) r).paused ≡ (
          if bool_eq (should_run dest_mix listeners c d) pausing
          then get c r.paused
          else not (should_run dest_mix listeners c d))
  unfolding pause_dest set_paused
  pause_dest_self c d r h =
      let run = should_run dest_mix listeners c d in
      ground (arith, get-insert c c (not run) r.paused, h)

  set_dest_paused-other :
      (xs : Map ℕ DestSlot) (r : Router) (c : ℕ)
      → All (λ x. c ≢ x) (keys xs)
      → get c (set_dest_paused dest_mix listeners pausing xs r).paused ≡ get c r.paused
  unfolding set_dest_paused
  set_dest_paused-other [] r c a = refl
  set_dest_paused-other ((c', d') ∷ xs) r c a =
      set_dest_paused-other xs _ c a.1 ∙ pause_dest-other c' d' r c (λ e. a.0 (sym e))

  set_dest_paused_self :
      (xs : Map ℕ DestSlot) (r : Router) (c : ℕ) (d : DestSlot)
      → Distinct (keys xs)
      → Elem (c, d) xs
      → d.has_mixer ≡ true
      → get c (set_dest_paused dest_mix listeners pausing xs r).paused ≡ (
          if bool_eq (should_run dest_mix listeners c d) pausing
          then get c r.paused
          else not (should_run dest_mix listeners c d))
  unfolding set_dest_paused
  set_dest_paused_self [] r c d u m h = elim m [ ]
  set_dest_paused_self ((c', d') ∷ xs) r c d u (here e) h =
      rw (ap (λ x. x.0) e, ap (λ x. x.1) e)
        (set_dest_paused-other xs _ c' u.0 ∙ pause_dest_self c' d' r (rw (ap (λ x. x.1) e) at h))
  set_dest_paused_self ((c', d') ∷ xs) r c d u (there m) h =
      set_dest_paused_self xs _ c d u.1 m h
      ∙ ap
          (λ b.
            if bool_eq (should_run dest_mix listeners c d) pausing
            then b
            else not (should_run dest_mix listeners c d))
          (pause_dest-other c' d' r c (Elem-All _ _ (Elem-map (λ x. x.0) xs m) u.0))

Applies-paused :
    {users : Map ℕ (List ℕ)} {i : ℕ} {mode : RouteMode} {r q : Router}
    → Applies users i mode r q
    → q.paused ≡ r.paused
unfolding reinstall
Applies-paused (unknown _) = refl
Applies-paused (unchanged _ _ _) = refl
Applies-paused (reinstalled s us _) = refl

apply_sources-paused :
    (users : Map ℕ (List ℕ)) (ms : Modes) (r : Router)
    → (apply_sources users ms r).paused ≡ r.paused
unfolding apply_sources
apply_sources-paused users [] r = refl
apply_sources-paused users ((i, m) ∷ ms) r =
    apply_sources-paused users ms _ ∙ Applies-paused (apply_source-Applies users i m r)

-- After applyModes a destination's mixer runs exactly when the cascade promoted the destination
-- and, unless it has no speaker channel of its own, somebody listens there. The mixers that ran
-- before make no difference.
pub apply_modes-paused :
    (modes : Modes) (dest_mix : Map ℕ Bool) (users : Map ℕ (List ℕ)) (listeners : Map ℕ Bool)
    (r : Router) (c : ℕ) (d : DestSlot)
    → Decided modes dest_mix r.destinations
    → Safe r.destinations r
    → Elem (c, d) r.destinations
    → d.has_mixer ≡ true
    → get c (apply_modes modes dest_mix users listeners r).paused
      ≡ not (get c dest_mix && ((d.ch_outs == 0) || get c listeners))
unfolding should_run
apply_modes-paused modes dest_mix users listeners r c d dec safe m h =
    let ds = r.destinations in
    let stop = set_dest_paused dest_mix listeners true ds r in
    let put = apply_sources users modes stop in
    let first = set_dest_paused_self dest_mix listeners true ds r c d dec.channels m h in
    let kept = ap (λ ps. get c ps) (apply_sources-paused users modes stop) in
    let last = set_dest_paused_self dest_mix listeners false ds put c d dec.channels m h in
    ap (λ q. get c q.paused) (apply_modes-stages dec users listeners r safe)
    ∙ ground (arith, first, kept, last)
