-- ===== src/Router/Writers.antt =====
-- Who writes to a destination's speaker channels once `computeRoutes` has decided.
use go_discord_caller.Base.{
  Bool-cases, nat_eq, nat_zero, bool_zero, Map, insert, get, get-insert, All, Elem, here, there,
  Distinct, Elem-All, Distinct-key, ℕ, ◌≤◌, ◌≡◌, refl, subst, ◌∙◌, ◌≢◌, ◌↔◌, ◌⊎◌, inl, inr, Bool,
  true, false, some, List, [], ◌∷◌, map, arith,
}
use go_discord_caller.Router.{
  RouteMode, route_off, route_mode_zero, is_off, RouteSource, RouteDest, Modes, baseline,
  baseline_modes, live_count, mix_count, Cascade, needs_mix, compute_routes,
}
use go_discord_caller.Router.Settled.{NotCopy}
use go_discord_caller.Router.Rule.{dest}
use go_discord_caller.Router.Routes.{routed, Mixes-Done}

baseline_modes-other :
    (counts : Map ℕ ℕ) (ss : List RouteSource) (i : ℕ) (ms : Modes)
    → All (λ j. i ≢ j) (map (λ s. s.id) ss)
    → get i (baseline_modes counts ss ms) ≡ get i ms
unfolding baseline_modes
baseline_modes-other counts [] i ms h = refl
baseline_modes-other counts (s ∷ ss) i ms h =
    let m = baseline (get s.channel_id counts) in
    baseline_modes-other counts ss i (insert s.id m ms) h.1
    ∙ ground (arith, get-insert s.id i m ms, h.0)

baseline_modes-get :
    (counts : Map ℕ ℕ) (ss : List RouteSource) (s : RouteSource) (ms : Modes)
    → Distinct (map (λ s. s.id) ss)
    → Elem s ss
    → get s.id (baseline_modes counts ss ms) ≡ baseline (get s.channel_id counts)
unfolding baseline_modes
baseline_modes-get counts [] s ms d m = elim m [ ]
baseline_modes-get counts (x ∷ ss) s ms d (here e) = rw e (
    baseline_modes-other counts ss x.id _ d.0
    ∙ ground (arith, get-insert x.id x.id (baseline (get x.channel_id counts)) ms))
baseline_modes-get counts (x ∷ ss) s ms d (there m) = baseline_modes-get counts ss s _ d.1 m

needs_no_mix :
    (fed : Map ℕ Bool) (d : RouteDest) (modes : Modes)
    → needs_mix fed d modes ≡ false
    → (mix_count modes d.source_ids ≡ 0)
      × (live_count modes d.source_ids ≤ 1)
      × (get d.channel_id fed ≡ false)
unfolding needs_mix
needs_no_mix fed d modes h = ground arith

is_off_iff : (m : RouteMode) → (is_off m ≡ true) ↔ (m ≡ route_off)
is_off_iff m = ground arith

module _ (sources : List RouteSource) (ds : List RouteDest) (counts : Map ℕ ℕ) (fed : Map ℕ Bool)
    (r : Cascade) where
  -- A source whose id no other has is off in the result exactly when nobody with the caller role
  -- is in its channel: the cascade neither wakes nor silences it.
  pub compute_routes-off :
      (s : RouteSource)
      → compute_routes sources ds counts fed ≡ some r
      → Distinct (map (λ s. s.id) sources)
      → Elem s sources
      → (get s.id r.modes ≡ route_off) ↔ (get s.channel_id counts ≡ 0)
  unfolding baseline
  compute_routes-off s computed d m =
      let q = routed sources ds counts fed computed in
      let kept = q.sound.off_kept s.id in
      let base = baseline_modes-get counts sources s [] d m in
      (
        (λ h. ground (arith, kept, base, h)),
        (λ h. (is_off_iff _).0 (ground (arith, kept, base, h))),
      )

  -- With one destination for each channel: a destination whose mixer runs has no source in copy
  -- mode, and one whose mixer does not run has no mixing source, no relay and at most one live
  -- source. So never two writers.
  pub compute_routes_one_writer :
      (d : RouteDest)
      → compute_routes sources ds counts fed ≡ some r
      → Distinct (map (λ d. d.channel_id) ds)
      → Elem d ds
      → ((get d.channel_id r.dest_mix ≡ true) × All (NotCopy r.modes) d.source_ids)
        ⊎ ((get d.channel_id r.dest_mix ≡ false)
            × (mix_count r.modes d.source_ids ≡ 0)
            × (live_count r.modes d.source_ids ≤ 1)
            × (get d.channel_id fed ≡ false))
  compute_routes_one_writer d computed u m =
      let q = routed sources ds counts fed computed in
      let settled = Elem-All _ ds m q.settled in
      elim (Bool-cases (get d.channel_id r.dest_mix)) [
        | inl on ↦
            let (d', m', e, x) = q.sound.dest_due d.channel_id on in
            let same = Distinct-key (λ d. d.channel_id) ds u m' m e in
            inl (
              on,
              (settled
                  (subst (λ y. needs_mix fed y r.modes ≡ true) same (Mixes-Done q (dest d') x))).1,
            )
        | inr off ↦
            let (mix, live, relay) =
              needs_no_mix fed d r.modes (elim (Bool-cases (needs_mix fed d r.modes)) [
                | inl needed ↦ absurd (cc ((settled needed).0, off))
                | inr idle ↦ idle
              ]) in
            inr (off, mix, live, relay)
      ]
