-- ===== src/Router/Routes.antt =====
-- `computeRoutes` against the cascade rule.
use go_discord_caller.Base.{
  nat_eq, nat_zero, bool_zero, Map, lookup, get, All, Elem, here, there, Elem-All, ℕ, ◌<◌, ◌≡◌,
  refl, ◌∙◌, ◌↔◌, Bool, true, false, some, List, [], ◌∷◌, arith,
}
use go_discord_caller.Router.{
  RouteMode, route_off, route_copy, route_mix, route_mode_zero, is_off, is_copy, is_mix,
  RouteSource, RouteDest, Modes, baseline_modes, mix_count, Cascade, needs_mix, start,
  compute_routes,
}
use go_discord_caller.Router.Settled.{NotCopy, Settled}
use go_discord_caller.Router.Fuel.{cascade_inv}
use go_discord_caller.Router.Rule.{
  Node, source, dest, Mixes, crowded, joined, spread, contended, relayed, Sound, live_count-kept,
  pass-Sound,
}

-- What holds of the result: it is sound, and every destination is settled.
pub record Routed (base : Modes) (fed : Map ℕ Bool) (ds : List RouteDest) (r : Cascade)
    : Type 0 where
  pub sound : Sound base fed ds r
  pub settled : All (Settled fed r) ds

module _ (sources : List RouteSource) (ds : List RouteDest) (counts : Map ℕ ℕ) (fed : Map ℕ Bool)
    {r : Cascade} (computed : compute_routes sources ds counts fed ≡ some r) where
  pub routed : Routed (baseline_modes counts sources []) fed ds r
  unfolding compute_routes start get lookup
  routed =
      let (s, q) =
        cascade_inv (Sound (baseline_modes counts sources []) fed ds) fed ds
          (λ st s.
            pass-Sound ds _
              (record {
                off_kept = s.off_kept;
                mix_kept = s.mix_kept;
                mix_due = s.mix_due;
                dest_due = s.dest_due;
              })
              (λ d m. m))
          _ (start counts sources)
          (record {
            off_kept = λ i. refl;
            mix_kept = λ i h. h;
            mix_due = λ i h. crowded i h;
            dest_due = λ c h. absurd (cc h);
          })
          computed in
      record { sound = s; settled = q }

module _ {base : Modes} {fed : Map ℕ Bool} {ds : List RouteDest} {r : Cascade}
    (routed : Routed base fed ds r) where
  abbrev pub Done : Node → Type 0
  Done (source i) = is_mix (get i r.modes) ≡ true
  Done (dest d) = needs_mix fed d r.modes ≡ true

  mix_count-pos :
      (is : List ℕ) (i : ℕ) → Elem i is → is_mix (get i r.modes) ≡ true → 0 < mix_count r.modes is
  unfolding mix_count
  mix_count-pos [] i m h = elim m [ ]
  mix_count-pos (j ∷ is) i (here e) h = ground (arith, e, h)
  mix_count-pos (j ∷ is) i (there m) h = ground (arith, mix_count-pos is i m h)

  Mixes-Elem : (d : RouteDest) → Mixes base fed ds (dest d) → Elem d ds
  Mixes-Elem d (spread _ i m n x) = m
  Mixes-Elem d (contended _ m h) = m
  Mixes-Elem d (relayed _ m h) = m

  mix_of_live : (m : RouteMode) → is_off m ≡ false → is_copy m ≡ false → is_mix m ≡ true
  mix_of_live route_off h k = cc
  mix_of_live route_copy h k = cc
  mix_of_live route_mix h k = refl

  pub Mixes-Done : (n : Node) → Mixes base fed ds n → Done n
  unfolding needs_mix
  Mixes-Done (source i) (crowded _ h) = routed.sound.mix_kept i h
  Mixes-Done (source i) (joined d _ m live x) =
      let (_, none_copy) = Elem-All _ ds (Mixes-Elem d x) routed.settled (Mixes-Done (dest d) x) in
      mix_of_live _ (routed.sound.off_kept i ∙ live)
        (Elem-All (NotCopy r.modes) d.source_ids m none_copy)
  Mixes-Done (dest d) (spread _ i m n x) =
      ground (arith, mix_count-pos d.source_ids i n (Mixes-Done (source i) x))
  Mixes-Done (dest d) (contended _ m h) =
      ground (arith, h, live_count-kept r d.source_ids routed.sound)
  Mixes-Done (dest d) (relayed _ m h) = ground (arith, h)

  dest_mix-Mixes : (d : RouteDest) → Mixes base fed ds (dest d) → get d.channel_id r.dest_mix ≡ true
  dest_mix-Mixes d x = (Elem-All _ ds (Mixes-Elem d x) routed.settled (Mixes-Done (dest d) x)).0

-- A source mixes, and a mixer runs, exactly when the cascade rule says so, in whatever order the
-- destinations are visited.
pub compute_routes-Mixes :
    (sources : List RouteSource) (ds : List RouteDest) (counts : Map ℕ ℕ) (fed : Map ℕ Bool)
    (r : Cascade)
    → compute_routes sources ds counts fed ≡ some r
    → let base = baseline_modes counts sources [] in
      ((i : ℕ) → (is_mix (get i r.modes) ≡ true) ↔ Mixes base fed ds (source i))
      × ((c : ℕ)
          → (get c r.dest_mix ≡ true)
            ↔ ((d : RouteDest) × Elem d ds × (d.channel_id ≡ c) × Mixes base fed ds (dest d)))
compute_routes-Mixes sources ds counts fed r computed =
    let q = routed sources ds counts fed computed in
    (
      (λ i. (q.sound.mix_due i, Mixes-Done q (source i))),
      (λ c. (q.sound.dest_due c, λ (d, m, e, x). rw (← e) (dest_mix-Mixes q d x))),
    )
