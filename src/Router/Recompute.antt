-- ===== src/Router/Recompute.antt =====
-- Recompute keeps the router safe: the cascade's decision, carried out by applyModes.
use go_discord_caller.Base.{
  nat_eq, nat_zero, bool_zero, list_zero, Map, All, Elem, here, there, Distinct, Elem-All, ℕ, ◌≡◌,
  refl, ap, inl, inr, some, [], ◌∷◌, map,
}
use go_discord_caller.Router.{route_mode_zero, Cascade}
use go_discord_caller.Router.Writers.{compute_routes_one_writer}
use go_discord_caller.Router.Slots.{DestSlot, Router}
use go_discord_caller.Router.Apply.{
  Probe, route_sources, route_dests, unique_channels, caller_counts, relay_checks, decide,
}
use go_discord_caller.Router.Safe.{Safe, Decided}
use go_discord_caller.Router.Keys.{keys, compute_routes-Keyed}

-- What `New` is given: slots under their own ids and channels, fed by slots that are there.
pub record Topology (r : Router) : Type 0 where
  pub channels : Distinct (keys r.destinations)
  pub feeds :
      All
        (λ x. All (λ i. Elem i (map (λ s. s.id) (route_sources r.sources))) x.1.source_ids)
        r.destinations

map-route_dests : (ds : Map ℕ DestSlot) → map (λ d. d.channel_id) (route_dests ds) ≡ keys ds
unfolding route_dests
map-route_dests [] = refl
map-route_dests ((c, d) ∷ ds) = ap (λ xs. c ∷ xs) (map-route_dests ds)

route_dests-Elem :
    (c : ℕ) (d : DestSlot) (ds : Map ℕ DestSlot)
    → Elem (c, d) ds
    → Elem (record { channel_id = c; source_ids = d.source_ids }) (route_dests ds)
unfolding route_dests
route_dests-Elem c d [] m = elim m [ ]
route_dests-Elem c d ((c', d') ∷ ds) (here e) =
    here (ap (λ x. record { channel_id = x.0; source_ids = x.1.source_ids }) e)
route_dests-Elem c d ((c', d') ∷ ds) (there m) = there (route_dests-Elem c d ds m)

-- The cascade's routes are a decision that applyModes can carry out.
pub decide-Decided :
    (p : Probe) (r : Router) (routes : Cascade)
    → Topology r
    → decide p r ≡ some routes
    → Decided routes.modes routes.dest_mix r.destinations
unfolding decide
decide-Decided p r routes t e =
    let sources = route_sources r.sources in
    let ds = route_dests r.destinations in
    let counts = caller_counts p (unique_channels r.sources []) in
    let fed = relay_checks p r.destinations in
    let k = compute_routes-Keyed sources ds counts fed routes e in
    record {
      channels = t.channels;
      ids = k.distinct;
      none_raw = λ c d m on.
          elim (compute_routes_one_writer sources ds counts fed routes
            (record { channel_id = c; source_ids = d.source_ids }) e
            (rw (map-route_dests r.destinations) t.channels)
            (route_dests-Elem c d r.destinations m)) [
              | inl w ↦ w.1
              | inr w ↦ absurd (cc (w.0, on))
            ];
      covered = λ c d i m n.
          k.present i (Elem-All _ d.source_ids n (Elem-All _ r.destinations m t.feeds));
    }
