-- ===== src/Router/Order.antt =====
-- The order in which Go visits the maps does not show in the routes.
use go_discord_caller.Base.{
  nat_eq, nat_zero, bool_zero, Map, get, Elem, ℕ, ◌≡◌, sym, ◌∙◌, ◌↔◌, Bool, true, some, List, [],
  arith,
}
use go_discord_caller.Router.{
  RouteMode, route_mode_zero, is_off, is_mix, RouteSource, RouteDest, Modes, baseline_modes,
  Cascade, compute_routes,
}
use go_discord_caller.Router.Rule.{
  Node, source, dest, Mixes, crowded, joined, spread, contended, relayed,
}
use go_discord_caller.Router.Routes.{routed, compute_routes-Mixes}

Mixes-mono :
    {base : Modes} {fed : Map ℕ Bool} {ds ds' : List RouteDest}
    → ((d : RouteDest) → Elem d ds → Elem d ds')
    → (n : Node) → Mixes base fed ds n
    → Mixes base fed ds' n
Mixes-mono sub (source _) (crowded i h) = crowded i h
Mixes-mono sub (source _) (joined d i m live x) = joined d i m live (Mixes-mono sub (dest d) x)
Mixes-mono sub (dest _) (spread d i m n x) = spread d i (sub d m) n (Mixes-mono sub (source i) x)
Mixes-mono sub (dest _) (contended d m h) = contended d (sub d m) h
Mixes-mono sub (dest _) (relayed d m h) = relayed d (sub d m) h

Bool-ext : (a b : Bool) → ((a ≡ true) ↔ (b ≡ true)) → a ≡ b
Bool-ext a b e = ground (arith, e)

mode_of_tests : (m n : RouteMode) → is_off m ≡ is_off n → is_mix m ≡ is_mix n → m ≡ n
mode_of_tests m n h k = ground arith

-- Two orders of the same destinations give every source the same mode and every channel the same
-- mixer decision.
pub compute_routes_order :
    (sources : List RouteSource) (ds ds' : List RouteDest) (counts : Map ℕ ℕ) (fed : Map ℕ Bool)
    (r r' : Cascade)
    → ((d : RouteDest) → Elem d ds ↔ Elem d ds')
    → compute_routes sources ds counts fed ≡ some r
    → compute_routes sources ds' counts fed ≡ some r'
    → ((i : ℕ) → get i r.modes ≡ get i r'.modes) × ((c : ℕ) → get c r.dest_mix ≡ get c r'.dest_mix)
compute_routes_order sources ds ds' counts fed r r' same c c' =
    let q = routed sources ds counts fed c in
    let q' = routed sources ds' counts fed c' in
    let (mix, on) = compute_routes-Mixes sources ds counts fed r c in
    let (mix', on') = compute_routes-Mixes sources ds' counts fed r' c' in
    let forth = λ (n : Node).
      Mixes-mono {base = baseline_modes counts sources []} {fed = fed} (λ d m. (same d).0 m) n in
    let back = λ (n : Node).
      Mixes-mono {base = baseline_modes counts sources []} {fed = fed} (λ d m. (same d).1 m) n in
    (
      (λ i. mode_of_tests _ _ (q.sound.off_kept i ∙ sym (q'.sound.off_kept i)) (
          Bool-ext _ _ (
            (λ h. (mix' i).1 (forth (source i) ((mix i).0 h))),
            (λ h. (mix i).1 (back (source i) ((mix' i).0 h))),
          ))),
      (λ ch. Bool-ext _ _ (
        (λ h. let (d, m, e, x) = (on ch).0 h in (on' ch).1 (d, (same d).0 m, e, forth (dest d) x)),
        (λ h. let (d, m, e, x) = (on' ch).0 h in (on ch).1 (d, (same d).1 m, e, back (dest d) x)),
      )),
    )
