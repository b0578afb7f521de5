-- ===== src/Router/Fuel.antt =====
-- The cascade loop ends within the fuel that `compute_routes` gives it, on a settled state.
use go_discord_caller.Base.{
  Bool-cases, nat_eq, nat_zero, bool_zero, Map, insert, get, length, All, ℕ, zero, suc, ◌+◌, ◌≤◌,
  ◌<◌, ◌≡◌, refl, sym, subst, ◌∙◌, inl, inr, Bool, false, some, List, [], ◌∷◌, arith,
}
use go_discord_caller.Router.{
  RouteMode, route_mode_zero, RouteSource, RouteDest, Modes, baseline, baseline_modes, Cascade,
  pass, cascade, start, compute_routes,
}
use go_discord_caller.Router.Pass.{copies, unset, left, pass-Progress}
use go_discord_caller.Router.Settled.{Settled, pass-quiet}

copies-insert_le : (i : ℕ) (m : RouteMode) (ms : Modes) → copies (insert i m ms) ≤ suc (copies ms)
unfolding copies insert
copies-insert_le i m [] = ground arith
copies-insert_le i m ((j, n) ∷ ms) = ground (arith, copies-insert_le i m ms)

copies-baseline_le :
    (counts : Map ℕ ℕ) (sources : List RouteSource) (ms : Modes)
    → copies (baseline_modes counts sources ms) ≤ length sources + copies ms
unfolding baseline_modes
copies-baseline_le counts [] ms = omega arith
copies-baseline_le counts (s ∷ ss) ms =
    let m = baseline (get s.channel_id counts) in
    omega (arith, copies-baseline_le counts ss (insert s.id m ms), copies-insert_le s.id m ms)

unset-le-length : (ds : List RouteDest) (mx : Map ℕ Bool) → unset ds mx ≤ length ds
unfolding unset
unset-le-length [] mx = omega arith
unset-le-length (d ∷ ds) mx = ground (arith, unset-le-length ds mx)

cascade-total :
    (f : ℕ) (fed : Map ℕ Bool) (ds : List RouteDest) (st : Cascade)
    → left ds st < f
    → (r : Cascade) × (cascade f fed ds st ≡ some r)
unfolding cascade pass
cascade-total zero fed ds st h = absurd (omega arith)
cascade-total (suc f) fed ds st h =
    let st₀ : Cascade = record st { changed = false } in
    let p = pass-Progress fed ds ds st₀ (λ d m. m) in
    elim (Bool-cases (pass fed ds st₀).changed) [
      | inl e ↦
          let (r, eq) = cascade-total f fed ds (pass fed ds st₀) (omega (arith, p.strict refl e)) in
          (r, rw e eq)
      | inr e ↦ (pass fed ds st₀, rw e)
    ]

-- `computeRoutes` returns for every topology: its loop converges.
pub compute_routes-total :
    (sources : List RouteSource) (ds : List RouteDest) (counts : Map ℕ ℕ) (fed : Map ℕ Bool)
    → (r : Cascade) × (compute_routes sources ds counts fed ≡ some r)
unfolding compute_routes start copies
compute_routes-total sources ds counts fed =
    cascade-total _ fed ds _
      (omega (arith, copies-baseline_le counts sources [], unset-le-length ds []))

-- What a pass keeps holds of the result of the loop, which is settled.
pub cascade_inv {ℓ} :
    (P : Cascade → Type ℓ) (fed : Map ℕ Bool) (ds : List RouteDest)
    → ((st : Cascade) → P st → P (pass fed ds (record st { changed = false })))
    → (f : ℕ) (st : Cascade) {r : Cascade} → P st
    → cascade f fed ds st ≡ some r
    → P r × All (Settled fed r) ds
unfolding cascade pass
cascade_inv P fed ds keep zero st p e = absurd (cc)
cascade_inv P fed ds keep (suc f) st {r} p e =
    let st₀ : Cascade = record st { changed = false } in
    elim (Bool-cases (pass fed ds st₀).changed) [
      | inl raised ↦ cascade_inv P fed ds keep f (pass fed ds st₀) (keep st p) (rw raised at e)
      | inr quiet ↦
          let same : pass fed ds st₀ ≡ r = ground (arith, quiet, e) in
          let (kept, settled) = pass-quiet fed ds st₀ quiet in
          (subst P same (keep st p), subst (λ s. All (Settled fed s) ds) (sym kept ∙ same) settled)
    ]
