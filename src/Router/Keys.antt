-- ===== src/Router/Keys.antt =====
-- The keys of `sourceModes`: each source has one entry and keeps it through the cascade.
use go_discord_caller.Base.{
  ◌==◌, ==_iff, Bool-cases, nat_eq, nat_zero, bool_zero, list_zero, Map, insert, get, All, Elem,
  here, there, Elem-cons, Distinct, ℕ, ◌≡◌, refl, subst, ◌≢◌, inl, inr, Bool, some, List, [], ◌∷◌,
  map,
}
use go_discord_caller.Router.Fuel.{cascade_inv}
use go_discord_caller.Router.{
  RouteMode, route_mix, route_mode_zero, is_copy, RouteSource, RouteDest, Modes, baseline,
  baseline_modes, Cascade, force_mix, needs_mix, promote, visit, pass, start, compute_routes,
}

abbrev pub keys {ℓ} : {V : Type ℓ} → Map ℕ V → List ℕ
keys m = map (λ x. x.0) m

module _ {ℓ} {V : Type ℓ} where
  keys-insert_other :
      (j k : ℕ) (v : V) (m : Map ℕ V)
      → j ≢ k
      → All (λ x. j ≢ x) (keys m)
      → All (λ x. j ≢ x) (keys (insert k v m))
  unfolding insert
  keys-insert_other j k v [] h a = (h, tt)
  keys-insert_other j k v ((i, w) ∷ m) h a = elim (Bool-cases (i == k)) [
    | inl e ↦ rw e (h, a.1)
    | inr e ↦ rw e (a.0, keys-insert_other j k v m h a.1)
  ]

  pub Distinct-insert :
      (k : ℕ) (v : V) (m : Map ℕ V) → Distinct (keys m) → Distinct (keys (insert k v m))
  unfolding insert
  Distinct-insert k v [] d = (tt, tt)
  Distinct-insert k v ((i, w) ∷ m) d = elim (Bool-cases (i == k)) [
    | inl e ↦ rw e (subst (λ x. All (λ y. x ≢ y) (keys m)) ((==_iff i k).0 e) d.0, d.1)
    | inr e ↦ rw e (
      keys-insert_other i k v m (λ same. cc ((==_iff i k).1 same, e)) d.0,
      Distinct-insert k v m d.1,
    )
  ]

  pub Elem-insert_self : (k : ℕ) (v : V) (m : Map ℕ V) → Elem k (keys (insert k v m))
  unfolding insert
  Elem-insert_self k v [] = here refl
  Elem-insert_self k v ((i, w) ∷ m) = elim (Bool-cases (i == k)) [
    | inl e ↦ rw e (here refl)
    | inr e ↦ rw e (there (Elem-insert_self k v m))
  ]

  pub Elem-insert : (j k : ℕ) (v : V) (m : Map ℕ V) → Elem j (keys m) → Elem j (keys (insert k v m))
  unfolding insert
  Elem-insert j k v [] n = elim n [ ]
  Elem-insert j k v ((i, w) ∷ m) n = elim (Bool-cases (i == k)) [
    | inl e ↦ rw e (subst (λ x. Elem j (x ∷ keys m)) ((==_iff i k).0 e) n)
    | inr e ↦ rw e (elim (Elem-cons n) [ inl p ↦ here p | inr p ↦ there (Elem-insert j k v m p) ])
  ]

-- One entry for each key, and one for each of some ids.
pub record Keyed (ids : List ℕ) (modes : Modes) : Type 0 where
  pub distinct : Distinct (keys modes)
  pub present : (i : ℕ) → Elem i ids → Elem i (keys modes)

pub insert-Keyed :
    {ids : List ℕ} (k : ℕ) (m : RouteMode) (modes : Modes)
    → Keyed ids modes
    → Keyed ids (insert k m modes)
insert-Keyed k m modes d = record {
  distinct = Distinct-insert k m modes d.distinct;
  present = λ i n. Elem-insert i k m modes (d.present i n);
}

force_mix-Keyed :
    {ids : List ℕ} (is : List ℕ) (st : Cascade)
    → Keyed ids st.modes
    → Keyed ids (force_mix is st).modes
unfolding force_mix
force_mix-Keyed [] st d = d
force_mix-Keyed (i ∷ is) st d = elim (Bool-cases (is_copy (get i st.modes))) [
  | inl e ↦ rw (e, force_mix) (force_mix-Keyed is _ (insert-Keyed i route_mix st.modes d))
  | inr e ↦ rw (e, force_mix) (force_mix-Keyed is st d)
]

visit-Keyed :
    {ids : List ℕ} (fed : Map ℕ Bool) (d : RouteDest) (st : Cascade)
    → Keyed ids st.modes
    → Keyed ids (visit fed d st).modes
unfolding visit promote
visit-Keyed fed d st k = elim (Bool-cases (needs_mix fed d st.modes)) [
  | inl e ↦ rw e (
      force_mix-Keyed d.source_ids (promote d st)
        (elim (Bool-cases (get d.channel_id st.dest_mix)) [ inl f ↦ rw f k | inr f ↦ rw f k ]))
  | inr e ↦ rw e k
]

pass-Keyed :
    {ids : List ℕ} (fed : Map ℕ Bool) (ds : List RouteDest) (st : Cascade)
    → Keyed ids st.modes
    → Keyed ids (pass fed ds st).modes
unfolding pass
pass-Keyed fed [] st k = k
pass-Keyed fed (d ∷ ds) st k = pass-Keyed fed ds _ (visit-Keyed fed d st k)

baseline_modes-Keyed :
    (counts : Map ℕ ℕ) (ss : List RouteSource) {ids : List ℕ} (modes : Modes)
    → Keyed ids modes
    → Keyed ids (baseline_modes counts ss modes)
unfolding baseline_modes
baseline_modes-Keyed counts [] modes k = k
baseline_modes-Keyed counts (s ∷ ss) modes k =
    baseline_modes-Keyed counts ss _ (insert-Keyed s.id _ modes k)

baseline_modes-present :
    (counts : Map ℕ ℕ) (ss : List RouteSource) (modes : Modes) (s : RouteSource)
    → Distinct (keys modes)
    → Elem s ss
    → Elem s.id (keys (baseline_modes counts ss modes))
unfolding baseline_modes
baseline_modes-present counts [] modes s d m = elim m [ ]
baseline_modes-present counts (x ∷ ss) modes s d m =
    let v = baseline (get x.channel_id counts) in
    let d' = Distinct-insert x.id v modes d in
    elim (Elem-cons m) [
      | inl e ↦
          let k : Keyed (x.id ∷ []) (insert x.id v modes) = record {
            distinct = d';
            present = λ i n. elim (Elem-cons n) [
              | inl p ↦ rw p (Elem-insert_self x.id v modes)
              | inr p ↦ elim p [ ]
            ];
          } in
          rw e ((baseline_modes-Keyed counts ss _ k).present x.id (here refl))
      | inr p ↦ baseline_modes-present counts ss _ s d' p
    ]

ids_present :
    (sources : List RouteSource) {js : List ℕ}
    → ((s : RouteSource) → Elem s sources → Elem s.id js)
    → (i : ℕ) → Elem i (map (λ s. s.id) sources)
    → Elem i js
ids_present [] f i m = elim m [ ]
ids_present (s ∷ ss) f i (here e) = rw e (f s (here refl))
ids_present (s ∷ ss) f i (there m) = ids_present ss (λ x n. f x (there n)) i m

-- The result of `computeRoutes` has one entry for every source.
pub compute_routes-Keyed :
    (sources : List RouteSource) (ds : List RouteDest) (counts : Map ℕ ℕ) (fed : Map ℕ Bool)
    (r : Cascade)
    → compute_routes sources ds counts fed ≡ some r
    → Keyed (map (λ s. s.id) sources) r.modes
unfolding compute_routes start
compute_routes-Keyed sources ds counts fed r e =
    (cascade_inv (λ st. Keyed (map (λ s. s.id) sources) st.modes) fed ds
      (λ st k. pass-Keyed fed ds _ k) _ (start counts sources)
      (record {
        distinct =
            (baseline_modes-Keyed counts sources {ids = []} []
              (record { distinct = tt; present = λ i n. elim n [ ] })).distinct;
        present = ids_present sources (λ s m. baseline_modes-present counts sources [] s tt m);
      })
      e).0
