-- ===== src/Router/Settled.antt =====
-- A pass that leaves the `changed` flag down has found every destination settled.
use go_discord_caller.Base.{
  Bool-cases, nat_eq, nat_zero, bool_zero, Map, insert, get, All, ℕ, ◌≡◌, refl, subst, ◌∙◌, inl,
  inr, Bool, true, false, List, [], ◌∷◌, arith,
}
use go_discord_caller.Router.{
  route_mix, route_mode_zero, is_copy, RouteDest, Modes, Cascade, force_mix, needs_mix, promote,
  visit, pass,
}

abbrev pub NotCopy : Modes → ℕ → Type 0
NotCopy modes i = is_copy (get i modes) ≡ false

-- A destination that needs its mixer has it, and no source writes to it in copy mode.
abbrev pub Settled : Map ℕ Bool → Cascade → RouteDest → Type 0
Settled fed st d =
    needs_mix fed d st.modes ≡ true
    → (get d.channel_id st.dest_mix ≡ true) × All (NotCopy st.modes) d.source_ids

force_mix-raised :
    (is : List ℕ) (st : Cascade) → st.changed ≡ true → (force_mix is st).changed ≡ true
unfolding force_mix
force_mix-raised [] st h = h
force_mix-raised (i ∷ is) st h = ground (
  arith,
  force_mix-raised is st h,
  force_mix-raised is (record st { modes = insert i route_mix st.modes; changed = true }) refl,
)

force_mix-quiet :
    (is : List ℕ) (st : Cascade)
    → (force_mix is st).changed ≡ false
    → (force_mix is st ≡ st) × All (NotCopy st.modes) is
unfolding force_mix
force_mix-quiet [] st h = (refl, tt)
force_mix-quiet (i ∷ is) st h = elim (Bool-cases (is_copy (get i st.modes))) [
  | inl e ↦ absurd (
      cc (
        force_mix-raised is (record st { modes = insert i route_mix st.modes; changed = true })
            refl,
        e,
      ))
  | inr e ↦
      let (same, rest) = force_mix-quiet is st (ground (arith, e, h)) in
      (ground (arith, e, same), (e, rest))
]

promote-quiet :
    (d : RouteDest) (st : Cascade)
    → (promote d st).changed ≡ false
    → (promote d st ≡ st) × (get d.channel_id st.dest_mix ≡ true)
unfolding promote
promote-quiet d st h = ground arith

promote-raised : (d : RouteDest) (st : Cascade) → st.changed ≡ true → (promote d st).changed ≡ true
unfolding promote
promote-raised d st h = ground arith

visit-raised :
    (fed : Map ℕ Bool) (d : RouteDest) (st : Cascade)
    → st.changed ≡ true
    → (visit fed d st).changed ≡ true
unfolding visit
visit-raised fed d st h =
    ground (arith, force_mix-raised d.source_ids (promote d st), promote-raised d st)

visit-quiet :
    (fed : Map ℕ Bool) (d : RouteDest) (st : Cascade)
    → (visit fed d st).changed ≡ false
    → (visit fed d st ≡ st) × Settled fed st d
unfolding visit
visit-quiet fed d st h = elim (Bool-cases (needs_mix fed d st.modes)) [
  | inr e ↦ (rw e, λ n. absurd (cc))
  | inl e ↦
      let q : (force_mix d.source_ids (promote d st)).changed ≡ false = (rw e at h) in
      let (same, none_copy) = force_mix-quiet d.source_ids (promote d st) q in
      let (kept, on) = promote-quiet d st (ground (arith, same, q)) in
      (rw e (same ∙ kept), λ n. (on, rw kept at none_copy))
]

pass-raised :
    (fed : Map ℕ Bool) (ds : List RouteDest) (st : Cascade)
    → st.changed ≡ true
    → (pass fed ds st).changed ≡ true
unfolding pass
pass-raised fed [] st h = h
pass-raised fed (d ∷ ds) st h = pass-raised fed ds (visit fed d st) (visit-raised fed d st h)

pub pass-quiet :
    (fed : Map ℕ Bool) (ds : List RouteDest) (st : Cascade)
    → (pass fed ds st).changed ≡ false
    → (pass fed ds st ≡ st) × All (Settled fed st) ds
unfolding pass
pass-quiet fed [] st h = (refl, tt)
pass-quiet fed (d ∷ ds) st h = elim (Bool-cases (visit fed d st).changed) [
  | inl e ↦ absurd (cc (pass-raised fed ds (visit fed d st) e))
  | inr e ↦
      let (same, settled) = visit-quiet fed d st e in
      let (kept, rest) = pass-quiet fed ds (visit fed d st) h in
      (kept ∙ same, (settled, subst (λ s. All (Settled fed s) ds) same rest))
]
