-- ===== src/Router/Rule.antt =====
-- The cascade rule as a relation: which sources and destinations have to mix, and why.
-- (The comments over `computeRoutes` in internal/manager/router/router.go.)
use go_discord_caller.Base.{
  ◌==◌, ==_iff, Bool-cases, nat_eq, nat_zero, bool_zero, Map, insert, get, get-insert, Elem, here,
  there, ℕ, ◌≤◌, ◌<◌, ◌≡◌, refl, ◌⊎◌, inl, inr, Bool, true, false, List, [], ◌∷◌, arith,
}
use go_discord_caller.Router.{
  route_mix, route_mode_zero, is_off, is_copy, is_mix, RouteDest, Modes, live_count, mix_count,
  Cascade, force_mix, needs_mix, promote, visit, pass,
}

pub data Node : Type 0 where
  source : ℕ → Node
  dest : RouteDest → Node

pub data Mixes (base : Modes) (fed : Map ℕ Bool) (ds : List RouteDest) : Node → Type 0 where
  -- Two callers or more speak in the source's channel.
  crowded : (i : ℕ) → is_mix (get i base) ≡ true → Mixes base fed ds (source i)
  -- A live source feeds a destination that mixes.
  joined :
      (d : RouteDest) (i : ℕ)
      → Elem i d.source_ids
      → is_off (get i base) ≡ false
      → Mixes base fed ds (dest d)
      → Mixes base fed ds (source i)
  -- A mixing source feeds the destination.
  spread :
      (d : RouteDest) (i : ℕ)
      → Elem d ds
      → Elem i d.source_ids
      → Mixes base fed ds (source i)
      → Mixes base fed ds (dest d)
  -- Two live sources or more feed the destination.
  contended :
      (d : RouteDest) → Elem d ds → 2 ≤ live_count base d.source_ids → Mixes base fed ds (dest d)
  -- Another server's audio arrives at the destination.
  relayed : (d : RouteDest) → Elem d ds → get d.channel_id fed ≡ true → Mixes base fed ds (dest d)

-- The loop only does what the rule asks for, and never wakes or silences a source.
pub record Sound (base : Modes) (fed : Map ℕ Bool) (ds : List RouteDest) (st : Cascade)
    : Type 0 where
  pub off_kept : (i : ℕ) → is_off (get i st.modes) ≡ is_off (get i base)
  pub mix_kept : (i : ℕ) → is_mix (get i base) ≡ true → is_mix (get i st.modes) ≡ true
  pub mix_due : (i : ℕ) → is_mix (get i st.modes) ≡ true → Mixes base fed ds (source i)
  pub dest_due :
      (c : ℕ)
      → get c st.dest_mix ≡ true
      → (d : RouteDest) × Elem d ds × (d.channel_id ≡ c) × Mixes base fed ds (dest d)

mix_count-Elem :
    (modes : Modes) (is : List ℕ)
    → 0 < mix_count modes is
    → (i : ℕ) × Elem i is × (is_mix (get i modes) ≡ true)
unfolding mix_count
mix_count-Elem modes [] h = absurd (omega arith)
mix_count-Elem modes (i ∷ is) h = elim (Bool-cases (is_mix (get i modes))) [
  | inl e ↦ (i, here refl, e)
  | inr e ↦ let (j, m, f) = mix_count-Elem modes is (ground (arith, e, h)) in (j, there m, f)
]

needs_mix-cases :
    (fed : Map ℕ Bool) (d : RouteDest) (modes : Modes)
    → needs_mix fed d modes ≡ true
    → (0 < mix_count modes d.source_ids)
      ⊎ ((2 ≤ live_count modes d.source_ids) ⊎ (get d.channel_id fed ≡ true))
unfolding needs_mix
needs_mix-cases fed d modes h = ground arith

module _ {base : Modes} {fed : Map ℕ Bool} {ds : List RouteDest} where
  pub live_count-kept :
      (st : Cascade) (is : List ℕ)
      → Sound base fed ds st
      → live_count st.modes is ≡ live_count base is
  unfolding live_count
  live_count-kept st [] s = refl
  live_count-kept st (i ∷ is) s = ground (arith, s.off_kept i, live_count-kept st is s)

  needs_mix-Mixes :
      (d : RouteDest) (st : Cascade)
      → Sound base fed ds st
      → Elem d ds
      → needs_mix fed d st.modes ≡ true
      → Mixes base fed ds (dest d)
  needs_mix-Mixes d st s m h = elim (needs_mix-cases fed d st.modes h) [
    | inl some_mix ↦
        let (i, n, e) = mix_count-Elem st.modes d.source_ids some_mix in
        spread d i m n (s.mix_due i e)
    | inr (inl two) ↦ contended d m (omega (arith, two, live_count-kept st d.source_ids s))
    | inr (inr relay) ↦ relayed d m relay
  ]

  promote-Sound :
      (d : RouteDest) (st : Cascade)
      → Sound base fed ds st
      → Elem d ds
      → Mixes base fed ds (dest d)
      → Sound base fed ds (promote d st)
  unfolding promote
  promote-Sound d st s m x = elim (Bool-cases (get d.channel_id st.dest_mix)) [
    | inl e ↦ rw e s
    | inr e ↦ rw e (record {
      off_kept = s.off_kept;
      mix_kept = s.mix_kept;
      mix_due = s.mix_due;
      dest_due = λ c h. elim (Bool-cases (d.channel_id == c)) [
        | inl same ↦ (d, m, (==_iff d.channel_id c).0 same, x)
        | inr other ↦
            s.dest_due c (ground (arith, get-insert d.channel_id c true st.dest_mix, other, h))
      ];
    })
  ]

  -- Turning one live source of a mixing destination to mix.
  turn-Sound :
      (d : RouteDest) (i : ℕ) (st : Cascade)
      → Sound base fed ds st
      → Elem i d.source_ids
      → Mixes base fed ds (dest d)
      → is_copy (get i st.modes) ≡ true
      → Sound base fed ds (record st { modes = insert i route_mix st.modes; changed = true })
  turn-Sound d i st s m x live = record {
    off_kept = λ j. ground (arith, get-insert i j route_mix st.modes, s.off_kept i, s.off_kept j);
    mix_kept = λ j h. ground (arith, get-insert i j route_mix st.modes, s.mix_kept j h);
    mix_due = λ j h. elim (Bool-cases (i == j)) [
      | inl same ↦ rw (← (==_iff i j).0 same) (joined d i m (ground (arith, s.off_kept i, live)) x)
      | inr other ↦ s.mix_due j (ground (arith, get-insert i j route_mix st.modes, other, h))
    ];
    dest_due = s.dest_due;
  }

  force_mix-Sound :
      (d : RouteDest) (is : List ℕ) (st : Cascade)
      → Sound base fed ds st
      → ((i : ℕ) → Elem i is → Elem i d.source_ids)
      → Mixes base fed ds (dest d)
      → Sound base fed ds (force_mix is st)
  unfolding force_mix
  force_mix-Sound d [] st s sub x = s
  force_mix-Sound d (i ∷ is) st s sub x = elim (Bool-cases (is_copy (get i st.modes))) [
    | inl e ↦ rw e (
        force_mix-Sound d is _ (turn-Sound d i st s (sub i (here refl)) x e)
          (λ j m. sub j (there m)) x)
    | inr e ↦ rw e (force_mix-Sound d is st s (λ j m. sub j (there m)) x)
  ]

  visit-Sound :
      (d : RouteDest) (st : Cascade)
      → Sound base fed ds st
      → Elem d ds
      → Sound base fed ds (visit fed d st)
  unfolding visit
  visit-Sound d st s m = elim (Bool-cases (needs_mix fed d st.modes)) [
    | inl e ↦
        let x = needs_mix-Mixes d st s m e in
        rw e (force_mix-Sound d d.source_ids _ (promote-Sound d st s m x) (λ i n. n) x)
    | inr e ↦ rw e s
  ]

  pub pass-Sound :
      (xs : List RouteDest) (st : Cascade)
      → Sound base fed ds st
      → ((d : RouteDest) → Elem d xs → Elem d ds)
      → Sound base fed ds (pass fed xs st)
  unfolding pass
  pass-Sound [] st s sub = s
  pass-Sound (d ∷ xs) st s sub =
      pass-Sound xs (visit fed d st) (visit-Sound d st s (sub d (here refl)))
        (λ x m. sub x (there m))
