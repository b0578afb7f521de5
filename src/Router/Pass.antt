-- ===== src/Router/Pass.antt =====
-- What one pass of the cascade loop does to the modes, the mixers and the `changed` flag.
use go_discord_caller.Base.{
  if◌then◌else◌, Bool-cases, nat_eq, nat_zero, bool_zero, Map, lookup, insert, get, get-insert,
  Elem, here, there, ℕ, suc, ◌+◌, ◌≤◌, ◌<◌, ◌≡◌, refl, inl, inr, Bool, true, false, List, [], ◌∷◌,
  arith,
}
use go_discord_caller.Router.{
  route_mix, route_mode_zero, is_copy, RouteDest, Modes, Cascade, force_mix, needs_mix, promote,
  visit, pass,
}

-- Entries of the map that are still in copy mode.
unfoldable pub copies : Modes → ℕ
copies [] = 0
copies ((i, m) ∷ ms) = if is_copy m then suc (copies ms) else copies ms

pub copies-insert_mix :
    (i : ℕ) (ms : Modes) → is_copy (get i ms) ≡ true → copies (insert i route_mix ms) < copies ms
unfolding copies insert get lookup
copies-insert_mix i [] h = cc
copies-insert_mix i ((j, m) ∷ ms) h = ground (arith, copies-insert_mix i ms)

-- Destinations that are not yet promoted.
unfoldable pub unset : List RouteDest → Map ℕ Bool → ℕ
unset [] mx = 0
unset (d ∷ ds) mx = if get d.channel_id mx then unset ds mx else suc (unset ds mx)

pub unset-insert_le :
    (c : ℕ) (ds : List RouteDest) (mx : Map ℕ Bool) → unset ds (insert c true mx) ≤ unset ds mx
unfolding unset
unset-insert_le c [] mx = omega arith
unset-insert_le c (d ∷ ds) mx =
    ground (arith, get-insert c d.channel_id true mx, unset-insert_le c ds mx)

pub unset-insert_lt :
    (d : RouteDest) (ds : List RouteDest) (mx : Map ℕ Bool)
    → Elem d ds
    → get d.channel_id mx ≡ false
    → unset ds (insert d.channel_id true mx) < unset ds mx
unfolding unset
unset-insert_lt d [] mx m h = elim m [ ]
unset-insert_lt d (x ∷ ds) mx (here e) h =
    ground
      (arith, e, get-insert d.channel_id x.channel_id true mx, unset-insert_le d.channel_id ds mx)
unset-insert_lt d (x ∷ ds) mx (there m) h =
    ground (arith, get-insert d.channel_id x.channel_id true mx, unset-insert_lt d ds mx m h)

-- What is still left to change.
abbrev pub left : List RouteDest → Cascade → ℕ
left ds st = copies st.modes + unset ds st.dest_mix

-- A part of a pass leaves no more to change, and less if it was what raised the flag.
pub record Progress (ds : List RouteDest) (a b : Cascade) : Type 0 where
  pub falls : left ds b ≤ left ds a
  pub strict : a.changed ≡ false → b.changed ≡ true → left ds b < left ds a

pub Progress-trans :
    {ds : List RouteDest} {a b c : Cascade} → Progress ds a b → Progress ds b c → Progress ds a c
Progress-trans {b = b} p q = record {
  falls = omega (arith, p.falls, q.falls);
  strict = λ x y. elim (Bool-cases b.changed) [
    | inl e ↦ omega (arith, p.strict x e, q.falls)
    | inr e ↦ omega (arith, p.falls, q.strict e y)
  ];
}

pub force_mix-Progress :
    (ds : List RouteDest) (is : List ℕ) (st : Cascade) → Progress ds st (force_mix is st)
unfolding force_mix
force_mix-Progress ds [] st = record { falls = omega arith; strict = λ p q. absurd (cc) }
force_mix-Progress ds (i ∷ is) st = elim (Bool-cases (is_copy (get i st.modes))) [
  | inr e ↦ rw e (force_mix-Progress ds is st)
  | inl e ↦ rw e (
      Progress-trans
        (record {
          falls = omega (arith, copies-insert_mix i st.modes e);
          strict = λ p q. omega (arith, copies-insert_mix i st.modes e);
        })
        (force_mix-Progress ds is _))
]

pub promote-Progress :
    (d : RouteDest) (ds : List RouteDest) (st : Cascade) → Elem d ds → Progress ds st (promote d st)
unfolding promote
promote-Progress d ds st m = elim (Bool-cases (get d.channel_id st.dest_mix)) [
  | inl e ↦ rw e (record { falls = omega arith; strict = λ p q. absurd (cc) })
  | inr e ↦ rw e (record {
    falls = omega (arith, unset-insert_lt d ds st.dest_mix m e);
    strict = λ p q. omega (arith, unset-insert_lt d ds st.dest_mix m e);
  })
]

pub visit-Progress :
    (fed : Map ℕ Bool) (d : RouteDest) (ds : List RouteDest) (st : Cascade)
    → Elem d ds
    → Progress ds st (visit fed d st)
unfolding visit
visit-Progress fed d ds st m = elim (Bool-cases (needs_mix fed d st.modes)) [
  | inl e ↦
      rw e (Progress-trans (promote-Progress d ds st m) (force_mix-Progress ds d.source_ids _))
  | inr e ↦ rw e (record { falls = omega arith; strict = λ p q. absurd (cc) })
]

pub pass-Progress :
    (fed : Map ℕ Bool) (ds all : List RouteDest) (st : Cascade)
    → ((d : RouteDest) → Elem d ds → Elem d all)
    → Progress all st (pass fed ds st)
unfolding pass
pass-Progress fed [] all st sub = record { falls = omega arith; strict = λ p q. absurd (cc) }
pass-Progress fed (d ∷ ds) all st sub =
    Progress-trans (visit-Progress fed d all st (sub d (here refl)))
      (pass-Progress fed ds all (visit fed d st) (λ x m. sub x (there m)))
