-- ===== src/Router/Installing.antt =====
-- The install loop of applyModes.
use go_discord_caller.Base.{
  ◌==◌, ==_iff, Bool-cases, Option-cases, some_inj, nat_eq, nat_zero, bool_zero, list_zero, Map,
  lookup, get, lookup-insert, lookup-insert_inv, lookup-insert_self, All, Elem, here, there,
  Distinct, Elem-All, ℕ, ◌≡◌, refl, sym, ap, subst, ◌∙◌, ◌≢◌, inl, inr, Bool, true, false, none,
  some, List, [], ◌∷◌, map, arith,
}
use go_discord_caller.Router.{RouteMode, route_mode_zero, is_copy, Modes}
use go_discord_caller.Router.Settled.{NotCopy}
use go_discord_caller.Router.Path.{is_raw, source_slot, Run, rest, step, Run-append, Run-end}
use go_discord_caller.Router.Slots.{SourceSlot, DestSlot, Router}
use go_discord_caller.Router.Apply.{
  mode_eq, needs_install, installed_slot, reinstall, apply_source, apply_sources,
}
use go_discord_caller.Router.Pausing.{Wanted}
use go_discord_caller.Router.Safe.{Coherent, Safe, Decided}

installed_slot-Coherent :
    (s : SourceSlot) (mode : RouteMode) (us : List ℕ) (seed : ℕ)
    → Coherent s
    → Coherent (installed_slot s mode us seed).0
unfolding installed_slot
installed_slot-Coherent s mode us seed h = ground (arith, h)

installed_slot-mode :
    (s : SourceSlot) (mode : RouteMode) (us : List ℕ) (seed : ℕ)
    → (installed_slot s mode us seed).0.active_mode ≡ mode
unfolding installed_slot
installed_slot-mode s mode us seed = ground arith

mode_eq-is_copy : (a b : RouteMode) → mode_eq a b ≡ true → is_copy a ≡ true → is_copy b ≡ true
unfolding mode_eq
mode_eq-is_copy a b h k = ground arith

needs_install-mode_eq :
    (s : SourceSlot) (mode : RouteMode) (us : List ℕ)
    → needs_install s mode us ≡ false
    → mode_eq s.active_mode mode ≡ true
unfolding needs_install
needs_install-mode_eq s mode us h = ground arith

module _ (users : Map ℕ (List ℕ)) where
  -- The three ways that one entry of `sourceModes` goes.
  pub data Applies (i : ℕ) (mode : RouteMode) (r : Router) : Router → Type 0 where
    unknown : lookup i r.sources ≡ none → Applies i mode r r
    unchanged :
        (s : SourceSlot)
        → lookup i r.sources ≡ some s
        → mode_eq s.active_mode mode ≡ true
        → Applies i mode r r
    reinstalled :
        (s : SourceSlot) (us : List ℕ)
        → lookup i r.sources ≡ some s
        → Applies i mode r (reinstall i s mode us r)

  pub apply_source-Applies :
      (i : ℕ) (mode : RouteMode) (r : Router) → Applies i mode r (apply_source users (i, mode) r)
  unfolding apply_source
  apply_source-Applies i mode r = elim (Option-cases (lookup i r.sources)) [
    | inl e ↦ rw (e, apply_source) (unknown e)
    | inr (s, e) ↦
        let us = get s.channel_id users in
        elim (Bool-cases (needs_install s mode us)) [
          | inl f ↦ rw (e, apply_source) (rw f (reinstalled s us e))
          | inr f ↦ rw (e, apply_source) (rw f (unchanged s e (needs_install-mode_eq s mode us f)))
        ]
  ]

-- Between the pauses and the resumes, only wanted mixers run.
pub record Installs (dest_mix : Map ℕ Bool) (ds : Map ℕ DestSlot) (r : Router) : Type 0 where
  pub safe : Safe ds r
  pub wanted : Wanted dest_mix ds r

-- A source that is in copy mode is meant to be.
abbrev pub Applied : Modes → Router → ℕ → Type 0
Applied modes r i =
    (s : SourceSlot)
    → lookup i r.sources ≡ some s
    → is_copy s.active_mode ≡ true
    → is_copy (get i modes) ≡ true

pub not_raw :
    (s : SourceSlot) → Coherent s → is_copy s.active_mode ≡ false → is_raw s.installed ≡ false
not_raw s h k = elim (Bool-cases (is_raw s.installed)) [
  | inl e ↦ absurd (cc ((h e).0, k))
  | inr e ↦ e
]

module _ {modes : Modes} {dest_mix : Map ℕ Bool} {ds : Map ℕ DestSlot}
    (dec : Decided modes dest_mix ds) where
  reinstall-Installs :
      (i : ℕ) (mode : RouteMode) (r : Router) (s : SourceSlot) (us : List ℕ)
      → get i modes ≡ mode
      → lookup i r.sources ≡ some s
      → Installs dest_mix ds r
      → Installs dest_mix ds (reinstall i s mode us r)
  unfolding reinstall
  reinstall-Installs i mode r s us e found v =
      let s' = (installed_slot s mode us r.synth_seed).0 in
      let coherent : Coherent s' =
        installed_slot-Coherent s mode us r.synth_seed (v.safe.coherent i s found) in
      record {
        safe = record {
          one_writer = λ c d m mx p j n. elim (Bool-cases (i == j)) [
            | inr other ↦
                rw (lookup-insert i j s' r.sources, other) (v.safe.one_writer c d m mx p j n)
            | inl same ↦
                rw (lookup-insert i j s' r.sources, same)
                  (not_raw s' coherent (
                    subst (λ x. is_copy x ≡ false)
                      (e ∙ sym (installed_slot-mode s mode us r.synth_seed))
                      (Elem-All (NotCopy modes) d.source_ids
                        (subst (λ x. Elem x d.source_ids) (sym ((==_iff i j).0 same)) n)
                        (dec.none_raw c d (rw v.safe.same_dests at m)
                          (v.wanted c d (rw v.safe.same_dests at m) mx p)))))
          ];
          coherent = λ j x h. elim (lookup-insert_inv i j s' r.sources h) [
            | inl (_, same) ↦ subst Coherent (sym same) coherent
            | inr old ↦ v.safe.coherent j x old
          ];
          same_dests = v.safe.same_dests;
        };
        wanted = v.wanted;
      }

  module _ (users : Map ℕ (List ℕ)) where
    Applies-Run :
        (i : ℕ) (mode : RouteMode) (r q : Router)
        → get i modes ≡ mode
        → Applies users i mode r q
        → Installs dest_mix ds r
        → Run (Installs dest_mix ds) r q
    unfolding reinstall
    Applies-Run i mode r q e (unknown _) v = rest v
    Applies-Run i mode r q e (unchanged _ _ _) v = rest v
    Applies-Run i mode r q e (reinstalled s us found) v =
        step v (source_slot i _ _ _ refl) (rest (reinstall-Installs i mode r s us e found v))

    pub apply_sources-Run :
        (ms : Modes) (r : Router)
        → ((i : ℕ) (m : RouteMode) → Elem (i, m) ms → get i modes ≡ m)
        → Installs dest_mix ds r
        → Run (Installs dest_mix ds) r (apply_sources users ms r)
    unfolding apply_sources
    apply_sources-Run [] r sub v = rest v
    apply_sources-Run ((i, m) ∷ ms) r sub v =
        let first =
          Applies-Run i m r _ (sub i m (here refl)) (apply_source-Applies users i m r) v in
        Run-append first (apply_sources-Run ms _ (λ j n x. sub j n (there x)) (Run-end first))

Applies-other :
    (users : Map ℕ (List ℕ)) (i j : ℕ) (mode : RouteMode) (r q : Router)
    → Applies users i mode r q
    → i ≢ j
    → lookup j q.sources ≡ lookup j r.sources
unfolding reinstall
Applies-other users i j mode r q (unknown _) h = refl
Applies-other users i j mode r q (unchanged _ _ _) h = refl
Applies-other users i j mode r q (reinstalled s us found) h =
    ground (arith, lookup-insert i j (installed_slot s mode us r.synth_seed).0 r.sources, h)

Applies-Applied :
    (users : Map ℕ (List ℕ)) (modes : Modes) (i : ℕ) (mode : RouteMode) (r q : Router)
    → Applies users i mode r q
    → get i modes ≡ mode
    → Applied modes q i
unfolding reinstall
Applies-Applied users modes i mode r q (unknown none_here) e s found k = absurd (cc)
Applies-Applied users modes i mode r q (unchanged s' found' same) e s found k = rw e (
    mode_eq-is_copy s.active_mode mode
      (subst (λ x. mode_eq x.active_mode mode ≡ true) (some_inj (sym found' ∙ found)) same) k)
Applies-Applied users modes i mode r q (reinstalled s' us found') e s found k = rw e (
    subst (λ x. is_copy x ≡ true)
      (ap (λ x. x.active_mode) (some_inj (sym found ∙ lookup-insert_self i _ r.sources))
        ∙ installed_slot-mode s' mode us r.synth_seed)
      k)

apply_sources-other :
    (users : Map ℕ (List ℕ)) (ms : Modes) (j : ℕ) (r : Router)
    → All (λ i. j ≢ i) (map (λ x. x.0) ms)
    → lookup j (apply_sources users ms r).sources ≡ lookup j r.sources
unfolding apply_sources
apply_sources-other users [] j r h = refl
apply_sources-other users ((i, m) ∷ ms) j r h =
    apply_sources-other users ms j _ h.1
    ∙ Applies-other users i j m r _ (apply_source-Applies users i m r) (λ e. h.0 (sym e))

-- After the loop every source with an entry is in copy mode only if it is meant to be.
pub apply_sources-Applied :
    (users : Map ℕ (List ℕ)) (modes ms : Modes) (j : ℕ) (r : Router)
    → Distinct (map (λ x. x.0) ms)
    → ((i : ℕ) (m : RouteMode) → Elem (i, m) ms → get i modes ≡ m)
    → Elem j (map (λ x. x.0) ms)
    → Applied modes (apply_sources users ms r) j
unfolding apply_sources
apply_sources-Applied users modes [] j r d sub m = elim m [ ]
apply_sources-Applied users modes ((i, mode) ∷ ms) j r d sub (here e) = rw e (λ s found.
    Applies-Applied users modes i mode r _ (apply_source-Applies users i mode r)
      (sub i mode (here refl)) s (sym (apply_sources-other users ms i _ d.0) ∙ found))
apply_sources-Applied users modes ((i, mode) ∷ ms) j r d sub (there m) =
    apply_sources-Applied users modes ms j _ d.1 (λ k n x. sub k n (there x)) m
