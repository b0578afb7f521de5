-- ===== src/Dave/Stats/Totals.antt =====
-- The exported totals count every frame that was recorded, whoever left and was evicted.
use go_discord_caller.Base.{
  ltb, if◌then◌else◌, Bool-cases, eqb, nat_eq, string_eq, pair_beq_iff, pair_eq, nat_zero,
  bool_zero, list_zero, string_zero, Map, insert, get, get-insert, weigh, weigh-insert, ℕ, ◌+◌, ◌-◌,
  String, ◌≡◌, refl, ap, ◌∙◌, inl, inr, Option, none, some, List, [], ◌∷◌, arith,
}
use go_discord_caller.Dave.Stats.{
  User, AggKey, Key, agg_of, Stats, add_one, reason, outcome, record_frame, record_passthrough,
  record_dropped, retire, keep, add_counters, totals, is_retiring, evict, evict_retired, observe,
}

-- The live counts that a total adds up.
unfoldable pub live : AggKey → Map Key ℕ → ℕ
unfolding weigh agg_of
live a m = weigh (λ k. eqb (agg_of k) a) m

-- What a total gains by an addition to the key `b`.
get-insert_more :
    (a b : AggKey) (v : ℕ) (t : Map AggKey ℕ)
    → get a (insert b (get b t + v) t) ≡ (if eqb b a then v else 0) + get a t
get-insert_more a b v t = elim (Bool-cases (eqb b a)) [
  | inl e ↦
      let same : b ≡ a = (pair_beq_iff b a).0 e in
      ground (arith, get-insert b a (get b t + v) t, e, ap (λ x. get x t) same)
  | inr e ↦ ground (arith, get-insert b a (get b t + v) t, e)
]

get-add_counters :
    (a : AggKey) (m : Map Key ℕ) (t : Map AggKey ℕ) → get a (add_counters m t) ≡ get a t + live a m
unfolding add_counters live
get-add_counters a [] t = omega arith
get-add_counters a ((k, v) ∷ m) t =
    let b = agg_of k in
    omega (arith, get-add_counters a m (insert b (get b t + v) t), get-insert_more a b v t)

live-evict :
    (a : AggKey) (retiring : Map User (Unit {0})) (m : Map Key ℕ) (t : Map AggKey ℕ)
    → get a (evict retiring m t).1 + live a (evict retiring m t).0 ≡ get a t + live a m
unfolding evict live
live-evict a retiring [] t = refl
live-evict a retiring ((k, v) ∷ m) t =
    let b = agg_of k in
    elim (Bool-cases (is_retiring retiring k)) [
      | inl e ↦
          rw (e, evict)
            (omega
              (arith, live-evict a retiring m (insert b (get b t + v) t), get-insert_more a b v t))
      | inr e ↦ rw (e, evict) (omega (arith, live-evict a retiring m t))
    ]

live-add_one :
    (a : AggKey) (k : Key) (m : Map Key ℕ)
    → live a (add_one k m) ≡ (if eqb (agg_of k) a then 1 else 0) + live a m
unfolding add_one live
live-add_one a k m = weigh-insert (λ k. eqb (agg_of k) a) k 1 m

-- A call on the counters, from the sessions and from the collector.
pub data Call : Type 0 where
  frames : String → String → Option String → Call
  passes drops keeps retires : String → String → Call
  collects : Call

unfoldable pub call : Stats → Call → Stats
unfolding record_frame record_passthrough record_dropped keep retire observe
call s (frames bot user err) = record_frame bot user err s
call s (passes bot user) = record_passthrough bot user s
call s (drops bot user) = record_dropped bot user s
call s (keeps bot user) = keep bot user s
call s (retires bot user) = retire bot user s
call s collects = (observe s).1

unfoldable pub calls : Stats → List Call → Stats
unfolding call
calls s [] = s
calls s (c ∷ cs) = calls (call s c) cs

-- The frames that the calls record under a key.
unfoldable pub frames_of : Call → Option AggKey
unfolding outcome reason
frames_of (frames bot user err) = some (bot, (outcome err, reason err))
frames_of (passes bot user) = some (bot, ("passthrough", "none"))
frames_of (drops bot user) = some (bot, ("dropped", "none"))
frames_of (keeps bot user) = none
frames_of (retires bot user) = none
frames_of collects = none

unfoldable pub recorded : AggKey → List Call → ℕ
unfolding frames_of
recorded a [] = 0
recorded a (c ∷ cs) =
    elim (frames_of c) [ none ↦ 0 | some b ↦ if eqb b a then 1 else 0 ] + recorded a cs

totals_lem : (a : AggKey) (s : Stats) → get a (totals s) ≡ get a s.retired + live a s.counters
unfolding totals
totals_lem a s = get-add_counters a s.counters s.retired

abbrev Gains : AggKey → Stats → Call → Type 0
Gains a s c =
    get a (totals (call s c))
    ≡ get a (totals s) + elim (frames_of c) [ none ↦ 0 | some b ↦ if eqb b a then 1 else 0 ]

counted :
    (a : AggKey) (k : Key) (s : Stats)
    → get a (totals (record s { counters = add_one k s.counters }))
      ≡ get a (totals s) + (if eqb (agg_of k) a then 1 else 0)
counted a k s = omega (
  arith,
  totals_lem a (record s { counters = add_one k s.counters }),
  totals_lem a s,
  live-add_one a k s.counters,
)

-- What leaves the counters and the retired counts alone leaves the totals alone.
uncounted :
    (a : AggKey) (s t : Stats)
    → t.counters ≡ s.counters
    → t.retired ≡ s.retired
    → get a (totals t) ≡ get a (totals s) + 0
unfolding totals
uncounted a s t e f = (λ i. get a (add_counters (e i) (f i))) ∙ omega arith

retire_counters :
    (bot user : String) (s : Stats)
    → ((retire bot user s).counters ≡ s.counters) × ((retire bot user s).retired ≡ s.retired)
unfolding retire
retire_counters bot user s = elim (Bool-cases (ltb 0 (get (bot, user) s.holders - 1))) [
  | inl e ↦ rw (e, retire) (refl, refl)
  | inr e ↦ rw (e, retire) (refl, refl)
]

call-Gains : (a : AggKey) (s : Stats) (c : Call) → Gains a s c
unfolding call frames_of record_frame record_passthrough record_dropped keep observe evict_retired
    agg_of
call-Gains a s (frames bot user err) = counted a ((bot, user), (outcome err, reason err)) s
call-Gains a s (passes bot user) = counted a ((bot, user), ("passthrough", "none")) s
call-Gains a s (drops bot user) = counted a ((bot, user), ("dropped", "none")) s
call-Gains a s (keeps bot user) = uncounted a s (keep bot user s) refl refl
call-Gains a s (retires bot user) =
    let (c, r) = retire_counters bot user s in uncounted a s (retire bot user s) c r
call-Gains a s collects = omega (
  arith,
  totals_lem a (evict_retired s),
  totals_lem a s,
  live-evict a s.retiring s.counters s.retired,
)

-- When the calls of the sessions and the collector come one after another, the exported total of a series grows by exactly the
-- frames recorded under it: evicting the counters of a sender that left never moves it back.
pub totals-recorded :
    (a : AggKey) (s : Stats) (cs : List Call)
    → get a (totals (calls s cs)) ≡ get a (totals s) + recorded a cs
unfolding calls recorded
totals-recorded a s [] = omega arith
totals-recorded a s (c ∷ cs) = omega (arith, totals-recorded a (call s c) cs, call-Gains a s c)
