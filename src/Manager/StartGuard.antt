-- ===== src/Manager/StartGuard.antt =====
-- internal/manager/start_guard.go: one raid start at a time for a guild.
use go_discord_caller.Base.{
  ◌==◌, if◌then◌else◌, Bool-cases, Option-cases, some_inj, nat_eq, string_eq, pair_eq, nat_zero,
  bool_zero, list_zero, string_zero, Map, lookup, insert, delete, lookup-insert, lookup-delete,
  lookup-insert_inv, lookup-nil, All, Elem, here, there, Elem-cons, Distinct, ℕ, ◌≡◌, refl, sym, ap,
  subst, ◌∙◌, ◌≢◌, inl, inr, Bool, true, false, ◌&&◌, ◌||◌, none, some, List, [], ◌∷◌, map, arith,
}

-- A cancel func is a number, and `cancelled` holds the ones that were called, latest first.
pub record StartGuard : Type 0 where
  pub in_flight : Map ℕ ℕ
  pub cancelled : List ℕ

unfoldable pub try_begin : ℕ → ℕ → StartGuard → Bool × StartGuard
unfolding lookup insert
try_begin guild cancel g = elim (lookup guild g.in_flight) [
  | some c ↦ (false, g)
  | none ↦ (true, record g { in_flight = insert guild cancel g.in_flight })
]

unfoldable pub cancel : ℕ → StartGuard → Bool × StartGuard
unfolding lookup
cancel guild g = elim (lookup guild g.in_flight) [
  | none ↦ (false, g)
  | some c ↦ (true, record g { cancelled = c ∷ g.cancelled })
]

unfoldable pub end : ℕ → StartGuard → StartGuard
unfolding delete
end guild g = record g { in_flight = delete guild g.in_flight }

-- The guard with the starts that it let in and that have not returned.
pub record Starts : Type 0 where
  pub guard : StartGuard
  pub running : List (ℕ × ℕ)

-- A start asks to begin, `/stop` cancels, and a start returns, which calls `end` if it was let in.
pub data Event : Type 0 where
  begins : ℕ → ℕ → Event
  stops : ℕ → Event
  returns : ℕ → ℕ → Event

unfoldable pub is_running : ℕ → ℕ → List (ℕ × ℕ) → Bool
is_running guild c [] = false
is_running guild c ((g, d) ∷ rs) = g == guild && d == c || is_running guild c rs

unfoldable pub without : ℕ → ℕ → List (ℕ × ℕ) → List (ℕ × ℕ)
without guild c [] = []
without guild c ((g, d) ∷ rs) =
    if g == guild && d == c then without guild c rs else (g, d) ∷ without guild c rs

unfoldable pub event : Starts → Event → Starts
unfolding try_begin cancel end
event s (begins guild c) =
    let r = try_begin guild c s.guard in
    record { guard = r.1; running = if r.0 then (guild, c) ∷ s.running else s.running }
event s (stops guild) = record s { guard = (cancel guild s.guard).1 }
event s (returns guild c) =
    if is_running guild c s.running
    then record { guard = end guild s.guard; running = without guild c s.running }
    else s

unfoldable pub events : Starts → List Event → Starts
unfolding event
events s [] = s
events s (e ∷ es) = events (event s e) es

unfoldable pub no_starts : Starts
no_starts = record { guard = record { in_flight = []; cancelled = [] }; running = [] }

-- The guard knows exactly the starts that run, and no two of them are of one guild.
record IsGuarded (s : Starts) : Type 0 where
  known : (g c : ℕ) → lookup g s.guard.in_flight ≡ some c → Elem (g, c) s.running
  flying : (g c : ℕ) → Elem (g, c) s.running → lookup g s.guard.in_flight ≡ some c
  apart : Distinct (map (λ (r : ℕ × ℕ). r.0) s.running)

is_running-Elem : (g c : ℕ) (rs : List (ℕ × ℕ)) → is_running g c rs ≡ true → Elem (g, c) rs
unfolding is_running
is_running-Elem g c [] h = absurd (ground (arith, h))
is_running-Elem g c ((a, b) ∷ rs) h = elim (Bool-cases (a == g && b == c)) [
  | inl e ↦
      let p : a ≡ g = ground (arith, e) in
      let q : b ≡ c = ground (arith, e) in here (λ i. (sym p i, sym q i))
  | inr e ↦ there (is_running-Elem g c rs (rw (e, is_running) at h))
]

without-Elem : (g c h d : ℕ) (rs : List (ℕ × ℕ)) → Elem (h, d) (without g c rs) → Elem (h, d) rs
unfolding without
without-Elem g c h d [] m = m
without-Elem g c h d ((a, b) ∷ rs) m = elim (Bool-cases (a == g && b == c)) [
  | inl e ↦ there (without-Elem g c h d rs (rw (e, without) at m))
  | inr e ↦ elim (Elem-cons (rw (e, without) at m)) [
    | inl p ↦ here p
    | inr i ↦ there (without-Elem g c h d rs i)
  ]
]

without-gone : (g c : ℕ) (rs : List (ℕ × ℕ)) → Elem (g, c) (without g c rs) → ⊥
unfolding without
without-gone g c [] m = elim m [ ]
without-gone g c ((a, b) ∷ rs) m = elim (Bool-cases (a == g && b == c)) [
  | inl e ↦ without-gone g c rs (rw (e, without) at m)
  | inr e ↦ elim (Elem-cons (rw (e, without) at m)) [
    | inl p ↦ absurd (ground (arith, e, ap (λ x. x.0) p, ap (λ x. x.1) p))
    | inr i ↦ without-gone g c rs i
  ]
]

without-kept :
    (g c h d : ℕ) (rs : List (ℕ × ℕ)) → g ≢ h → Elem (h, d) rs → Elem (h, d) (without g c rs)
unfolding without
without-kept g c h d [] n m = m
without-kept g c h d ((a, b) ∷ rs) n m = elim (Bool-cases (a == g && b == c)) [
  | inl e ↦
      let p : a ≡ g = ground (arith, e) in
      rw (e, without)
        (elim (Elem-cons m) [
          | inl q ↦ absurd (n (sym p ∙ sym (ap (λ x. x.0) q)))
          | inr i ↦ without-kept g c h d rs n i
        ])
  | inr e ↦
      rw (e, without)
        (elim (Elem-cons m) [ inl q ↦ here q | inr i ↦ there (without-kept g c h d rs n i) ])
]

without-All :
    (P : ℕ → Type 0) (g c : ℕ) (rs : List (ℕ × ℕ))
    → All P (map (λ (r : ℕ × ℕ). r.0) rs)
    → All P (map (λ (r : ℕ × ℕ). r.0) (without g c rs))
unfolding without
without-All P g c [] h = h
without-All P g c ((a, b) ∷ rs) h = elim (Bool-cases (a == g && b == c)) [
  | inl e ↦ rw (e, without) (without-All P g c rs h.1)
  | inr e ↦ rw (e, without) (h.0, without-All P g c rs h.1)
]

without-Distinct :
    (g c : ℕ) (rs : List (ℕ × ℕ))
    → Distinct (map (λ (r : ℕ × ℕ). r.0) rs)
    → Distinct (map (λ (r : ℕ × ℕ). r.0) (without g c rs))
unfolding without
without-Distinct g c [] h = h
without-Distinct g c ((a, b) ∷ rs) h = elim (Bool-cases (a == g && b == c)) [
  | inl e ↦ rw (e, without) (without-Distinct g c rs h.1)
  | inr e ↦ rw (e, without) (without-All _ g c rs h.0, without-Distinct g c rs h.1)
]

-- A guild none of whose starts runs.
absent :
    (g : ℕ) (rs : List (ℕ × ℕ))
    → ((c : ℕ) → Elem (g, c) rs → ⊥)
    → All (λ y. g ≢ y) (map (λ (r : ℕ × ℕ). r.0) rs)
absent g [] n = tt
absent g ((a, b) ∷ rs) n = (λ e. n b (here (λ i. (e i, b))), absent g rs (λ c i. n c (there i)))

begins-IsGuarded : (s : Starts) (g c : ℕ) → IsGuarded s → IsGuarded (event s (begins g c))
unfolding event try_begin
begins-IsGuarded s g c k = elim (Option-cases (lookup g s.guard.in_flight)) [
  | inr (d, e) ↦ rw (e, event, try_begin) k
  | inl n ↦
      rw (n, event, try_begin)
        record {
          known = λ h d e. elim (lookup-insert_inv g h c s.guard.in_flight e) [
            | inl (p, q) ↦ here (λ i. (sym p i, q i))
            | inr f ↦ there (k.known h d f)
          ];
          flying = λ h d m. elim (Elem-cons m) [
            | inl p ↦
                lookup-insert g h c s.guard.in_flight
                ∙ ground (arith, ap (λ x. x.0) p, ap (λ x. x.1) p)
            | inr i ↦ lookup-insert g h c s.guard.in_flight ∙ ground (arith, n, k.flying h d i)
          ];
          apart = (absent g s.running (λ d i. ground (arith, n, k.flying g d i)), k.apart);
        }
]

returns-IsGuarded : (s : Starts) (g c : ℕ) → IsGuarded s → IsGuarded (event s (returns g c))
unfolding event end
returns-IsGuarded s g c k = elim (Bool-cases (is_running g c s.running)) [
  | inr n ↦ rw (n, event) k
  | inl r ↦
      let mine = k.flying g c (is_running-Elem g c s.running r) in
      rw (r, event)
        record {
          known = λ h d e.
              without-kept g c h d s.running
                (ground (arith, lookup-delete g h s.guard.in_flight, e))
                (k.known h d (ground (arith, lookup-delete g h s.guard.in_flight, e)));
          flying = λ h d m.
              let was = k.flying h d (without-Elem g c h d s.running m) in
              elim (Bool-cases (g == h)) [
                | inl e ↦
                    let p : g ≡ h = ground (arith, e) in
                    let q : d ≡ c =
                      some_inj (sym was ∙ ap (λ x. lookup x s.guard.in_flight) (sym p) ∙ mine) in
                    absurd (
                      without-gone g c s.running (
                        subst (λ (x : ℕ × ℕ). Elem x (without g c s.running)) (λ i. (sym p i, q i))
                          m))
                | inr e ↦ ground (arith, lookup-delete g h s.guard.in_flight, e, was)
              ];
          apart = without-Distinct g c s.running k.apart;
        }
]

events-IsGuarded : (s : Starts) (es : List Event) → IsGuarded s → IsGuarded (events s es)
unfolding events event cancel
events-IsGuarded s [] k = k
events-IsGuarded s (begins g c ∷ es) k =
    events-IsGuarded (event s (begins g c)) es (begins-IsGuarded s g c k)
events-IsGuarded s (returns g c ∷ es) k =
    events-IsGuarded (event s (returns g c)) es (returns-IsGuarded s g c k)
events-IsGuarded s (stops g ∷ es) k =
    events-IsGuarded (event s (stops g)) es (elim (Option-cases (lookup g s.guard.in_flight)) [
      | inl n ↦ rw (n, event, cancel) record { known = k.known; flying = k.flying; apart = k.apart }
      | inr (c, e) ↦
          rw (e, event, cancel) record { known = k.known; flying = k.flying; apart = k.apart }
    ])

no_starts-IsGuarded : IsGuarded no_starts
unfolding no_starts
no_starts-IsGuarded = record {
  known = λ g c e. absurd (ground (arith, e, lookup-nil {0, 0} {V = ℕ} g));
  flying = λ g c m. elim m [ ];
  apart = tt;
}

-- In whatever order starts begin, are stopped and return, no two that run are of one guild.
pub events-Distinct :
    (es : List Event) → Distinct (map (λ (r : ℕ × ℕ). r.0) (events no_starts es).running)
events-Distinct es = (events-IsGuarded no_starts es no_starts-IsGuarded).apart

-- What the guard answers about a guild: its running start, or that it is free.
pub record Answers (s : Starts) (g : ℕ) : Type 0 where
  pub busy :
      (c d : ℕ)
      → Elem (g, c) s.running
      → (try_begin g d s.guard ≡ (false, s.guard))
        × (cancel g s.guard ≡ (true, record s.guard { cancelled = c ∷ s.guard.cancelled }))
  pub free :
      ((c : ℕ) → Elem (g, c) s.running → ⊥)
      → ((d : ℕ) → (try_begin g d s.guard).0 ≡ true) × (cancel g s.guard ≡ (false, s.guard))

-- In whatever order starts have begun, been stopped and returned, a guild with a running start
-- lets no other begin, and a stop cancels exactly that start; a guild without one lets the next
-- begin, and a stop reports that there is nothing to stop.
pub events-Answers : (es : List Event) (g : ℕ) → Answers (events no_starts es) g
unfolding try_begin cancel
events-Answers es g =
    let s = events no_starts es in
    let k = events-IsGuarded no_starts es no_starts-IsGuarded in
    record {
      busy = λ c d m. let e = k.flying g c m in (rw (e, try_begin) refl, rw (e, cancel) refl);
      free = λ n. elim (Option-cases (lookup g s.guard.in_flight)) [
        | inr (c, e) ↦ absurd (n c (k.known g c e))
        | inl e ↦ (λ d. rw (e, try_begin) refl, rw (e, cancel) refl)
      ];
    }
