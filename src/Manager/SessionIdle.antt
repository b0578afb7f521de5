-- ===== src/Manager/SessionIdle.antt =====
-- internal/manager/session_idle.go: the watcher that stops a raid without callers.
use go_discord_caller.Base.{
  ltb, leb, ◌==◌, if◌then◌else◌, Bool-cases, Option-cases, some_inj, nat_eq, string_eq, pair_eq,
  nat_zero, bool_zero, list_zero, string_zero, length, All, ℕ, ◌+◌, ◌-◌, ◌≤◌, ◌≡◌, refl, sym, ap,
  ◌∙◌, ◌⊎◌, inl, inr, Bool, true, false, ◌||◌, Option, none, some, List, [], ◌∷◌, ◌++◌, arith,
}

-- What the watcher reads at one tick: the time, the callers in a channel that bear a role, and the
-- bound caller role.
pub record Tick : Type 0 where
  pub now : ℕ
  pub callers : ℕ → ℕ → List ℕ
  pub role : ℕ

-- `slices.ContainsFunc` over the watched channels.
unfoldable pub has_caller : List ℕ → Tick → Bool
has_caller [] t = false
has_caller (ch ∷ chs) t = ltb 0 (length (t.callers ch t.role)) || has_caller chs t

-- One tick of the loop, in the state `emptySince`, `none` for the zero time: the next state, and
-- whether the watcher stops the session.
unfoldable pub on_tick : List ℕ → ℕ → Option ℕ → Tick → Option ℕ × Bool
unfolding has_caller
on_tick channels timeout since t =
    if has_caller channels t
    then (none, false)
    else elim since [ none ↦ (some t.now, false) | some s ↦ (some s, leb timeout (t.now - s)) ]

-- The loop over the ticks before the context is cancelled: the time at which it stops the session.
unfoldable pub run_loop : List ℕ → ℕ → Option ℕ → List Tick → Option ℕ
unfolding on_tick
run_loop channels timeout since [] = none
run_loop channels timeout since (t ∷ ts) =
    let r = on_tick channels timeout since t in
    let rest = run_loop channels timeout r.0 ts in if r.1 then some t.now else rest

-- `Run`, whose timeout is off at 0.
unfoldable pub run : List ℕ → ℕ → List Tick → Option ℕ
unfolding run_loop
run channels timeout ticks =
    if timeout == 0 || length channels == 0 then none else run_loop channels timeout none ticks

-- `a` is the time of a tick without callers, and all later ticks of the list have none either.
abbrev pub EmptySpan : List ℕ → ℕ → List Tick → Type 0
EmptySpan channels a [] = ⊥
EmptySpan channels a (t ∷ ts) =
    (t.now ≡ a) × (has_caller channels t ≡ false) × All (λ t. has_caller channels t ≡ false) ts

module _ (channels : List ℕ) (timeout : ℕ) where
  on_tick-busy :
      (since : Option ℕ) (t : Tick)
      → has_caller channels t ≡ true
      → on_tick channels timeout since t ≡ (none, false)
  unfolding on_tick
  on_tick-busy since t h = rw (h, on_tick) refl

  on_tick-first :
      (t : Tick)
      → has_caller channels t ≡ false
      → on_tick channels timeout none t ≡ (some t.now, false)
  unfolding on_tick
  on_tick-first t h = rw (h, on_tick) refl

  on_tick-later :
      (s : ℕ) (t : Tick)
      → has_caller channels t ≡ false
      → on_tick channels timeout (some s) t ≡ (some s, leb timeout (t.now - s))
  unfolding on_tick
  on_tick-later s t h = rw (h, on_tick) refl

  -- Why the loop stops at the time `n`: it does so at a tick without callers, the ticks just before
  -- it had none either, and the first of these, at the time `start`, is a timeout ago. With a state
  -- that is not the zero time those ticks may reach back before the list.
  record Found (since : Option ℕ) (ts : List Tick) (n : ℕ) : Type 0 where
    before : List Tick
    after : List Tick
    at : Tick
    split : ts ≡ before ++ at ∷ after
    time : at.now ≡ n
    empty_at : has_caller channels at ≡ false
    start : ℕ
    span : timeout ≤ n - start
    quiet :
        ((since ≡ some start) × All (λ t. has_caller channels t ≡ false) before)
        ⊎ (pre : List Tick) × (q : List Tick) × (before ≡ pre ++ q) × EmptySpan channels start q

  -- A tick more at the front.
  Found-cons :
      (since next : Option ℕ) (t : Tick) (ts : List Tick) (n : ℕ)
      → ((start : ℕ)
          → next ≡ some start
          → ((since ≡ some start) × (has_caller channels t ≡ false))
            ⊎ ((t.now ≡ start) × (has_caller channels t ≡ false)))
      → Found next ts n
      → Found since (t ∷ ts) n
  Found-cons since next t ts n from f = record {
    before = t ∷ f.before;
    after = f.after;
    at = f.at;
    split = ap (◌∷◌ t) f.split;
    time = f.time;
    empty_at = f.empty_at;
    start = f.start;
    span = f.span;
    quiet = elim f.quiet [
      | inl (e, a) ↦ elim (from f.start e) [
        | inl (g, b) ↦ inl (g, (b, a))
        | inr (g, b) ↦ inr ([], t ∷ f.before, refl, (g, b, a))
      ]
      | inr (pre, q, e, sp) ↦ inr (t ∷ pre, q, ap (◌∷◌ t) e, sp)
    ];
  }

  run_loop-cons :
      (since next : Option ℕ) (t : Tick) (ts : List Tick)
      → on_tick channels timeout since t ≡ (next, false)
      → run_loop channels timeout since (t ∷ ts) ≡ run_loop channels timeout next ts
  unfolding run_loop
  run_loop-cons since next t ts e = rw (e, run_loop) refl

  run_loop-stop :
      (since next : Option ℕ) (t : Tick) (ts : List Tick)
      → on_tick channels timeout since t ≡ (next, true)
      → run_loop channels timeout since (t ∷ ts) ≡ some t.now
  unfolding run_loop
  run_loop-stop since next t ts e = rw (e, run_loop) refl

  run_loop-Found :
      (since : Option ℕ) (ts : List Tick) (n : ℕ)
      → run_loop channels timeout since ts ≡ some n
      → Found since ts n
  unfolding run_loop
  run_loop-Found since [] n h = absurd (ground (arith, h))
  run_loop-Found since (t ∷ ts) n h = elim (Bool-cases (has_caller channels t)) [
    | inl b ↦
        let step = run_loop-cons since none t ts (on_tick-busy since t b) in
        Found-cons since none t ts n (λ s e. absurd (ground (arith, e)))
          (run_loop-Found none ts n (sym step ∙ h))
    | inr b ↦ elim (Option-cases since) [
      | inl e ↦
          let step =
            run_loop-cons since (some t.now) t ts
              (ap (λ x. on_tick channels timeout x t) e ∙ on_tick-first t b) in
          Found-cons since (some t.now) t ts n (λ s g. inr (some_inj g, b))
            (run_loop-Found (some t.now) ts n (sym step ∙ h))
      | inr (s, e) ↦
          let at = ap (λ x. on_tick channels timeout x t) e ∙ on_tick-later s t b in
          elim (Bool-cases (leb timeout (t.now - s))) [
            | inr l ↦
                let step = run_loop-cons since (some s) t ts (at ∙ ap (λ x. (some s, x)) l) in
                Found-cons since (some s) t ts n (λ r g. inl (e ∙ g, b))
                  (run_loop-Found (some s) ts n (sym step ∙ h))
            | inl l ↦
                let step = run_loop-stop since (some s) t ts (at ∙ ap (λ x. (some s, x)) l) in
                let time : t.now ≡ n = some_inj (sym step ∙ h) in
                record {
                  before = [];
                  after = ts;
                  at = t;
                  split = refl;
                  time = time;
                  empty_at = b;
                  start = s;
                  span = ground (arith, l, time);
                  quiet = inl (e, tt);
                }
          ]
    ]
  ]

-- Why the watcher may stop a session at the time `n`.
pub record IdleStop (channels : List ℕ) (timeout : ℕ) (ticks : List Tick) (n : ℕ) : Type 0 where
  pub pre : List Tick
  pub quiet : List Tick
  pub after : List Tick
  pub last : Tick
  pub split : ticks ≡ (pre ++ quiet) ++ last ∷ after
  pub start : ℕ
  pub span : EmptySpan channels start quiet
  pub empty_last : has_caller channels last ≡ false
  pub time : last.now ≡ n
  pub long_enough : start + timeout ≤ n

-- The watcher stops a session only at a tick that ends an unbroken row of ticks without a caller
-- in any watched channel, the first of them at least the timeout before.
pub run-IdleStop :
    (channels : List ℕ) (timeout : ℕ) (ticks : List Tick) (n : ℕ)
    → run channels timeout ticks ≡ some n
    → IdleStop channels timeout ticks n
unfolding run
run-IdleStop channels timeout ticks n h = elim (Bool-cases (timeout == 0 || length channels == 0)) [
  | inl e ↦ absurd (ground (arith, h, e))
  | inr e ↦
      let f = run_loop-Found channels timeout none ticks n (rw (e, run) at h) in
      elim f.quiet [
        | inl (g, a) ↦ absurd (ground (arith, g))
        | inr (pre, q, g, sp) ↦ record {
          pre = pre;
          quiet = q;
          after = f.after;
          last = f.at;
          split = f.split ∙ ap (λ b. b ++ f.at ∷ f.after) g;
          start = f.start;
          span = sp;
          empty_last = f.empty_at;
          time = f.time;
          long_enough = ground (arith, f.span, e);
        }
      ]
]

-- Once a row of ticks without callers has lasted, the loop stops.
run_loop-waits :
    (channels : List ℕ) (timeout s : ℕ) (mid : List Tick) (last : Tick) (after : List Tick)
    → All (λ t. has_caller channels t ≡ false) mid
    → has_caller channels last ≡ false
    → timeout ≤ last.now - s
    → (n : ℕ) × (run_loop channels timeout (some s) (mid ++ last ∷ after) ≡ some n)
unfolding run_loop
run_loop-waits channels timeout s [] last after a b l = (
  last.now,
  run_loop-stop channels timeout (some s) (some s) last after
      (on_tick-later channels timeout s last b ∙ ap (λ x. (some s, x)) (ground (arith, l))),
)
run_loop-waits channels timeout s (t ∷ mid) last after a b l =
    let at = on_tick-later channels timeout s t a.0 in
    elim (Bool-cases (leb timeout (t.now - s))) [
      | inl e ↦ (
        t.now,
        run_loop-stop channels timeout (some s) (some s) t (mid ++ last ∷ after)
            (at ∙ ap (λ x. (some s, x)) e),
      )
      | inr e ↦
          let (n, r) = run_loop-waits channels timeout s mid last after a.1 b l in
          (
            n,
            run_loop-cons channels timeout (some s) (some s) t (mid ++ last ∷ after)
                  (at ∙ ap (λ x. (some s, x)) e)
                ∙ r,
          )
    ]

-- Whatever came before, a tick with a caller starts the loop afresh, unless it has stopped.
run_loop-resets :
    (channels : List ℕ) (timeout : ℕ) (since : Option ℕ) (pre : List Tick) (busy : Tick)
    (rest : List Tick)
    → has_caller channels busy ≡ true
    → (n : ℕ) → run_loop channels timeout none rest ≡ some n
    → (k : ℕ) × (run_loop channels timeout since (pre ++ busy ∷ rest) ≡ some k)
unfolding run_loop
run_loop-resets channels timeout since [] busy rest b n h = (
  n,
  run_loop-cons channels timeout since none busy rest (on_tick-busy channels timeout since busy b)
      ∙ h,
)
run_loop-resets channels timeout since (t ∷ pre) busy rest b n h =
    let r = on_tick channels timeout since t in
    elim (Bool-cases r.1) [
      | inl e ↦
          (t.now, run_loop-stop channels timeout since r.0 t (pre ++ busy ∷ rest) (λ i. (r.0, e i)))
      | inr e ↦
          let (k, g) = run_loop-resets channels timeout r.0 pre busy rest b n h in
          (k, run_loop-cons channels timeout since r.0 t (pre ++ busy ∷ rest) (λ i. (r.0, e i)) ∙ g)
    ]

-- With a timeout and a channel to watch, a session whose callers have left, so that a tick with a
-- caller is followed by ticks without one over at least the timeout, is stopped.
pub run_stops :
    (channels : List ℕ) (timeout : ℕ) (pre : List Tick) (busy first : Tick) (mid : List Tick)
    (last : Tick) (after : List Tick)
    → 1 ≤ timeout
    → 1 ≤ length channels
    → has_caller channels busy ≡ true
    → has_caller channels first ≡ false
    → All (λ t. has_caller channels t ≡ false) mid
    → has_caller channels last ≡ false
    → first.now + timeout ≤ last.now
    → (n : ℕ) × (run channels timeout (pre ++ busy ∷ first ∷ (mid ++ last ∷ after)) ≡ some n)
unfolding run
run_stops channels timeout pre busy first mid last after o c b f a l span =
    let off : (timeout == 0 || length channels == 0) ≡ false = ground (arith, o, c) in
    let (n, w) = run_loop-waits channels timeout first.now mid last after a l (omega arith) in
    let (k, r) =
      run_loop-resets channels timeout none pre busy (first ∷ (mid ++ last ∷ after)) b n (
        run_loop-cons channels timeout none (some first.now) first (mid ++ last ∷ after)
          (on_tick-first channels timeout first f)
        ∙ w) in
    (k, rw (off, run) r)
