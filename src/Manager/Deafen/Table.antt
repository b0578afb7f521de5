-- ===== src/Manager/Deafen/Table.antt =====
-- internal/manager/speaker_deafen.go: the members of a controller, looked up after each operation.
use go_discord_caller.Base.{
  ◌==◌, if◌then◌else◌, bool_eq, ==_iff, Bool-cases, Option-cases, some_inj, nat_eq, string_eq,
  pair_eq, nat_zero, bool_zero, list_zero, string_zero, Map, lookup, insert, lookup-insert, Keyed,
  ℕ, ◌+◌, ◌≤◌, ◌≡◌, refl, sym, ap, subst, ◌∙◌, ◌≢◌, inl, inr, Bool, true, false, not, ◌&&◌, Option,
  none, some, List, [], ◌∷◌, ◌++◌, arith,
}
use go_discord_caller.Manager.Deafen.{
  DeafMember, stop_timer, observe_member, observe_members, stop_timers,
}
use go_discord_caller.Manager.Deafen.Session.{pending, take_out, undeafen_all, push}
use go_discord_caller.Manager.Deafen.Members.{bit, observe_member-bit, launched}

-- How many changes of a bot are in a list.
unfoldable pub busy : ℕ → List (ℕ × Bool) → ℕ
busy bot [] = 0
busy bot ((b, d) ∷ ps) = bit (b == bot) + busy bot ps

unfoldable pub flight : Option DeafMember → ℕ
flight none = 0
flight (some mem) = bit mem.in_flight

pub busy-append :
    (bot : ℕ) (ps qs : List (ℕ × Bool)) → busy bot (ps ++ qs) ≡ busy bot ps + busy bot qs
unfolding busy
busy-append bot [] qs = omega arith
busy-append bot ((b, d) ∷ ps) qs = omega (arith, busy-append bot ps qs)

-- Taking out a change that is there leaves one less of its bot.
pub busy-take_out :
    (b bot : ℕ) (deaf : Bool) (ps : List (ℕ × Bool))
    → pending bot deaf ps ≡ true
    → busy b (take_out bot deaf ps) + bit (bot == b) ≡ busy b ps
unfolding busy take_out pending
busy-take_out b bot deaf [] h = ground (arith, h)
busy-take_out b bot deaf ((c, d) ∷ ps) h = elim (Bool-cases (c == bot && bool_eq d deaf)) [
  | inl t ↦ rw (t, take_out) (ground (arith, t))
  | inr f ↦ rw (f, take_out) (omega (arith, busy-take_out b bot deaf ps (ground (arith, f, h))))
]

-- The members after the loop of `Observe`.
pub lookup-observe_members :
    (b : ℕ) (idle : Bool) (capturing : ℕ → Bool) (m : Map ℕ DeafMember)
    → lookup b (observe_members idle capturing m).1 ≡ elim (lookup b m) [
      | none ↦ none
      | some mem ↦ some (observe_member idle (not (capturing b)) mem).1
    ]
unfolding lookup observe_members
lookup-observe_members b idle capturing [] = refl
lookup-observe_members b idle capturing ((k, mem) ∷ m) = elim (Bool-cases (k == b)) [
  | inl t ↦
      rw (t, lookup)
        (ap (λ z. some (observe_member idle (not (capturing z)) mem).1) ((==_iff k b).0 t))
  | inr f ↦ rw (f, lookup) (lookup-observe_members b idle capturing m)
]

busy-cons :
    (b k : ℕ) (go : Bool) (ks : List ℕ)
    → busy b (undeafen_all (if go then k ∷ ks else ks))
      ≡ (if k == b then bit go else 0) + busy b (undeafen_all ks)
unfolding busy
busy-cons b k true ks = ground arith
busy-cons b k false ks = ground arith

-- The undeafens that the loop asks for.
pub busy-observe_members :
    (b : ℕ) (idle : Bool) (capturing : ℕ → Bool) (m : Map ℕ DeafMember)
    → Keyed m
    → flight (lookup b (observe_members idle capturing m).1)
      ≡ busy b (undeafen_all (observe_members idle capturing m).0) + flight (lookup b m)
unfolding lookup observe_members busy flight
busy-observe_members b idle capturing [] h = omega arith
busy-observe_members b idle capturing ((k, mem) ∷ m) h =
    let ih = busy-observe_members b idle capturing m h.1 in
    let (go, next) = observe_member idle (not (capturing k)) mem in
    let step = observe_member-bit idle (not (capturing k)) mem in
    let total = busy-cons b k go (observe_members idle capturing m).0 in
    elim (Bool-cases (k == b)) [
      | inl t ↦
          let absent = ap (λ z. lookup z m) (sym ((==_iff k b).0 t)) ∙ h.0 in
          let gone = rw absent at (lookup-observe_members b idle capturing m) in
          rw (t, lookup) (omega (arith, ih, step, rw t at total, ap flight absent, ap flight gone))
      | inr f ↦ rw (f, lookup) (omega (arith, ih, rw f at total))
    ]

pub observe_members-Keyed :
    (idle : Bool) (capturing : ℕ → Bool) (m : Map ℕ DeafMember)
    → Keyed m
    → Keyed (observe_members idle capturing m).1
unfolding observe_members
observe_members-Keyed idle capturing [] h = tt
observe_members-Keyed idle capturing ((k, mem) ∷ m) h = (
  ground (arith, lookup-observe_members k idle capturing m, h.0),
  observe_members-Keyed idle capturing m h.1,
)

pub lookup-stop_timers :
    (b : ℕ) (m : Map ℕ DeafMember)
    → lookup b (stop_timers m)
      ≡ elim (lookup b m) [ none ↦ none | some mem ↦ some (stop_timer mem) ]
unfolding lookup stop_timers
lookup-stop_timers b [] = refl
lookup-stop_timers b ((k, mem) ∷ m) = elim (Bool-cases (k == b)) [
  | inl t ↦ rw (t, lookup) refl
  | inr f ↦ rw (f, lookup) (lookup-stop_timers b m)
]

pub stop_timers-Keyed : (m : Map ℕ DeafMember) → Keyed m → Keyed (stop_timers m)
unfolding stop_timers
stop_timers-Keyed [] h = tt
stop_timers-Keyed ((k, mem) ∷ m) h =
    (ground (arith, lookup-stop_timers k m, h.0), stop_timers-Keyed m h.1)

-- What holds of every member.
abbrev pub Every : (ℕ → DeafMember → Type 0) → Map ℕ DeafMember → Type 0
Every P m = (b : ℕ) (mem : DeafMember) → lookup b m ≡ some mem → P b mem

pub observe_members-Every :
    (P Q : ℕ → DeafMember → Type 0) (idle : Bool) (capturing : ℕ → Bool) (m : Map ℕ DeafMember)
    → ((b : ℕ) (mem : DeafMember) → P b mem → Q b (observe_member idle (not (capturing b)) mem).1)
    → Every P m
    → Every Q (observe_members idle capturing m).1
observe_members-Every P Q idle capturing m step every b next h = elim (Option-cases (lookup b m)) [
  | inl n ↦ absurd (ground (arith, rw n at (lookup-observe_members b idle capturing m), h))
  | inr (mem, e) ↦
      let found = rw e at (lookup-observe_members b idle capturing m) in
      subst (Q b) (some_inj (sym found ∙ h)) (step b mem (every b mem e))
]

pub stop_timers-Every :
    (P Q : ℕ → DeafMember → Type 0) (m : Map ℕ DeafMember)
    → ((b : ℕ) (mem : DeafMember) → P b mem → Q b (stop_timer mem))
    → Every P m
    → Every Q (stop_timers m)
stop_timers-Every P Q m step every b next h = elim (Option-cases (lookup b m)) [
  | inl n ↦ absurd (ground (arith, rw n at (lookup-stop_timers b m), h))
  | inr (mem, e) ↦
      let found = rw e at (lookup-stop_timers b m) in
      subst (Q b) (some_inj (sym found ∙ h)) (step b mem (every b mem e))
]

pub insert-Every :
    (P Q : ℕ → DeafMember → Type 0) (bot : ℕ) (next : DeafMember) (m : Map ℕ DeafMember)
    → Q bot next
    → ((b : ℕ) (mem : DeafMember) → bot ≢ b → P b mem → Q b mem)
    → Every P m
    → Every Q (insert bot next m)
insert-Every P Q bot next m q kept every b mem h = elim (Bool-cases (bot == b)) [
  | inl t ↦
      subst (λ z. Q z mem) ((==_iff bot b).0 t)
        (subst (Q bot) (some_inj (sym (rw t at (lookup-insert bot b next m)) ∙ h)) q)
  | inr f ↦
      kept b mem (λ e. ground (arith, e, f))
        (every b mem (sym (rw f at (lookup-insert bot b next m)) ∙ h))
]

pub flight-stop_timers :
    (b : ℕ) (m : Map ℕ DeafMember) → flight (lookup b (stop_timers m)) ≡ flight (lookup b m)
unfolding flight stop_timer
flight-stop_timers b m = elim (Option-cases (lookup b m)) [
  | inl n ↦ rw n (ap flight (rw n at (lookup-stop_timers b m)))
  | inr (mem, e) ↦ rw e (ap flight (rw e at (lookup-stop_timers b m)))
]

pub busy-push :
    (b bot : ℕ) (change : Option Bool) (ps : List (ℕ × Bool))
    → busy b (push bot change ps) ≡ (if bot == b then launched change else 0) + busy b ps
unfolding busy
busy-push b bot none ps = ground arith
busy-push b bot (some deaf) ps = ground arith

pub busy-if :
    (b bot : ℕ) (go : Bool) (ps : List (ℕ × Bool))
    → busy b (if go then (bot, false) ∷ ps else ps) ≡ (if bot == b then bit go else 0) + busy b ps
unfolding busy
busy-if b bot true ps = ground arith
busy-if b bot false ps = ground arith

-- A bot whose change is under way is in flight.
pub pending-flight :
    (bot : ℕ) (deaf : Bool) (ps : List (ℕ × Bool)) → pending bot deaf ps ≡ true → 1 ≤ busy bot ps
unfolding busy pending
pending-flight bot deaf [] h = ground (arith, h)
pending-flight bot deaf ((b, d) ∷ ps) h = ground (arith, h, pending-flight bot deaf ps)
