-- ===== src/Manager/Deafen/Settled.antt =====
-- internal/manager/speaker_deafen.go: what holds of a controller throughout a session.
use go_discord_caller.Base.{
  ◌==◌, if◌then◌else◌, ==_iff, Bool-cases, Option-cases, nat_eq, string_eq, pair_eq, nat_zero,
  bool_zero, list_zero, string_zero, lookup, insert, lookup-insert, lookup-insert_inv, Keyed,
  insert-Keyed, ℕ, ◌+◌, ◌≡◌, refl, sym, ap, subst, ◌∙◌, inl, inr, Bool, true, false, not, ◌||◌,
  some, List, [], ◌∷◌, arith,
}
use go_discord_caller.Manager.Deafen.{
  DeafMember, off, observe_members, observe, after_delay, apply_after_delay, settle, applied,
  stop_timers, note_error, close_begin,
}
use go_discord_caller.Manager.Deafen.Session.{
  Session, Event, observes, fires, launches, answers, refuses, closes, pending, take_out,
  undeafen_all, answer, happen, events,
}
use go_discord_caller.Manager.Deafen.Members.{
  bit, Good, observe_member-Good, after_delay-Good, after_delay-bit, settle-Good, settle-bit,
  stop_timer-Good,
}
use go_discord_caller.Manager.Deafen.Table.{
  busy, flight, busy-append, busy-take_out, busy-observe_members, observe_members-Keyed,
  stop_timers-Keyed, observe_members-Every, stop_timers-Every, flight-stop_timers, busy-push,
  busy-if, pending-flight,
}

-- Every member is good, and the changes under way are those of the members in flight, one for each.
pub record Inv (s : Session) : Type 0 where
  pub keyed : Keyed s.controller.members
  pub good :
      (b : ℕ) (mem : DeafMember)
      → lookup b s.controller.members ≡ some mem
      → Good (off s.controller) mem
  pub tracked :
      (b : ℕ) → busy b s.launching + busy b s.applying ≡ flight (lookup b s.controller.members)

-- A member changes, and the lists of its changes with it.
update-Inv :
    (s : Session) (bot : ℕ) (mem next : DeafMember) (launching applying : List (ℕ × Bool))
    (flags : ℕ → Bool)
    → Inv s
    → lookup bot s.controller.members ≡ some mem
    → Good (off s.controller) next
    → ((b : ℕ)
        → busy b launching + busy b applying + (if bot == b then bit mem.in_flight else 0)
          ≡ busy b s.launching + busy b s.applying + (if bot == b then bit next.in_flight else 0))
    → Inv (record {
      controller = record s.controller { members = insert bot next s.controller.members };
      launching = launching;
      applying = applying;
      flags = flags;
    })
unfolding flight
update-Inv s bot mem next launching applying flags inv e g counted = record {
  keyed = insert-Keyed bot next s.controller.members inv.keyed;
  good = λ b m h. elim (lookup-insert_inv bot b next s.controller.members h) [
    | inl p ↦ subst (Good (off s.controller)) (sym p.1) g
    | inr p ↦ inv.good b m p
  ];
  tracked = λ b. elim (Bool-cases (bot == b)) [
    | inl t ↦
        (let after = rw t at (lookup-insert bot b next s.controller.members) in
          let before = ap (λ z. lookup z s.controller.members) (sym ((==_iff bot b).0 t)) ∙ e in
          omega (arith, rw t at (counted b), inv.tracked b, ap flight after, ap flight before))
    | inr f ↦
        (let after = rw f at (lookup-insert bot b next s.controller.members) in
          omega (arith, rw f at (counted b), inv.tracked b, ap flight after))
  ];
}

observes-Inv : (capturing : ℕ → Bool) (s : Session) → Inv s → Inv (happen (observes capturing) s)
unfolding happen observe
observes-Inv capturing s inv = elim (Bool-cases (off s.controller)) [
  | inl t ↦ rw (t, observe) inv
  | inr f ↦
      rw (f, observe)
        (record {
          keyed = observe_members-Keyed false capturing s.controller.members inv.keyed;
          good = λ b next h.
              subst (λ i. Good i next) (sym f)
                (observe_members-Every (λ c. Good false) (λ c. Good false) false capturing
                  s.controller.members (λ c mem. observe_member-Good false (not (capturing c)) mem)
                  (λ c mem e. subst (λ i. Good i mem) f (inv.good c mem e)) b next h);
          tracked = λ b. omega (
            arith,
            inv.tracked b,
            busy-observe_members b false capturing s.controller.members inv.keyed,
            busy-append b (undeafen_all (observe_members false capturing s.controller.members).0)
                s.launching,
          );
        })
]

fires-Inv : (bot : ℕ) (s : Session) → Inv s → Inv (happen (fires bot) s)
unfolding happen apply_after_delay
fires-Inv bot s inv = elim (Option-cases (lookup bot s.controller.members)) [
  | inl n ↦ rw (n, apply_after_delay) inv
  | inr (mem, e) ↦
      rw (e, apply_after_delay)
        (update-Inv s bot mem (after_delay (off s.controller) mem).1 _ _ _ inv e
          (after_delay-Good (off s.controller) mem (inv.good bot mem e))
          (λ b. ground (
            arith,
            busy-push b bot (after_delay (off s.controller) mem).0 s.launching,
            after_delay-bit (off s.controller) mem,
          )))
]

launches-Inv : (bot : ℕ) (deaf : Bool) (s : Session) → Inv s → Inv (happen (launches bot deaf) s)
unfolding happen busy
launches-Inv bot deaf s inv = elim (Bool-cases (pending bot deaf s.launching)) [
  | inl t ↦
      rw (t, happen)
        (record {
          keyed = inv.keyed;
          good = inv.good;
          tracked = λ b. omega (arith, inv.tracked b, busy-take_out b bot deaf s.launching t);
        })
  | inr f ↦ rw (f, happen) inv
]

-- A bot whose change is applying is enrolled and in flight.
pub flying_member :
    (bot : ℕ) (deaf : Bool) (s : Session)
    → Inv s
    → pending bot deaf s.applying ≡ true
    → (mem : DeafMember) × (lookup bot s.controller.members ≡ some mem) × (mem.in_flight ≡ true)
unfolding flight
flying_member bot deaf s inv h = elim (Option-cases (lookup bot s.controller.members)) [
  | inl n ↦
      absurd (omega (arith, pending-flight bot deaf s.applying h, inv.tracked bot, ap flight n))
  | inr (mem, e) ↦
      (mem, e, ground (arith, pending-flight bot deaf s.applying h, inv.tracked bot, ap flight e))
]

answers-Inv :
    (bot : ℕ) (deaf accepted : Bool) (s : Session)
    → Inv s
    → Inv (happen (answers bot deaf accepted) s)
unfolding happen answer applied
answers-Inv bot deaf accepted s inv = elim (Bool-cases (pending bot deaf s.applying)) [
  | inr f ↦ rw (f, happen) inv
  | inl t ↦
      (let (mem, e, flying) = flying_member bot deaf s inv t in
        rw (t, happen, e, applied)
          (update-Inv s bot mem (settle (off s.controller) deaf accepted mem).1 _ _ _ inv e
            (settle-Good (off s.controller) deaf accepted mem flying (inv.good bot mem e))
            (λ b. ground (
              arith,
              busy-if b bot (settle (off s.controller) deaf accepted mem).0
                  (take_out bot deaf s.applying),
              busy-take_out b bot deaf s.applying t,
              settle-bit (off s.controller) deaf accepted mem,
              ap bit flying,
            ))))
]

-- The members of a controller that goes off, with their timers stopped.
halted-Inv :
    (s : Session) (closed disabled : Bool)
    → (closed || disabled) ≡ true
    → Inv s
    → Inv (record s {
      controller = record {
        members = stop_timers s.controller.members;
        closed = closed;
        disabled = disabled;
      };
    })
halted-Inv s closed disabled h inv = record {
  keyed = stop_timers-Keyed s.controller.members inv.keyed;
  good = λ b mem e.
      subst (λ i. Good i mem) (sym h)
        (stop_timers-Every (λ c. Good (off s.controller)) (λ c. Good true) s.controller.members
          (λ c. stop_timer-Good (off s.controller)) inv.good b mem e);
  tracked = λ b. inv.tracked b ∙ sym (flight-stop_timers b s.controller.members);
}

refuses-Inv : (s : Session) → Inv s → Inv (happen refuses s)
unfolding happen note_error
refuses-Inv s inv = elim (Bool-cases s.controller.disabled) [
  | inl t ↦ subst (λ c. Inv (record s { controller = c })) (ground (arith, t)) inv
  | inr f ↦
      subst (λ c. Inv (record s { controller = c })) (ground (arith, f))
        (halted-Inv s s.controller.closed true (ground arith) inv)
]

closes-Inv : (s : Session) → Inv s → Inv (happen closes s)
unfolding happen close_begin
closes-Inv s inv = elim (Bool-cases s.controller.closed) [
  | inl t ↦ subst (λ c. Inv (record s { controller = c })) (ground (arith, t)) inv
  | inr f ↦
      subst (λ c. Inv (record s { controller = c })) (ground (arith, f))
        (halted-Inv s true s.controller.disabled refl inv)
]

pub happen-Inv : (e : Event) (s : Session) → Inv s → Inv (happen e s)
happen-Inv (observes capturing) = observes-Inv capturing
happen-Inv (fires bot) = fires-Inv bot
happen-Inv (launches bot deaf) = launches-Inv bot deaf
happen-Inv (answers bot deaf accepted) = answers-Inv bot deaf accepted
happen-Inv refuses = refuses-Inv
happen-Inv closes = closes-Inv

pub events-Inv : (es : List Event) (s : Session) → Inv s → Inv (events es s)
unfolding events
events-Inv [] s inv = inv
events-Inv (e ∷ es) s inv = events-Inv es (happen e s) (happen-Inv e s inv)
