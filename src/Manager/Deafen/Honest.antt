-- ===== src/Manager/Deafen/Honest.antt =====
-- internal/manager/speaker_deafen.go: where a session's flags end up.
use go_discord_caller.Base.{
  if◌then◌else◌, ==_iff, ==_refl, Bool-cases, Option-cases, nat_eq, string_eq, pair_eq, nat_zero,
  bool_zero, list_zero, string_zero, Map, lookup, ℕ, ◌≡◌, refl, sym, ap, subst, ◌∙◌, ◌≢◌, ◌⊎◌, inl,
  inr, Bool, true, false, not, ◌&&◌, List, [], ◌∷◌, arith,
}
use go_discord_caller.Manager.Deafen.{
  DeafMember, off, stop_timer, observe, after_delay, apply_after_delay, settle, applied,
  stop_timers, note_error, close_begin,
}
use go_discord_caller.Manager.Deafen.Session.{
  Session, Event, observes, fires, launches, answers, refuses, closes, pending, set_flag, answer,
  happen, events, is_observe,
}
use go_discord_caller.Manager.Deafen.Members.{
  observe_member_states, after_delay_states, settle_states,
}
use go_discord_caller.Manager.Deafen.Table.{
  Every, observe_members-Every, stop_timers-Every, insert-Every,
}
use go_discord_caller.Manager.Deafen.Settled.{Inv, flying_member, happen-Inv}

-- The controller knows the flag of every member, and `S` holds of what is wanted of it.
abbrev pub States : (ℕ → Bool → Type 0) → (ℕ → Bool) → ℕ → DeafMember → Type 0
States S flags b mem = (flags b ≡ mem.deaf) × S b mem.want

abbrev pub Honest : (ℕ → Bool → Type 0) → Session → Type 0
Honest S s = Every (States S s.flags) s.controller.members

-- A round of the loop of `Observe`, which asks of a bot to be deaf unless it captures.
pub observes-Honest :
    (S R : ℕ → Bool → Type 0) (capturing : ℕ → Bool) (s : Session)
    → ((b : ℕ) → R b (not (capturing b)))
    → off s.controller ≡ false
    → Honest S s
    → Honest R (happen (observes capturing) s)
unfolding happen observe
observes-Honest S R capturing s r f p =
    rw (f, observe)
      (observe_members-Every (States S s.flags) (States R s.flags) false capturing
        s.controller.members
        (λ b mem q.
          let (deaf, wanted) = observe_member_states false (not (capturing b)) mem in
          (q.0 ∙ sym deaf, subst (R b) (sym wanted) (r b)))
        p)

halted-Every :
    (P : ℕ → DeafMember → Type 0) (halted : Bool) (m : Map ℕ DeafMember)
    → ((b : ℕ) (mem : DeafMember) → P b mem → P b (stop_timer mem))
    → Every P m
    → Every P (if halted then m else stop_timers m)
halted-Every P true m step p = p
halted-Every P false m step p = stop_timers-Every P P m step p

-- The flags after an answer.
abbrev answered : ℕ → Bool → Bool → (ℕ → Bool) → ℕ → Bool
answered bot deaf accepted flags = if accepted then set_flag bot deaf flags else flags

answered_self :
    (bot : ℕ) (deaf accepted : Bool) (flags : ℕ → Bool)
    → answered bot deaf accepted flags bot ≡ (if accepted then deaf else flags bot)
answered_self bot deaf true flags = ground (arith, ==_refl bot)
answered_self bot deaf false flags = refl

answered_other :
    (bot b : ℕ) (deaf accepted : Bool) (flags : ℕ → Bool)
    → bot ≢ b
    → answered bot deaf accepted flags b ≡ flags b
answered_other bot b deaf true flags n = ground (arith, n, ==_iff b bot)
answered_other bot b deaf false flags n = refl

module _ (S : ℕ → Bool → Type 0) where
  fires-Honest : (bot : ℕ) (s : Session) → Honest S s → Honest S (happen (fires bot) s)
  unfolding happen apply_after_delay
  fires-Honest bot s p = elim (Option-cases (lookup bot s.controller.members)) [
    | inl n ↦ rw (n, apply_after_delay) p
    | inr (mem, e) ↦
        (let (deaf, wanted) = after_delay_states (off s.controller) mem in
          rw (e, apply_after_delay)
            (insert-Every (States S s.flags) (States S s.flags) bot
              (after_delay (off s.controller) mem).1 s.controller.members
              ((p bot mem e).0 ∙ sym deaf, subst (S bot) (sym wanted) (p bot mem e).1)
              (λ b m n q. q) p))
  ]

  answers-Honest :
      (bot : ℕ) (deaf accepted : Bool) (s : Session)
      → Inv s
      → Honest S s
      → Honest S (happen (answers bot deaf accepted) s)
  unfolding happen answer applied
  answers-Honest bot deaf accepted s inv p = elim (Bool-cases (pending bot deaf s.applying)) [
    | inr f ↦ rw (f, happen) p
    | inl t ↦
        (let (mem, e, flying) = flying_member bot deaf s inv t in
          let (known, wanted) = settle_states (off s.controller) deaf accepted mem in
          rw (t, happen, e, applied)
            (insert-Every (States S s.flags) (States S (answered bot deaf accepted s.flags)) bot
              (settle (off s.controller) deaf accepted mem).1 s.controller.members
              (
                answered_self bot deaf accepted s.flags
                    ∙ ap (λ z. if accepted then deaf else z) (p bot mem e).0
                    ∙ sym known,
                subst (S bot) (sym wanted) (p bot mem e).1,
              )
              (λ b m n q. (answered_other bot b deaf accepted s.flags n ∙ q.0, q.1)) p))
  ]

  refuses-Honest : (s : Session) → Honest S s → Honest S (happen refuses s)
  unfolding happen note_error stop_timer
  refuses-Honest s p =
      subst (Every (States S s.flags)) (ground arith) (
        halted-Every (States S s.flags) s.controller.disabled s.controller.members (λ b mem q. q) p)

  closes-Honest : (s : Session) → Honest S s → Honest S (happen closes s)
  unfolding happen close_begin stop_timer
  closes-Honest s p =
      subst (Every (States S s.flags)) (ground arith)
        (halted-Every (States S s.flags) s.controller.closed s.controller.members (λ b mem q. q) p)

pub happen-Honest :
    (S : ℕ → Bool → Type 0) (e : Event) (s : Session)
    → ((b : ℕ) (w : Bool) → S b w) ⊎ (is_observe e ≡ false)
    → Inv s
    → Honest S s
    → Honest S (happen e s)
unfolding happen observe is_observe
happen-Honest S (observes capturing) s (inr h) inv p = absurd (ground (arith, h))
happen-Honest S (observes capturing) s (inl any) inv p = elim (Bool-cases (off s.controller)) [
  | inl t ↦ rw (t, observe) p
  | inr f ↦ observes-Honest S S capturing s (λ b. any b (not (capturing b))) f p
]
happen-Honest S (fires bot) s h inv p = fires-Honest S bot s p
happen-Honest S (launches bot deaf) s h inv p = elim (Bool-cases (pending bot deaf s.launching)) [
  | inl t ↦ rw (t, happen) p
  | inr f ↦ rw (f, happen) p
]
happen-Honest S (answers bot deaf accepted) s h inv p = answers-Honest S bot deaf accepted s inv p
happen-Honest S refuses s h inv p = refuses-Honest S s p
happen-Honest S closes s h inv p = closes-Honest S s p

-- No observation is in a list of events.
unfoldable pub unobserved : List Event → Bool
unfolding is_observe
unobserved [] = true
unobserved (e ∷ es) = not (is_observe e) && unobserved es

pub events-Honest :
    (S : ℕ → Bool → Type 0) (es : List Event) (s : Session)
    → ((b : ℕ) (w : Bool) → S b w) ⊎ (unobserved es ≡ true)
    → Inv s
    → Honest S s
    → Honest S (events es s)
unfolding events unobserved
events-Honest S [] s h inv p = p
events-Honest S (e ∷ es) s (inl any) inv p =
    events-Honest S es (happen e s) (inl any) (happen-Inv e s inv)
      (happen-Honest S e s (inl any) inv p)
events-Honest S (e ∷ es) s (inr h) inv p =
    events-Honest S es (happen e s) (inr (ground (arith, h))) (happen-Inv e s inv)
      (happen-Honest S e s (inr (ground (arith, h))) inv p)
