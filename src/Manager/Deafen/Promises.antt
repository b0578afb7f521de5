-- ===== src/Manager/Deafen/Promises.antt =====
-- internal/manager/speaker_deafen.go: a session from its joins to its close.

use go_discord_caller.Manager.Deafen.Honest.{Honest}
use go_discord_caller.Base.{
  Option-cases, nat_eq, string_eq, pair_eq, nat_zero, bool_zero, list_zero, string_zero, lookup,
  insert, Keyed, lookup-nil, insert-Keyed, ℕ, ◌+◌, ◌≤◌, ◌<◌, ◌≡◌, refl, sym, ap, subst, ◌∙◌, inl,
  inr, Bool, true, false, List, [], ◌∷◌, arith,
}
use go_discord_caller.Manager.Deafen.{
  DeafMember, DeafController, deaf_retry_limit, new_deaf_controller, off, new_member, register,
  observe, apply_after_delay, applied, note_error, close_begin,
}
use go_discord_caller.Manager.Deafen.Session.{
  Session, Event, observes, fires, launches, answers, refuses, closes, answer, happen, events,
  register_all, start,
}
use go_discord_caller.Manager.Deafen.Members.{bit, Good, new_member-Good}
use go_discord_caller.Manager.Deafen.Table.{busy, flight, Every, insert-Every}
use go_discord_caller.Manager.Deafen.Settled.{Inv, events-Inv}

-- A controller before its first event.
record Fresh (c : DeafController) : Type 0 where
  going : off c ≡ false
  keyed : Keyed c.members
  good : Every (λ b mem. Good false mem × (mem.in_flight ≡ false)) c.members

enrolled :
    (bot : ℕ) (deaf : Bool) (c : DeafController)
    → off c ≡ false
    → register bot deaf c ≡ record c { members = insert bot (new_member deaf) c.members }
unfolding register
enrolled bot deaf c h = ground (arith, h)

register_all-Fresh :
    (bots : List (ℕ × Bool)) (c : DeafController) → Fresh c → Fresh (register_all bots c)
unfolding register_all register new_member
register_all-Fresh [] c p = p
register_all-Fresh ((bot, deaf) ∷ bots) c p = register_all-Fresh bots (register bot deaf c) (
    subst Fresh (sym (enrolled bot deaf c p.going)) (record {
      going = p.going;
      keyed = insert-Keyed bot (new_member deaf) c.members p.keyed;
      good =
          insert-Every (λ b mem. Good false mem × (mem.in_flight ≡ false))
            (λ b mem. Good false mem × (mem.in_flight ≡ false)) bot (new_member deaf) c.members
            (new_member-Good false deaf, refl) (λ b m n q. q) p.good;
    }))

pub start-Inv : (bots : List (ℕ × Bool)) (flags : ℕ → Bool) → Inv (start bots flags)
unfolding start new_deaf_controller busy flight
start-Inv bots flags = record {
  keyed = p.keyed;
  good = λ b mem e. subst (λ i. Good i mem) (sym p.going) (p.good b mem e).0;
  tracked = λ b. elim (Option-cases (lookup b (start bots flags).controller.members)) [
    | inl n ↦ sym (ap flight n)
    | inr (mem, e) ↦ sym (ap flight e ∙ ap bit (p.good b mem e).1)
  ];
}
  where
    p : Fresh (register_all bots new_deaf_controller)
    p = register_all-Fresh bots new_deaf_controller (record {
      going = refl;
      keyed = tt;
      good = λ b mem e. ground (arith, lookup-nil {V = DeafMember} b, e);
    })

-- However observations, timers, answers and refusals come, and whether or not the controller has
-- closed, a bot has at most one change under way, be it about to start or applying.
pub events-one_change :
    (bots : List (ℕ × Bool)) (flags : ℕ → Bool) (es : List Event) (b : ℕ)
    → let s = events es (start bots flags) in busy b s.launching + busy b s.applying ≤ 1
unfolding flight
events-one_change bots flags es b =
    let s = events es (start bots flags) in
    let t = (events-Inv es (start bots flags) (start-Inv bots flags)).tracked b in
    elim (Option-cases (lookup b s.controller.members)) [
      | inl n ↦ omega (arith, t, ap flight n)
      | inr (mem, e) ↦ ground (arith, t, ap flight e)
    ]

-- A member at rest: no timer, no change in flight, and retries left.
pub record Resting (mem : DeafMember) : Type 0 where
  pub no_timer : mem.timer ≡ false
  pub landed : mem.in_flight ≡ false
  pub in_budget : mem.failures < deaf_retry_limit

pub happen-closed :
    (e : Event) (s : Session) → s.controller.closed ≡ true → (happen e s).controller.closed ≡ true
unfolding happen observe apply_after_delay answer applied note_error close_begin
happen-closed (observes capturing) s h = ground (arith, h)
happen-closed (fires bot) s h = ground (arith, h)
happen-closed (launches bot deaf) s h = ground (arith, h)
happen-closed (answers bot deaf accepted) s h = ground (arith, h)
happen-closed refuses s h = ground (arith, h)
happen-closed closes s h = ground (arith, h)

-- What is known of the flags when the session starts.
abbrev pub Known : List (ℕ × Bool) → (ℕ → Bool) → Type 0
Known bots flags =
    Every (λ b mem. flags b ≡ mem.deaf) (register_all bots new_deaf_controller).members

pub start-Honest :
    (bots : List (ℕ × Bool)) (flags : ℕ → Bool)
    → Known bots flags
    → Honest (λ c w. Unit) (start bots flags)
unfolding start
start-Honest bots flags known b mem e = (known b mem e, tt)
