-- ===== src/Manager/Reconnect/Backoff.antt =====
-- internal/manager/voice_raid_reconnect.go: how often a bot that keeps stalling is rejoined.
use go_discord_caller.Base.{
  if◌then◌else◌, Bool-cases, eqb, nat_eq, string_eq, pair_beq_iff, pair_eq, nat_zero, bool_zero,
  list_zero, string_zero, Map, lookup, insert, lookup-insert, lookup-nil, ℕ, ◌+◌, ◌≤◌, ◌≡◌, ap, ◌∙◌,
  inl, inr, Bool, true, none, some, List, [], ◌∷◌, arith,
}
use go_discord_caller.Manager.Reconnect.{
  BotKey, stall_rejoin_backoff_min, stall_rejoin_backoff_max, StallRejoin, current, due_one, due,
}

-- The stall reports of all bots in the order in which they come, and what became of those of `k`.
unfoldable pub outcomes : BotKey → List (BotKey × ℕ) → Map BotKey StallRejoin → List (ℕ × Bool)
unfolding due
outcomes k [] m = []
outcomes k ((j, now) ∷ hs) m =
    let (go, n) = due j now m in
    let rest = outcomes k hs n in if eqb j k then (now, go) ∷ rest else rest

-- The clock does not go back.
abbrev pub Ordered : ℕ → List (BotKey × ℕ) → Type 0
Ordered t [] = Unit
Ordered t ((j, now) ∷ hs) = (t ≤ now) × Ordered now hs

-- After a rejoin at `last`, none comes within the least back-off, and a report after the greatest
-- rejoins.
abbrev pub Paced : ℕ → List (ℕ × Bool) → Type 0
Paced last [] = Unit
Paced last ((now, go) ∷ os) =
    (go ≡ true → last + stall_rejoin_backoff_min ≤ now)
    × (last + stall_rejoin_backoff_max ≤ now → go ≡ true)
    × Paced (if go then now else last) os

-- The first report rejoins.
abbrev pub AllPaced : List (ℕ × Bool) → Type 0
AllPaced [] = Unit
AllPaced ((now, go) ∷ os) = (go ≡ true) × Paced now os

-- A record after a rejoin at `last`, at time `t`.
record Backs (last t : ℕ) (r : StallRejoin) : Type 0 where
  before : last ≤ r.last_report
  reported : r.last_report ≤ t
  soonest : last + stall_rejoin_backoff_min ≤ r.next_rejoin
  latest : r.next_rejoin ≤ last + stall_rejoin_backoff_max
  least : stall_rejoin_backoff_min ≤ r.delay
  most : r.delay ≤ stall_rejoin_backoff_max

due_one-Backs :
    (last t now : ℕ) (r : StallRejoin)
    → Backs last t r
    → t ≤ now
    → let (go, n) = due_one (some r) now in
      (go ≡ true → last + stall_rejoin_backoff_min ≤ now)
      × (last + stall_rejoin_backoff_max ≤ now → go ≡ true)
      × Backs (if go then now else last) now n
unfolding due_one current
due_one-Backs last t now r b le = (
  ground (arith, b.before, b.soonest, le),
  ground (arith, b.latest, le),
  record {
    before = ground (arith, b.before, b.reported, le);
    reported = ground arith;
    soonest = ground (arith, b.soonest, b.least);
    latest = ground (arith, b.latest, b.most, le);
    least = ground (arith, b.least);
    most = ground (arith, b.most);
  },
)

due_one-first : (now : ℕ) → let (go, n) = due_one none now in (go ≡ true) × Backs now now n
unfolding due_one current
due_one-first now = (
  ground arith,
  record {
    before = ground arith;
    reported = ground arith;
    soonest = ground arith;
    latest = ground arith;
    least = ground arith;
    most = ground arith;
  },
)

Backs-later : (last t now : ℕ) (r : StallRejoin) → Backs last t r → t ≤ now → Backs last now r
Backs-later last t now r b le = record {
  before = b.before;
  reported = omega (arith, b.reported, le);
  soonest = b.soonest;
  latest = b.latest;
  least = b.least;
  most = b.most;
}

pair_eq_path : (j k : BotKey) → eqb j k ≡ true → j ≡ k
pair_eq_path j k h = (pair_beq_iff j k).0 h

outcomes-Paced :
    (k : BotKey) (hs : List (BotKey × ℕ)) (m : Map BotKey StallRejoin) (last t : ℕ)
    (r : StallRejoin)
    → lookup k m ≡ some r
    → Backs last t r
    → Ordered t hs
    → Paced last (outcomes k hs m)
unfolding outcomes due
outcomes-Paced k [] m last t r e b o = tt
outcomes-Paced k ((j, now) ∷ hs) m last t r e b o = elim (Bool-cases (eqb j k)) [
  | inr f ↦
      rw (f, outcomes)
        (outcomes-Paced k hs (insert j (due_one (lookup j m) now).1 m) last now r
          (rw f at (lookup-insert j k (due_one (lookup j m) now).1 m) ∙ e)
          (Backs-later last t now r b o.0) o.1)
  | inl y ↦
      (let same = pair_eq_path j k y in
        let found = ap (λ z. lookup z m) same ∙ e in
        let (soon, late, next) = due_one-Backs last t now r b o.0 in
        rw (y, outcomes, found)
          (
            soon,
            late,
            outcomes-Paced k hs (insert j (due_one (some r) now).1 m)
                (if (due_one (some r) now).0 then now else last) now (due_one (some r) now).1
                (rw y at (lookup-insert j k (due_one (some r) now).1 m)) next o.1,
          ))
]

outcomes-AllPaced :
    (k : BotKey) (hs : List (BotKey × ℕ)) (m : Map BotKey StallRejoin) (t : ℕ)
    → lookup k m ≡ none
    → Ordered t hs
    → AllPaced (outcomes k hs m)
unfolding outcomes due
outcomes-AllPaced k [] m t e o = tt
outcomes-AllPaced k ((j, now) ∷ hs) m t e o = elim (Bool-cases (eqb j k)) [
  | inr f ↦
      rw (f, outcomes)
        (outcomes-AllPaced k hs (insert j (due_one (lookup j m) now).1 m) now
          (rw f at (lookup-insert j k (due_one (lookup j m) now).1 m) ∙ e) o.1)
  | inl y ↦
      (let found = ap (λ z. lookup z m) (pair_eq_path j k y) ∙ e in
        let (first, next) = due_one-first now in
        rw (y, outcomes, found)
          (
            first,
            outcomes-Paced k hs (insert j (due_one none now).1 m) now now (due_one none now).1
                (rw y at (lookup-insert j k (due_one none now).1 m)) next o.1,
          ))
]

-- However the stall reports of all bots are interleaved, while the clock does not go back: a bot's
-- first report rejoins it, no rejoin comes within 30 seconds of the one before, and a report that
-- comes 5 minutes or more after the last rejoin is a rejoin.
pub reports-AllPaced :
    (k : BotKey) (hs : List (BotKey × ℕ)) (t : ℕ) → Ordered t hs → AllPaced (outcomes k hs [])
reports-AllPaced k hs t = outcomes-AllPaced k hs [] t (lookup-nil {V = StallRejoin} k)
