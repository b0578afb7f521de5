-- ===== src/Manager/AllowFilter.antt =====
-- internal/manager/allow_user.go: who may send audio, decided once and kept until an event
-- overrides it.
use go_discord_caller.Base.{
  ◌==◌, if◌then◌else◌, Bool-cases, Option-cases, nat_eq, string_eq, pair_eq, nat_zero, bool_zero,
  list_zero, string_zero, Map, lookup, insert, lookup-insert, lookup-nil, ℕ, ◌≡◌, refl, sym, ap,
  subst, ◌∙◌, inl, inr, Bool, false, not, ◌&&◌, ◌||◌, Option, none, some, List, [], ◌∷◌, arith,
}
use go_discord_caller.Store.{InMemoryStore, get_bound_role}

-- A member of the owner bot's cache: whether it is a bot, and its roles.
pub record Member : Type 0 where
  pub is_bot : Bool
  pub role_ids : List ℕ

-- The two closures of `buildAllowUserFilter`.
pub data Fallback : Type 0 where
  denies : Fallback
  checks_role : ℕ → Fallback

pub record AllowFilter : Type 0 where
  pub allowed : Map ℕ Bool
  pub fallback : Fallback
  pub role_id : ℕ

-- `slices.Contains`
unfoldable pub contains : List ℕ → ℕ → Bool
contains [] a = false
contains (x ∷ xs) a = x == a || contains xs a

-- The member cache of the guild at the time of the call is an argument.
unfoldable pub fall_back : (ℕ → Option Member) → Fallback → ℕ → Bool
unfolding contains
fall_back members denies user = false
fall_back members (checks_role role) user = elim (members user) [
  | none ↦ false
  | some m ↦ if m.is_bot then false else contains m.role_ids role
]

unfoldable pub set : ℕ → Bool → AllowFilter → AllowFilter
unfolding insert
set user allowed f = record f { allowed = insert user allowed f.allowed }

-- `Check` loads, falls back and stores without a lock. Here nothing comes between the load and the
-- store; a `Set` that does is overwritten in the code by what the fallback has found.
unfoldable pub check : (ℕ → Option Member) → ℕ → AllowFilter → Bool × AllowFilter
unfolding lookup set fall_back
check members user f = elim (lookup user f.allowed) [
  | some v ↦ (v, f)
  | none ↦ let result = fall_back members f.fallback user in (result, set user result f)
]

unfoldable pub build_allow_user_filter : ℕ → InMemoryStore → AllowFilter
unfolding get_bound_role
build_allow_user_filter guild s = elim (get_bound_role guild "caller" s) [
  | none ↦ record { allowed = []; fallback = denies; role_id = 0 }
  | some role ↦ record { allowed = []; fallback = checks_role role; role_id = role }
]

-- `HasCallerRole`
unfoldable pub has_caller_role : ℕ → List ℕ → InMemoryStore → Bool
unfolding get_bound_role contains
has_caller_role guild role_ids s = elim (get_bound_role guild "caller" s) [
  | none ↦ false
  | some role ↦ contains role_ids role
]

-- The filter's part of `NotifyMemberUpdate`.
unfoldable pub notify_member_update : ℕ → ℕ → Member → InMemoryStore → AllowFilter → AllowFilter
unfolding set has_caller_role
notify_member_update guild user m s f =
    set user (not m.is_bot && has_caller_role guild m.role_ids s) f

-- A frame that is checked, with the cache at that time, and an event that sets a decision.
pub data Call : Type 0 where
  checks : (ℕ → Option Member) → ℕ → Call
  sets : ℕ → Bool → Call

unfoldable pub call : AllowFilter → Call → AllowFilter
unfolding check set
call f (checks members user) = (check members user f).1
call f (sets user allowed) = set user allowed f

unfoldable pub calls : AllowFilter → List Call → AllowFilter
unfolding call
calls f [] = f
calls f (c ∷ cs) = calls (call f c) cs

-- The decision in force after the calls, `d` before them: the last one set, or else the one that
-- the first check since found.
unfoldable pub decision : Fallback → ℕ → Option Bool → List Call → Option Bool
decision fb user d [] = d
decision fb user d (checks members u ∷ cs) =
    decision fb user
      (if u == user then some (elim d [ none ↦ fall_back members fb user | some b ↦ b ]) else d) cs
decision fb user d (sets u b ∷ cs) = decision fb user (if u == user then some b else d) cs

check-known :
    (members : ℕ → Option Member) (u : ℕ) (f : AllowFilter) (v : Bool)
    → lookup u f.allowed ≡ some v
    → check members u f ≡ (v, f)
unfolding check
check-known members u f v e = rw (e, check) refl

check-new :
    (members : ℕ → Option Member) (u : ℕ) (f : AllowFilter)
    → lookup u f.allowed ≡ none
    → check members u f ≡ (
      fall_back members f.fallback u,
      record f { allowed = insert u (fall_back members f.fallback u) f.allowed },
    )
unfolding check
check-new members u f n = rw (n, check) refl

-- The filter holds the decision in force, and keeps its fallback.
Decides : AllowFilter → ℕ → Fallback → Option Bool → Type 0
Decides f user fb d = (lookup user f.allowed ≡ d) × (f.fallback ≡ fb)

checks-Decides :
    (f : AllowFilter) (user : ℕ) (fb : Fallback) (d : Option Bool) (members : ℕ → Option Member)
    (u : ℕ)
    → Decides f user fb d
    → Decides
        (check members u f).1
        user
        fb
        (if u == user then some (elim d [ none ↦ fall_back members fb user | some b ↦ b ]) else d)
unfolding Decides
checks-Decides f user fb d members u h = elim (Option-cases (lookup u f.allowed)) [
  | inr (v, e) ↦
      subst
        (λ (r : Bool × AllowFilter). Decides r.1 user fb (
          if u == user then some (elim d [ none ↦ fall_back members fb user | some b ↦ b ]) else d))
        (sym (check-known members u f v e))
        (elim (Bool-cases (u == user)) [
          | inl q ↦
              let same : u ≡ user = ground (arith, q) in
              (ground (arith, q, e, ap (λ x. lookup x f.allowed) same, h.0), h.1)
          | inr q ↦ (ground (arith, q, h.0), h.1)
        ])
  | inl n ↦
      let r = fall_back members f.fallback u in
      subst
        (λ (r : Bool × AllowFilter). Decides r.1 user fb (
          if u == user then some (elim d [ none ↦ fall_back members fb user | some b ↦ b ]) else d))
        (sym (check-new members u f n))
        (elim (Bool-cases (u == user)) [
          | inl q ↦
              let same : u ≡ user = ground (arith, q) in
              let val : r ≡ fall_back members fb user = (λ i. fall_back members (h.1 i) (same i)) in
              (
                ground (
                  arith,
                  lookup-insert u user r f.allowed,
                  q,
                  n,
                  ap (λ x. lookup x f.allowed) same,
                  h.0,
                  val,
                ),
                h.1,
              )
          | inr q ↦ (ground (arith, lookup-insert u user r f.allowed, q, h.0), h.1)
        ])
]

calls-Decides :
    (cs : List Call) (f : AllowFilter) (user : ℕ) (fb : Fallback) (d : Option Bool)
    → Decides f user fb d
    → Decides (calls f cs) user fb (decision fb user d cs)
unfolding calls call decision set Decides
calls-Decides [] f user fb d h = h
calls-Decides (checks members u ∷ cs) f user fb d h =
    calls-Decides cs (check members u f).1 user fb
      (if u == user then some (elim d [ none ↦ fall_back members fb user | some b ↦ b ]) else d)
      (checks-Decides f user fb d members u h)
calls-Decides (sets u b ∷ cs) f user fb d h =
    calls-Decides cs (set u b f) user fb (if u == user then some b else d)
      (ground (arith, lookup-insert u user b f.allowed, h.0), h.1)

build-empty :
    (guild : ℕ) (s : InMemoryStore) (user : ℕ)
    → lookup user (build_allow_user_filter guild s).allowed ≡ none
unfolding build_allow_user_filter
build-empty guild s user = elim (Option-cases (get_bound_role guild "caller" s)) [
  | inl n ↦ rw (n, build_allow_user_filter) (lookup-nil {0, 0} {V = Bool} user)
  | inr (r, e) ↦ rw (e, build_allow_user_filter) (lookup-nil {0, 0} {V = Bool} user)
]

build-denies :
    (guild : ℕ) (s : InMemoryStore) (members : ℕ → Option Member) (user : ℕ)
    → get_bound_role guild "caller" s ≡ none
    → fall_back members (build_allow_user_filter guild s).fallback user ≡ false
unfolding build_allow_user_filter fall_back
build-denies guild s members user n = rw (n, build_allow_user_filter) refl

-- Whatever calls a new session's filter has had, one after another, Check answers with the decision last set for the
-- user, or else with what the first check since found, or else with the fallback now; the fallback
-- of a guild without a caller role denies everybody.
pub check-decision :
    (guild : ℕ) (s : InMemoryStore) (cs : List Call) (members : ℕ → Option Member) (user : ℕ)
    → let f = build_allow_user_filter guild s in
      ((check members user (calls f cs)).0 ≡ elim (decision f.fallback user none cs) [
        | none ↦ fall_back members f.fallback user
        | some b ↦ b
      ])
      × (get_bound_role guild "caller" s ≡ none → fall_back members f.fallback user ≡ false)
unfolding build_allow_user_filter Decides fall_back
check-decision guild s cs members user =
    let f = build_allow_user_filter guild s in
    let g = calls f cs in
    let (at, fb) = calls-Decides cs f user f.fallback none (build-empty guild s user, refl) in
    (
      elim (Option-cases (lookup user g.allowed)) [
        | inr (v, e) ↦
            ap (λ (r : Bool × AllowFilter). r.0) (check-known members user g v e)
            ∙ ground (arith, sym at ∙ e)
        | inl n ↦
            ap (λ (r : Bool × AllowFilter). r.0) (check-new members user g n)
            ∙ ap (λ x. fall_back members x user) fb
            ∙ ground (arith, sym at ∙ n)
      ],
      λ n. build-denies guild s members user n,
    )
