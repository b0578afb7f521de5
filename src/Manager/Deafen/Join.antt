-- ===== src/Manager/Deafen/Join.antt =====
-- internal/manager/speaker_deafen.go: the flag of a bot that joins, and whether deafening can work.
-- Discord's caches and its answers are parameters.
use go_discord_caller.Base.{
  leb, ◌==◌, if◌then◌else◌, bool_eq, nat_eq, string_eq, pair_eq, nat_zero, bool_zero, list_zero,
  string_zero, length, ℕ, max, ◌≡◌, refl, ◌≢◌, ◌⊎◌, inl, inr, Bool, true, false, not, ◌&&◌, Option,
  none, some, List, [], ◌∷◌, arith,
}

-- What Discord makes of a change: it accepts, refuses for lack of permission, or fails otherwise.
pub data Verdict : Type 0 where
  accepts denies fails : Verdict

-- `ensureSpeakerDeaf`: the error, and the flag after it. `cached` is the voice state's flag, if one
-- is cached.
unfoldable pub ensure_speaker_deaf : Option Bool → Verdict → Bool → Bool → Option Verdict × Bool
ensure_speaker_deaf cached verdict want flag =
    let hit : Bool = elim cached [ none ↦ false | some deaf ↦ bool_eq deaf want ] in
    if hit then (none, flag) else elim verdict [
      | accepts ↦ (none, want)
      | denies ↦ (some denies, flag)
      | fails ↦ (some fails, flag)
    ]

-- `isPermissionError`
unfoldable pub is_permission_error : Verdict → Bool
is_permission_error accepts = false
is_permission_error denies = true
is_permission_error fails = false

-- What a join leaves: whether there is an undo, whether the controller is latched off, and the flag.
pub record Joined : Type 0 where
  pub undeafen : Bool
  pub latched : Bool
  pub flag : Bool

-- `reconcileSpeakerDeaf`
unfoldable pub reconcile_speaker_deaf : Option Bool → Verdict → Bool → Bool → Joined
unfolding ensure_speaker_deaf is_permission_error
reconcile_speaker_deaf cached verdict with_capture flag =
    let (err, after) = ensure_speaker_deaf cached verdict (not with_capture) flag in
    elim err [
      | none ↦ record { undeafen = not with_capture; latched = false; flag = after }
      | some v ↦ record { undeafen = false; latched = is_permission_error v; flag = after }
    ]

-- The state that `joinSpeakers` registers.
unfoldable pub registered : Bool → Joined → Bool
registered with_capture j = not with_capture && j.undeafen

-- When the cached voice state is right, a join registers the flag that the bot then has, and it is
-- the one the mode needs, unless Discord turned the change down: then the flag is as it was and the
-- bot is registered as able to hear.
pub reconcile_speaker_deaf_lem :
    (cached : Option Bool) (verdict : Verdict) (with_capture flag : Bool)
    → ((deaf : Bool) → cached ≡ some deaf → deaf ≡ flag)
    → let j = reconcile_speaker_deaf cached verdict with_capture flag in
      ((j.flag ≡ registered with_capture j) × (j.flag ≡ not with_capture))
      ⊎ ((j.flag ≡ flag) × (registered with_capture j ≡ false) × (verdict ≢ accepts))
unfolding reconcile_speaker_deaf registered ensure_speaker_deaf
reconcile_speaker_deaf_lem none accepts true flag h = inl (refl, refl)
reconcile_speaker_deaf_lem none accepts false flag h = inl (refl, refl)
reconcile_speaker_deaf_lem none denies c flag h = inr (refl, ground arith, λ e. ground (arith, e))
reconcile_speaker_deaf_lem none fails c flag h = inr (refl, ground arith, λ e. ground (arith, e))
reconcile_speaker_deaf_lem (some deaf) v c flag h = ground (arith, h deaf refl)

-- The roles of a member and the position of each role that is cached.
pub record Roles : Type 0 where
  pub position : ℕ → Option ℕ
  pub roles_of : ℕ → Option (List ℕ)
  pub administrator : ℕ → Bool
  pub deafen_members : ℕ → Bool

-- `topRolePosition`
unfoldable pub top_from : (ℕ → Option ℕ) → ℕ → List ℕ → Option ℕ
top_from position top [] = some top
top_from position top (r ∷ rs) = elim (position r) [
  | none ↦ none
  | some p ↦ top_from position (max top p) rs
]

unfoldable pub top_role_position : (ℕ → Option ℕ) → List ℕ → Option ℕ
unfolding top_from
top_role_position position rs = top_from position 0 rs

pub record DeafenReadiness : Type 0 where
  pub missing_permission : Bool
  pub outranked_by : List ℕ

unfoldable pub is_ok : DeafenReadiness → Bool
is_ok d = not d.missing_permission && (length d.outranked_by == 0)

-- Whether a speaker's highest role is known and not below the owner's.
unfoldable pub outranks : Roles → ℕ → ℕ → Bool
unfolding top_role_position
outranks c top bot = elim (c.roles_of bot) [
  | none ↦ false
  | some rs ↦ elim (top_role_position c.position rs) [ none ↦ false | some t ↦ leb top t ]
]

unfoldable pub outranking : Roles → ℕ → List (ℕ × Bool) → List ℕ
unfolding outranks
outranking c top [] = []
outranking c top ((bot, enabled) ∷ sps) =
    let rest = outranking c top sps in if enabled && outranks c top bot then bot ∷ rest else rest

-- `CheckDeafenReadiness`, where `speakers` is none when their snapshot fails.
unfoldable pub check_deafen_readiness : Roles → ℕ → Option (List (ℕ × Bool)) → DeafenReadiness
unfolding top_role_position outranking
check_deafen_readiness c owner speakers = elim (c.roles_of owner) [
  | none ↦ record { missing_permission = false; outranked_by = [] }
  | some rs ↦
      let missing = not (c.administrator owner) && not (c.deafen_members owner) in
      let out : List ℕ = elim (top_role_position c.position rs) [
        | none ↦ []
        | some top ↦ elim speakers [ none ↦ [] | some sps ↦ outranking c top sps ]
      ] in
      record { missing_permission = missing; outranked_by = out }
]
