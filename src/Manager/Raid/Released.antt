-- ===== src/Manager/Raid/Released.antt =====
-- internal/manager/voice_raid.go: a start that fails gives back what it took.
use go_discord_caller.Base.{
  if◌then◌else◌, bool_eq, some_inj, nat_eq, string_eq, pair_eq, nat_zero, bool_zero, list_zero,
  string_zero, ℕ, suc, ◌≡◌, ap, ◌∙◌, Bool, true, false, not, ◌&&◌, ◌||◌, Option, none, some, List,
  [], ◌∷◌, arith,
}
use go_discord_caller.Manager.Raid.{
  Resource, slot, speakers, owner_voice, owner_setup, relay, seat, Effect, takes, frees, commits,
  starts, StartError, owner_setup_failed, before, guarded,
}

unfoldable pub same : Resource → Resource → Bool
same slot slot = true
same speakers speakers = true
same owner_voice owner_voice = true
same owner_setup owner_setup = true
same relay relay = true
same seat seat = true
same a b = false

-- Whether a resource is held after the effects, from whether it was before.
unfoldable pub held : Resource → Bool → List Effect → Bool
unfolding same
held r now [] = now
held r now (takes s ∷ es) = held r (same s r || now) es
held r now (frees s ∷ es) = held r (not (same s r) && now) es
held r now (commits ∷ es) = held r now es
held r now (starts ∷ es) = held r now es

unfoldable pub commit_count : List Effect → ℕ
commit_count [] = 0
commit_count (takes s ∷ es) = commit_count es
commit_count (frees s ∷ es) = commit_count es
commit_count (commits ∷ es) = suc (commit_count es)
commit_count (starts ∷ es) = commit_count es

-- A start that returns no error has committed once and holds what a raid needs, the slot apart; one
-- that returns an error has not committed and holds only what `left` lists.
pub record Balanced (needs : Resource → Bool) (left : StartError → Resource → Bool)
    (r : Option StartError × List Effect) : Type 0 where
  pub works : r.0 ≡ none → (commit_count r.1 ≡ 1) × ((x : Resource) → held x false r.1 ≡ needs x)
  pub fails :
      (e : StartError)
      → r.0 ≡ some e
      → (commit_count r.1 ≡ 0) × ((x : Resource) → held x false r.1 ≡ left e x)

-- What a host's raid runs on.
unfoldable pub host_needs : Resource → Bool
host_needs slot = false
host_needs seat = false
host_needs speakers = true
host_needs owner_voice = true
host_needs owner_setup = true
host_needs relay = true

-- What a failed start of a host still holds: the owner's connection, if its set-up failed.
unfoldable pub host_left : StartError → Resource → Bool
host_left owner_setup_failed owner_voice = true
host_left e x = false

-- Two states of the resources are the same.
abbrev pub agree : (Resource → Bool) → (Resource → Bool) → Bool
agree f g =
    bool_eq (f slot) (g slot)
    && bool_eq (f speakers) (g speakers)
    && bool_eq (f owner_voice) (g owner_voice)
    && bool_eq (f owner_setup) (g owner_setup)
    && bool_eq (f relay) (g relay)
    && bool_eq (f seat) (g seat)

agree_lem : (f g : Resource → Bool) → agree f g ≡ true → (x : Resource) → f x ≡ g x
agree_lem f g h slot = ground (arith, h)
agree_lem f g h speakers = ground (arith, h)
agree_lem f g h owner_voice = ground (arith, h)
agree_lem f g h owner_setup = ground (arith, h)
agree_lem f g h relay = ground (arith, h)
agree_lem f g h seat = ground (arith, h)

pub if_elim {ℓ κ} :
    {A : Type ℓ} (P : A → Type κ) (b : Bool) {x y : A} → P x → P y → P (if b then x else y)
if_elim P true p q = p
if_elim P false p q = q

module _ (needs : Resource → Bool) (left : StartError → Resource → Bool) where
  pub failing :
      (e : StartError) (es : List Effect)
      → commit_count es ≡ 0
      → agree (λ x. held x false es) (left e) ≡ true
      → Balanced needs left (some e, es)
  failing e es c h = record {
    works = λ p. absurd (ground (arith, p));
    fails = λ d p.
        (c, λ x. agree_lem (λ x. held x false es) (left e) h x ∙ ap (λ z. left z x) (some_inj p));
  }

  pub working :
      (es : List Effect)
      → commit_count es ≡ 1
      → agree (λ x. held x false es) needs ≡ true
      → Balanced needs left (none, es)
  working es c h = record {
    works = λ p. (c, agree_lem (λ x. held x false es) needs h);
    fails = λ d p. absurd (ground (arith, p));
  }

abbrev Host : Option StartError × List Effect → Type 0
Host = Balanced host_needs host_left

-- What comes before and after the part of a start that follows the owner's set-up.
abbrev host_whole : Option StartError × List Effect → Option StartError × List Effect
host_whole r = guarded true (
    before (takes speakers ∷ [])
      (before (takes owner_voice ∷ takes owner_setup ∷ takes relay ∷ []) r))
