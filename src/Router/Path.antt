-- ===== src/Router/Path.antt =====
-- applyModes one mutation at a time: what a mixer or a receiver that runs beside it can see.
use go_discord_caller.Base.{
  nat_eq, nat_zero, bool_zero, list_zero, lookup, insert, get, Elem, ℕ, ◌≡◌, Bool, true, false,
  Option, none, some, List,
}
use go_discord_caller.Router.{route_mode_zero, is_copy}
use go_discord_caller.Router.Slots.{Installed, idle, spec, SourceSlot, DestSlot, Effect, Router}
use go_discord_caller.Router.Apply.{set_paused}

-- A source whose handle forwards raw packets into its destinations' speaker channels.
abbrev pub is_raw : Installed → Bool
is_raw idle = false
is_raw (spec mode bindings) = is_copy mode

abbrev pub writes_raw : Option SourceSlot → Bool
writes_raw none = false
writes_raw (some s) = is_raw s.installed

-- No destination has a running mixer and a source that writes to the same channels.
abbrev pub OneWriter : Router → Type 0
OneWriter r =
    (c : ℕ) (d : DestSlot)
    → Elem (c, d) r.destinations
    → d.has_mixer ≡ true
    → get c r.paused ≡ false
    → (i : ℕ) → Elem i d.source_ids
    → writes_raw (lookup i r.sources) ≡ false

-- One visible mutation: a mixer's pause flag, or the install of one source.
pub data Change (r r' : Router) : Type 0 where
  mixer : (c : ℕ) (p : Bool) → r' ≡ set_paused c p r → Change r r'
  source_slot :
      (i : ℕ) (s : SourceSlot) (seed : ℕ) (log : List Effect)
      → r' ≡ record r { sources = insert i s r.sources; synth_seed = seed; effects = log }
      → Change r r'

-- A run of such mutations through states that all have `P`.
pub data Run (P : Router → Type 0) : Router → Router → Type 0 where
  rest : {r : Router} → P r → Run P r r
  step : {r q r' : Router} → P r → Change r q → Run P q r' → Run P r r'

pub Run-append : {P : Router → Type 0} {r q r' : Router} → Run P r q → Run P q r' → Run P r r'
Run-append (rest p) b = b
Run-append (step p c a) b = step p c (Run-append a b)

pub Run-end : {P : Router → Type 0} {r r' : Router} → Run P r r' → P r'
Run-end (rest p) = p
Run-end (step p c a) = Run-end a

pub Run-map :
    {P Q : Router → Type 0} {r r' : Router} → ((q : Router) → P q → Q q) → Run P r r' → Run Q r r'
Run-map f (rest p) = rest (f _ p)
Run-map f (step p c a) = step (f _ p) c (Run-map f a)
