-- ===== src/Router/Slots.antt =====
-- internal/manager/router/router.go: the state of the router, and the synthetic ids it hands out.
use go_discord_caller.Base.{
  ◌==◌, if◌then◌else◌, nat_eq, nat_zero, bool_zero, Map, lookup, insert, length, ℕ, ◌+◌, ◌%◌, ◌^◌,
  Bool, true, false, ◌&&◌, ◌||◌, none, some, List, [], ◌∷◌,
}
use go_discord_caller.Router.{RouteMode, route_mode_zero, is_mix}

-- A user of a source with the mixer input that carries them.
pub record UserBinding : Type 0 where
  pub user_id : ℕ
  pub synth_id : ℕ

-- What the fanout handle of a source dispatches to: `BuildInstall`'s result is kept as the mode
-- and the bindings that it was asked for. A handle starts, and after Close ends, on `idle`.
pub data Installed : Type 0 where
  idle : Installed
  spec : RouteMode → List UserBinding → Installed

pub record SourceSlot : Type 0 where
  pub id : ℕ
  pub channel_id : ℕ
  -- `s.Handle != nil && s.BuildInstall != nil`
  pub wired : Bool
  pub installed : Installed
  pub active_mode : RouteMode
  -- `s.activeTeardown != nil`
  pub active_teardown : Bool
  pub active_users : List ℕ
  pub synth_ids : Map ℕ ℕ

pub record DestSlot : Type 0 where
  pub channel_id : ℕ
  -- `d.Mixer != nil`
  pub has_mixer : Bool
  pub source_ids : List ℕ
  -- `len(d.ChOuts)`
  pub ch_outs : ℕ

-- What the router does to the world outside it, newest first.
pub data Effect : Type 0 where
  installs : ℕ → Effect
  tears_down : ℕ → Effect
  transition : RouteMode → RouteMode → Effect

pub record Router : Type 0 where
  pub sources : Map ℕ SourceSlot
  pub destinations : Map ℕ DestSlot
  -- The pause flags of the destinations' mixers, by channel.
  pub paused : Map ℕ Bool
  pub closed : Bool
  pub synth_seed : ℕ
  pub effects : List Effect

unfoldable pub contains : List ℕ → ℕ → Bool
contains [] x = false
contains (y ∷ ys) x = y == x || contains ys x

unfoldable pub all_in : List ℕ → List ℕ → Bool
all_in a [] = true
all_in a (x ∷ b) = contains a x && all_in a b

unfoldable pub same_user_set : List ℕ → List ℕ → Bool
unfolding all_in contains
same_user_set a b = if length a == length b then all_in a b else false

-- `(uint64(1) << 63) | seed`: bit 63 is set and the lower bits are kept.
unfoldable pub synth_of : ℕ → ℕ
synth_of seed = 2 ^ 63 + seed % 2 ^ 63

-- `r.synthSeed++` on a uint64.
abbrev pub next_seed : ℕ → ℕ
next_seed seed = (seed + 1) % 2 ^ 64

pub record Synths : Type 0 where
  pub ids : Map ℕ ℕ
  pub seed : ℕ

-- `synthIDForLocked`: the id, and the map and counter after it.
unfoldable pub synth_id_for : Synths → ℕ → ℕ × Synths
synth_id_for st user = elim (lookup user st.ids) [
  | some id ↦ (id, st)
  | none ↦
      let seed = next_seed st.seed in
      (synth_of seed, record { ids = insert user (synth_of seed) st.ids; seed = seed })
]

unfoldable pub bind_loop : Synths → List ℕ → List UserBinding × Synths
bind_loop st [] = ([], st)
bind_loop st (u ∷ us) =
    let (id, st') = synth_id_for st u in
    let (rest, st'') = bind_loop st' us in (record { user_id = u; synth_id = id } ∷ rest, st'')

-- `bindUsersLocked`
unfoldable pub bind_users : Synths → List ℕ → RouteMode → List UserBinding × Synths
unfolding bind_loop synth_id_for
bind_users st users mode = if is_mix mode then bind_loop st users else ([], st)

-- `pruneSynthIDsLocked`
unfoldable pub prune_synth_ids : List ℕ → Map ℕ ℕ → Map ℕ ℕ
prune_synth_ids present [] = []
prune_synth_ids present ((u, id) ∷ ids) =
    if contains present u
    then (u, id) ∷ prune_synth_ids present ids
    else prune_synth_ids present ids
