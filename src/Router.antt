-- ===== src/Router.antt =====
-- internal/manager/router/router.go: the cascade rule of the auto-router.
pub mod Pass
pub mod Settled
pub mod Fuel
pub mod Rule
pub mod Routes
pub mod Writers
pub mod Order
pub mod Slots
pub mod Apply
pub mod Path
pub mod Pausing
pub mod Safe
pub mod Installing
pub mod Applying
pub mod Keys
pub mod Recompute
pub mod Final
mod Examples
use go_discord_caller.Base.{
  ltb, leb, ◌==◌, if◌then◌else◌, nat_eq, Zero, nat_zero, bool_zero, Map, insert, get, length, here,
  ℕ, zero, suc, ◌+◌, ◌-◌, ◌/◌, ap, Bool, true, false, ◌||◌, Option, none, some, List, [], ◌∷◌,
}

pub data RouteMode : Type 0 where
  route_off route_copy route_mix : RouteMode

instance abbrev pub route_mode_zero : Zero RouteMode
route_mode_zero = record { zero_value = route_off }

abbrev pub is_off : RouteMode → Bool
is_off route_off = true
is_off _ = false

abbrev pub is_copy : RouteMode → Bool
is_copy route_copy = true
is_copy _ = false

abbrev pub is_mix : RouteMode → Bool
is_mix route_mix = true
is_mix _ = false

pub record RouteSource : Type 0 where
  pub id : ℕ
  pub channel_id : ℕ

pub record RouteDest : Type 0 where
  pub channel_id : ℕ
  pub source_ids : List ℕ

abbrev pub Modes : Type 0
Modes = Map ℕ RouteMode

-- The `switch` on C(channel); a caller count is a `len`, so it is never negative.
unfoldable pub baseline : ℕ → RouteMode
baseline c = if c == 0 then route_off else if c == 1 then route_copy else route_mix

-- The first loop of `computeRoutes`.
unfoldable pub baseline_modes : Map ℕ ℕ → List RouteSource → Modes → Modes
baseline_modes counts [] modes = modes
baseline_modes counts (s ∷ ss) modes =
    baseline_modes counts ss (insert s.id (baseline (get s.channel_id counts)) modes)

-- `live` and `mix` of the counting loop over `d.sourceIDs`.
unfoldable pub live_count : Modes → List ℕ → ℕ
live_count modes [] = 0
live_count modes (i ∷ is) =
    if is_off (get i modes) then live_count modes is else suc (live_count modes is)

unfoldable pub mix_count : Modes → List ℕ → ℕ
mix_count modes [] = 0
mix_count modes (i ∷ is) =
    if is_mix (get i modes) then suc (mix_count modes is) else mix_count modes is

-- The variables that the fixpoint loop changes.
pub record Cascade : Type 0 where
  pub modes : Modes
  pub dest_mix : Map ℕ Bool
  pub changed : Bool

-- The loop that turns the copy-mode sources of a promoted destination to mix.
unfoldable pub force_mix : List ℕ → Cascade → Cascade
force_mix [] st = st
force_mix (i ∷ is) st = force_mix is (
    if is_copy (get i st.modes)
    then record st { modes = insert i route_mix st.modes; changed = true }
    else st)

unfoldable pub needs_mix : Map ℕ Bool → RouteDest → Modes → Bool
needs_mix relay_fed d modes =
    ltb 0 (mix_count modes d.source_ids)
    || leb 2 (live_count modes d.source_ids)
    || get d.channel_id relay_fed

unfoldable pub promote : RouteDest → Cascade → Cascade
promote d st =
    if get d.channel_id st.dest_mix
    then st
    else record st { dest_mix = insert d.channel_id true st.dest_mix; changed = true }

-- The body of the loop over the destinations.
unfoldable pub visit : Map ℕ Bool → RouteDest → Cascade → Cascade
visit relay_fed d st =
    if needs_mix relay_fed d st.modes then force_mix d.source_ids (promote d st) else st

unfoldable pub pass : Map ℕ Bool → List RouteDest → Cascade → Cascade
pass relay_fed [] st = st
pass relay_fed (d ∷ ds) st = pass relay_fed ds (visit relay_fed d st)

-- `for changed := true; changed; { changed = false; ... }`; `none` means that the fuel ran out.
unfoldable pub cascade : ℕ → Map ℕ Bool → List RouteDest → Cascade → Option Cascade
cascade zero relay_fed ds st = none
cascade (suc f) relay_fed ds st =
    let st' = pass relay_fed ds (record st { changed = false }) in
    let rest = cascade f relay_fed ds st' in if st'.changed then rest else some st'

unfoldable pub start : Map ℕ ℕ → List RouteSource → Cascade
start counts sources = record {
  modes = baseline_modes counts sources [];
  dest_mix = [];
  changed = true;
}

-- `computeRoutes`, with fuel for every source and destination to change once.
unfoldable pub compute_routes :
    List RouteSource → List RouteDest → Map ℕ ℕ → Map ℕ Bool → Option Cascade
compute_routes sources ds counts relay_fed =
    cascade (suc (length sources + length ds)) relay_fed ds (start counts sources)
