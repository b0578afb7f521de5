-- ===== src/Router/Apply.antt =====
-- internal/manager/router/router.go: applyModes, setDestPaused, Close, and Recompute around them.
use go_discord_caller.Base.{
  ltb, if◌then◌else◌, bool_eq, nat_eq, string_eq, pair_eq, nat_zero, bool_zero, list_zero,
  string_zero, Map, lookup, insert, get, length, ℕ, Bool, true, false, not, ◌&&◌, Option, none,
  some, List, [], ◌∷◌, ◌++◌,
}
use go_discord_caller.Router.{
  RouteMode, route_off, route_copy, route_mix, route_mode_zero, is_off, is_copy, is_mix,
  RouteSource, RouteDest, Modes, Cascade, compute_routes,
}
use go_discord_caller.Router.Slots.{
  idle, spec, SourceSlot, DestSlot, Effect, installs, tears_down, transition, Router, contains,
  same_user_set, bind_users, prune_synth_ids,
}

unfoldable pub mode_eq : RouteMode → RouteMode → Bool
mode_eq route_off b = is_off b
mode_eq route_copy b = is_copy b
mode_eq route_mix b = is_mix b

unfoldable pub set_paused : ℕ → Bool → Router → Router
set_paused c p r = record r { paused = insert c p r.paused }

-- A mixer runs if the cascade has something to mix and, unless nothing is attached to it, somebody
-- listens.
unfoldable pub should_run : Map ℕ Bool → Map ℕ Bool → ℕ → DestSlot → Bool
should_run dest_mix listeners c d =
    if get c dest_mix && ltb 0 d.ch_outs && not (get c listeners) then false else get c dest_mix

-- One destination of `setDestPaused`.
unfoldable pub pause_dest : Map ℕ Bool → Map ℕ Bool → Bool → ℕ × DestSlot → Router → Router
pause_dest dest_mix listeners pausing (c, d) r =
    let run = should_run dest_mix listeners c d in
    if d.has_mixer then if bool_eq run pausing then r else set_paused c (not run) r else r

unfoldable pub set_dest_paused : Map ℕ Bool → Map ℕ Bool → Bool → Map ℕ DestSlot → Router → Router
set_dest_paused dest_mix listeners pausing [] r = r
set_dest_paused dest_mix listeners pausing (d ∷ ds) r =
    set_dest_paused dest_mix listeners pausing ds (pause_dest dest_mix listeners pausing d r)

unfoldable pub needs_install : SourceSlot → RouteMode → List ℕ → Bool
needs_install s mode users =
    if mode_eq s.active_mode mode
    then is_mix mode && not (same_user_set s.active_users users)
    else true

-- The slot after a reinstall, with the ids and the counter that it used.
unfoldable pub installed_slot : SourceSlot → RouteMode → List ℕ → ℕ → SourceSlot × ℕ
installed_slot s mode users seed =
    let (bindings, st) = bind_users (record { ids = s.synth_ids; seed = seed }) users mode in
    if s.wired
    then (
      record s {
        installed = spec mode bindings;
        active_teardown = true;
        active_users = if is_mix mode then users else [];
        active_mode = mode;
        synth_ids = prune_synth_ids users st.ids;
      },
      st.seed,
    )
    else (
      record s {
        active_teardown = false;
        active_users = [];
        active_mode = mode;
        synth_ids = prune_synth_ids users s.synth_ids;
      },
      seed,
    )

unfoldable pub install_effects : ℕ → SourceSlot → RouteMode → List Effect → List Effect
install_effects id s mode log =
    let torn = if s.active_teardown then tears_down id ∷ log else log in
    let put = if s.wired then installs id ∷ torn else torn in
    if mode_eq s.active_mode mode then put else transition s.active_mode mode ∷ put

unfoldable pub reinstall : ℕ → SourceSlot → RouteMode → List ℕ → Router → Router
reinstall id s mode users r =
    let (s', seed) = installed_slot s mode users r.synth_seed in
    record r {
      sources = insert id s' r.sources;
      synth_seed = seed;
      effects = install_effects id s mode r.effects;
    }

-- One entry of the loop over `sourceModes`.
unfoldable pub apply_source : Map ℕ (List ℕ) → ℕ × RouteMode → Router → Router
apply_source users (id, mode) r = elim (lookup id r.sources) [
  | none ↦ r
  | some s ↦
      let us = get s.channel_id users in
      if needs_install s mode us then reinstall id s mode us r else r
]

unfoldable pub apply_sources : Map ℕ (List ℕ) → Modes → Router → Router
apply_sources users [] r = r
apply_sources users (m ∷ ms) r = apply_sources users ms (apply_source users m r)

-- `applyModes`: mixers that have to stop, then the installs, then mixers that have to run.
unfoldable pub apply_modes : Modes → Map ℕ Bool → Map ℕ (List ℕ) → Map ℕ Bool → Router → Router
apply_modes modes dest_mix users listeners r =
    let paused = set_dest_paused dest_mix listeners true r.destinations r in
    let routed = apply_sources users modes paused in
    set_dest_paused dest_mix listeners false routed.destinations routed

-- What Recompute asks of the outside world: the voice cache, and whether another server's relay
-- feeds a destination (`none` where `RelayFeed` is nil).
pub record Probe : Type 0 where
  pub enumerate_callers : ℕ → List ℕ
  pub has_listeners : ℕ → Bool
  pub relay_feed : ℕ → Option Bool

unfoldable pub route_sources : Map ℕ SourceSlot → List RouteSource
route_sources [] = []
route_sources ((k, s) ∷ ss) = record { id = s.id; channel_id = s.channel_id } ∷ route_sources ss

unfoldable pub route_dests : Map ℕ DestSlot → List RouteDest
route_dests [] = []
route_dests ((c, d) ∷ ds) = record { channel_id = c; source_ids = d.source_ids } ∷ route_dests ds

unfoldable pub unique_channels : Map ℕ SourceSlot → List ℕ → List ℕ
unique_channels [] seen = seen
unique_channels ((k, s) ∷ ss) seen =
    unique_channels ss (if contains seen s.channel_id then seen else seen ++ s.channel_id ∷ [])

unfoldable pub users_per_channel : Probe → List ℕ → Map ℕ (List ℕ)
users_per_channel p [] = []
users_per_channel p (c ∷ cs) = insert c (p.enumerate_callers c) (users_per_channel p cs)

unfoldable pub caller_counts : Probe → List ℕ → Map ℕ ℕ
caller_counts p [] = []
caller_counts p (c ∷ cs) = insert c (length (p.enumerate_callers c)) (caller_counts p cs)

unfoldable pub listeners_per_channel : Probe → Map ℕ DestSlot → Map ℕ Bool
listeners_per_channel p [] = []
listeners_per_channel p ((c, d) ∷ ds) =
    if ltb 0 d.ch_outs
    then insert c (p.has_listeners c) (listeners_per_channel p ds)
    else listeners_per_channel p ds

unfoldable pub relay_checks : Probe → Map ℕ DestSlot → Map ℕ Bool
relay_checks p [] = []
relay_checks p ((c, d) ∷ ds) = elim (p.relay_feed c) [
  | none ↦ relay_checks p ds
  | some fed ↦ insert c fed (relay_checks p ds)
]

-- The routes that Recompute computes from its snapshot.
unfoldable pub decide : Probe → Router → Option Cascade
decide p r =
    compute_routes (route_sources r.sources) (route_dests r.destinations)
      (caller_counts p (unique_channels r.sources [])) (relay_checks p r.destinations)

-- `Recompute`, with nothing between its snapshot, where it looks whether the router is closed, and
-- applyModes, which does not look again: a Close between the two is not modelled. The report to `observeCapture` at its end is `capturing`.
unfoldable pub recompute : Probe → Router → Router
recompute p r = if r.closed then r else elim (decide p r) [
  | none ↦ r
  | some routes ↦
      apply_modes routes.modes routes.dest_mix (users_per_channel p (unique_channels r.sources []))
        (listeners_per_channel p r.destinations) r
]

-- The map that `notifyCapture` hands to its observer.
unfoldable pub capturing : Modes → Map ℕ Bool
capturing [] = []
capturing ((id, mode) ∷ ms) = (id, not (is_off mode)) ∷ capturing ms

-- One source of the loop in `Close`.
unfoldable pub close_source : ℕ × SourceSlot → SourceSlot × List Effect
close_source (id, s) = (
  record s { installed = if s.wired then idle else s.installed; active_teardown = false },
  if s.active_teardown then tears_down id ∷ [] else [],
)

unfoldable pub close_sources : Map ℕ SourceSlot → Router → Router
close_sources [] r = r
close_sources ((id, s) ∷ ss) r =
    let (s', torn) = close_source (id, s) in
    close_sources ss (record r { sources = insert id s' r.sources; effects = torn ++ r.effects })

unfoldable pub close : Router → Router
close r = close_sources r.sources (record r { closed = true })

unfoldable pub by_id : List SourceSlot → Map ℕ SourceSlot → Map ℕ SourceSlot
by_id [] m = m
by_id (s ∷ ss) m = by_id ss (insert s.id s m)

unfoldable pub by_channel : List DestSlot → Map ℕ DestSlot → Map ℕ DestSlot
by_channel [] m = m
by_channel (d ∷ ds) m = by_channel ds (insert d.channel_id d m)

-- `New`: keyed by the slots' own ids and channels; the mixers' pause flags are as they are.
unfoldable pub new : List SourceSlot → List DestSlot → Map ℕ Bool → Router
new sources destinations paused = record {
  sources = by_id sources [];
  destinations = by_channel destinations [];
  paused = paused;
  closed = false;
  synth_seed = 0;
  effects = [];
}
