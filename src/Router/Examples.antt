-- ===== src/Router/Examples.antt =====
-- The router at two channels that hear each other.

use go_discord_caller.Router.Final.{apply_modes-paused}
use go_discord_caller.Router.Order.{compute_routes_order}
use go_discord_caller.Router.Recompute.{Topology, decide-Decided}
use go_discord_caller.Router.Safe.{Safe}
use go_discord_caller.Router.Path.{writes_raw}
use go_discord_caller.Router.Apply.{
  apply_modes, Probe, route_sources, route_dests, unique_channels, caller_counts, relay_checks,
  decide, by_id, by_channel, new,
}
use go_discord_caller.Router.Slots.{idle, SourceSlot, DestSlot, Router, contains}
use go_discord_caller.Router.Fuel.{compute_routes-total}
use go_discord_caller.Router.Writers.{compute_routes-off, compute_routes_one_writer}
use go_discord_caller.Router.Routes.{compute_routes-Mixes}
use go_discord_caller.Router.Settled.{NotCopy}
use go_discord_caller.Router.Rule.{source, dest, Mixes}
use go_discord_caller.Base.{
  ◌==◌, if◌then◌else◌, nat_eq, nat_zero, bool_zero, list_zero, Map, lookup, insert, get, All, Elem,
  here, there, ℕ, ◌≤◌, ◌≡◌, refl, ◌↔◌, ◌⊎◌, Bool, true, false, none, some, List, [], ◌∷◌, arith,
}
use go_discord_caller.Router.{
  route_off, route_copy, route_mix, route_mode_zero, is_mix, RouteSource, RouteDest, baseline,
  baseline_modes, live_count, mix_count, Cascade, force_mix, needs_mix, promote, visit, pass,
  cascade, start, compute_routes,
}

abbrev source_list : List RouteSource
source_list = record { id = 1; channel_id = 10 } ∷ record { id = 2; channel_id = 20 } ∷ []

abbrev dest_list : List RouteDest
dest_list =
    record { channel_id = 10; source_ids = 2 ∷ [] }
    ∷ record { channel_id = 20; source_ids = 1 ∷ [] }
    ∷ []

-- Two callers in channel 10, one in channel 20.
abbrev count_map : Map ℕ ℕ
count_map = (10, 2) ∷ (20, 1) ∷ []

abbrev route_map : Cascade
route_map = record {
  modes = (1, route_mix) ∷ (2, route_copy) ∷ [];
  dest_mix = (20, true) ∷ [];
  changed = false;
}

route_map_lem : compute_routes source_list dest_list count_map [] ≡ some route_map
unfolding compute_routes cascade start baseline_modes baseline pass visit needs_mix mix_count
    live_count promote force_mix get insert lookup
route_map_lem = refl

compute_routes-total_example :
    (r : Cascade) × (compute_routes source_list dest_list count_map [] ≡ some r)
compute_routes-total_example = compute_routes-total source_list dest_list count_map []

compute_routes-Mixes_example :
    let base = baseline_modes count_map source_list [] in
    ((i : ℕ) → (is_mix (get i route_map.modes) ≡ true) ↔ Mixes base [] dest_list (source i))
    × ((c : ℕ)
        → (get c route_map.dest_mix ≡ true) ↔ (
            (d : RouteDest) × Elem d dest_list
            × (d.channel_id ≡ c)
            × Mixes base [] dest_list (dest d)))
compute_routes-Mixes_example =
    compute_routes-Mixes source_list dest_list count_map [] route_map route_map_lem

compute_routes-off_example : (route_copy ≡ route_off) ↔ (get 20 count_map ≡ 0)
unfolding get lookup
compute_routes-off_example =
    compute_routes-off source_list dest_list count_map [] route_map
      (record { id = 2; channel_id = 20 }) route_map_lem (omega arith) (there (here refl))

compute_routes_one_writer_example :
    ((get 10 route_map.dest_mix ≡ true) × All (NotCopy route_map.modes) (2 ∷ []))
    ⊎ ((get 10 route_map.dest_mix ≡ false)
        × (mix_count route_map.modes (2 ∷ []) ≡ 0)
        × (live_count route_map.modes (2 ∷ []) ≤ 1)
        × (get {K = ℕ} {V = Bool} 10 [] ≡ false))
compute_routes_one_writer_example =
    compute_routes_one_writer source_list dest_list count_map [] route_map
      (record { channel_id = 10; source_ids = 2 ∷ [] }) route_map_lem (omega arith) (here refl)

abbrev slot : ℕ → ℕ → SourceSlot
slot id channel = record {
  id = id;
  channel_id = channel;
  wired = true;
  installed = idle;
  active_mode = route_off;
  active_teardown = false;
  active_users = [];
  synth_ids = [];
}

abbrev dest_slot : ℕ → List ℕ → DestSlot
dest_slot channel ids = record {
  channel_id = channel;
  has_mixer = true;
  source_ids = ids;
  ch_outs = 1;
}

abbrev fresh : Router
fresh = record {
  sources = (1, slot 1 10) ∷ (2, slot 2 20) ∷ [];
  destinations = (10, dest_slot 10 (2 ∷ [])) ∷ (20, dest_slot 20 (1 ∷ [])) ∷ [];
  paused = [];
  closed = false;
  synth_seed = 0;
  effects = [];
}

fresh-new :
    new (slot 1 10 ∷ slot 2 20 ∷ []) (dest_slot 10 (2 ∷ []) ∷ dest_slot 20 (1 ∷ []) ∷ []) [] ≡ fresh
unfolding new by_id by_channel insert
fresh-new = refl

fresh-idle : (i : ℕ) → writes_raw (lookup i fresh.sources) ≡ false
unfolding lookup
fresh-idle i = ground arith

fresh-Safe : Safe fresh.destinations fresh
unfolding lookup
fresh-Safe = record {
  one_writer = λ c d m mx p i n. fresh-idle i;
  coherent = λ i s e raw. ground arith;
  same_dests = refl;
}

fresh-Topology : Topology fresh
unfolding route_sources
fresh-Topology = record {
  channels = omega arith;
  feeds = ((there (here refl), tt), ((here refl, tt), tt));
}

abbrev callers_at : ℕ → List ℕ
callers_at c = if c == 10 then 100 ∷ 101 ∷ [] else 200 ∷ []

abbrev probe : Probe
probe = record { enumerate_callers = callers_at; has_listeners = λ c. true; relay_feed = λ c. none }

abbrev dest_list_back : List RouteDest
dest_list_back =
    record { channel_id = 20; source_ids = 1 ∷ [] }
    ∷ record { channel_id = 10; source_ids = 2 ∷ [] }
    ∷ []

route_map_back_lem : compute_routes source_list dest_list_back count_map [] ≡ some route_map
unfolding compute_routes cascade start baseline_modes baseline pass visit needs_mix mix_count
    live_count promote force_mix get insert lookup
route_map_back_lem = refl

Elem-two {ℓ} : {A : Type ℓ} {a b x : A} → Elem x (a ∷ b ∷ []) → Elem x (b ∷ a ∷ [])
Elem-two (here e) = there (here e)
Elem-two (there (here e)) = here e
Elem-two (there (there m)) = elim m [ ]

compute_routes_order_example :
    ((i : ℕ) → get i route_map.modes ≡ get i route_map.modes)
    × ((c : ℕ) → get c route_map.dest_mix ≡ get c route_map.dest_mix)
compute_routes_order_example =
    compute_routes_order source_list dest_list dest_list_back count_map [] route_map route_map
      (λ d. (Elem-two, Elem-two)) route_map_lem route_map_back_lem

decided_lem : decide probe fresh ≡ some route_map
unfolding decide route_sources route_dests caller_counts unique_channels relay_checks contains
    compute_routes cascade start baseline_modes baseline pass visit needs_mix mix_count live_count
    promote force_mix get insert lookup
decided_lem = refl

apply_modes-paused_example :
    get 20 (apply_modes route_map.modes route_map.dest_mix [] ((20, true) ∷ []) fresh).paused
    ≡ false
unfolding get lookup
apply_modes-paused_example =
    apply_modes-paused route_map.modes route_map.dest_mix [] ((20, true) ∷ []) fresh 20
      (dest_slot 20 (1 ∷ [])) (decide-Decided probe fresh route_map fresh-Topology decided_lem)
      fresh-Safe (there (here refl)) refl
