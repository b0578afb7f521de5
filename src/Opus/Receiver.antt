-- ===== src/Opus/Receiver.antt =====
-- internal/opus/voice_receiver.go: the handle that survives a reconnect, and a receiver with its
-- per-user caches. `Install` and `Store` are one atomic step, as is each use of the caches under
-- `cacheMu`. A pointer is the number of the allocation it came from, so a new one equals no other.
pub mod Dispatch
pub mod Sound
pub mod Runs
use go_discord_caller.Base.{
  ◌==◌, if◌then◌else◌, nat_eq, string_eq, pair_eq, nat_zero, bool_zero, list_zero, string_zero, Map,
  lookup, insert, delete, get, drop, here, ℕ, ◌+◌, ◌-◌, ◌/◌, ◌%◌, ◌^◌, ap, Bool, true, false, not,
  ◌&&◌, ◌||◌, Option, none, some, List, [], ◌∷◌, ◌++◌, map,
}

-- What `Install` stores. A channel, a source buffer and a callback are known by a number.
pub record FanoutDispatch : Type 0 where
  pub opus_targets : List ℕ
  pub source_targets : Map ℕ (List ℕ)
  pub opus_callback : Bool
  pub on_close : Option ℕ

-- `installTargetsForUser`: a nil map and a missing key read as nil.
unfoldable pub install_targets_for_user : FanoutDispatch → ℕ → List ℕ
unfolding get lookup
install_targets_for_user d user = get user d.source_targets

pub record FanoutHandle : Type 0 where
  pub state : Option (ℕ × FanoutDispatch)
  pub closed_once : Bool

unfoldable pub new_fanout_handle : FanoutHandle
new_fanout_handle = record { state = none; closed_once = false }

-- `Install`, at the address of the new bundle.
unfoldable pub install : ℕ → FanoutDispatch → FanoutHandle → FanoutHandle
install address d h = record h { state = some (address, d) }

-- `FanoutHandle.Close`: the hook it runs.
unfoldable pub close_handle : FanoutHandle → Option ℕ × FanoutHandle
close_handle h =
    if h.closed_once
    then (none, h)
    else (elim h.state [ none ↦ none | some s ↦ s.1.on_close ], record h { closed_once = true })

pub record Arrival : Type 0 where
  pub at_time : ℕ
  pub timestamp : ℕ

pub record VoiceReceiver : Type 0 where
  pub closed : Bool
  pub bot_id : ℕ
  pub decoders : Map ℕ ℕ
  pub cached_state : Option ℕ
  pub cached_user_id : ℕ
  pub cached_targets : List ℕ
  pub last_arrivals : Map ℕ Arrival

unfoldable pub new_voice_receiver : ℕ → VoiceReceiver
new_voice_receiver bot_id = record {
  closed = false;
  bot_id = bot_id;
  decoders = [];
  cached_state = none;
  cached_user_id = 0;
  cached_targets = [];
  last_arrivals = [];
}

-- Whether the cache is for this bundle and user.
unfoldable pub hit : ℕ → ℕ → VoiceReceiver → Bool
hit address user v = elim v.cached_state [
  | none ↦ false
  | some a ↦ a == address && v.cached_user_id == user
]

-- `targetsAndDecoder`, the lookup with its cache.
unfoldable pub cached_lookup : ℕ → FanoutDispatch → ℕ → VoiceReceiver → List ℕ × VoiceReceiver
unfolding hit install_targets_for_user
cached_lookup address d user v = if hit address user v then (v.cached_targets, v) else (
  install_targets_for_user d user,
  record v {
    cached_state = some address;
    cached_user_id = user;
    cached_targets = install_targets_for_user d user;
  },
)

-- The user's decoder, which is made on first use: `made` is what `NewDecoder` returns.
unfoldable pub decoder_for : Option ℕ → ℕ → VoiceReceiver → Option ℕ × VoiceReceiver
unfolding lookup insert
decoder_for made user v = elim (lookup user v.decoders) [
  | some dec ↦ (some dec, v)
  | none ↦ elim made [
    | none ↦ (none, v)
    | some dec ↦ (some dec, record v { decoders = insert user dec v.decoders })
  ]
]

unfoldable pub targets_and_decoder :
    Option ℕ → ℕ → FanoutDispatch → ℕ → VoiceReceiver → List ℕ × Option ℕ × VoiceReceiver
unfolding cached_lookup decoder_for
targets_and_decoder made address d user v =
    let (targets, w) = cached_lookup address d user v in
    elim targets [
      | [] ↦ ([], none, w)
      | t ∷ ts ↦ (let (dec, x) = decoder_for made user w in (t ∷ ts, dec, x))
    ]

-- `CleanupUser`
unfoldable pub cleanup_user : ℕ → VoiceReceiver → VoiceReceiver
unfolding delete
cleanup_user user v =
    let w : VoiceReceiver =
      if v.cached_user_id == user
      then record v { cached_state = none; cached_user_id = 0; cached_targets = [] }
      else v in
    record w { decoders = delete user w.decoders; last_arrivals = delete user w.last_arrivals }

unfoldable pub close_receiver : VoiceReceiver → VoiceReceiver
close_receiver v = record v { closed = true }

abbrev pub mixer_frame_size : ℕ
mixer_frame_size = 960

-- `timestamp - prev.timestamp` on uint32.
unfoldable pub timestamp_step : ℕ → ℕ → ℕ
timestamp_step now before = (now + (2 ^ 32 - before)) % 2 ^ 32

-- `recordReceiveInterval`: the interval it records.
unfoldable pub record_receive_interval : ℕ → Arrival → VoiceReceiver → Option ℕ × VoiceReceiver
unfolding lookup insert timestamp_step
record_receive_interval user now v =
    let w : VoiceReceiver = record v { last_arrivals = insert user now v.last_arrivals } in
    elim (lookup user v.last_arrivals) [
      | none ↦ (none, w)
      | some prev ↦
          if timestamp_step now.timestamp prev.timestamp == mixer_frame_size
          then (some (now.at_time - prev.at_time), w)
          else (none, w)
    ]
