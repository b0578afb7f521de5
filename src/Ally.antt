-- ===== src/Ally.antt =====
-- internal/ally/session.go: the ally sessions that relay audio between guilds, and their registry.
pub mod Sends
pub mod Members
pub mod Registry
mod Examples
use go_discord_caller.Base.{
  ltb, ◌==◌, if◌then◌else◌, nat_eq, nat_zero, bool_zero, list_zero, Map, lookup, insert, delete,
  length, here, ℕ, ◌+◌, ◌-◌, ◌/◌, ◌<◌, ap, Bool, false, not, ◌||◌, Option, none, some, List, [],
  ◌∷◌, ◌++◌, map,
}

-- `guild.RaidMode`: the six named modes, of which it is a string.
pub data RaidMode : Type 0 where
  one_caller guild_caller ally_listener ally_caller one_many_guild_caller one_many_ally_caller :
      RaidMode

-- A Go channel of packets: its buffer, the buffer's size, and whether it is closed.
pub record Chan {ℓ} (A : Type ℓ) : Type ℓ where
  pub queue : List A
  pub cap : ℕ
  pub closed : Bool

-- A channel is known by a number, the same one for every holder of a reference to it.
abbrev pub Chans {ℓ} : Type ℓ → Type ℓ
Chans A = Map ℕ (Chan A)

module _ {ℓ} {A : Type ℓ} where
  -- What `ch <- pkt` under a `select` with a `default` does to an open channel.
  unfoldable pub offer : A → Chan A → Chan A
  offer pkt c = if ltb (length c.queue) c.cap then record c { queue = c.queue ++ pkt ∷ [] } else c

  -- `none` is the panic on a closed channel; a nil channel is never ready.
  unfoldable pub try_send : A → ℕ → Chans A → Option (Chans A)
  unfolding lookup
  try_send pkt ch st = elim (lookup ch st) [
    | none ↦ some st
    | some c ↦ if c.closed then none else some (insert ch (offer pkt c) st)
  ]

  unfoldable pub send_all : A → List ℕ → Chans A → Option (Chans A)
  send_all pkt [] st = some st
  send_all pkt (ch ∷ chs) st = elim (try_send pkt ch st) [
    | none ↦ none
    | some st' ↦ send_all pkt chs st'
  ]

  -- `broadcast`, over the entries of `outs` in the order of the iteration.
  unfoldable pub broadcast_outs : A → ℕ → Map ℕ (List ℕ) → Chans A → Option (Chans A)
  broadcast_outs pkt exclude [] st = some st
  broadcast_outs pkt exclude ((g, chs) ∷ outs) st =
      if g == exclude then broadcast_outs pkt exclude outs st else elim (send_all pkt chs st) [
        | none ↦ none
        | some st' ↦ broadcast_outs pkt exclude outs st'
      ]

-- `map[snowflake.ID]struct{}`
abbrev pub Guilds : Type 0
Guilds = Map {0, 0} ℕ Unit

-- The loop of `HasCapturingPeers`.
unfoldable pub peer_in : ℕ → Guilds → Bool
peer_in g [] = false
peer_in g ((id, u) ∷ m) = not (id == g) || peer_in g m

-- `Code` is the type of the codes, and an observer is known by a number.
pub record Session (Code : Type 0) : Type 0 where
  pub code : Code
  pub host_guild_id : ℕ
  pub host_mode : RaidMode
  pub done_closed : Bool
  pub outs : Map ℕ (List ℕ)
  pub guests : Guilds
  pub capturing : Guilds
  pub observers : Map ℕ ℕ

module _ {Code : Type 0} where
  unfoldable pub new_session : Code → ℕ → RaidMode → Session Code
  new_session code host mode = record {
    code = code;
    host_guild_id = host;
    host_mode = mode;
    done_closed = false;
    outs = [];
    guests = [];
    capturing = [];
    observers = [];
  }

  unfoldable pub broadcast {ℓ} : {A : Type ℓ} → Session Code → A → Chans A → Option (Chans A)
  unfolding broadcast_outs
  broadcast s pkt st = broadcast_outs pkt 0 s.outs st

  unfoldable pub broadcast_from_guild {ℓ} :
      {A : Type ℓ} → Session Code → ℕ → A → Chans A → Option (Chans A)
  unfolding broadcast_outs
  broadcast_from_guild s g pkt st = broadcast_outs pkt g s.outs st

  -- The callbacks a change of membership starts.
  unfoldable pub observers_of : Session Code → List ℕ
  observers_of s = map (λ o. o.1) s.observers

  unfoldable pub add_guild : Session Code → ℕ → List ℕ → Session Code × List ℕ
  unfolding insert observers_of
  add_guild s g chs =
      let s' : Session Code = record s {
        outs = insert g chs s.outs;
        guests = if g == s.host_guild_id then s.guests else insert g tt s.guests;
      } in
      (s', observers_of s')

  unfoldable pub set_capturing : Session Code → ℕ → Session Code × List ℕ
  unfolding insert observers_of
  set_capturing s g = (record s { capturing = insert g tt s.capturing }, observers_of s)

  unfoldable pub has_capturing_peers : Session Code → ℕ → Bool
  unfolding peer_in
  has_capturing_peers s g = peer_in g s.capturing

  unfoldable pub set_route_observer : Session Code → ℕ → ℕ → Session Code
  unfolding insert
  set_route_observer s g fn = record s { observers = insert g fn s.observers }

  unfoldable pub remove_guild : Session Code → ℕ → Session Code × List ℕ
  unfolding delete observers_of
  remove_guild s g =
      let s' : Session Code = record s {
        outs = delete g s.outs;
        guests = delete g s.guests;
        capturing = delete g s.capturing;
        observers = delete g s.observers;
      } in
      (s', observers_of s')

  unfoldable pub guest_guild_ids : Session Code → List ℕ
  guest_guild_ids s = map (λ e. e.0) s.guests
