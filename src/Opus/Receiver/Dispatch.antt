-- ===== src/Opus/Receiver/Dispatch.antt =====
-- internal/opus/voice_receiver.go: a packet, from its receipt to the channels and the mixers.
use go_discord_caller.Base.{
  ◌==◌, if◌then◌else◌, nat_eq, string_eq, pair_eq, nat_zero, bool_zero, list_zero, string_zero, ℕ,
  Bool, true, false, not, ◌&&◌, ◌||◌, Option, none, some, List, [], ◌∷◌, ◌++◌,
}
use go_discord_caller.Opus.Ring.{audio_source_cap}
use go_discord_caller.Opus.Receiver.{
  FanoutDispatch, FanoutHandle, Arrival, VoiceReceiver, targets_and_decoder,
  record_receive_interval,
}

-- What one packet makes the receiver do.
pub data Effect : Type 0 where
  interval : ℕ → Effect
  queued dropped : ℕ → Effect
  called_back : Effect
  decoded : ℕ → Effect
  fed : ℕ → Effect
  frames_lost : Effect

-- What the rest of the program answers: for each raw target, whether the send finds room, no room,
-- or the receiver closed meanwhile; what `NewDecoder` and `Decode` return; and how many frames are
-- ahead in each source buffer.
pub data Send : Type 0 where
  room full done : Send

pub record Answers : Type 0 where
  pub sends : ℕ → Send
  pub decoder_made : Bool
  pub decodes : Bool
  pub ahead : ℕ → ℕ

-- The loop over the raw targets, which stops where the receiver is found closed.
unfoldable pub send_raw : Answers → List ℕ → List Effect × Bool
send_raw e [] = ([], true)
send_raw e (out ∷ outs) =
    let rest = send_raw e outs in
    elim (e.sends out) [
      | room ↦ (queued out ∷ rest.0, rest.1)
      | full ↦ (dropped out ∷ rest.0, rest.1)
      | done ↦ ([], false)
    ]

-- The loop over the source buffers, and whether one of them evicted a frame.
unfoldable pub feed_all : Answers → List ℕ → List Effect × Bool
feed_all e [] = ([], false)
feed_all e (t ∷ ts) =
    let rest = feed_all e ts in (fed t ∷ rest.0, (e.ahead t == audio_source_cap) || rest.1)

-- The decode, and the frames for the mixers.
unfoldable pub feed_frames : Answers → List ℕ → Option ℕ → List Effect
unfolding feed_all
feed_frames e [] dec = []
feed_frames e (t ∷ ts) none = []
feed_frames e (t ∷ ts) (some dec) =
    if e.decodes
    then decoded dec ∷ (feed_all e (t ∷ ts)).0
      ++ (if (feed_all e (t ∷ ts)).1 then frames_lost ∷ [] else [])
    else decoded dec ∷ []

-- `dispatchFanout` once the targets and the decoder are known.
unfoldable pub fan_out : Answers → FanoutDispatch → List ℕ → Option ℕ → List Effect
unfolding send_raw feed_frames
fan_out e d targets dec =
    let (sent, going) = send_raw e d.opus_targets in
    if going
    then sent ++ (if d.opus_callback then called_back ∷ [] else []) ++ feed_frames e targets dec
    else sent

-- `fresh` is the address of the decoder that `NewDecoder` would make.
unfoldable pub dispatch_fanout :
    Answers → ℕ → ℕ → FanoutDispatch → ℕ → VoiceReceiver → List Effect × VoiceReceiver
unfolding targets_and_decoder fan_out
dispatch_fanout e fresh address d user v =
    let made : Option ℕ = if e.decoder_made then some fresh else none in
    let (targets, dec, w) = targets_and_decoder made address d user v in
    (fan_out e d targets dec, w)

-- A packet: the bytes of its payload, its timestamp, and when it arrived.
pub record Packet : Type 0 where
  pub size : ℕ
  pub arrival : Arrival

-- The guards of `ReceiveOpusFrame`, where `allow` is none when the filter is nil.
unfoldable pub ignores : Option (ℕ → Bool) → ℕ → Packet → VoiceReceiver → Bool
ignores allow user p v =
    let denied : Bool = elim allow [ none ↦ false | some f ↦ not (f user) ] in
    p.size == 0 || v.closed || (not (v.bot_id == 0) && user == v.bot_id) || denied

-- Its rest: the interval, and the targets if there is a bundle.
unfoldable pub heard :
    Answers
    → ℕ
    → Option (ℕ × FanoutDispatch)
    → ℕ
    → Packet
    → VoiceReceiver
    → List Effect × VoiceReceiver
unfolding dispatch_fanout record_receive_interval
heard e fresh state user p v =
    let seen = record_receive_interval user p.arrival v in
    let noted : List Effect = elim seen.0 [ none ↦ [] | some i ↦ interval i ∷ [] ] in
    elim state [
      | none ↦ (noted, seen.1)
      | some s ↦ (let (sent, w) = dispatch_fanout e fresh s.0 s.1 user seen.1 in (noted ++ sent, w))
    ]

-- `ReceiveOpusFrame`, with no packet where it is nil.
unfoldable pub receive_opus_frame :
    Option (ℕ → Bool)
    → Answers
    → ℕ
    → FanoutHandle
    → ℕ
    → Option Packet
    → VoiceReceiver
    → List Effect × VoiceReceiver
unfolding ignores heard
receive_opus_frame allow e fresh h user none v = ([], v)
receive_opus_frame allow e fresh h user (some p) v =
    if ignores allow user p v then ([], v) else heard e fresh h.state user p v
