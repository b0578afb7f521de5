-- ===== src/Opus/Receiver/Runs.antt =====
-- internal/opus/voice_receiver.go: a source over its whole life. The wiring installs targets, the
-- gateway cleans users up, packets arrive, and a reconnect puts a new receiver on the same handle.
use go_discord_caller.Base.{
  ◌==◌, Bool-cases, some_inj, nat_eq, string_eq, pair_eq, nat_zero, bool_zero, list_zero,
  string_zero, lookup, insert, ℕ, suc, ◌≡◌, sym, ap, subst, ◌≢◌, inl, inr, Bool, Option, none, some,
  List, [], ◌∷◌, arith,
}
use go_discord_caller.Opus.Receiver.{
  FanoutDispatch, install_targets_for_user, FanoutHandle, new_fanout_handle, install, Arrival,
  VoiceReceiver, new_voice_receiver, targets_and_decoder, cleanup_user, close_receiver,
  record_receive_interval,
}
use go_discord_caller.Opus.Receiver.Sound.{
  Apart-suc, Apart-delete, Sound, Sound-suc, Fresh-empty, Apart-empty, <_irrefl,
  targets_and_decoder_current, targets_and_decoder-Sound,
}
use go_discord_caller.Opus.Receiver.Dispatch.{
  Answers, dispatch_fanout, Packet, ignores, heard, receive_opus_frame,
}

-- `next` is the address of the next allocation.
pub record Source : Type 0 where
  pub handle : FanoutHandle
  pub receiver : VoiceReceiver
  pub next : ℕ

pub data Event : Type 0 where
  installs : FanoutDispatch → Event
  packets : Answers → ℕ → Option Packet → Event
  cleanups : ℕ → Event
  closes reconnects : Event

unfoldable pub start : ℕ → Source
unfolding new_fanout_handle new_voice_receiver
start bot_id = record { handle = new_fanout_handle; receiver = new_voice_receiver bot_id; next = 0 }

module _ (bot_id : ℕ) (allow_user : Option (ℕ → Bool)) where
  unfoldable pub happen : Event → Source → Source
  unfolding install receive_opus_frame cleanup_user close_receiver new_voice_receiver
  happen (installs d) s = record s { handle = install s.next d s.handle; next = suc s.next }
  happen (packets e user p) s = record s {
    receiver = (receive_opus_frame allow_user e s.next s.handle user p s.receiver).1;
    next = suc s.next;
  }
  happen (cleanups user) s = record s { receiver = cleanup_user user s.receiver }
  happen closes s = record s { receiver = close_receiver s.receiver }
  happen reconnects s = record s { receiver = new_voice_receiver bot_id }

  unfoldable pub events : List Event → Source → Source
  unfolding happen
  events [] s = s
  events (x ∷ xs) s = events xs (happen x s)

record_receive_interval_kept :
    (user : ℕ) (a : Arrival) (v : VoiceReceiver)
    → (record_receive_interval user a v).1
      ≡ record v { last_arrivals = insert user a v.last_arrivals }
unfolding record_receive_interval
record_receive_interval_kept user a v = ground arith

heard-Sound :
    (e : Answers) (n : ℕ) (state : Option (ℕ × FanoutDispatch)) (user : ℕ) (p : Packet)
    (v : VoiceReceiver)
    → Sound n state v
    → Sound (suc n) state (heard e n state user p v).1
unfolding heard dispatch_fanout
heard-Sound e n none user p v q =
    subst (Sound (suc n) none) (sym (record_receive_interval_kept user p.arrival v))
      (Sound-suc n none v q)
heard-Sound e n (some s) user p v q =
    let w = (record_receive_interval user p.arrival v).1 in
    (targets_and_decoder-Sound n s.0 s.1 e.decoder_made user w
      (subst (Sound n (some s)) (sym (record_receive_interval_kept user p.arrival v)) q)).1

receive-Sound :
    (allow : Option (ℕ → Bool)) (e : Answers) (n : ℕ) (h : FanoutHandle) (user : ℕ)
    (p : Option Packet) (v : VoiceReceiver)
    → Sound n h.state v
    → Sound (suc n) h.state (receive_opus_frame allow e n h user p v).1
unfolding receive_opus_frame
receive-Sound allow e n h user none v q = Sound-suc n h.state v q
receive-Sound allow e n h user (some p) v q = elim (Bool-cases (ignores allow user p v)) [
  | inl t ↦ rw (t, receive_opus_frame) (Sound-suc n h.state v q)
  | inr f ↦ rw (f, receive_opus_frame) (heard-Sound e n h.state user p v q)
]

cleanup-Sound :
    (n : ℕ) (state : Option (ℕ × FanoutDispatch)) (user : ℕ) (v : VoiceReceiver)
    → Sound n state v
    → Sound n state (cleanup_user user v)
unfolding cleanup_user
cleanup-Sound n state user v q = elim (Bool-cases (v.cached_user_id == user)) [
  | inl t ↦
      rw (t, cleanup_user) (Fresh-empty n state q.0.installed, Apart-delete n user v.decoders q.1)
  | inr f ↦ rw (f, cleanup_user) (q.0, Apart-delete n user v.decoders q.1)
]

happen-Sound :
    (bot_id : ℕ) (allow : Option (ℕ → Bool)) (x : Event) (s : Source)
    → Sound s.next s.handle.state s.receiver
    → let t = happen bot_id allow x s in Sound t.next t.handle.state t.receiver
unfolding happen install close_receiver new_voice_receiver lookup
happen-Sound bot_id allow (installs d) s q = (
  record {
    installed = λ a c h. omega (arith, ap (λ x. x.0) (some_inj h));
    filled = λ a h. omega (arith, q.0.filled a h);
    agrees =
        λ a c h g. absurd (<_irrefl a (omega (arith, ap (λ x. x.0) (some_inj h), q.0.filled a g)));
  },
  Apart-suc s.next s.receiver.decoders q.1,
)
happen-Sound bot_id allow (packets e user p) s q =
    receive-Sound allow e s.next s.handle user p s.receiver q
happen-Sound bot_id allow (cleanups user) s q =
    cleanup-Sound s.next s.handle.state user s.receiver q
happen-Sound bot_id allow closes s q = q
happen-Sound bot_id allow reconnects s q =
    (Fresh-empty s.next s.handle.state q.0.installed, Apart-empty s.next)

events-Sound :
    (bot_id : ℕ) (allow : Option (ℕ → Bool)) (xs : List Event) (s : Source)
    → Sound s.next s.handle.state s.receiver
    → let t = events bot_id allow xs s in Sound t.next t.handle.state t.receiver
unfolding events
events-Sound bot_id allow [] s q = q
events-Sound bot_id allow (x ∷ xs) s q =
    events-Sound bot_id allow xs (happen bot_id allow x s) (happen-Sound bot_id allow x s q)

start-Sound : (bot_id : ℕ) → let s = start bot_id in Sound s.next s.handle.state s.receiver
unfolding start new_fanout_handle new_voice_receiver
start-Sound bot_id = (Fresh-empty 0 none (λ a d h. ground (arith, h)), Apart-empty 0)

-- However installs, packets, cleanups, closes and reconnects are interleaved, the cached lookup for
-- a packet finds the targets that the bundle installed now has for its user.
pub events-targets :
    (bot_id : ℕ) (allow : Option (ℕ → Bool)) (xs : List Event) (made : Option ℕ) (a : ℕ)
    (d : FanoutDispatch) (user : ℕ)
    → (events bot_id allow xs (start bot_id)).handle.state ≡ some (a, d)
    → (targets_and_decoder made a d user (events bot_id allow xs (start bot_id)).receiver).0
      ≡ install_targets_for_user d user
events-targets bot_id allow xs made a d user h =
    targets_and_decoder_current (events bot_id allow xs (start bot_id)).next a d made user
      (events bot_id allow xs (start bot_id)).receiver
      (subst
        (λ st.
          Sound (events bot_id allow xs (start bot_id)).next st
            (events bot_id allow xs (start bot_id)).receiver)
        h (events-Sound bot_id allow xs (start bot_id) (start-Sound bot_id)))

-- However installs, packets, cleanups, closes and reconnects are interleaved, two different users
-- never have the same decoder.
pub events-decoders_apart :
    (bot_id : ℕ) (allow : Option (ℕ → Bool)) (xs : List Event) (u w x : ℕ)
    → u ≢ w
    → lookup u (events bot_id allow xs (start bot_id)).receiver.decoders ≡ some x
    → lookup w (events bot_id allow xs (start bot_id)).receiver.decoders ≢ some x
events-decoders_apart bot_id allow xs u w x n h g =
    n ((events-Sound bot_id allow xs (start bot_id) (start-Sound bot_id)).1.apart u w x h g)
