-- ===== src/Opus/FrameExamples.antt =====
-- Frames from a receiver, through a mix, to a sender.
use go_discord_caller.Base.{
  ◌==◌, if◌then◌else◌, nat_eq, string_eq, pair_eq, nat_zero, bool_zero, list_zero, string_zero,
  lookup, take, ℕ, ◌≡◌, refl, ◌≢◌, true, false, Option, none, some, List, [], ◌∷◌, arith,
}
use mathlib.Core.List.Permᴰ
use go_discord_caller.Opus.Provider.{provide_opus_frame, Provides, provide_opus_frame-Provides}
use go_discord_caller.Opus.Receiver.{FanoutDispatch, install_targets_for_user, targets_and_decoder}
use go_discord_caller.Opus.Receiver.Dispatch.{room, Answers, Packet}
use go_discord_caller.Opus.Receiver.Runs
use go_discord_caller.Opus.Receiver.Runs.{
  Event, installs, packets, cleanups, start, events, events-targets, events-decoders_apart,
}
use go_discord_caller.Opus.Tick.{Frame, oldest_created_at, Oldest, oldest_created_at-Oldest}
use go_discord_caller.Opus.Mix.{
  int32_of, shift15, clamp16, scale_of, accumulate, accumulate_all, zeros, attenuate, mix,
}
use go_discord_caller.Opus.Mix.Sums.{scaled_pair, zip_with, mix-pair, mix-Perm}

provide_opus_frame-Provides_example : Provides {A = ℕ} (some 0) 1 (2 ∷ 3 ∷ 4 ∷ 5 ∷ 6 ∷ 7 ∷ 8 ∷ []) (
    provide_opus_frame {A = ℕ} true (record {
      queue = 1 ∷ 2 ∷ 3 ∷ 4 ∷ 5 ∷ 6 ∷ 7 ∷ 8 ∷ [];
      ch_closed = false;
      done_closed = false;
      prev = some 0;
    }))
provide_opus_frame-Provides_example =
    provide_opus_frame-Provides true false (some 0) 1 (2 ∷ 3 ∷ 4 ∷ 5 ∷ 6 ∷ 7 ∷ 8 ∷ [])

-- Two users, a cleanup and a second install on a handle of one source.
abbrev before : FanoutDispatch
before = record {
  opus_targets = [];
  source_targets = (7, 70 ∷ []) ∷ (8, 80 ∷ []) ∷ [];
  opus_callback = false;
  on_close = none;
}

abbrev after : FanoutDispatch
after = record {
  opus_targets = 5 ∷ [];
  source_targets = (7, 71 ∷ []) ∷ [];
  opus_callback = true;
  on_close = none;
}

abbrev answers : Answers
answers = record { sends = λ out. room; decoder_made = true; decodes = true; ahead = λ t. 0 }

abbrev spoken : Option Packet
spoken = some (record { size = 3; arrival = record { at_time = 20; timestamp = 960 } })

abbrev life : List Runs.Event
life =
    installs before
    ∷ packets answers 7 spoken
    ∷ packets answers 8 spoken
    ∷ cleanups 8
    ∷ packets answers 7 spoken
    ∷ installs after
    ∷ []

events-targets_example :
    (targets_and_decoder none 4 after 7 (Runs.events 1 none life (start 1)).receiver).0
    ≡ install_targets_for_user after 7
unfolding events start
events-targets_example = events-targets 1 none life none 4 after 7 installed
  where
    installed : (Runs.events 1 none life (start 1)).handle.state ≡ some (4, after)
    installed = refl

events-decoders_apart_example :
    lookup 8 (Runs.events 1 none (take 3 life) (start 1)).receiver.decoders ≢ some 1
unfolding lookup events start
events-decoders_apart_example =
    events-decoders_apart 1 none (take 3 life) 7 8 1 (λ h. omega (arith, h)) refl

-- Five sources as loud as can be: the sum times the scale passes 2³¹, so the sample that comes out
-- is the lowest there is.
five_loud :
    mix 1 ((32767 ∷ []) ∷ (32767 ∷ []) ∷ (32767 ∷ []) ∷ (32767 ∷ []) ∷ (32767 ∷ []) ∷ [])
    ≡ 32768 ∷ []
unfolding mix accumulate_all accumulate zeros attenuate clamp16 shift15 scale_of int32_of
five_loud = refl

mix-pair_example :
    mix 2 ((32767 ∷ 65000 ∷ []) ∷ (32767 ∷ 32768 ∷ []) ∷ [])
    ≡ zip_with scaled_pair (32767 ∷ 65000 ∷ []) (32767 ∷ 32768 ∷ [])
mix-pair_example =
    mix-pair (32767 ∷ 65000 ∷ []) (32767 ∷ 32768 ∷ []) refl (omega arith, (omega arith, tt))
      (omega arith, (omega arith, tt))

mix-Perm_example :
    mix 1 ((1 ∷ []) ∷ (2 ∷ []) ∷ (3 ∷ []) ∷ []) ≡ mix 1 ((2 ∷ []) ∷ (1 ∷ []) ∷ (3 ∷ []) ∷ [])
mix-Perm_example =
    mix-Perm 1 ((1 ∷ []) ∷ (2 ∷ []) ∷ (3 ∷ []) ∷ []) ((2 ∷ []) ∷ (1 ∷ []) ∷ (3 ∷ []) ∷ [])
      ∣ Permᴰ.swap refl refl ∣₁

-- A frame with no samples between two that have some.
abbrev framed : ℕ → ℕ → Frame
framed n t = record { pcm = some 1; samples = n; opus = some 2; created_at = t }

oldest_created_at-Oldest_example :
    Oldest 0
      (framed 4 30 ∷ framed 4 0 ∷ framed 4 10 ∷ [])
      (oldest_created_at (framed 4 30 ∷ framed 4 0 ∷ framed 4 10 ∷ []))
oldest_created_at-Oldest_example =
    oldest_created_at-Oldest (framed 4 30 ∷ framed 4 0 ∷ framed 4 10 ∷ [])

abbrev queues : List (List Frame)
queues = (framed 4 1 ∷ framed 4 2 ∷ []) ∷ [] ∷ (framed 0 3 ∷ []) ∷ []

-- The second source gets a frame while the frames are collected.
abbrev next_frames : ℕ → List Frame
next_frames i = if i == 1 then framed 4 5 ∷ [] else []
