-- ===== src/Opus/Provider.antt =====
-- internal/opus/voice_provider.go: the frames that a voice sender takes from its channel. A frame
-- that arrives while a call runs goes to the end of the queue, so it is taken as if it came after.
use go_discord_caller.Base.{
  ltb, if◌then◌else◌, nat_eq, string_eq, pair_eq, nat_zero, bool_zero, list_zero, string_zero,
  length, ℕ, zero, suc, ◌+◌, ◌-◌, ◌*◌, ◌≤◌, ◌<◌, min, ◌≡◌, refl, ap, Bool, true, false, not, ◌&&◌,
  ◌||◌, Option, none, some, List, [], ◌∷◌, ◌++◌, arith,
}

abbrev pub provider_drain_threshold : ℕ
provider_drain_threshold = 3

abbrev pub audio_chan_buf : ℕ
audio_chan_buf = provider_drain_threshold

abbrev pub provider_hard_drain_threshold : ℕ
provider_hard_drain_threshold = 2 * provider_drain_threshold

pub record VoiceProvider {ℓ} (A : Type ℓ) : Type ℓ where
  pub queue : List A
  pub ch_closed : Bool
  pub done_closed : Bool
  pub prev : Option A

-- What a call returns, and `waits` while it blocks.
pub data Provided {ℓ} (A : Type ℓ) : Type ℓ where
  frame : A → Provided A
  provider_closed channel_closed waits : Provided A

-- How many frames a call drops at a queue depth.
unfoldable pub drop_count : ℕ → ℕ
drop_count depth =
    if ltb provider_hard_drain_threshold depth
    then depth - provider_drain_threshold
    else if ltb provider_drain_threshold depth
    then 1
    else 0

drop_count-cap : (n : ℕ) → n ≤ audio_chan_buf → drop_count n ≡ 0
unfolding drop_count
drop_count-cap n g = ground (arith, g)

module _ {ℓ} {A : Type ℓ} where
  -- Up to `n` reads without blocking, each of which replaces the frame in hand: the frames that are
  -- dropped, oldest first, the frame in hand at the end, and the queue.
  unfoldable pub bleed : ℕ → A → List A → List A × A × List A
  bleed zero held q = ([], held, q)
  bleed (suc n) held [] = ([], held, [])
  bleed (suc n) held (newer ∷ q) =
      let (dropped, last, rest) = bleed n newer q in (held ∷ dropped, last, rest)

  -- `PutEncodedFrame`, which ignores nil.
  unfoldable pub put_back : Option A → List A
  put_back none = []
  put_back (some p) = p ∷ []

  -- `ProvideOpusFrame`: the buffers that go back to the pool, the result, and the provider. When
  -- the provider is closed and a frame is there, the select takes either, by `done_first`.
  unfoldable pub provide_opus_frame : Bool → VoiceProvider A → List A × Provided A × VoiceProvider A
  unfolding bleed drop_count put_back
  provide_opus_frame done_first v =
      let back : List A = put_back v.prev in
      let idle : VoiceProvider A = record v { prev = none } in
      elim v.queue [
        | [] ↦
            if v.done_closed && (done_first || not v.ch_closed)
            then (back, provider_closed, idle)
            else if v.ch_closed
            then (back, channel_closed, idle)
            else (back, waits, idle)
        | first ∷ rest ↦
            if v.done_closed && done_first
            then (back, provider_closed, idle)
            else (let (dropped, last, q) = bleed (drop_count (length rest)) first rest in
                (back ++ dropped, frame last, record v { queue = q; prev = some last }))
      ]

  -- `DiscardFrame`: the buffers that go back to the pool, and whether there was a frame.
  unfoldable pub discard_frame : VoiceProvider A → List A × Bool × VoiceProvider A
  discard_frame v = elim v.queue [
    | [] ↦ ([], false, v)
    | first ∷ rest ↦ (first ∷ [], true, record v { queue = rest })
  ]

  unfoldable pub close : VoiceProvider A → VoiceProvider A
  close v = record v { done_closed = true }

  bleed_order :
      (n : ℕ) (held : A) (q : List A)
      → let (dropped, last, rest) = bleed n held q in
        (dropped ++ last ∷ rest ≡ held ∷ q)
        × (length q ≡ length dropped + length rest)
        × (length dropped ≡ min n (length q))
  unfolding bleed
  bleed_order zero held q = (refl, omega arith, omega arith)
  bleed_order (suc n) held [] = (refl, refl, omega arith)
  bleed_order (suc n) held (newer ∷ q) =
      let (order, total, count) = bleed_order n newer q in
      (ap (◌∷◌ held) order, omega (arith, total), omega (arith, count))

  -- What a call does with a queue that is not empty.
  pub record Provides (held : Option A) (first : A) (rest : List A)
      (r : List A × Provided A × VoiceProvider A) : Type ℓ where
    pub dropped : List A
    pub last : A
    pub provided : r.1 ≡ frame last
    pub recycled : r.0 ≡ put_back held ++ dropped
    pub kept : r.2.prev ≡ some last
    pub order : dropped ++ last ∷ r.2.queue ≡ first ∷ rest
    pub hard :
        provider_hard_drain_threshold < length rest → length r.2.queue ≡ provider_drain_threshold
    pub soft :
        provider_drain_threshold < length rest
        → length rest ≤ provider_hard_drain_threshold
        → length dropped ≡ 1
    pub even : length rest ≤ provider_drain_threshold → length dropped ≡ 0

  -- With a frame queued and the provider open, a call returns a frame and keeps the order: it drops
  -- only the frames before the one it returns, and gives back the buffer it returned before and
  -- those it drops. Past the hard threshold it leaves exactly the soft threshold's frames, between
  -- the two it drops one, and at the soft threshold or below none.
  pub provide_opus_frame-Provides :
      (done_first ch_closed : Bool) (held : Option A) (first : A) (rest : List A)
      → Provides held first rest (
          provide_opus_frame done_first (record {
            queue = first ∷ rest;
            ch_closed = ch_closed;
            done_closed = false;
            prev = held;
          }))
  unfolding provide_opus_frame drop_count
  provide_opus_frame-Provides done_first ch_closed held first rest =
      let b = bleed (drop_count (length rest)) first rest in
      let (order, total, count) = bleed_order (drop_count (length rest)) first rest in
      record {
        dropped = b.0;
        last = b.1;
        provided = refl;
        recycled = refl;
        kept = refl;
        order = order;
        hard = λ h. ground (arith, total, count, h);
        soft = λ h g. ground (arith, total, count, h, g);
        even = λ h. ground (arith, total, count, h);
      }
