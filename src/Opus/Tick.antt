-- ===== src/Opus/Tick.antt =====
-- internal/opus/mixer.go: the 20 ms tick of a mixer. A source is the queue of its frames, as
-- Opus/Ring/Refines.antt allows, and a buffer is known by a number.
use go_discord_caller.Base.{
  ltb, ◌==◌, if◌then◌else◌, nat_eq, string_eq, pair_eq, nat_zero, bool_zero, list_zero, string_zero,
  length, Elem, here, there, Elem-cons, ℕ, suc, ◌+◌, ◌%◌, ◌^◌, ◌≤◌, ◌≡◌, refl, sym, subst, ◌∙◌, ◌≢◌,
  ◌⊎◌, inl, inr, Bool, true, false, ◌||◌, Option, List, [], ◌∷◌, ◌++◌, arith,
}

-- `pcm` and `opus` are none for nil; `samples` is the length of the PCM slice.
pub record Frame : Type 0 where
  pub pcm : Option ℕ
  pub samples : ℕ
  pub opus : Option ℕ
  pub created_at : ℕ

-- `oldestCreatedAt`, where 0 is the zero time.
unfoldable pub older : ℕ → ℕ → ℕ
older oldest t = if t == 0 then oldest else if oldest == 0 || ltb t oldest then t else oldest

unfoldable pub oldest_from : ℕ → List Frame → ℕ
unfolding older
oldest_from oldest [] = oldest
oldest_from oldest (f ∷ fs) = oldest_from (older oldest f.created_at) fs

unfoldable pub oldest_created_at : List Frame → ℕ
unfolding oldest_from
oldest_created_at fs = oldest_from 0 fs

-- What `collectFrames` leaves: the frames to mix, those whose buffers go back to the pools unmixed,
-- how many the pause discarded, and the sources.
pub record Collected : Type 0 where
  pub frames : List Frame
  pub empties : List Frame
  pub drained : ℕ
  pub sources : List (List Frame)

-- `collectFrames`, where `Drain` recycles what it discards. `Len` and `Drain` lock a source one after
-- the other: `late` are the frames that source receives between the two, and so after a `Pull`.
unfoldable pub collect_frames : Bool → (ℕ → List Frame) → List (List Frame) → Collected
collect_frames paused late [] = record { frames = []; empties = []; drained = 0; sources = [] }
collect_frames true late (q ∷ qs) =
    let c = collect_frames true (λ i. late (suc i)) qs in
    record {
      frames = c.frames;
      empties = (q ++ late 0) ++ c.empties;
      drained = length q + c.drained;
      sources = [] ∷ c.sources;
    }
collect_frames false late ([] ∷ qs) =
    let c = collect_frames false (λ i. late (suc i)) qs in record c { sources = late 0 ∷ c.sources }
collect_frames false late ((f ∷ q) ∷ qs) =
    let c = collect_frames false (λ i. late (suc i)) qs in
    if f.samples == 0
    then record c { empties = f ∷ c.empties; sources = (q ++ late 0) ∷ c.sources }
    else record c { frames = f ∷ c.frames; sources = (q ++ late 0) ∷ c.sources }

-- What a tick emits: nothing, a packet as it came, or the mix of the frames.
pub data Output : Type 0 where
  silent encode_failed : Output
  passes : Option ℕ → Output
  mixes : List Frame → Output

pub record Mixer : Type 0 where
  pub sources : List (List Frame)
  pub paused : Bool
  pub last_activity_at : ℕ
  pub paused_drops : ℕ

unfoldable pub output : Bool → Bool → List Frame → Output
output paused encodes [] = silent
output paused encodes (f ∷ []) = if paused then silent else passes f.opus
output paused encodes (f ∷ g ∷ fs) =
    if paused then silent else if encodes then mixes (f ∷ g ∷ fs) else encode_failed

-- `tick` at a time: the output and the mixer. `encodes` tells whether libopus does.
unfoldable pub tick : ℕ → Bool → (ℕ → List Frame) → Mixer → Output × Mixer
unfolding collect_frames output
tick now encodes late m =
    let c = collect_frames m.paused late m.sources in
    (
      output m.paused encodes c.frames,
      record {
        sources = c.sources;
        paused = m.paused;
        last_activity_at =
            if ltb 0 (length c.frames) || ltb 0 c.drained then now else m.last_activity_at;
        paused_drops = (m.paused_drops + c.drained) % 2 ^ 64;
      },
    )

-- The oldest of the times at hand and those of the frames: below all of them that are set, and one
-- of them unless none is set.
pub record Oldest (oldest : ℕ) (fs : List Frame) (r : ℕ) : Type 0 where
  pub seed : oldest ≢ 0 → (r ≢ 0) × (r ≤ oldest)
  pub least : (f : Frame) → Elem f fs → f.created_at ≢ 0 → (r ≢ 0) × (r ≤ f.created_at)
  pub found : r ≢ 0 → (r ≡ oldest) ⊎ ((f : Frame) × (Elem f fs) × (r ≡ f.created_at))

older-Oldest :
    (o t : ℕ)
    → (o ≢ 0 → (older o t ≢ 0) × (older o t ≤ o))
      × (t ≢ 0 → (older o t ≢ 0) × (older o t ≤ t))
      × ((older o t ≡ o) ⊎ (older o t ≡ t))
unfolding older
older-Oldest o t = (λ h. ground (arith, h), λ h. ground (arith, h), ground arith)

oldest_from-Oldest : (o : ℕ) (fs : List Frame) → Oldest o fs (oldest_from o fs)
unfolding oldest_from
oldest_from-Oldest o [] = record {
  seed = λ h. (h, omega arith);
  least = λ f m. elim m [ ];
  found = λ h. inl refl;
}
oldest_from-Oldest o (f ∷ fs) =
    let r = oldest_from-Oldest (older o f.created_at) fs in
    let (a, b, c) = older-Oldest o f.created_at in
    record {
      seed = λ h. bound (a h) r;
      least = λ g m n. elim (Elem-cons m) [
        | inl e ↦
            bound
              (subst (λ x. (older o f.created_at ≢ 0) × (older o f.created_at ≤ x.created_at))
                (sym e) (b (subst (λ x. x.created_at ≢ 0) e n)))
              r
        | inr k ↦ r.least g k n
      ];
      found = λ h. elim (r.found h) [
        | inl e ↦ elim c [ inl d ↦ inl (e ∙ d) | inr d ↦ inr (f, here refl, e ∙ d) ]
        | inr k ↦ inr (k.0, there k.1, k.2)
      ];
    }
  where
    bound :
        {x : ℕ}
        → (older o f.created_at ≢ 0) × (older o f.created_at ≤ x)
        → Oldest (older o f.created_at) fs (oldest_from (older o f.created_at) fs)
        → (oldest_from (older o f.created_at) fs ≢ 0) × (oldest_from (older o f.created_at) fs ≤ x)
    bound p r = ((r.seed p.0).0, omega (arith, (r.seed p.0).1, p.1))

-- The oldest timestamp of the frames of a tick is at most every timestamp that is set, and is one of
-- them; it is the zero time only when none is set.
pub oldest_created_at-Oldest : (fs : List Frame) → Oldest 0 fs (oldest_created_at fs)
unfolding oldest_created_at
oldest_created_at-Oldest fs = oldest_from-Oldest 0 fs

unfoldable pub queued : List (List Frame) → ℕ
queued [] = 0
queued (q ∷ qs) = length q + queued qs

-- The frames that the sources receive while their frames are collected.
unfoldable pub received : (ℕ → List Frame) → List (List Frame) → ℕ
received late [] = 0
received late (q ∷ qs) = length (late 0) + received (λ i. late (suc i)) qs
