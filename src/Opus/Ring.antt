-- ===== src/Opus/Ring.antt =====
-- internal/opus/source.go: the ring buffer of a mixer input.
pub mod Refines
use go_discord_caller.Base.{
  ◌==◌, if◌then◌else◌, nat_eq, nat_zero, bool_zero, list_zero, here, ℕ, zero, suc, ◌+◌, ◌-◌, ◌/◌,
  ◌%◌, ap, Option, none, some, List, [], ◌∷◌,
}

abbrev pub audio_source_cap : ℕ
audio_source_cap = 3

-- `buf` is the array, of which only the indices below the capacity are used.
pub record SourceBuffer {ℓ} (A : Type ℓ) : Type ℓ where
  pub buf : ℕ → A
  pub head : ℕ
  pub n : ℕ

module _ {ℓ} {A : Type ℓ} where
  abbrev pub update : (ℕ → A) → ℕ → A → ℕ → A
  update buf i v j = if i == j then v else buf j

  unfoldable pub new_source_buffer : A → SourceBuffer A
  new_source_buffer zero_frame = record { buf = λ i. zero_frame; head = 0; n = 0 }

  -- `Feed`: the frames ahead of the new one, the frame evicted for it, and the ring after it.
  unfoldable pub feed : SourceBuffer A → A → ℕ × Option A × SourceBuffer A
  feed s f =
      let full = s.n == audio_source_cap in
      let head = if full then (s.head + 1) % audio_source_cap else s.head in
      let n = if full then s.n - 1 else s.n in
      (
        s.n,
        if full then some (s.buf s.head) else none,
        record { buf = update s.buf ((head + n) % audio_source_cap) f; head = head; n = n + 1 },
      )

  -- `Pull`: `none` on underrun.
  unfoldable pub pull : SourceBuffer A → Option A × SourceBuffer A
  pull s =
      if s.n == 0
      then (none, s)
      else (some (s.buf s.head), record s { head = (s.head + 1) % audio_source_cap; n = s.n - 1 })

  -- The loop of `Drain` for `k` rounds, with the frames whose buffers it recycles.
  unfoldable pub drain_loop : ℕ → SourceBuffer A → List A × SourceBuffer A
  drain_loop zero s = ([], s)
  drain_loop (suc k) s =
      let (out, s') =
        drain_loop k (record s { head = (s.head + 1) % audio_source_cap; n = s.n - 1 }) in
      (s.buf s.head ∷ out, s')

  unfoldable pub drain : SourceBuffer A → List A × SourceBuffer A
  drain s = drain_loop s.n s

  -- `Len`
  unfoldable pub len : SourceBuffer A → ℕ
  len s = s.n

-- One call of the buffer's interface, and what it returns.
pub data Call {ℓ} (A : Type ℓ) : Type ℓ where
  feeds : A → Call A
  pulls drains : Call A

pub data Reply {ℓ} (A : Type ℓ) : Type ℓ where
  fed : ℕ → Option A → Reply A
  pulled : Option A → Reply A
  drained : List A → Reply A

module _ {ℓ} {A : Type ℓ} where
  unfoldable pub ring_step : SourceBuffer A → Call A → Reply A × SourceBuffer A
  unfolding feed pull drain drain_loop
  ring_step s (feeds f) = let r = feed s f in (fed r.0 r.1, r.2)
  ring_step s pulls = let r = pull s in (pulled r.0, r.1)
  ring_step s drains = let r = drain s in (drained r.0, r.1)

  unfoldable pub ring_run : SourceBuffer A → List (Call A) → List (Reply A)
  unfolding ring_step
  ring_run s [] = []
  ring_run s (c ∷ cs) = let r = ring_step s c in r.0 ∷ ring_run r.1 cs
