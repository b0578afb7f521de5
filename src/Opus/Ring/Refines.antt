-- ===== src/Opus/Ring/Refines.antt =====
-- The ring buffer is a queue that keeps the newest frames, in order.
use mathlib.Core.List.{head?}
use go_discord_caller.Base.{
  ◌==◌, if◌then◌else◌, nat_eq, nat_zero, bool_zero, list_zero, length, drop, ℕ, zero, suc, ◌+◌, ◌-◌,
  ◌%◌, ◌≤◌, ◌<◌, ◌≡◌, refl, none, List, [], ◌∷◌, ◌++◌, arith,
}
use go_discord_caller.Opus.Ring.{
  audio_source_cap, SourceBuffer, new_source_buffer, Call, feeds, pulls, drains, Reply, fed, pulled,
  drained, ring_step, ring_run,
}

-- A property of the reachable rings is one of twelve shapes.
ring_cases {κ} :
    (P : ℕ → ℕ → Type κ)
    → ((P 0 0 × P 0 1) × (P 0 2 × P 0 3))
    → ((P 1 0 × P 1 1) × (P 1 2 × P 1 3))
    → ((P 2 0 × P 2 1) × (P 2 2 × P 2 3))
    → (head n : ℕ) → head < 3
    → n ≤ 3
    → P head n
ring_cases P a b c zero zero h k = a.0.0
ring_cases P a b c zero (suc zero) h k = a.0.1
ring_cases P a b c zero (suc (suc zero)) h k = a.1.0
ring_cases P a b c zero (suc (suc (suc zero))) h k = a.1.1
ring_cases P a b c (suc zero) zero h k = b.0.0
ring_cases P a b c (suc zero) (suc zero) h k = b.0.1
ring_cases P a b c (suc zero) (suc (suc zero)) h k = b.1.0
ring_cases P a b c (suc zero) (suc (suc (suc zero))) h k = b.1.1
ring_cases P a b c (suc (suc zero)) zero h k = c.0.0
ring_cases P a b c (suc (suc zero)) (suc zero) h k = c.0.1
ring_cases P a b c (suc (suc zero)) (suc (suc zero)) h k = c.1.0
ring_cases P a b c (suc (suc zero)) (suc (suc (suc zero))) h k = c.1.1
ring_cases P a b c (suc (suc (suc head))) n h k = absurd (omega arith)
ring_cases P a b c head (suc (suc (suc (suc n)))) h k = absurd (omega arith)

module _ {ℓ} {A : Type ℓ} where
  -- The specification: a list, oldest frame first, which a full `feeds` shortens by its oldest.
  unfoldable pub fifo_step : List A → Call A → Reply A × List A
  fifo_step q (feeds f) = (
    fed (length q) (if length q == audio_source_cap then head? q else none),
    drop (length q + 1 - audio_source_cap) (q ++ f ∷ []),
  )
  fifo_step q pulls = (pulled (head? q), drop 1 q)
  fifo_step q drains = (drained q, [])

  unfoldable pub fifo_run : List A → List (Call A) → List (Reply A)
  unfolding fifo_step
  fifo_run q [] = []
  fifo_run q (c ∷ cs) = let r = fifo_step q c in r.0 ∷ fifo_run r.1 cs

  contents_from : (ℕ → A) → ℕ → ℕ → List A
  contents_from buf head zero = []
  contents_from buf head (suc k) = buf head ∷ contents_from buf ((head + 1) % audio_source_cap) k

  -- The buffered frames, oldest first.
  contents : SourceBuffer A → List A
  unfolding contents_from
  contents s = contents_from s.buf s.head s.n

  record Refines (s : SourceBuffer A) (c : Call A) : Type ℓ where
    reply : (ring_step s c).0 ≡ (fifo_step (contents s) c).0
    after : contents (ring_step s c).1 ≡ (fifo_step (contents s) c).1
    head_in : (ring_step s c).1.head < 3
    n_in : (ring_step s c).1.n ≤ 3

  feed_lem :
      (buf : ℕ → A) (f : A) (head n : ℕ)
      → head < 3
      → n ≤ 3
      → Refines (record { buf = buf; head = head; n = n }) (feeds f)
  unfolding ring_step fifo_step contents
  feed_lem buf f =
      let shape =
        λ (head : ℕ) (n : ℕ). Refines (record { buf = buf; head = head; n = n }) (feeds f) in
      ring_cases shape
        (
          (
            record { reply = refl; after = refl; head_in = omega arith; n_in = omega arith },
            record { reply = refl; after = refl; head_in = omega arith; n_in = omega arith },
          ),
          (
            record { reply = refl; after = refl; head_in = omega arith; n_in = omega arith },
            record { reply = refl; after = refl; head_in = omega arith; n_in = omega arith },
          ),
        )
        (
          (
            record { reply = refl; after = refl; head_in = omega arith; n_in = omega arith },
            record { reply = refl; after = refl; head_in = omega arith; n_in = omega arith },
          ),
          (
            record { reply = refl; after = refl; head_in = omega arith; n_in = omega arith },
            record { reply = refl; after = refl; head_in = omega arith; n_in = omega arith },
          ),
        )
        (
          (
            record { reply = refl; after = refl; head_in = omega arith; n_in = omega arith },
            record { reply = refl; after = refl; head_in = omega arith; n_in = omega arith },
          ),
          (
            record { reply = refl; after = refl; head_in = omega arith; n_in = omega arith },
            record { reply = refl; after = refl; head_in = omega arith; n_in = omega arith },
          ),
        )

  pull_lem :
      (buf : ℕ → A) (head n : ℕ)
      → head < 3
      → n ≤ 3
      → Refines (record { buf = buf; head = head; n = n }) pulls
  unfolding ring_step fifo_step contents
  pull_lem buf =
      let shape = λ (head : ℕ) (n : ℕ). Refines (record { buf = buf; head = head; n = n }) pulls in
      ring_cases shape
        (
          (
            record { reply = refl; after = refl; head_in = omega arith; n_in = omega arith },
            record { reply = refl; after = refl; head_in = omega arith; n_in = omega arith },
          ),
          (
            record { reply = refl; after = refl; head_in = omega arith; n_in = omega arith },
            record { reply = refl; after = refl; head_in = omega arith; n_in = omega arith },
          ),
        )
        (
          (
            record { reply = refl; after = refl; head_in = omega arith; n_in = omega arith },
            record { reply = refl; after = refl; head_in = omega arith; n_in = omega arith },
          ),
          (
            record { reply = refl; after = refl; head_in = omega arith; n_in = omega arith },
            record { reply = refl; after = refl; head_in = omega arith; n_in = omega arith },
          ),
        )
        (
          (
            record { reply = refl; after = refl; head_in = omega arith; n_in = omega arith },
            record { reply = refl; after = refl; head_in = omega arith; n_in = omega arith },
          ),
          (
            record { reply = refl; after = refl; head_in = omega arith; n_in = omega arith },
            record { reply = refl; after = refl; head_in = omega arith; n_in = omega arith },
          ),
        )

  drain_lem :
      (buf : ℕ → A) (head n : ℕ)
      → head < 3
      → n ≤ 3
      → Refines (record { buf = buf; head = head; n = n }) drains
  unfolding ring_step fifo_step contents
  drain_lem buf =
      let shape = λ (head : ℕ) (n : ℕ). Refines (record { buf = buf; head = head; n = n }) drains in
      ring_cases shape
        (
          (
            record { reply = refl; after = refl; head_in = omega arith; n_in = omega arith },
            record { reply = refl; after = refl; head_in = omega arith; n_in = omega arith },
          ),
          (
            record { reply = refl; after = refl; head_in = omega arith; n_in = omega arith },
            record { reply = refl; after = refl; head_in = omega arith; n_in = omega arith },
          ),
        )
        (
          (
            record { reply = refl; after = refl; head_in = omega arith; n_in = omega arith },
            record { reply = refl; after = refl; head_in = omega arith; n_in = omega arith },
          ),
          (
            record { reply = refl; after = refl; head_in = omega arith; n_in = omega arith },
            record { reply = refl; after = refl; head_in = omega arith; n_in = omega arith },
          ),
        )
        (
          (
            record { reply = refl; after = refl; head_in = omega arith; n_in = omega arith },
            record { reply = refl; after = refl; head_in = omega arith; n_in = omega arith },
          ),
          (
            record { reply = refl; after = refl; head_in = omega arith; n_in = omega arith },
            record { reply = refl; after = refl; head_in = omega arith; n_in = omega arith },
          ),
        )

  ring_step_lem : (s : SourceBuffer A) (c : Call A) → s.head < 3 → s.n ≤ 3 → Refines s c
  ring_step_lem s (feeds f) = feed_lem s.buf f s.head s.n
  ring_step_lem s pulls = pull_lem s.buf s.head s.n
  ring_step_lem s drains = drain_lem s.buf s.head s.n

  ring_run_lem :
      (s : SourceBuffer A) (cs : List (Call A))
      → s.head < 3
      → s.n ≤ 3
      → ring_run s cs ≡ fifo_run (contents s) cs
  unfolding ring_run fifo_run
  ring_run_lem s [] h k = refl
  ring_run_lem s (c ∷ cs) h k =
      let r = ring_step_lem s c h k in
      let later = ring_run_lem (ring_step s c).1 cs r.head_in r.n_in in cc

  -- Whatever the calls, a new ring of three slots answers them as the queue does.
  pub ring_run-fifo_run :
      (z : A) (cs : List (Call A)) → ring_run (new_source_buffer z) cs ≡ fifo_run [] cs
  unfolding new_source_buffer contents
  ring_run-fifo_run z cs = ring_run_lem (new_source_buffer z) cs (omega arith) (omega arith)
