-- ===== src/Opus/Receiver/Sound.antt =====
-- internal/opus/voice_receiver.go: what the two caches of a receiver keep to.
use go_discord_caller.Base.{
  if◌then◌else◌, Bool-cases, Option-cases, some_inj, nat_eq, string_eq, pair_eq, nat_zero,
  bool_zero, list_zero, string_zero, Map, lookup, insert, delete, lookup-delete, lookup-insert_inv,
  ℕ, suc, ◌<◌, ◌≡◌, refl, ap, subst, ◌∙◌, inl, inr, Bool, true, false, Option, none, some, List, [],
  ◌∷◌, arith,
}
use go_discord_caller.Opus.Receiver.{
  FanoutDispatch, install_targets_for_user, VoiceReceiver, hit, cached_lookup, decoder_for,
  targets_and_decoder,
}

-- The cache holds what the bundle it was filled from has for its user. `n` is the next address.
pub record Fresh (n : ℕ) (state : Option (ℕ × FanoutDispatch)) (cached : Option ℕ) (user : ℕ)
    (targets : List ℕ) : Type 0 where
  pub installed : (a : ℕ) (d : FanoutDispatch) → state ≡ some (a, d) → a < n
  pub filled : (a : ℕ) → cached ≡ some a → a < n
  pub agrees :
      (a : ℕ) (d : FanoutDispatch)
      → state ≡ some (a, d)
      → cached ≡ some a
      → targets ≡ install_targets_for_user d user

-- No two users have the same decoder.
pub record Apart (n : ℕ) (m : Map ℕ ℕ) : Type 0 where
  pub made : (u x : ℕ) → lookup u m ≡ some x → x < n
  pub apart : (u w x : ℕ) → lookup u m ≡ some x → lookup w m ≡ some x → u ≡ w

pub Apart-suc : (n : ℕ) (m : Map ℕ ℕ) → Apart n m → Apart (suc n) m
Apart-suc n m p = record { made = λ u x h. omega (arith, p.made u x h); apart = p.apart }

pub Apart-delete : (n k : ℕ) (m : Map ℕ ℕ) → Apart n m → Apart n (delete k m)
Apart-delete n k m p = record {
  made = λ u x h. p.made u x (kept u x h);
  apart = λ u w x h g. p.apart u w x (kept u x h) (kept w x g);
}
  where
    kept : (u x : ℕ) → lookup u (delete k m) ≡ some x → lookup u m ≡ some x
    kept u x h = ground (arith, lookup-delete k u m, h)

Apart-insert :
    (n k : ℕ) (m : Map ℕ ℕ) → lookup k m ≡ none → Apart n m → Apart (suc n) (insert k n m)
Apart-insert n k m e p = record {
  made = λ u x h. elim (lookup-insert_inv k u n m h) [
    | inl q ↦ omega (arith, q.1)
    | inr q ↦ omega (arith, p.made u x q)
  ];
  apart = λ u w x h g. elim (lookup-insert_inv k u n m h) [
    | inl q ↦ elim (lookup-insert_inv k w n m g) [
      | inl r ↦ omega (arith, q.0, r.0)
      | inr r ↦ omega (arith, q.1, p.made w x r)
    ]
    | inr q ↦ elim (lookup-insert_inv k w n m g) [
      | inl r ↦ omega (arith, r.1, p.made u x q)
      | inr r ↦ p.apart u w x q r
    ]
  ];
}

abbrev pub Sound : ℕ → Option (ℕ × FanoutDispatch) → VoiceReceiver → Type 0
Sound n state v =
    Fresh n state v.cached_state v.cached_user_id v.cached_targets × Apart n v.decoders

pub Sound-suc :
    (n : ℕ) (state : Option (ℕ × FanoutDispatch)) (v : VoiceReceiver)
    → Sound n state v
    → Sound (suc n) state v
Sound-suc n state v p = (
  record {
    installed = λ a d h. omega (arith, p.0.installed a d h);
    filled = λ a h. omega (arith, p.0.filled a h);
    agrees = p.0.agrees;
  },
  Apart-suc n v.decoders p.1,
)

-- The decoders after a packet are those before it, or those and a new one.
decoder_for-Sound :
    (n : ℕ) (state : Option (ℕ × FanoutDispatch)) (ok : Bool) (user : ℕ) (v : VoiceReceiver)
    → Sound n state v
    → Sound (suc n) state (decoder_for (if ok then some n else none) user v).1
unfolding decoder_for
decoder_for-Sound n state true user v p = elim (Option-cases (lookup user v.decoders)) [
  | inr (x, e) ↦ rw (e, decoder_for) (Sound-suc n state v p)
  | inl e ↦ rw (e, decoder_for) ((Sound-suc n state v p).0, Apart-insert n user v.decoders e p.1)
]
decoder_for-Sound n state false user v p = elim (Option-cases (lookup user v.decoders)) [
  | inr (x, e) ↦ rw (e, decoder_for) (Sound-suc n state v p)
  | inl e ↦ rw (e, decoder_for) (Sound-suc n state v p)
]

hit_inv :
    (a user : ℕ) (v : VoiceReceiver)
    → hit a user v ≡ true
    → (v.cached_state ≡ some a) × (v.cached_user_id ≡ user)
unfolding hit
hit_inv a user v h = ground (arith, h)

-- A lookup through the cache finds what one without it does, and leaves the cache sound.
cached_lookup-Sound :
    (n a : ℕ) (d : FanoutDispatch) (user : ℕ) (v : VoiceReceiver)
    → Sound n (some (a, d)) v
    → ((cached_lookup a d user v).0 ≡ install_targets_for_user d user)
      × Sound n (some (a, d)) (cached_lookup a d user v).1
unfolding cached_lookup
cached_lookup-Sound n a d user v p = elim (Bool-cases (hit a user v)) [
  | inr f ↦
      rw (f, cached_lookup)
        (
          refl,
          (
            record {
              installed = p.0.installed;
              filled = λ b h. subst (λ x. x < n) (some_inj h) (p.0.installed a d refl);
              agrees = λ b c h g. ap (λ s. install_targets_for_user s.1 user) (some_inj h);
            },
            p.1,
          ),
        )
  | inl t ↦
      (let (e, u) = hit_inv a user v t in
        rw (t, cached_lookup) (p.0.agrees a d refl e ∙ ap (install_targets_for_user d) u, p))
]

pub Fresh-empty :
    (n : ℕ) (state : Option (ℕ × FanoutDispatch))
    → ((a : ℕ) (d : FanoutDispatch) → state ≡ some (a, d) → a < n)
    → Fresh n state none 0 []
Fresh-empty n state h = record {
  installed = h;
  filled = λ a e. ground (arith, e);
  agrees = λ a d e g. ground (arith, g);
}

pub Apart-empty : (n : ℕ) → Apart n []
unfolding lookup
Apart-empty n = record { made = λ u x h. ground (arith, h); apart = λ u w x h g. ground (arith, h) }

pub <_irrefl : (a : ℕ) → ¬ (a < a)
<_irrefl a h = omega (arith, h)

-- The targets do not depend on whether a decoder is there.
pub targets_and_decoder_current :
    (n a : ℕ) (d : FanoutDispatch) (made : Option ℕ) (user : ℕ) (v : VoiceReceiver)
    → Sound n (some (a, d)) v
    → (targets_and_decoder made a d user v).0 ≡ install_targets_for_user d user
unfolding targets_and_decoder
targets_and_decoder_current n a d made user v p =
    given (cached_lookup a d user v).0 refl (cached_lookup-Sound n a d user v p).0
  where
    given :
        (ts : List ℕ)
        → (cached_lookup a d user v).0 ≡ ts
        → ts ≡ install_targets_for_user d user
        → (targets_and_decoder made a d user v).0 ≡ install_targets_for_user d user
    given [] h e = rw (h, targets_and_decoder) e
    given (t ∷ ts) h e = rw (h, targets_and_decoder) e

-- The targets of a packet are those of the bundle that is installed now.
pub targets_and_decoder-Sound :
    (n a : ℕ) (d : FanoutDispatch) (ok : Bool) (user : ℕ) (v : VoiceReceiver)
    → Sound n (some (a, d)) v
    → let (targets, dec, w) = targets_and_decoder (if ok then some n else none) a d user v in
      (targets ≡ install_targets_for_user d user) × Sound (suc n) (some (a, d)) w
unfolding targets_and_decoder
targets_and_decoder-Sound n a d ok user v p =
    let (e, q) = cached_lookup-Sound n a d user v p in given (cached_lookup a d user v).0 refl e q
  where
    given :
        (ts : List ℕ)
        → (cached_lookup a d user v).0 ≡ ts
        → ts ≡ install_targets_for_user d user
        → Sound n (some (a, d)) (cached_lookup a d user v).1
        → let (targets, dec, w) = targets_and_decoder (if ok then some n else none) a d user v in
          (targets ≡ install_targets_for_user d user) × Sound (suc n) (some (a, d)) w
    given [] h e q =
        rw (h, targets_and_decoder) (e, Sound-suc n (some (a, d)) (cached_lookup a d user v).1 q)
    given (t ∷ ts) h e q =
        rw (h, targets_and_decoder)
          (e, decoder_for-Sound n (some (a, d)) ok user (cached_lookup a d user v).1 q)
