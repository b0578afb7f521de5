-- ===== src/Manager/Bindings.antt =====
-- internal/manager/channel_bindings.go: the bindings of bots to voice channels that may be deleted.
use go_discord_caller.Base.{
  ◌==◌, if◌then◌else◌, Bool-cases, Option-cases, some_inj, nat_eq, string_eq, pair_eq, nat_zero,
  bool_zero, list_zero, string_zero, lookup-delete, pick, Elem-pick, Elem-pick_of, Elem, ℕ, ◌≡◌,
  refl, sym, ap, subst, ◌∙◌, ◌↔◌, inl, inr, Bool, true, false, not, ◌&&◌, ◌||◌, Option, none, some,
  List, [], ◌∷◌, arith,
}
use go_discord_caller.Store.{InMemoryStore, unbind_channel, get_bound_channel}

-- A speaker of a guild, and a warning about one.
pub record Speaker : Type 0 where
  pub id : ℕ
  pub enabled : Bool

pub record ChannelAccessWarning : Type 0 where
  pub bot_id : ℕ
  pub channel_id : ℕ

-- A guild's status, as far as the speakers go.
pub record Status : Type 0 where
  pub speakers : List Speaker
  pub has_session : Bool

-- `snapshotSpeakers`, which fails for a guild without a status and while a session runs.
unfoldable pub snapshot_speakers : Option Status → Option (List Speaker)
snapshot_speakers none = none
snapshot_speakers (some st) = if st.has_session then none else some st.speakers

-- Whether a channel is in the owner bot's cache is the argument `exists`.
unfoldable pub live_bound_channel : (ℕ → Bool) → ℕ → ℕ → InMemoryStore → Option ℕ
unfolding get_bound_channel
live_bound_channel exists guild bot s = elim (get_bound_channel guild bot s) [
  | none ↦ none
  | some channel ↦ if exists channel then some channel else none
]

-- What one round of the loop of `SpeakersWithMissingChannel` appends.
unfoldable pub missing_channel :
    (ℕ → Bool) → ℕ → InMemoryStore → Speaker → Option ChannelAccessWarning
unfolding get_bound_channel
missing_channel exists guild s sp =
    if not sp.enabled then none else elim (get_bound_channel guild sp.id s) [
      | none ↦ none
      | some channel ↦
          if exists channel then none else some (record { bot_id = sp.id; channel_id = channel })
    ]

unfoldable pub missing_channels :
    (ℕ → Bool) → ℕ → InMemoryStore → List Speaker → List ChannelAccessWarning
unfolding missing_channel
missing_channels exists guild s [] = []
missing_channels exists guild s (sp ∷ sps) = elim (missing_channel exists guild s sp) [
  | none ↦ missing_channels exists guild s sps
  | some w ↦ w ∷ missing_channels exists guild s sps
]

unfoldable pub speakers_with_missing_channel :
    (ℕ → Bool) → ℕ → InMemoryStore → Option Status → List ChannelAccessWarning
unfolding missing_channels snapshot_speakers
speakers_with_missing_channel exists guild s status = elim (snapshot_speakers status) [
  | none ↦ []
  | some sps ↦ missing_channels exists guild s sps
]

-- One round of the loop of `unbindChannels`, for one bot.
unfoldable pub unbind_one : ℕ → (ℕ → Bool) → ℕ → InMemoryStore → InMemoryStore
unfolding get_bound_channel unbind_channel
unbind_one guild gone bot s = elim (get_bound_channel guild bot s) [
  | none ↦ s
  | some channel ↦ if not (gone channel) then s else unbind_channel guild bot s
]

unfoldable pub unbind_all : ℕ → (ℕ → Bool) → List ℕ → InMemoryStore → InMemoryStore
unfolding unbind_one
unbind_all guild gone [] s = s
unbind_all guild gone (bot ∷ bots) s = unbind_all guild gone bots (unbind_one guild gone bot s)

unfoldable pub unbind_channels : ℕ → (ℕ → Bool) → ℕ → List ℕ → InMemoryStore → InMemoryStore
unfolding unbind_all
unbind_channels guild gone owner pool s = unbind_all guild gone (owner ∷ pool) s

unfoldable pub channel_deleted : ℕ → ℕ → ℕ → List ℕ → InMemoryStore → InMemoryStore
unfolding unbind_channels
channel_deleted guild channel owner pool s =
    unbind_channels guild (λ bound. bound == channel) owner pool s

-- A binding without the channels that are gone.
abbrev pub kept_if : (ℕ → Bool) → Option ℕ → Option ℕ
kept_if gone none = none
kept_if gone (some c) = if gone c then none else some c

bound-unbind :
    (guild bot g b : ℕ) (s : InMemoryStore)
    → get_bound_channel g b (unbind_channel guild bot s)
      ≡ (if guild == g && bot == b then none else get_bound_channel g b s)
unfolding get_bound_channel unbind_channel
bound-unbind guild bot g b s = ground (arith, lookup-delete (bot, guild) (b, g) s.channels)

bound-unbind_one :
    (guild : ℕ) (gone : ℕ → Bool) (bot : ℕ) (s : InMemoryStore) (g b : ℕ)
    → get_bound_channel g b (unbind_one guild gone bot s) ≡ (
        if guild == g && bot == b
        then kept_if gone (get_bound_channel g b s)
        else get_bound_channel g b s)
unfolding unbind_one
bound-unbind_one guild gone bot s g b =
    let same : (guild == g && bot == b) ≡ true
        → get_bound_channel g b s ≡ get_bound_channel guild bot s =
      λ e.
        let p : guild ≡ g = ground (arith, e) in
        let q : bot ≡ b = ground (arith, e) in λ i. get_bound_channel (sym p i) (sym q i) s in
    elim (Option-cases (get_bound_channel guild bot s)) [
      | inl n ↦
          rw (n, unbind_one)
            (elim (Bool-cases (guild == g && bot == b)) [
              | inl e ↦ ground (arith, e, same e, n)
              | inr e ↦ ground (arith, e)
            ])
      | inr (c, m) ↦ elim (Bool-cases (gone c)) [
        | inl l ↦
            rw (m, unbind_one, l)
              (elim (Bool-cases (guild == g && bot == b)) [
                | inl e ↦ bound-unbind guild bot g b s ∙ ground (arith, e, same e, m, l)
                | inr e ↦ bound-unbind guild bot g b s ∙ ground (arith, e)
              ])
        | inr l ↦
            rw (m, unbind_one, l)
              (elim (Bool-cases (guild == g && bot == b)) [
                | inl e ↦ ground (arith, e, same e, m, l)
                | inr e ↦ ground (arith, e)
              ])
      ]
    ]

unfoldable pub is_among : ℕ → List ℕ → Bool
is_among b [] = false
is_among b (x ∷ xs) = x == b || is_among b xs

bound-unbind_all :
    (guild : ℕ) (gone : ℕ → Bool) (bots : List ℕ) (s : InMemoryStore) (g b : ℕ)
    → get_bound_channel g b (unbind_all guild gone bots s) ≡ (
        if guild == g && is_among b bots
        then kept_if gone (get_bound_channel g b s)
        else get_bound_channel g b s)
unfolding unbind_all is_among
bound-unbind_all guild gone [] s g b = ground arith
bound-unbind_all guild gone (bot ∷ bots) s g b =
    bound-unbind_all guild gone bots (unbind_one guild gone bot s) g b
    ∙ ground (arith, bound-unbind_one guild gone bot s g b)

unbind_all-others :
    (guild : ℕ) (gone : ℕ → Bool) (bots : List ℕ) (s : InMemoryStore)
    → ((unbind_all guild gone bots s).roles ≡ s.roles)
      × ((unbind_all guild gone bots s).relay_codes ≡ s.relay_codes)
      × ((unbind_all guild gone bots s).locales ≡ s.locales)
      × ((unbind_all guild gone bots s).disabled ≡ s.disabled)
unfolding unbind_all unbind_one unbind_channel
unbind_all-others guild gone [] s = (refl, refl, refl, refl)
unbind_all-others guild gone (bot ∷ bots) s =
    let (a, b, c, d) = unbind_all-others guild gone bots (unbind_one guild gone bot s) in
    (a ∙ ground arith, b ∙ ground arith, c ∙ ground arith, d ∙ ground arith)

-- After a channel is deleted, the owner bot and every pool bot of its guild that was bound to it
-- are unbound; every other binding stands, and so do the roles, codes, locales and speakers.
pub channel_deleted_lem :
    (guild channel owner : ℕ) (pool : List ℕ) (s : InMemoryStore) (g b : ℕ)
    → let t = channel_deleted guild channel owner pool s in
      (get_bound_channel g b t ≡ (
        if guild == g && is_among b (owner ∷ pool)
        then kept_if (λ bound. bound == channel) (get_bound_channel g b s)
        else get_bound_channel g b s))
      × (t.roles ≡ s.roles)
      × (t.relay_codes ≡ s.relay_codes)
      × (t.locales ≡ s.locales)
      × (t.disabled ≡ s.disabled)
unfolding channel_deleted unbind_channels
channel_deleted_lem guild channel owner pool s g b =
    let gone : ℕ → Bool = λ bound. bound == channel in
    let (r, c, l, d) = unbind_all-others guild gone (owner ∷ pool) s in
    (bound-unbind_all guild gone (owner ∷ pool) s g b, r, c, l, d)

speakers_pick :
    (exists : ℕ → Bool) (guild : ℕ) (s : InMemoryStore) (sps : List Speaker)
    → missing_channels exists guild s sps ≡ pick (missing_channel exists guild s) sps
unfolding missing_channels
speakers_pick exists guild s [] = refl
speakers_pick exists guild s (sp ∷ sps) = elim (Option-cases (missing_channel exists guild s sp)) [
  | inl n ↦ rw (n, pick, missing_channels) (speakers_pick exists guild s sps)
  | inr (w, e) ↦ rw (e, pick, missing_channels) (ap (◌∷◌ w) (speakers_pick exists guild s sps))
]

abbrev Missing : (ℕ → Bool) → ℕ → InMemoryStore → Speaker → ChannelAccessWarning → Type 0
Missing exists guild s sp w =
    (sp.enabled ≡ true)
    × (sp.id ≡ w.bot_id)
    × (get_bound_channel guild w.bot_id s ≡ some w.channel_id)
    × (live_bound_channel exists guild w.bot_id s ≡ none)

missing_channel-Missing :
    (exists : ℕ → Bool) (guild : ℕ) (s : InMemoryStore) (sp : Speaker) (w : ChannelAccessWarning)
    → (missing_channel exists guild s sp ≡ some w) ↔ Missing exists guild s sp w
unfolding missing_channel live_bound_channel
missing_channel-Missing exists guild s sp w = (
  λ h. elim (Option-cases (get_bound_channel guild sp.id s)) [
    | inl n ↦ absurd (ground (arith, h, n))
    | inr (c, e) ↦
        let on : sp.enabled ≡ true = ground (arith, h, e) in
        let gone : exists c ≡ false = ground (arith, h, e) in
        let id : sp.id ≡ w.bot_id = ground (arith, h, e) in
        let channel : c ≡ w.channel_id = ground (arith, h, e) in
        let bound : get_bound_channel guild w.bot_id s ≡ some c =
          ap (λ x. get_bound_channel guild x s) (sym id) ∙ e in
        (on, id, bound ∙ ap some channel, ground (arith, bound, gone))
  ],
  λ (on, id, bound, dead).
      let here_bound : get_bound_channel guild sp.id s ≡ some w.channel_id =
        ap (λ x. get_bound_channel guild x s) id ∙ bound in
      let gone : exists w.channel_id ≡ false = ground (arith, bound, dead) in
      ground (arith, here_bound, on, gone, id),
)

missing_channels_lem :
    (exists : ℕ → Bool) (guild : ℕ) (s : InMemoryStore) (sps : List Speaker)
    (w : ChannelAccessWarning)
    → Elem w (missing_channels exists guild s sps)
      ↔ ((sp : Speaker) × Elem sp sps × Missing exists guild s sp w)
missing_channels_lem exists guild s sps w = (
  λ i.
      let (sp, j, e) =
        Elem-pick (missing_channel exists guild s) sps
          (subst (Elem w) (speakers_pick exists guild s sps) i) in
      (sp, j, (missing_channel-Missing exists guild s sp w).0 e),
  λ (sp, j, m). subst (Elem w) (sym (speakers_pick exists guild s sps)) (
      Elem-pick_of (missing_channel exists guild s) sps j
        ((missing_channel-Missing exists guild s sp w).1 m)),
)

-- The status has the speaker and no session.
pub record Listed (sp : Speaker) (st : Status) : Type 0 where
  pub idle : st.has_session ≡ false
  pub listed : Elem sp st.speakers

-- What a warning is about.
abbrev pub Warned : (ℕ → Bool) → ℕ → InMemoryStore → Option Status → ChannelAccessWarning → Type 0
Warned exists guild s status w =
    (st : Status) × (sp : Speaker) × (status ≡ some st)
    × Listed sp st
    × (sp.enabled ≡ true)
    × (sp.id ≡ w.bot_id)
    × (get_bound_channel guild w.bot_id s ≡ some w.channel_id)
    × (live_bound_channel exists guild w.bot_id s ≡ none)

Warned-in :
    (exists : ℕ → Bool) (guild : ℕ) (s : InMemoryStore) (sps : List Speaker) (active : Bool)
    (w : ChannelAccessWarning)
    → let status : Option Status = some (record { speakers = sps; has_session = active }) in
      Elem w (speakers_with_missing_channel exists guild s status) ↔ Warned exists guild s status w
unfolding speakers_with_missing_channel snapshot_speakers
Warned-in exists guild s sps true w = (
  λ i. elim i [ ],
  λ (st, sp, e, l, a, b, c, d).
      absurd (ground (arith, l.idle, ap (λ x. x.has_session) (some_inj e))),
)
Warned-in exists guild s sps false w = (
  λ i.
      let (sp, j, (a, b, c, d)) = (missing_channels_lem exists guild s sps w).0 i in
      (
        record { speakers = sps; has_session = false },
        sp,
        refl,
        record { idle = refl; listed = j },
        a,
        b,
        c,
        d,
      ),
  λ (st, sp, e, l, a, b, c, d).
      (missing_channels_lem exists guild s sps w).1
        (sp, subst (λ (x : Status). Elem sp x.speakers) (sym (some_inj e)) l.listed, (a, b, c, d)),
)

-- While the guild has a status and no session, a warning is given exactly for the enabled speakers
-- that are bound to a channel that does not exist, which are bound but have no live channel;
-- otherwise none is given.
pub speakers_with_missing_channel_lem :
    (exists : ℕ → Bool) (guild : ℕ) (s : InMemoryStore) (status : Option Status)
    (w : ChannelAccessWarning)
    → Elem w (speakers_with_missing_channel exists guild s status) ↔ Warned exists guild s status w
unfolding speakers_with_missing_channel snapshot_speakers
speakers_with_missing_channel_lem exists guild s none w =
    (λ i. elim i [ ], λ (st, sp, e, l, a, b, c, d). absurd (ground (arith, e)))
speakers_with_missing_channel_lem exists guild s (some st) w =
    Warned-in exists guild s st.speakers st.has_session w
