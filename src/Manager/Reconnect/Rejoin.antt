-- ===== src/Manager/Reconnect/Rejoin.antt =====
-- internal/manager/voice_reconnect.go: who is reconnected, and what a reconnect does.
use go_discord_caller.Base.{
  ◌==◌, if◌then◌else◌, Bool-cases, Option-cases, eqb, nat_eq, string_eq, pair_beq_iff, pair_eq,
  nat_zero, bool_zero, list_zero, string_zero, Map, lookup, insert, delete, lookup-insert,
  lookup-delete, ℕ, suc, ◌≤◌, ◌≡◌, refl, sym, ap, subst, ◌∙◌, inl, inr, Bool, true, false, not,
  ◌&&◌, Option, none, some, List, [], ◌∷◌, arith,
}
use go_discord_caller.Manager.Reconnect.{
  BotKey, current, ReconnectState, try_lock, unlock, load_applier, stall_rejoin_due,
}

-- `OnBotVoiceMove`: whether it reconnects the bot, from whether the guild has a session, the bound
-- channel, and the channel the bot is in.
unfoldable pub on_bot_voice_move : Bool → Option ℕ → Option ℕ → Bool
on_bot_voice_move active bound current = elim bound [
  | none ↦ false
  | some channel ↦ elim current [ none ↦ active | some now ↦ active && not (now == channel) ]
]

-- `encryptStallTarget`: the guild of the connection, and the bot, if both are known.
unfoldable pub encrypt_stall_target : Option ℕ → Option ℕ → Option BotKey
encrypt_stall_target conn_guild user = elim conn_guild [
  | none ↦ none
  | some guild ↦ elim user [ none ↦ none | some bot ↦ some (guild, bot) ]
]

-- `OnEncryptStall`: the bot it rejoins.
unfoldable pub on_encrypt_stall :
    Option ℕ → Option ℕ → ℕ → ReconnectState → Option BotKey × ReconnectState
unfolding encrypt_stall_target stall_rejoin_due
on_encrypt_stall conn_guild user now rs = elim (encrypt_stall_target conn_guild user) [
  | none ↦ (none, rs)
  | some k ↦ (let (go, after) = stall_rejoin_due k now rs in (if go then some k else none, after))
]

-- What a `Join` yields: a connection, an error, or none because the channel is gone.
pub data Joining : Type 0 where
  opened failed gone : Joining

-- What a reconnect finds: whether the guild has a session, at the start, after the leave and after
-- the back-off; the bound channel and the bot's voice; and whether the back-off ran out in time.
pub record Answers : Type 0 where
  pub active : Bool
  pub channel : Bool
  pub voice : Bool
  pub still_active : Bool
  pub first_join : Joining
  pub waited : Bool
  pub active_again : Bool
  pub second_join : Joining

pub data Act : Type 0 where
  drains leaves joins backs_off : Act
  applies : ℕ → Act

unfoldable pub apply_stored : Option ℕ → Joining → List Act
apply_stored applier failed = []
apply_stored applier gone = []
apply_stored none opened = []
apply_stored (some a) opened = applies a ∷ []

-- From the first `Join` on.
unfoldable pub rejoin : Answers → Option ℕ → List Act
unfolding apply_stored
rejoin a applier = joins ∷ (elim a.first_join [
  | opened ↦ apply_stored applier opened
  | gone ↦ []
  | failed ↦
      if a.waited && a.active_again
      then backs_off ∷ joins ∷ apply_stored applier a.second_join
      else backs_off ∷ []
])

-- The body of `ReconnectBotChannel` under the lock.
unfoldable pub reconnect_locked : Answers → Option ℕ → List Act
unfolding rejoin
reconnect_locked a applier =
    if a.active && a.channel && a.voice
    then drains ∷ leaves ∷ (if a.still_active then rejoin a applier else [])
    else []

-- `ReconnectBotChannel`, with nothing else that touches its key between the claim and its release.
unfoldable pub reconnect_bot_channel : BotKey → Answers → ReconnectState → List Act × ReconnectState
unfolding try_lock unlock reconnect_locked load_applier
reconnect_bot_channel k a rs =
    let (claimed, after) = try_lock k rs in
    if claimed then (reconnect_locked a (load_applier k rs), unlock k after) else ([], rs)

unfoldable pub join_count : List Act → ℕ
join_count [] = 0
join_count (joins ∷ acts) = suc (join_count acts)
join_count (drains ∷ acts) = join_count acts
join_count (leaves ∷ acts) = join_count acts
join_count (backs_off ∷ acts) = join_count acts
join_count (applies a ∷ acts) = join_count acts

-- The appliers that ran.
unfoldable pub applied : List Act → List ℕ
applied [] = []
applied (applies a ∷ acts) = a ∷ applied acts
applied (drains ∷ acts) = applied acts
applied (leaves ∷ acts) = applied acts
applied (backs_off ∷ acts) = applied acts
applied (joins ∷ acts) = applied acts

-- Whether the last `Join` of a reconnect yields a connection.
unfoldable pub is_open : Joining → Bool
is_open opened = true
is_open failed = false
is_open gone = false

unfoldable pub connects : Answers → Bool
unfolding is_open
connects a = a.active && a.channel && a.voice && a.still_active && (elim a.first_join [
  | opened ↦ true
  | gone ↦ false
  | failed ↦ a.waited && a.active_again && is_open a.second_join
])

abbrev pub as_list : Option ℕ → List ℕ
as_list none = []
as_list (some a) = a ∷ []

-- What a reconnect comes to.
pub record Reconnects (k : BotKey) (a : Answers) (rs : ReconnectState)
    (r : List Act × ReconnectState) : Type 0 where
  pub busy : (u : Unit {0}) → lookup k rs.in_flight ≡ some u → (r.0 ≡ []) × (r.1 ≡ rs)
  pub released :
      lookup k rs.in_flight ≡ none → (j : BotKey) → lookup j r.1.in_flight ≡ lookup j rs.in_flight
  pub bounded : join_count r.0 ≤ 2
  pub wired :
      lookup k rs.in_flight ≡ none
      → applied r.0 ≡ (if connects a then as_list (load_applier k rs) else [])

reconnect_locked_bounded :
    (a : Answers) (applier : Option ℕ) → join_count (reconnect_locked a applier) ≤ 2
unfolding reconnect_locked rejoin apply_stored join_count
reconnect_locked_bounded a applier = ground arith

reconnect_locked_wired :
    (a : Answers) (applier : Option ℕ)
    → applied (reconnect_locked a applier) ≡ (if connects a then as_list applier else [])
unfolding reconnect_locked rejoin apply_stored applied connects is_open
reconnect_locked_wired a applier = ground arith

none_joined : join_count [] ≤ 2
unfolding join_count
none_joined = omega arith

claimed_lem :
    (k : BotKey) (a : Answers) (rs : ReconnectState)
    → lookup k rs.in_flight ≡ none
    → reconnect_bot_channel k a rs ≡ (
      reconnect_locked a (load_applier k rs),
      record rs { in_flight = delete k (insert k tt rs.in_flight) },
    )
unfolding reconnect_bot_channel try_lock unlock
claimed_lem k a rs h = rw (h, try_lock) refl

busy_lem :
    (k : BotKey) (a : Answers) (rs : ReconnectState) (u : Unit {0})
    → lookup k rs.in_flight ≡ some u
    → reconnect_bot_channel k a rs ≡ ([], rs)
unfolding reconnect_bot_channel try_lock
busy_lem k a rs u h = rw (h, try_lock) refl

claim_given_back :
    (k j : BotKey) (m : Map BotKey (Unit {0}))
    → lookup k m ≡ none
    → lookup j (delete k (insert k tt m)) ≡ lookup j m
claim_given_back k j m h = elim (Bool-cases (eqb k j)) [
  | inl t ↦
      rw t at (lookup-delete k j (insert k tt m))
      ∙ sym h
      ∙ ap (λ z. lookup z m) ((pair_beq_iff k j).0 t)
  | inr f ↦ rw f at (lookup-delete k j (insert k tt m)) ∙ rw f at (lookup-insert k j tt m)
]

-- While a reconnect of the bot is under way another does nothing. Otherwise it leaves every claim as
-- it found it, joins at most twice, and runs the bot's stored applier exactly when its last join
-- yields a connection.
pub reconnect_bot_channel-Reconnects :
    (k : BotKey) (a : Answers) (rs : ReconnectState)
    → Reconnects k a rs (reconnect_bot_channel k a rs)
reconnect_bot_channel-Reconnects k a rs = elim (Option-cases (lookup k rs.in_flight)) [
  | inl n ↦ subst (Reconnects k a rs) (sym (claimed_lem k a rs n)) (record {
    busy = λ u h. absurd (ground (arith, n, h));
    released = λ h j. claim_given_back k j rs.in_flight n;
    bounded = reconnect_locked_bounded a (load_applier k rs);
    wired = λ h. reconnect_locked_wired a (load_applier k rs);
  })
  | inr (u, e) ↦ subst (Reconnects k a rs) (sym (busy_lem k a rs u e)) (record {
    busy = λ v h. (refl, refl);
    released = λ h j. refl;
    bounded = none_joined;
    wired = λ h. absurd (ground (arith, e, h));
  })
]
