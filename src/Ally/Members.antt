-- ===== src/Ally/Members.antt =====
-- Who belongs to a session, and whose audio may arrive in it.
use go_discord_caller.Base.{
  ◌==◌, if◌then◌else◌, Bool-cases, nat_eq, nat_zero, bool_zero, list_zero, Map, lookup, insert,
  delete, lookup-insert, lookup-delete, ℕ, ◌≡◌, refl, sym, ap, ◌∙◌, ◌≢◌, ◌↔◌, inl, inr, Bool, true,
  false, none, some, List, [], ◌∷◌, arith,
}
use go_discord_caller.Ally.{
  RaidMode, Guilds, peer_in, Session, new_session, add_guild, set_capturing, has_capturing_peers,
  set_route_observer, remove_guild,
}

-- One change of a session's membership.
pub data Change : Type 0 where
  adds : ℕ → List ℕ → Change
  captures removes : ℕ → Change
  observes : ℕ → ℕ → Change

unfoldable pub change : {Code : Type 0} → Session Code → Change → Session Code
unfolding add_guild set_capturing remove_guild set_route_observer
change s (adds g chs) = (add_guild s g chs).0
change s (captures g) = (set_capturing s g).0
change s (removes g) = (remove_guild s g).0
change s (observes g fn) = set_route_observer s g fn

unfoldable pub history : {Code : Type 0} → Session Code → List Change → Session Code
unfolding change
history s [] = s
history s (c ∷ cs) = history (change s c) cs

unfoldable pub has {ℓ} : {V : Type ℓ} → ℕ → Map ℕ V → Bool
has k m = elim (lookup k m) [ none ↦ false | some v ↦ true ]

-- Read off the changes alone: the guild's last `captures` has no `removes` after it.
unfoldable pub captured : ℕ → Bool → List Change → Bool
captured g b [] = b
captured g b (adds h chs ∷ cs) = captured g b cs
captured g b (captures h ∷ cs) = captured g (if h == g then true else b) cs
captured g b (removes h ∷ cs) = captured g (if h == g then false else b) cs
captured g b (observes h fn ∷ cs) = captured g b cs

-- The guild's last `adds` has no `removes` after it.
unfoldable pub attached : ℕ → Bool → List Change → Bool
attached g b [] = b
attached g b (adds h chs ∷ cs) = attached g (if h == g then true else b) cs
attached g b (captures h ∷ cs) = attached g b cs
attached g b (removes h ∷ cs) = attached g (if h == g then false else b) cs
attached g b (observes h fn ∷ cs) = attached g b cs

has-nil {ℓ} : (V : Type ℓ) (k : ℕ) → has {V = V} k [] ≡ false
unfolding has lookup
has-nil V k = refl

has-insert {ℓ} :
    {V : Type ℓ} (k j : ℕ) (v : V) (m : Map ℕ V)
    → has j (insert k v m) ≡ (if k == j then true else has j m)
unfolding has
has-insert k j v m = ground (arith, lookup-insert k j v m)

has-delete {ℓ} :
    {V : Type ℓ} (k j : ℕ) (m : Map ℕ V) → has j (delete k m) ≡ (if k == j then false else has j m)
unfolding has
has-delete k j m = ground (arith, lookup-delete k j m)

history-captured :
    {Code : Type 0} (s : Session Code) (g : ℕ) (cs : List Change)
    → has g (history s cs).capturing ≡ captured g (has g s.capturing) cs
unfolding history captured
history-captured s g [] = refl
history-captured s g (adds h chs ∷ cs) = history-captured (change s (adds h chs)) g cs
history-captured s g (captures h ∷ cs) =
    history-captured (change s (captures h)) g cs
    ∙ ap (λ b. captured g b cs) (has-insert h g tt s.capturing)
history-captured s g (removes h ∷ cs) =
    history-captured (change s (removes h)) g cs
    ∙ ap (λ b. captured g b cs) (has-delete h g s.capturing)
history-captured s g (observes h fn ∷ cs) = history-captured (change s (observes h fn)) g cs

-- The guests are the attached guilds but the host.
record Guests {Code : Type 0} (host : ℕ) (s : Session Code) : Type 0 where
  host_kept : s.host_guild_id ≡ host
  host_out : has host s.guests ≡ false
  guests_in : (g : ℕ) → g ≢ host → has g s.guests ≡ has g s.outs

change-Guests :
    {Code : Type 0} (host : ℕ) (s : Session Code) (c : Change)
    → Guests host s
    → Guests host (change s c)
unfolding change
change-Guests host s (adds h chs) k = record {
  host_kept = k.host_kept;
  host_out = ground (arith, k.host_out, k.host_kept, has-insert h host tt s.guests);
  guests_in = λ g n. ground (
    arith,
    k.guests_in g n,
    k.host_kept,
    n,
    has-insert h g tt s.guests,
    has-insert h g chs s.outs,
  );
}
change-Guests host s (captures h) k = record {
  host_kept = k.host_kept;
  host_out = k.host_out;
  guests_in = k.guests_in;
}
change-Guests host s (removes h) k = record {
  host_kept = k.host_kept;
  host_out = ground (arith, k.host_out, has-delete h host s.guests);
  guests_in =
      λ g n. ground (arith, k.guests_in g n, has-delete h g s.guests, has-delete h g s.outs);
}
change-Guests host s (observes h fn) k = record {
  host_kept = k.host_kept;
  host_out = k.host_out;
  guests_in = k.guests_in;
}

has-cons {ℓ} :
    {V : Type ℓ} (j i : ℕ) (v : V) (m : Map ℕ V)
    → has j ((i, v) ∷ m) ≡ (if i == j then true else has j m)
unfolding has lookup
has-cons j i v m = ground arith

-- The first peer that the loop of `HasCapturingPeers` stops at.
peer_in-witness :
    (g : ℕ) (m : Guilds) → peer_in g m ≡ true → (id : ℕ) × (id ≢ g) × (has id m ≡ true)
unfolding peer_in
peer_in-witness g [] h = absurd (ground (arith, h))
peer_in-witness g ((i, u) ∷ m) h = elim (Bool-cases (i == g)) [
  | inl e ↦
      let (id, n, k) = peer_in-witness g m (ground (arith, h, e)) in
      (id, n, ground (arith, k, has-cons id i u m))
  | inr e ↦ (i, ground (arith, e), ground (arith, has-cons i i u m))
]

peer_in-found : (g : ℕ) (m : Guilds) (id : ℕ) → id ≢ g → has id m ≡ true → peer_in g m ≡ true
unfolding peer_in
peer_in-found g [] id n k = absurd (ground (arith, has-nil {0} Unit id, k))
peer_in-found g ((i, u) ∷ m) id n k =
    ground (arith, has-cons id i u m, k, n, peer_in-found g m id n)

history-Guests :
    {Code : Type 0} (host : ℕ) (s : Session Code) (cs : List Change)
    → Guests host s
    → Guests host (history s cs)
unfolding history
history-Guests host s [] k = k
history-Guests host s (c ∷ cs) k = history-Guests host (change s c) cs (change-Guests host s c k)

new_session-Guests :
    {Code : Type 0} (code : Code) (host : ℕ) (mode : RaidMode)
    → Guests host (new_session code host mode)
unfolding new_session has lookup
new_session-Guests code host mode = record {
  host_kept = refl;
  host_out = refl;
  guests_in = λ g n. refl;
}

-- Whatever the changes to a new session, `HasCapturingPeers` answers true for a guild exactly
-- when some other guild called SetCapturing and has not been removed since.
pub has_capturing_peers_lem :
    {Code : Type 0} (code : Code) (host : ℕ) (mode : RaidMode) (cs : List Change) (g : ℕ)
    → (has_capturing_peers (history (new_session code host mode) cs) g ≡ true)
      ↔ ((id : ℕ) × (id ≢ g) × (captured id false cs ≡ true))
unfolding has_capturing_peers new_session
has_capturing_peers_lem code host mode cs g =
    let s = history (new_session code host mode) cs in
    let at : (id : ℕ) → has id s.capturing ≡ captured id false cs = λ id.
      history-captured (new_session code host mode) id cs
      ∙ ap (λ b. captured id b cs) (has-nil Unit id) in
    (
      λ h. let (id, n, k) = peer_in-witness g s.capturing h in (id, n, sym (at id) ∙ k),
      λ (id, n, k). peer_in-found g s.capturing id n (at id ∙ k),
    )

history-attached :
    {Code : Type 0} (s : Session Code) (g : ℕ) (cs : List Change)
    → has g (history s cs).outs ≡ attached g (has g s.outs) cs
unfolding history attached
history-attached s g [] = refl
history-attached s g (adds h chs ∷ cs) =
    history-attached (change s (adds h chs)) g cs
    ∙ ap (λ b. attached g b cs) (has-insert h g chs s.outs)
history-attached s g (captures h ∷ cs) = history-attached (change s (captures h)) g cs
history-attached s g (removes h ∷ cs) =
    history-attached (change s (removes h)) g cs ∙ ap (λ b. attached g b cs) (has-delete h g s.outs)
history-attached s g (observes h fn ∷ cs) = history-attached (change s (observes h fn)) g cs

-- Whatever the changes to a new session, its guests are the guilds but the host that AddGuild
-- attached and RemoveGuild has not detached since; the host is never one.
pub history-guests :
    {Code : Type 0} (code : Code) (host : ℕ) (mode : RaidMode) (cs : List Change)
    → (has host (history (new_session code host mode) cs).guests ≡ false)
      × ((g : ℕ)
          → g ≢ host
          → has g (history (new_session code host mode) cs).guests ≡ attached g false cs)
unfolding new_session
history-guests code host mode cs =
    let k =
      history-Guests host (new_session code host mode) cs (new_session-Guests code host mode) in
    (
      k.host_out,
      λ g n.
          k.guests_in g n
          ∙ history-attached (new_session code host mode) g cs
          ∙ ap (λ b. attached g b cs) (has-nil (List ℕ) g),
    )
