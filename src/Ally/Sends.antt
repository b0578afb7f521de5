-- ===== src/Ally/Sends.antt =====
-- A broadcast reaches every channel it should, and only those.
use go_discord_caller.Base.{
  ◌==◌, if◌then◌else◌, ==_refl, Bool-cases, Option-cases, nat_eq, nat_zero, bool_zero, list_zero,
  Map, lookup, insert, lookup-insert, Elem, here, there, Elem-cons, Distinct, Elem-All, ℕ, ◌≡◌,
  refl, sym, ap, subst, ◌∙◌, ◌≢◌, inl, inr, false, Option, none, some, List, [], ◌∷◌, ◌++◌, arith,
}
use go_discord_caller.Ally.{
  Chan, Chans, offer, try_send, send_all, broadcast_outs, Session, broadcast_from_guild,
}

-- The channels of the guilds other than `exclude`.
unfoldable pub receivers : ℕ → Map ℕ (List ℕ) → List ℕ
receivers exclude [] = []
receivers exclude ((g, chs) ∷ outs) =
    if g == exclude then receivers exclude outs else chs ++ receivers exclude outs

module _ {ℓ} {A : Type ℓ} where
  -- No channel of the list is closed.
  abbrev pub Open : Chans A → List ℕ → Type ℓ
  Open st chs = (ch : ℕ) (c : Chan A) → Elem ch chs → lookup ch st ≡ some c → c.closed ≡ false

  abbrev pub offered : A → Option (Chan A) → Option (Chan A)
  offered pkt none = none
  offered pkt (some c) = some (offer pkt c)

  -- What a channel of the list holds afterwards, and what any other does.
  pub record Delivered (pkt : A) (chs : List ℕ) (st st' : Chans A) : Type ℓ where
    pub reached : (ch : ℕ) → Elem ch chs → lookup ch st' ≡ offered pkt (lookup ch st)
    pub spared : (ch : ℕ) → (Elem ch chs → ⊥) → lookup ch st' ≡ lookup ch st

  send_all-append :
      (pkt : A) (xs ys : List ℕ) (st : Chans A)
      → send_all pkt (xs ++ ys) st
        ≡ elim (send_all pkt xs st) [ none ↦ none | some st' ↦ send_all pkt ys st' ]
  unfolding send_all
  send_all-append pkt [] ys st = refl
  send_all-append pkt (x ∷ xs) ys st = elim (Option-cases (try_send pkt x st)) [
    | inl e ↦ rw (e, send_all) refl
    | inr (st', e) ↦ rw (e, send_all) (send_all-append pkt xs ys st')
  ]

  broadcast_outs-send_all :
      (pkt : A) (exclude : ℕ) (outs : Map ℕ (List ℕ)) (st : Chans A)
      → broadcast_outs pkt exclude outs st ≡ send_all pkt (receivers exclude outs) st
  unfolding broadcast_outs send_all receivers
  broadcast_outs-send_all pkt exclude [] st = refl
  broadcast_outs-send_all pkt exclude ((g, chs) ∷ outs) st = elim (Bool-cases (g == exclude)) [
    | inl e ↦ rw e (broadcast_outs-send_all pkt exclude outs st)
    | inr e ↦ elim (Option-cases (send_all pkt chs st)) [
      | inl n ↦ rw (e, send_all-append pkt chs (receivers exclude outs) st, n) refl
      | inr (st', m) ↦
          rw (e, send_all-append pkt chs (receivers exclude outs) st, m)
            (broadcast_outs-send_all pkt exclude outs st')
    ]
  ]

  try_send_lem :
      (pkt : A) (ch : ℕ) (st : Chans A)
      → ((c : Chan A) → lookup ch st ≡ some c → c.closed ≡ false)
      → (st' : Chans A) × (try_send pkt ch st ≡ some st')
        × ((j : ℕ) → lookup j st' ≡ (if ch == j then offered pkt (lookup j st) else lookup j st))
  unfolding try_send
  try_send_lem pkt ch st h = elim (Option-cases (lookup ch st)) [
    | inl n ↦ (st, rw (n, try_send) refl, λ j. ground (arith, n))
    | inr (c, s) ↦ (
      insert ch (offer pkt c) st,
      rw (s, h c s, try_send) refl,
      λ j. ground (arith, lookup-insert ch j (offer pkt c) st, s),
    )
  ]

  Delivered-cons :
      (pkt : A) (x : ℕ) (xs : List ℕ) (st st₁ st₂ : Chans A)
      → (lookup x st₁ ≡ (if x == x then offered pkt (lookup x st) else lookup x st))
      → ((j : ℕ) → x ≢ j → lookup j st₁ ≡ lookup j st)
      → ((j : ℕ) → Elem j xs → x ≢ j)
      → Delivered pkt xs st₁ st₂
      → Delivered pkt (x ∷ xs) st st₂
  Delivered-cons pkt x xs st st₁ st₂ at kept apart after = record {
    reached = λ ch m. elim (Elem-cons m) [
      | inl e ↦
          let first = after.spared x (λ m. apart x m refl) in
          subst (λ y. lookup y st₂ ≡ offered pkt (lookup y st)) (sym e)
            (ground (arith, at, first, ==_refl x))
      | inr i ↦ after.reached ch i ∙ ap (offered pkt) (kept ch (apart ch i))
    ];
    spared = λ ch n. after.spared ch (λ m. n (there m)) ∙ kept ch (λ e. n (here (sym e)));
  }

  send_all_lem :
      (pkt : A) (chs : List ℕ) (st : Chans A)
      → Distinct chs
      → Open st chs
      → (st' : Chans A) × (send_all pkt chs st ≡ some st') × Delivered pkt chs st st'
  unfolding send_all
  send_all_lem pkt [] st d o =
      (st, refl, record { reached = λ ch m. elim m [ ]; spared = λ ch n. refl })
  send_all_lem pkt (x ∷ xs) st d o =
      let (st₁, sent, at) = try_send_lem pkt x st (λ c. o x c (here refl)) in
      let kept : (j : ℕ) → x ≢ j → lookup j st₁ ≡ lookup j st = λ j n. ground (arith, at j) in
      let apart : (j : ℕ) → Elem j xs → x ≢ j = λ j m. Elem-All (λ y. x ≢ y) xs m d.0 in
      let (st₂, rest, after) =
        send_all_lem pkt xs st₁ d.1 (λ j c m l. o j c (there m) (sym (kept j (apart j m)) ∙ l)) in
      (st₂, rw (sent, send_all) rest, Delivered-cons pkt x xs st st₁ st₂ (at x) kept apart after)

  -- A broadcast to open channels does not panic, hands the packet to each channel of the other
  -- guilds, which drops it if its buffer is full, and leaves every other channel alone.
  pub broadcast_from_guild_lem :
      {Code : Type 0} (s : Session Code) (g : ℕ) (pkt : A) (st : Chans A)
      → Distinct (receivers g s.outs)
      → Open st (receivers g s.outs)
      → (st' : Chans A) × (broadcast_from_guild s g pkt st ≡ some st')
        × Delivered pkt (receivers g s.outs) st st'
  unfolding broadcast_from_guild
  broadcast_from_guild_lem s g pkt st d o =
      let (st', e, after) = send_all_lem pkt (receivers g s.outs) st d o in
      (st', broadcast_outs-send_all pkt g s.outs st ∙ e, after)
