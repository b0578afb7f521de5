-- ===== src/Ally/Registry/Live.antt =====
-- A code never leads to a session that its host has ended.
use go_discord_caller.Base.{
  ◌==◌, Bool-cases, Option-cases, some_inj, Eq, nat_eq, nat_zero, bool_zero, list_zero, Map, lookup,
  insert, lookup-insert, lookup-delete, lookup-insert_inv, lookup-insert_self, ℕ, ◌≤◌, ◌<◌, ◌≡◌,
  refl, sym, ap, subst, ◌∙◌, ◌≢◌, ◌⊎◌, inl, inr, false, none, some, List, [], ◌∷◌, arith,
}
use go_discord_caller.Ally.{
  RaidMode, Session, new_session, add_guild, set_capturing, set_route_observer, remove_guild,
}
use go_discord_caller.Ally.Members.{Change, adds, captures, removes, observes, change}
use go_discord_caller.Ally.Registry.{
  JoinError, not_found, own_session, already_active, Manager, new_manager, get_by_guild,
  remove_guest, close_session, update_session, create, join_found, join, remove_session,
  remove_host,
}

-- One call of the registry, or one change of the membership of a session that it holds.
pub data Call (Code : Type 0) : Type 0 where
  creates : Code → ℕ → RaidMode → Call Code
  joins : Code → ℕ → Call Code
  removes_guest removes_host : ℕ → Call Code
  changes : ℕ → Change → Call Code

module _ {Code : Type 0} ⦃e : Eq Code⦄ where
  unfoldable pub call : Manager Code → Call Code → Manager Code
  unfolding create join remove_guest remove_host update_session change
  call m (creates code host mode) = (create m code host mode).1
  call m (joins code g) = (join m code g).1
  call m (removes_guest g) = remove_guest m g
  call m (removes_host g) = remove_host m g
  call m (changes r c) = update_session r (λ s. change s c) m

  unfoldable pub calls : Manager Code → List (Call Code) → Manager Code
  unfolding call
  calls m [] = m
  calls m (c ∷ cs) = calls (call m c) cs

  -- What a code leads to.
  record Leads (m : Manager Code) (code : Code) (r : ℕ) : Type 0 where
    session : Session Code
    in_heap : lookup r m.heap ≡ some session
    same_code : session.code ≡ code
    not_done : session.done_closed ≡ false

  record IsRegistry (m : Manager Code) : Type 0 where
    leads : (code : Code) (r : ℕ) → lookup code m.sessions ≡ some r → Leads m code r
    fresh : (r : ℕ) → m.next_ref ≤ r → lookup r m.heap ≡ none

  change_same :
      (s : Session Code) (c : Change)
      → ((change s c).code ≡ s.code) × ((change s c).done_closed ≡ s.done_closed)
  unfolding change add_guild set_capturing remove_guild set_route_observer
  change_same s (adds g chs) = (refl, refl)
  change_same s (captures g) = (refl, refl)
  change_same s (removes g) = (refl, refl)
  change_same s (observes g fn) = (refl, refl)

  -- Writing a session over another of the same code, still open if that was, keeps every code.
  Leads-insert :
      (m m' : Manager Code) (r : ℕ) (s s' : Session Code)
      → lookup r m.heap ≡ some s
      → s'.code ≡ s.code
      → (code : Code) (q : ℕ) → m'.heap ≡ insert r s' m.heap
      → (r ≡ q → s'.done_closed ≡ s.done_closed)
      → Leads m code q
      → Leads m' code q
  Leads-insert m m' r s s' h c code q w d l = elim (Bool-cases (r == q)) [
    | inl e ↦
        let e' : r ≡ q = ground (arith, e) in
        let same : s ≡ l.session = some_inj (sym h ∙ ap (λ x. lookup x m.heap) e' ∙ l.in_heap) in
        record {
          session = s';
          in_heap = ap (lookup q) w ∙ lookup-insert r q s' m.heap ∙ rw e refl;
          same_code = c ∙ ap (λ x. x.code) same ∙ l.same_code;
          not_done = d e' ∙ ap (λ x. x.done_closed) same ∙ l.not_done;
        }
    | inr n ↦ record {
      session = l.session;
      in_heap = ap (lookup q) w ∙ lookup-insert r q s' m.heap ∙ rw n l.in_heap;
      same_code = l.same_code;
      not_done = l.not_done;
    }
  ]

  -- Nothing is known to stand at a reference that is not allocated.
  allocated :
      (m : Manager Code)
      → IsRegistry m
      → (r : ℕ) (s : Session Code) → lookup r m.heap ≡ some s
      → r < m.next_ref
  allocated m k r s h = ground (arith, k.fresh r, h)

  fresh-insert :
      (m : Manager Code) (r : ℕ) (s : Session Code)
      → r < m.next_ref
      → IsRegistry m
      → (q : ℕ) → m.next_ref ≤ q
      → lookup q (insert r s m.heap) ≡ none
  fresh-insert m r s h k q l = ground (arith, lookup-insert r q s m.heap, k.fresh q l, h, l)

  create-Leads :
      (m : Manager Code) (code : Code) (host : ℕ) (mode : RaidMode)
      → IsRegistry m
      → (code' : Code) (q : ℕ) → lookup code' (insert code m.next_ref m.sessions) ≡ some q
      → Leads (create m code host mode).1 code' q
  unfolding create new_session
  create-Leads m code host mode k code' q h =
      elim (lookup-insert_inv code code' m.next_ref m.sessions h) [
        | inl (c, r) ↦ record {
          session = new_session code host mode;
          in_heap = rw r (lookup-insert_self m.next_ref (new_session code host mode) m.heap);
          same_code = c;
          not_done = refl;
        }
        | inr l ↦
            let old = k.leads code' q l in
            let below = allocated m k q old.session old.in_heap in
            record {
              session = old.session;
              in_heap = ground (
                arith,
                lookup-insert m.next_ref q (new_session code host mode) m.heap,
                old.in_heap,
                below,
              );
              same_code = old.same_code;
              not_done = old.not_done;
            }
      ]

  create-IsRegistry :
      (m : Manager Code) (code : Code) (host : ℕ) (mode : RaidMode)
      → IsRegistry m
      → IsRegistry (create m code host mode).1
  unfolding create
  create-IsRegistry m code host mode k = record {
    leads = create-Leads m code host mode k;
    fresh = λ q l.
        ground
          (arith, lookup-insert m.next_ref q (new_session code host mode) m.heap, k.fresh q, l);
  }

  update_session-IsRegistry :
      (m : Manager Code) (r : ℕ) (c : Change)
      → IsRegistry m
      → IsRegistry (update_session r (λ s. change s c) m)
  unfolding update_session
  update_session-IsRegistry m r c k = elim (Option-cases (lookup r m.heap)) [
    | inl n ↦ subst IsRegistry (sym (rw (n, update_session) refl)) k
    | inr (s, h) ↦
        let m' : Manager Code = record m { heap = insert r (change s c) m.heap } in
        let same = change_same s c in
        let kept : IsRegistry m' = record {
          leads = λ code q l.
              Leads-insert m m' r s (change s c) h same.0 code q refl (λ e. same.1)
                (k.leads code q l);
          fresh = fresh-insert m r (change s c) (allocated m k r s h) k;
        } in
        subst IsRegistry (sym (rw (h, update_session) refl)) kept
  ]

  remove_session-IsRegistry :
      (m : Manager Code) (host r : ℕ) (s : Session Code)
      → lookup r m.heap ≡ some s
      → IsRegistry m
      → IsRegistry (remove_session m host r s)
  unfolding remove_session close_session
  remove_session-IsRegistry m host r s h k = record {
    leads = λ code q l.
        let apart : s.code ≢ code = λ c.
          ground (arith, lookup-delete s.code code m.sessions, (e.beq_iff s.code code).1 c, l) in
        let old = k.leads code q (ground (arith, lookup-delete s.code code m.sessions, l)) in
        Leads-insert m (remove_session m host r s) r s (close_session s) h refl code q refl
          (λ same. absurd (
            apart (
              ap (λ x. x.code) (some_inj (sym h ∙ ap (λ x. lookup x m.heap) same ∙ old.in_heap))
              ∙ old.same_code)))
          old;
    fresh = fresh-insert m r (close_session s) (allocated m k r s h) k;
  }

  remove_host-IsRegistry :
      (m : Manager Code) (host : ℕ) → IsRegistry m → IsRegistry (remove_host m host)
  unfolding remove_host
  remove_host-IsRegistry m host k = elim (Option-cases (lookup host m.by_guild)) [
    | inl n ↦ rw (n, remove_host) k
    | inr (r, h) ↦ elim (Option-cases (lookup r m.heap)) [
      | inl n ↦ rw (h, remove_host, n) k
      | inr (s, g) ↦ rw (h, remove_host, g) (remove_session-IsRegistry m host r s g k)
    ]
  ]

  -- The registry of sessions and of guilds apart, a call leaves every code where it led.
  by_guild-IsRegistry :
      (m : Manager Code) (g : Map ℕ ℕ) → IsRegistry m → IsRegistry (record m { by_guild = g })
  by_guild-IsRegistry m g k = record {
    leads = λ code r l.
        let old = k.leads code r l in
        record {
          session = old.session;
          in_heap = old.in_heap;
          same_code = old.same_code;
          not_done = old.not_done;
        };
    fresh = k.fresh;
  }

  -- What a successful `Join` has found.
  record Joined (m : Manager Code) (code : Code) (g r : ℕ) (m' : Manager Code) : Type 0 where
    session : Session Code
    listed : lookup code m.sessions ≡ some r
    in_heap : lookup r m.heap ≡ some session
    not_host : session.host_guild_id ≢ g
    was_free : lookup g m.by_guild ≡ none
    after : m' ≡ record m { by_guild = insert g r m.by_guild }

  join_found-cases :
      (m : Manager Code) (g r : ℕ) (s : Session Code)
      → (((join_found m g r s).1 ≡ m) × (x : JoinError) × ((join_found m g r s).0 ≡ inl x))
        ⊎ (join_found m g r s ≡ (inr r, record m { by_guild = insert g r m.by_guild }))
          × (s.host_guild_id ≢ g)
          × (lookup g m.by_guild ≡ none)
  unfolding join_found
  join_found-cases m g r s = elim (Bool-cases (s.host_guild_id == g)) [
    | inl e ↦ inl (rw (e, join_found) refl, own_session, rw (e, join_found) refl)
    | inr n ↦ elim (Option-cases (lookup g m.by_guild)) [
      | inr (old, h) ↦ inl (rw (n, join_found, h) refl, already_active, rw (n, join_found, h) refl)
      | inl f ↦ inr (rw (n, join_found, f) refl, ground (arith, n), f)
    ]
  ]

  join-cases :
      (m : Manager Code) (code : Code) (g : ℕ)
      → (((join m code g).1 ≡ m) × (x : JoinError) × ((join m code g).0 ≡ inl x))
        ⊎ ((r : ℕ) × ((join m code g).0 ≡ inr r) × Joined m code g r (join m code g).1)
  unfolding join
  join-cases m code g = elim (Option-cases (lookup code m.sessions)) [
    | inl n ↦ inl (rw (n, join) refl, not_found, rw (n, join) refl)
    | inr (r, h) ↦ elim (Option-cases (lookup r m.heap)) [
      | inl n ↦ inl (rw (h, join, n) refl, not_found, rw (h, join, n) refl)
      | inr (s, i) ↦
          let found : join m code g ≡ join_found m g r s = rw (h, join, i) refl in
          elim (join_found-cases m g r s) [
            | inl (k, x, f) ↦ inl (ap (λ y. y.1) found ∙ k, x, ap (λ y. y.0) found ∙ f)
            | inr (k, n, f) ↦ inr (
              r,
              ap (λ y. y.0) (found ∙ k),
              record {
                session = s;
                listed = h;
                in_heap = i;
                not_host = n;
                was_free = f;
                after = ap (λ y. y.1) (found ∙ k);
              },
            )
          ]
    ]
  ]

  join-IsRegistry :
      (m : Manager Code) (code : Code) (g : ℕ) → IsRegistry m → IsRegistry (join m code g).1
  join-IsRegistry m code g k = elim (join-cases m code g) [
    | inl (same, x, f) ↦ subst IsRegistry (sym same) k
    | inr (r, f, j) ↦ subst IsRegistry (sym j.after) (by_guild-IsRegistry m _ k)
  ]

  call-IsRegistry : (m : Manager Code) (c : Call Code) → IsRegistry m → IsRegistry (call m c)
  unfolding call remove_guest
  call-IsRegistry m (creates code host mode) k = create-IsRegistry m code host mode k
  call-IsRegistry m (joins code g) k = join-IsRegistry m code g k
  call-IsRegistry m (removes_guest g) k = by_guild-IsRegistry m _ k
  call-IsRegistry m (removes_host g) k = remove_host-IsRegistry m g k
  call-IsRegistry m (changes r c) k = update_session-IsRegistry m r c k

  calls-IsRegistry :
      (m : Manager Code) (cs : List (Call Code)) → IsRegistry m → IsRegistry (calls m cs)
  unfolding calls
  calls-IsRegistry m [] k = k
  calls-IsRegistry m (c ∷ cs) k = calls-IsRegistry (call m c) cs (call-IsRegistry m c k)

  new_manager-IsRegistry : IsRegistry (new_manager {Code = Code})
  unfolding new_manager lookup
  new_manager-IsRegistry = record {
    leads = λ code r h. absurd (ground (arith, h));
    fresh = λ r l. refl;
  }

  -- Whatever calls came before, a guild that joins by a code gets a session of that code which
  -- its host has not ended, of which it is not the host itself, and had no session before.
  pub join-live :
      (cs : List (Call Code)) (code : Code) (g r : ℕ)
      → (join (calls new_manager cs) code g).0 ≡ inr r
      → (s : Session Code) × (lookup r (calls new_manager cs).heap ≡ some s)
        × (s.code ≡ code)
        × (s.done_closed ≡ false)
        × (s.host_guild_id ≢ g)
        × (get_by_guild (calls new_manager cs) g ≡ none)
  unfolding get_by_guild
  join-live cs code g r h =
      let m : Manager Code = calls new_manager cs in
      elim (join-cases m code g) [
        | inl (same, x, f) ↦ absurd (ground (arith, h, f))
        | inr (q, f, j) ↦
            let l =
              (calls-IsRegistry new_manager cs new_manager-IsRegistry).leads code q j.listed in
            let same : j.session ≡ l.session = some_inj (sym j.in_heap ∙ l.in_heap) in
            let e : q ≡ r = ground (arith, h, f) in
            (
              j.session,
              ap (λ x. lookup x m.heap) (sym e) ∙ j.in_heap,
              ap (λ x. x.code) same ∙ l.same_code,
              ap (λ x. x.done_closed) same ∙ l.not_done,
              j.not_host,
              j.was_free,
            )
      ]
