-- ===== src/Dave/Stats/Holders.antt =====
-- A sender's counters stay while a session holds on to it.
use go_discord_caller.Base.{
  ltb, if◌then◌else◌, Bool-cases, Eq, eqb, nat_eq, string_eq, pair_beq_iff, pair_eq, nat_zero,
  bool_zero, list_zero, string_zero, Map, lookup, insert, delete, get, lookup-insert, lookup-delete,
  get-insert, lookup-cons, lookup-nil, ℕ, ◌+◌, ◌-◌, ◌≤◌, ◌<◌, String, ◌≡◌, refl, sym, ap, subst,
  ◌∙◌, inl, inr, true, false, none, List, [], ◌∷◌, arith,
}
use go_discord_caller.Dave.Stats.{
  User, AggKey, Key, agg_of, Stats, new_stats, add_one, record_frame, record_passthrough,
  record_dropped, retire, keep, is_retiring, evict, evict_retired, observe,
}
use go_discord_caller.Dave.Stats.Totals.{
  Call, frames, passes, drops, keeps, retires, collects, call, calls,
}

-- How many sessions hold on to a user after the calls, of `n` before them.
unfoldable pub held : User → ℕ → List Call → ℕ
held u n [] = n
held u n (keeps bot user ∷ cs) = held u (if eqb (bot, user) u then n + 1 else n) cs
held u n (retires bot user ∷ cs) = held u (if eqb (bot, user) u then n - 1 else n) cs
held u n (frames bot user err ∷ cs) = held u n cs
held u n (passes bot user ∷ cs) = held u n cs
held u n (drops bot user ∷ cs) = held u n cs
held u n (collects ∷ cs) = held u n cs

record Holds (u : User) (n : ℕ) (s : Stats) : Type 0 where
  count : get u s.holders ≡ n
  stays : 0 < n → lookup u s.retiring ≡ none

get-delete :
    {K : Type 0} ⦃e : Eq K⦄ (k j : K) (m : Map K ℕ)
    → get j (delete k m) ≡ (if e.beq k j then 0 else get j m)
unfolding get
get-delete k j m = ground (arith, lookup-delete k j m)

keep-Holds :
    (u : User) (n : ℕ) (s : Stats) (bot user : String)
    → Holds u n s
    → Holds u (if eqb (bot, user) u then n + 1 else n) (keep bot user s)
unfolding keep add_one
keep-Holds u n s bot user h =
    let k : User = (bot, user) in
    elim (Bool-cases (eqb k u)) [
      | inl e ↦
          let same : k ≡ u = (pair_beq_iff k u).0 e in
          rw e record {
            count = ground (
              arith,
              get-insert k u (get k s.holders + 1) s.holders,
              e,
              h.count,
              ap (λ x. get x s.holders) same,
            );
            stays = λ p. ground (arith, lookup-delete k u s.retiring, e);
          }
      | inr e ↦ rw e record {
        count = ground (arith, get-insert k u (get k s.holders + 1) s.holders, e, h.count);
        stays = λ p. ground (arith, lookup-delete k u s.retiring, e, h.stays p);
      }
    ]

retire_some :
    (bot user : String) (s : Stats)
    → ltb 0 (get (bot, user) s.holders - 1) ≡ true
    → retire bot user s
      ≡ record s { holders = insert (bot, user) (get (bot, user) s.holders - 1) s.holders }
unfolding retire
retire_some bot user s p = rw (p, retire) refl

retire_last :
    (bot user : String) (s : Stats)
    → ltb 0 (get (bot, user) s.holders - 1) ≡ false
    → retire bot user s ≡ record s {
      holders = delete (bot, user) s.holders;
      retiring = insert (bot, user) tt s.retiring;
    }
unfolding retire
retire_last bot user s p = rw (p, retire) refl

retire-Holds :
    (u : User) (n : ℕ) (s : Stats) (bot user : String)
    → Holds u n s
    → Holds u (if eqb (bot, user) u then n - 1 else n) (retire bot user s)
retire-Holds u n s bot user h =
    let k : User = (bot, user) in
    let left = get k s.holders - 1 in
    elim (Bool-cases (ltb 0 left)) [
      | inl p ↦
          subst (Holds u (if eqb k u then n - 1 else n)) (sym (retire_some bot user s p))
            (elim (Bool-cases (eqb k u)) [
              | inl e ↦
                  let same : k ≡ u = (pair_beq_iff k u).0 e in
                  rw e record {
                    count = ground (
                      arith,
                      get-insert k u left s.holders,
                      e,
                      h.count,
                      ap (λ x. get x s.holders) same,
                    );
                    stays = λ q. h.stays (omega arith);
                  }
              | inr e ↦ rw e record {
                count = ground (arith, get-insert k u left s.holders, e, h.count);
                stays = h.stays;
              }
            ])
      | inr p ↦
          subst (Holds u (if eqb k u then n - 1 else n)) (sym (retire_last bot user s p))
            (elim (Bool-cases (eqb k u)) [
              | inl e ↦
                  let same : k ≡ u = (pair_beq_iff k u).0 e in
                  let one : n ≤ 1 = ground (arith, p, h.count, ap (λ x. get x s.holders) same) in
                  rw e record {
                    count = ground (arith, get-delete k u s.holders, e, one);
                    stays = λ q. absurd (omega arith);
                  }
              | inr e ↦ rw e record {
                count = ground (arith, get-delete k u s.holders, e, h.count);
                stays = λ q. ground (arith, lookup-insert k u tt s.retiring, e, h.stays q);
              }
            ])
    ]

lookup-evict :
    (k : Key) (retiring : Map User (Unit {0})) (m : Map Key ℕ) (t : Map AggKey ℕ)
    → lookup k (evict retiring m t).0 ≡ (if is_retiring retiring k then none else lookup k m)
unfolding evict
lookup-evict k retiring [] t = ground (arith, lookup-nil {0, 0} {V = ℕ} k)
lookup-evict k retiring ((j, v) ∷ m) t =
    let b = agg_of j in
    let same : eqb j k ≡ true → is_retiring retiring j ≡ is_retiring retiring k =
      λ h. ap (is_retiring retiring) ((pair_beq_iff j k).0 h) in
    elim (Bool-cases (is_retiring retiring j)) [
      | inl e ↦
          let ih = lookup-evict k retiring m (insert b (get b t + v) t) in
          rw (e, evict)
            (elim (Bool-cases (eqb j k)) [
              | inl q ↦ ih ∙ ground (arith, same q, e)
              | inr q ↦ ih ∙ ground (arith, lookup-cons k j v m, q)
            ])
      | inr e ↦
          let ih = lookup-evict k retiring m t in
          rw (e, evict)
            (elim (Bool-cases (eqb j k)) [
              | inl q ↦
                  lookup-cons k j v (evict retiring m t).0
                  ∙ ground (arith, q, same q, e, lookup-cons k j v m)
              | inr q ↦
                  lookup-cons k j v (evict retiring m t).0
                  ∙ ground (arith, q, ih, lookup-cons k j v m)
            ])
    ]

calls-Holds :
    (u : User) (n : ℕ) (s : Stats) (cs : List Call)
    → Holds u n s
    → Holds u (held u n cs) (calls s cs)
unfolding calls call held record_frame record_passthrough record_dropped observe evict_retired
calls-Holds u n s [] h = h
calls-Holds u n s (keeps bot user ∷ cs) h =
    calls-Holds u (if eqb (bot, user) u then n + 1 else n) (keep bot user s) cs
      (keep-Holds u n s bot user h)
calls-Holds u n s (retires bot user ∷ cs) h =
    calls-Holds u (if eqb (bot, user) u then n - 1 else n) (retire bot user s) cs
      (retire-Holds u n s bot user h)
calls-Holds u n s (frames bot user err ∷ cs) h =
    calls-Holds u n (record_frame bot user err s) cs record { count = h.count; stays = h.stays }
calls-Holds u n s (passes bot user ∷ cs) h =
    calls-Holds u n (record_passthrough bot user s) cs record { count = h.count; stays = h.stays }
calls-Holds u n s (drops bot user ∷ cs) h =
    calls-Holds u n (record_dropped bot user s) cs record { count = h.count; stays = h.stays }
calls-Holds u n s (collects ∷ cs) h =
    calls-Holds u n (evict_retired s) cs
      record { count = h.count; stays = λ p. lookup-nil {0, 0} {V = Unit {0}} u }

new_stats-Holds : (u : User) → Holds u 0 new_stats
unfolding new_stats get
new_stats-Holds u = record {
  count = ground (arith, lookup-nil {0, 0} {V = ℕ} u);
  stays = λ p. absurd (omega arith);
}

-- Whatever calls new counters have had, a collection leaves every counter of a sender as it is
-- while more sessions have kept than retired it.
pub observe-kept :
    (cs : List Call) (k : Key)
    → 0 < held k.0 0 cs
    → lookup k (observe (calls new_stats cs)).1.counters ≡ lookup k (calls new_stats cs).counters
unfolding observe evict_retired
observe-kept cs k p =
    let s = calls new_stats cs in
    let h = calls-Holds k.0 0 new_stats cs (new_stats-Holds k.0) in
    lookup-evict k s.retiring s.counters s.retired ∙ ground (arith, h.stays p)
