-- ===== src/Ally/Registry.antt =====
-- The registry of sessions: `ally.Manager`. A `*Session` is a number, the same one under its code
-- and under every guild, and `heap` says what it points to.
pub mod Live
pub mod Ended
use go_discord_caller.Base.{
  ◌==◌, if◌then◌else◌, Eq, nat_eq, nat_zero, bool_zero, list_zero, Map, lookup, insert, delete, get,
  here, ℕ, ◌+◌, ◌-◌, ◌*◌, ap, ◌⊎◌, inl, inr, true, not, Option, none, some, List, [], ◌∷◌,
}
use go_discord_caller.Ally.{RaidMode, Session, new_session, guest_guild_ids}

-- The errors that `Join` returns.
pub data JoinError : Type 0 where
  not_found own_session already_active : JoinError

pub record Manager (Code : Type 0) : Type 0 where
  pub heap : Map ℕ (Session Code)
  pub next_ref : ℕ
  pub sessions : Map Code ℕ
  pub by_guild : Map ℕ ℕ

-- The last loop of `RemoveHost`.
unfoldable pub delete_guilds : List ℕ → Map ℕ ℕ → Map ℕ ℕ
unfolding delete
delete_guilds [] m = m
delete_guilds (g ∷ gs) m = delete_guilds gs (delete g m)

module _ {Code : Type 0} where
  unfoldable pub new_manager : Manager Code
  new_manager = record { heap = []; next_ref = 0; sessions = []; by_guild = [] }

  unfoldable pub get_by_guild : Manager Code → ℕ → Option ℕ
  unfolding lookup
  get_by_guild m g = lookup g m.by_guild

  unfoldable pub remove_guest : Manager Code → ℕ → Manager Code
  unfolding delete
  remove_guest m g = record m { by_guild = delete g m.by_guild }

  unfoldable pub close_session : Session Code → Session Code
  close_session s = record s { done_closed = true }

  -- What a goroutine does to the session that a reference points to.
  unfoldable pub update_session : ℕ → (Session Code → Session Code) → Manager Code → Manager Code
  unfolding lookup insert
  update_session r f m = elim (lookup r m.heap) [
    | none ↦ m
    | some s ↦ record m { heap = insert r (f s) m.heap }
  ]

module _ {Code : Type 0} ⦃e : Eq Code⦄ where
  unfoldable pub create : Manager Code → Code → ℕ → RaidMode → ℕ × Manager Code
  unfolding insert new_session
  create m code host mode = (
    m.next_ref,
    record {
      heap = insert m.next_ref (new_session code host mode) m.heap;
      next_ref = m.next_ref + 1;
      sessions = insert code m.next_ref m.sessions;
      by_guild = insert host m.next_ref m.by_guild;
    },
  )

  -- The tests of `Join` on the session it found, in their order.
  unfoldable pub join_found : Manager Code → ℕ → ℕ → Session Code → (JoinError ⊎ ℕ) × Manager Code
  unfolding lookup insert
  join_found m g r s =
      if s.host_guild_id == g then (inl own_session, m) else elim (lookup g m.by_guild) [
        | some old ↦ (inl already_active, m)
        | none ↦ (inr r, record m { by_guild = insert g r m.by_guild })
      ]

  -- A code whose reference points nowhere does not occur, and would read as not found.
  unfoldable pub join : Manager Code → Code → ℕ → (JoinError ⊎ ℕ) × Manager Code
  unfolding lookup join_found
  join m code g = elim (lookup code m.sessions) [
    | none ↦ (inl not_found, m)
    | some r ↦ elim (lookup r m.heap) [ none ↦ (inl not_found, m) | some s ↦ join_found m g r s ]
  ]

  unfoldable pub remove_session : Manager Code → ℕ → ℕ → Session Code → Manager Code
  unfolding insert delete delete_guilds close_session guest_guild_ids
  remove_session m host r s = record {
    heap = insert r (close_session s) m.heap;
    next_ref = m.next_ref;
    sessions = delete s.code m.sessions;
    by_guild = delete_guilds (guest_guild_ids s) (delete host m.by_guild);
  }

  unfoldable pub remove_host : Manager Code → ℕ → Manager Code
  unfolding lookup remove_session
  remove_host m host = elim (lookup host m.by_guild) [
    | none ↦ m
    | some r ↦ elim (lookup r m.heap) [ none ↦ m | some s ↦ remove_session m host r s ]
  ]
