-- ===== src/Ally/Examples.antt =====
-- A session of three guilds, with small codes.
use go_discord_caller.Base.{
  nat_eq, nat_zero, bool_zero, list_zero, lookup, insert, Distinct, ℕ, ◌≡◌, refl, sym, ap, subst,
  ◌∙◌, ◌≢◌, ◌↔◌, inr, true, false, none, some, List, [], ◌∷◌, arith,
}
use go_discord_caller.Ally.{
  guild_caller, Chans, Session, new_session, broadcast_from_guild, add_guild, set_capturing,
  has_capturing_peers,
}
use go_discord_caller.Ally.Sends.{receivers, Open, Delivered, broadcast_from_guild_lem}
use go_discord_caller.Ally.Members.{
  Change, adds, captures, change, history, has, captured, attached, has_capturing_peers_lem,
  history-guests,
}
use go_discord_caller.Ally.Registry.{
  Manager, new_manager, get_by_guild, update_session, create, join_found, join, remove_host,
}
use go_discord_caller.Ally.Registry.Live.{Call, creates, joins, changes, call, calls, join-live}
use go_discord_caller.Ally.Registry.Ended.{Ended, remove_host-Ended}

-- The host 1 and the guests 2 and 3, of which 3 only listens.
abbrev attach_all : List Change
attach_all = adds 1 (10 ∷ []) ∷ adds 2 (20 ∷ 21 ∷ []) ∷ adds 3 (30 ∷ []) ∷ captures 2 ∷ []

abbrev relay : Session ℕ
relay = record {
  code = 7;
  host_guild_id = 1;
  host_mode = guild_caller;
  done_closed = false;
  outs = (1, 10 ∷ []) ∷ (2, 20 ∷ 21 ∷ []) ∷ (3, 30 ∷ []) ∷ [];
  guests = (2, tt) ∷ (3, tt) ∷ [];
  capturing = (2, tt) ∷ [];
  observers = [];
}

relay_lem : history (new_session 7 1 guild_caller) attach_all ≡ relay
unfolding history change new_session add_guild set_capturing insert
relay_lem = refl

-- The channel 30 is full.
abbrev open_chans : Chans ℕ
open_chans =
    (10, record { queue = []; cap = 3; closed = false })
    ∷ (30, record { queue = 5 ∷ 6 ∷ 7 ∷ []; cap = 3; closed = false })
    ∷ []

open_lem : Open open_chans (10 ∷ 30 ∷ [])
unfolding lookup
open_lem ch c m h = ground (arith, h)

receivers_lem : receivers 2 relay.outs ≡ 10 ∷ 30 ∷ []
unfolding receivers
receivers_lem = refl

-- Guild 2 talks: the host hears it, and guild 3 drops the packet.
broadcast_from_guild_example :
    (st' : Chans ℕ) × (broadcast_from_guild relay 2 9 open_chans ≡ some st')
    × Delivered 9 (receivers 2 relay.outs) open_chans st'
broadcast_from_guild_example =
    broadcast_from_guild_lem relay 2 9 open_chans (subst Distinct (sym receivers_lem) (omega arith))
      (subst (Open open_chans) (sym receivers_lem) open_lem)

abbrev ally_code : ℕ
ally_code = 7

has_capturing_peers_example :
    (has_capturing_peers (history (new_session ally_code 1 guild_caller) attach_all) 1 ≡ true)
    ↔ ((id : ℕ) × (id ≢ 1) × (captured id false attach_all ≡ true))
has_capturing_peers_example = has_capturing_peers_lem ally_code 1 guild_caller attach_all 1

history-guests_example :
    (has 1 (history (new_session ally_code 1 guild_caller) attach_all).guests ≡ false)
    × ((g : ℕ)
        → g ≢ 1
        → has g (history (new_session ally_code 1 guild_caller) attach_all).guests
          ≡ attached g false attach_all)
history-guests_example = history-guests ally_code 1 guild_caller attach_all

-- Guild 1 hosts the code 7, and guild 2 comes.
abbrev call_list : List (Call ℕ)
call_list = creates 7 1 guild_caller ∷ joins 7 2 ∷ changes 0 (adds 2 (20 ∷ [])) ∷ []

abbrev hosted : Session ℕ
hosted = record {
  code = 7;
  host_guild_id = 1;
  host_mode = guild_caller;
  done_closed = false;
  outs = (2, 20 ∷ []) ∷ [];
  guests = (2, tt) ∷ [];
  capturing = [];
  observers = [];
}

abbrev registry : Manager ℕ
registry = record {
  heap = (0, hosted) ∷ [];
  next_ref = 1;
  sessions = (7, 0) ∷ [];
  by_guild = (1, 0) ∷ (2, 0) ∷ [];
}

registry_lem : calls new_manager call_list ≡ registry
unfolding calls call new_manager create join join_found update_session change add_guild new_session
    insert lookup
registry_lem = refl

third_joins : (join registry 7 3).0 ≡ inr 0
unfolding join join_found lookup
third_joins = refl

join-live_example :
    (s : Session ℕ) × (lookup 0 (calls new_manager call_list).heap ≡ some s)
    × (s.code ≡ 7)
    × (s.done_closed ≡ false)
    × (s.host_guild_id ≢ 3)
    × (get_by_guild (calls new_manager call_list) 3 ≡ none)
join-live_example = join-live call_list 7 3 0 (ap (λ m. (join m 7 3).0) registry_lem ∙ third_joins)

host_has : get_by_guild registry 1 ≡ some 0
unfolding get_by_guild lookup
host_has = refl

heap_has : lookup 0 registry.heap ≡ some hosted
unfolding lookup
heap_has = refl

remove_host-Ended_example : Ended registry 1 0 hosted (remove_host registry 1)
remove_host-Ended_example = remove_host-Ended registry 1 0 hosted host_has heap_has
