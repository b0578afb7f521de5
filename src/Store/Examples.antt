-- ===== src/Store/Examples.antt =====
-- A store of two guilds.
use go_discord_caller.Base.{
  nat_eq, string_eq, pair_eq, nat_zero, bool_zero, list_zero, string_zero, All, ℕ, String, ◌≡◌,
  refl, sym, subst, ◌≢◌, true, false, none, some, List, [], ◌∷◌, arith,
}
use go_discord_caller.Store.{InMemoryStore, new_in_memory_store, get_ally_code}
use go_discord_caller.Store.Save.{
  YamlData, write_guild, append_channel, append_role, write_code, write_locale, channel_entry,
  save_channels, save_roles, save_codes, save_locales, save_disabled, guild_set, save_data,
}
use go_discord_caller.Store.Load.{load_data}
use go_discord_caller.Store.File.{whole, Dir, Outcomes, save, Atomic, save-Atomic}
use go_discord_caller.Store.Yaml.{yaml_get_or_create_ally_code, on_dirty, on_timer, on_done}
use go_discord_caller.Store.Calls.{
  Call, binds_channel, binds_role, wants_code, binds_locale, sets_speaker, call, calls,
  new_yaml_store, IsProper, calls-codes_apart, calls-IsSaved,
}
use go_discord_caller.Store.Flushing.{
  Event, mutates, signals, fires, event, events, mutations, IsSmooth, open_flusher, events-settle,
  events-closes-Restored,
}
use go_discord_caller.Store.RoundTrip.{Restored, load_data-save_data}
use go_discord_caller.Store.RoundTrip.Entries.{IsSaved}

-- Guild 1 binds the speakers 5 and 6 and turns 6 and the unbound 7 off; guild 2 draws the code of
-- guild 1 first.
abbrev call_list : List Call
call_list =
    binds_channel 1 5 50
    ∷ binds_channel 1 6 60
    ∷ binds_role 2 "caller" 9
    ∷ wants_code ("AAAA" ∷ []) 1
    ∷ wants_code ("AAAA" ∷ "BBBB" ∷ []) 2
    ∷ binds_locale 2 "de"
    ∷ sets_speaker 1 6 false
    ∷ sets_speaker 1 7 false
    ∷ []

abbrev two_guilds : InMemoryStore
two_guilds = record {
  channels = ((5, 1), 50) ∷ ((6, 1), 60) ∷ [];
  roles = ((2, "caller"), 9) ∷ [];
  relay_codes = (1, "AAAA") ∷ (2, "BBBB") ∷ [];
  locales = (2, "de") ∷ [];
  disabled = ((6, 1), tt) ∷ ((7, 1), tt) ∷ [];
}

two_guilds_lem : (calls new_yaml_store call_list).maps ≡ two_guilds
unfolding calls call new_yaml_store yaml_get_or_create_ally_code
two_guilds_lem = refl

not_empty : (c : String) → string_eq.beq c "" ≡ false → c ≢ ""
not_empty c h e = cc (h, (string_eq.beq_iff c "").1 e)

call_list-IsProper : All IsProper call_list
call_list-IsProper = (
  omega arith,
  (
    omega arith,
    (
      tt,
      (
        (not_empty "AAAA" refl, tt),
        ((not_empty "AAAA" refl, (not_empty "BBBB" refl, tt)), (tt, (tt, (tt, tt)))),
      ),
    ),
  ),
)

file_of_two_guilds :
    save_data two_guilds
    ≡ record {
      guild_id = 1;
      ally_code = "AAAA";
      locale = "";
      channel_entries =
          record { user_id = 5; channel_id = 50; disabled_entry = false }
          ∷ record { user_id = 6; channel_id = 60; disabled_entry = true }
          ∷ record { user_id = 7; channel_id = 0; disabled_entry = true }
          ∷ [];
      role_entries = [];
    }
      ∷ record {
        guild_id = 2;
        ally_code = "BBBB";
        locale = "de";
        channel_entries = [];
        role_entries = record { role_type = "caller"; role_id = 9 } ∷ [];
      }
      ∷ []
unfolding save_data guild_set save_channels save_roles save_codes save_locales save_disabled
    channel_entry write_guild append_channel append_role write_code write_locale
file_of_two_guilds = refl

two_guilds-IsSaved : IsSaved two_guilds
two_guilds-IsSaved = subst IsSaved two_guilds_lem (calls-IsSaved call_list call_list-IsProper)

load_data-save_data_example :
    Restored two_guilds (load_data (save_data two_guilds) new_in_memory_store)
load_data-save_data_example = load_data-save_data two_guilds two_guilds-IsSaved

code_of_two : get_ally_code 2 (calls new_yaml_store call_list).maps ≡ some "BBBB"
unfolding get_ally_code
code_of_two =
    subst (λ (s : InMemoryStore). get_ally_code 2 s ≡ some "BBBB") (sym two_guilds_lem) refl

calls-codes_apart_example : ◌≡◌ {A = ℕ} 2 2
calls-codes_apart_example =
    calls-codes_apart call_list 2 2 "BBBB" call_list-IsProper code_of_two code_of_two

-- The calls in two bursts, a save that fails between them, and Close.
abbrev event_list : List Event
event_list =
    mutates (binds_channel 1 5 50) ∷ signals ∷ fires true ∷ mutates (sets_speaker 1 5 false) ∷ []

event_list-IsSmooth : All IsSmooth event_list
event_list-IsSmooth = (tt, (tt, (refl, (tt, tt))))

events-settle_example :
    (on_timer true (on_dirty (events open_flusher event_list))).file
    ≡ some (save_data (calls new_yaml_store (mutations event_list)).maps)
events-settle_example = events-settle event_list event_list-IsSmooth

abbrev failing_list : List Event
failing_list = mutates (binds_channel 1 5 50) ∷ signals ∷ fires false ∷ []

failing_list-IsProper : All IsProper (mutations failing_list)
unfolding mutations
failing_list-IsProper = (omega arith, tt)

failing_list_open : (events open_flusher failing_list).stopped ≡ false
unfolding events event open_flusher
failing_list_open = refl

events-closes-Restored_example :
    (gs : YamlData) × ((on_done true (events open_flusher failing_list)).file ≡ some gs)
    × Restored
        (calls new_yaml_store (mutations failing_list)).maps
        (load_data gs new_in_memory_store)
events-closes-Restored_example =
    events-closes-Restored failing_list failing_list-IsProper failing_list_open

-- The write of the temporary file fails.
abbrev disk_full : Outcomes
disk_full = record {
  creates = true;
  writes = false;
  syncs = true;
  closes_file = true;
  renames = true;
  removes = true;
  opens_dir = true;
  syncs_dir = true;
  closes_dir = true;
}

abbrev old_file : Dir ℕ
old_file = record { target = some (whole 1); temp = none }

save-Atomic_example : Atomic disk_full 2 old_file (save disk_full (some 2) old_file)
save-Atomic_example = save-Atomic disk_full 2 old_file
