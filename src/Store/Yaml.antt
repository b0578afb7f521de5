-- ===== src/Store/Yaml.antt =====
-- internal/store/yaml_store.go: the operations of the file-backed store, on the same five maps, and
-- the loop that flushes them. The store's lock makes each operation one step.
use go_discord_caller.Base.{
  if◌then◌else◌, nat_eq, string_eq, pair_eq, nat_zero, bool_zero, list_zero, string_zero, lookup,
  insert, ℕ, String, Bool, true, false, not, ◌&&◌, Option, none, some, List,
}
use go_discord_caller.Store.{
  RoleType, InMemoryStore, bind_channel, unbind_channel, bind_role, unbind_role, unique_ally_code,
  bind_locale, unbind_locale, set_speaker_enabled,
}
use go_discord_caller.Store.Save.{YamlData, save_data}

-- `dirty` says whether `dirtyCh`, a channel with room for one signal, is full.
pub record YamlStore : Type 0 where
  pub maps : InMemoryStore
  pub dirty : Bool

unfoldable pub mark_dirty : YamlStore → YamlStore
mark_dirty s = record s { dirty = true }

unfoldable pub yaml_bind_channel : ℕ → ℕ → ℕ → YamlStore → YamlStore
unfolding mark_dirty bind_channel
yaml_bind_channel guild user channel s =
    mark_dirty (record s { maps = bind_channel guild user channel s.maps })

unfoldable pub yaml_unbind_channel : ℕ → ℕ → YamlStore → YamlStore
unfolding mark_dirty unbind_channel
yaml_unbind_channel guild user s = mark_dirty (record s { maps = unbind_channel guild user s.maps })

unfoldable pub yaml_bind_role : ℕ → RoleType → ℕ → YamlStore → YamlStore
unfolding mark_dirty bind_role
yaml_bind_role guild role_type role s =
    mark_dirty (record s { maps = bind_role guild role_type role s.maps })

unfoldable pub yaml_unbind_role : ℕ → RoleType → YamlStore → YamlStore
unfolding mark_dirty unbind_role
yaml_unbind_role guild role_type s =
    mark_dirty (record s { maps = unbind_role guild role_type s.maps })

-- A code that is there already leaves the store clean.
unfoldable pub yaml_get_or_create_ally_code :
    List String → ℕ → YamlStore → Option (String × YamlStore)
unfolding mark_dirty unique_ally_code lookup insert
yaml_get_or_create_ally_code draws guild s = elim (lookup guild s.maps.relay_codes) [
  | some code ↦ some (code, s)
  | none ↦ elim (unique_ally_code draws s.maps.relay_codes) [
    | none ↦ none
    | some code ↦
        let maps : InMemoryStore = record s.maps {
          relay_codes = insert guild code s.maps.relay_codes;
        } in
        some (code, mark_dirty (record s { maps = maps }))
  ]
]

unfoldable pub yaml_bind_locale : ℕ → String → YamlStore → YamlStore
unfolding mark_dirty bind_locale
yaml_bind_locale guild locale s = mark_dirty (record s { maps = bind_locale guild locale s.maps })

unfoldable pub yaml_unbind_locale : ℕ → YamlStore → YamlStore
unfolding mark_dirty unbind_locale
yaml_unbind_locale guild s = mark_dirty (record s { maps = unbind_locale guild s.maps })

unfoldable pub yaml_set_speaker_enabled : ℕ → ℕ → Bool → YamlStore → YamlStore
unfolding mark_dirty set_speaker_enabled
yaml_set_speaker_enabled guild user enabled s =
    mark_dirty (record s { maps = set_speaker_enabled guild user enabled s.maps })

-- The goroutine of `flushLoop`, with its timer and what the last save has put in the file.
pub record Flusher : Type 0 where
  pub store : YamlStore
  pub armed : Bool
  pub stopped : Bool
  pub file : Option YamlData

-- `s.save()` in the loop, with whether it replaces the file. A save that fails is only logged: it
-- leaves the file as it was, but for one whose last step fails, the sync of the directory, which has
-- replaced the file.
unfoldable pub flush : Bool → Flusher → Flusher
flush works f = record f { file = if works then some (save_data f.store.maps) else f.file }

-- The three cases of the loop's select.
unfoldable pub on_dirty : Flusher → Flusher
on_dirty f =
    if f.store.dirty && not f.stopped
    then record f { store = record f.store { dirty = false }; armed = true }
    else f

unfoldable pub on_timer : Bool → Flusher → Flusher
unfolding flush
on_timer works f = if f.armed && not f.stopped then flush works (record f { armed = false }) else f

unfoldable pub on_done : Bool → Flusher → Flusher
unfolding flush
on_done works f = if f.stopped then f else flush works (record f { stopped = true })
