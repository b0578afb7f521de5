-- ===== src/Store/File.antt =====
-- internal/store/yaml_store.go: how `save` puts the bytes in place, with every outcome of the file
-- system's calls. The bytes are what `yaml.Marshal` makes of the data.
use go_discord_caller.Base.{
  if◌then◌else◌, nat_eq, string_eq, pair_eq, nat_zero, bool_zero, list_zero, string_zero, ◌≡◌, ◌≢◌,
  ◌⊎◌, Bool, true, false, not, Option, none, some, arith,
}

pub data SaveError : Type 0 where
  marshal_failed create_temp_failed write_temp_failed sync_temp_failed close_temp_failed
        rename_failed sync_dir_failed :
      SaveError

-- What a file holds: all of some bytes, for good; bytes that are written but that a crash may still
-- lose, before the sync and before the close; or what a call that failed has left.
pub data Content (Bytes : Type 0) : Type 0 where
  whole unsynced unclosed : Bytes → Content Bytes
  torn : Content Bytes

-- The file at the store's path and the temporary file beside it.
pub record Dir (Bytes : Type 0) : Type 0 where
  pub target : Option (Content Bytes)
  pub temp : Option (Content Bytes)

-- Whether each call of the file system works, in the order of the calls; a rename that fails
-- leaves both files as they were.
pub record Outcomes : Type 0 where
  pub creates : Bool
  pub writes : Bool
  pub syncs : Bool
  pub closes_file : Bool
  pub renames : Bool
  pub removes : Bool
  pub opens_dir : Bool
  pub syncs_dir : Bool
  pub closes_dir : Bool

-- `syncDir`: the error of the sync before that of the close.
unfoldable pub sync_dir : Outcomes → Bool
sync_dir o = if not o.opens_dir then false else if not o.syncs_dir then false else o.closes_dir

module _ {Bytes : Type 0} where
  unfoldable pub remove_temp : Outcomes → Dir Bytes → Dir Bytes
  remove_temp o d = if o.removes then record d { temp = none } else d

  -- The steps from the rename on.
  unfoldable pub rename_file : Outcomes → Dir Bytes → Option SaveError × Dir Bytes
  unfolding remove_temp sync_dir
  rename_file o d = if not o.renames then (some rename_failed, remove_temp o d) else (
    if sync_dir o then none else some sync_dir_failed,
    record { target = d.temp; temp = none },
  )

  -- `tmp.Sync` and `tmp.Close`: what a sync or a close that fails leaves may be any part of the bytes.
  unfoldable pub sync_temp : Outcomes → Content Bytes → Content Bytes
  sync_temp o (unsynced out) = if o.syncs then unclosed out else torn
  sync_temp o (unclosed out) = unclosed out
  sync_temp o (whole out) = whole out
  sync_temp o torn = torn

  unfoldable pub close_temp : Outcomes → Content Bytes → Content Bytes
  close_temp o (unclosed out) = if o.closes_file then whole out else torn
  close_temp o (unsynced out) = unsynced out
  close_temp o (whole out) = whole out
  close_temp o torn = torn

  -- The steps from the write on, with the temporary file created.
  unfoldable pub write_file : Outcomes → Bytes → Dir Bytes → Option SaveError × Dir Bytes
  unfolding remove_temp rename_file sync_temp close_temp
  write_file o out d =
      if not o.writes
      then (some write_temp_failed, remove_temp o (record d { temp = some torn }))
      else (let synced = sync_temp o (unsynced out) in
          let written = close_temp o synced in
          if not o.syncs
          then (some sync_temp_failed, remove_temp o (record d { temp = some synced }))
          else if not o.closes_file
          then (some close_temp_failed, remove_temp o (record d { temp = some written }))
          else rename_file o (record d { temp = some written }))

  -- `save`, with the bytes of the data or the error of the marshalling.
  unfoldable pub save : Outcomes → Option Bytes → Dir Bytes → Option SaveError × Dir Bytes
  unfolding write_file
  save o marshalled d = elim marshalled [
    | none ↦ (some marshal_failed, d)
    | some out ↦
        if not o.creates
        then (some create_temp_failed, d)
        else write_file o out (record d { temp = some torn })
  ]

  -- What a save should leave: the file as it was or all of the new bytes, never a part of them.
  pub record Atomic (o : Outcomes) (out : Bytes) (d : Dir Bytes) (r : Option SaveError × Dir Bytes)
      : Type 0 where
    pub old_or_new : (r.1.target ≡ d.target) ⊎ (r.1.target ≡ some (whole out))
    pub success_is_new : r.0 ≡ none → (r.1.target ≡ some (whole out)) × (r.1.temp ≡ none)
    pub error_is_old :
        r.0 ≢ none
        → (r.1.target ≡ d.target) ⊎ ((r.0 ≡ some sync_dir_failed) × (r.1.target ≡ some (whole out)))
    pub no_litter : d.temp ≡ none → o.removes ≡ true → r.1.temp ≡ none

  -- However the calls of the file system fail, a save leaves the file as it was or with all of the
  -- new bytes: the new ones on success, the old ones on every error but that of the last step,
  -- and no temporary file unless its removal fails.
  pub save-Atomic :
      (o : Outcomes) (out : Bytes) (d : Dir Bytes) → Atomic o out d (save o (some out) d)
  unfolding save write_file rename_file remove_temp sync_temp close_temp
  save-Atomic o out d = ground arith
