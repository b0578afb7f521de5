-- ===== src/Dave/Stats.antt =====
-- internal/dave/stats.go: counters of frames, the sessions that hold on to a sender, and what a
-- collection exports and evicts. A counter is read and written under the lock or by one atomic
-- step, so each operation is one step here.
pub mod Totals
pub mod Holders
use Prim.Native.Char.{code}
use go_discord_caller.Base.{
  ltb, ◌==◌, if◌then◌else◌, Eq, nat_eq, string_eq, pair_eq, nat_zero, bool_zero, list_zero,
  string_zero, Map, lookup, insert, delete, get, drop, here, ℕ, suc, ◌+◌, ◌-◌, ◌/◌, String, ap,
  subst, Bool, true, false, not, ◌&&◌, ◌||◌, Option, none, some, List, [], ◌∷◌,
}

-- `user`: the bot and the sender. `aggKey`: the bot, and the outcome with its reason.
abbrev pub User : Type 0
User = String × String

abbrev pub AggKey : Type 0
AggKey = String × (String × String)

-- `key`: the user, and the outcome with its reason.
abbrev pub Key : Type 0
Key = User × (String × String)

unfoldable pub agg_of : Key → AggKey
agg_of k = (k.0.0, k.1)

pub record Stats : Type 0 where
  pub counters : Map Key ℕ
  pub holders : Map User ℕ
  pub retiring : Map User (Unit {0})
  pub retired : Map AggKey ℕ
  pub encrypts : Map AggKey ℕ
  pub positions : Map (String × (String × String)) ℕ

unfoldable pub new_stats : Stats
new_stats = record {
  counters = [];
  holders = [];
  retiring = [];
  retired = [];
  encrypts = [];
  positions = [];
}

-- `lookup(...).Add(1)`. The lookup locks the map and the addition is atomic after it; here nothing comes
-- between the two. An eviction that does takes the counter away with the frame in the code.
unfoldable pub add_one : {K : Type 0} → ⦃e : Eq K⦄ → K → Map K ℕ → Map K ℕ
unfolding get insert
add_one k m = insert k (get k m + 1) m

unfoldable pub is_substring_at : List ℕ → List ℕ → Bool
is_substring_at [] text = true
is_substring_at (c ∷ cs) [] = false
is_substring_at (c ∷ cs) (d ∷ text) = c == d && is_substring_at cs text

-- `strings.Contains`, on the characters.
unfoldable pub contains : List ℕ → List ℕ → Bool
unfolding is_substring_at
contains text [] = true
contains [] (c ∷ cs) = false
contains (d ∷ text) (c ∷ cs) = is_substring_at (c ∷ cs) (d ∷ text) || contains text (c ∷ cs)

abbrev pub codes : String → List ℕ
codes String.[] = []
codes (String.◌∷◌ c s) = code c ∷ codes s

-- The table of `reason`, from the part of the message to the label.
abbrev pub labels : List (String × String)
labels =
    ("missing key ratchet", "missing_key_ratchet")
    ∷ ("invalid nonce", "invalid_nonce")
    ∷ ("missing cryptor", "missing_cryptor")
    ∷ ("failed to decrypt frame", "decrypt_failure")
    ∷ ("failed to encrypt frame", "encrypt_failure")
    ∷ ("too many attempts", "too_many_attempts")
    ∷ ("session not ready", "not_ready")
    ∷ []

unfoldable pub label_of : String → List (String × String) → String
unfolding contains
label_of msg [] = "other"
label_of msg ((part, label) ∷ rest) =
    if contains (codes msg) (codes part) then label else label_of msg rest

-- An error is its message, `none` for nil.
unfoldable pub reason : Option String → String
unfolding label_of
reason none = "none"
reason (some msg) = label_of msg labels

unfoldable pub outcome : Option String → String
outcome none = "success"
outcome (some msg) = "failure"

-- The key that `Record` counts, and those of a passed-through and of a dropped frame.
unfoldable pub record_frame : String → String → Option String → Stats → Stats
unfolding add_one outcome reason
record_frame bot user err s = record s {
  counters = add_one ((bot, user), (outcome err, reason err)) s.counters;
}

unfoldable pub record_passthrough : String → String → Stats → Stats
unfolding add_one
record_passthrough bot user s = record s {
  counters = add_one ((bot, user), ("passthrough", "none")) s.counters;
}

unfoldable pub record_dropped : String → String → Stats → Stats
unfolding add_one
record_dropped bot user s = record s {
  counters = add_one ((bot, user), ("dropped", "none")) s.counters;
}

unfoldable pub record_encrypt : String → Option String → Stats → Stats
unfolding add_one outcome reason
record_encrypt bot err s = record s {
  encrypts = add_one (bot, (outcome err, reason err)) s.encrypts;
}

unfoldable pub record_unsent_alone : String → Stats → Stats
unfolding add_one
record_unsent_alone bot s = record s {
  encrypts = add_one (bot, ("unsent_alone", "none")) s.encrypts;
}

unfoldable pub record_position : String → String → Option String → Stats → Stats
unfolding add_one outcome
record_position bot position err s = record s {
  positions = add_one (bot, (outcome err, position)) s.positions;
}

-- A count that falls to 0 or below is deleted in the same step, so it may stop at 0.
unfoldable pub retire : String → String → Stats → Stats
unfolding get insert delete
retire bot user s =
    let left = get (bot, user) s.holders - 1 in
    if ltb 0 left then record s { holders = insert (bot, user) left s.holders } else record s {
      holders = delete (bot, user) s.holders;
      retiring = insert (bot, user) tt s.retiring;
    }

unfoldable pub keep : String → String → Stats → Stats
unfolding add_one delete
keep bot user s = record s {
  holders = add_one (bot, user) s.holders;
  retiring = delete (bot, user) s.retiring;
}

-- The `totals` that `observe` exports: the retired counts, and the live ones added to them.
unfoldable pub add_counters : Map Key ℕ → Map AggKey ℕ → Map AggKey ℕ
unfolding get insert agg_of
add_counters [] totals = totals
add_counters ((k, v) ∷ m) totals =
    add_counters m (insert (agg_of k) (get (agg_of k) totals + v) totals)

unfoldable pub totals : Stats → Map AggKey ℕ
unfolding add_counters
totals s = add_counters s.counters s.retired

abbrev pub is_retiring : Map User (Unit {0}) → Key → Bool
is_retiring retiring k = elim (lookup k.0 retiring) [ none ↦ false | some u ↦ true ]

-- The loop of `evictRetired`: the counters that stay, and the retired counts.
unfoldable pub evict : Map User (Unit {0}) → Map Key ℕ → Map AggKey ℕ → Map Key ℕ × Map AggKey ℕ
unfolding get insert agg_of lookup
evict retiring [] retired = ([], retired)
evict retiring ((k, v) ∷ m) retired =
    if is_retiring retiring k
    then evict retiring m (insert (agg_of k) (get (agg_of k) retired + v) retired)
    else (let r = evict retiring m retired in ((k, v) ∷ r.0, r.1))

unfoldable pub evict_retired : Stats → Stats
unfolding evict
evict_retired s =
    let r = evict s.retiring s.counters s.retired in
    record s { counters = r.0; retired = r.1; retiring = [] }

-- The exported decrypt counters and the state after a collection.
-- The snapshot and the eviction lock the counters one after the other; nothing comes between them here.
unfoldable pub observe : Stats → Map AggKey ℕ × Stats
unfolding totals evict_retired
observe s = (totals s, evict_retired s)
