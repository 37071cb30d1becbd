-- ===== src/Baseline.antt =====
-- internal/baseline/baseline.go: a baseline file's entries, what may be in it, and what is done to
-- it. A time is a count of nanoseconds, where 0 is Go's zero time; `fingerprint_of` stands for the
-- SHA-256 of a finding's ID and symptom, in hexadecimal.
pub mod Create
pub mod Expiry
pub mod Entries
pub mod Edits
pub mod Removal
pub mod Snapshot
mod Examples
use Prim.Native.Char.{Char, code}
use Prim.Native.String.{len}
use devdiag.Base.{
  ℕ, suc, ◌+◌, String, List, [], ◌∷◌, ◌++◌, Option, none, some, Bool, true, false, not, ◌&&◌, ◌||◌,
  ltb, leb, ◌==◌, is_blank, trim_space, to_upper, if◌then◌else◌, ◌=ₛ◌, ◌^^◌,
}
use devdiag.Schema.{Finding}

pub record Entry : Type 0 where
  pub id : String
  pub reason : String
  pub expires_at : Option ℕ
  pub created_at : ℕ
  pub created_by : String
  pub fingerprint : String

pub record Baseline : Type 0 where
  pub schema_version : String
  pub entries : List Entry

abbrev pub schema_version_1 : String
schema_version_1 = "devdiag.baseline/v1"

-- What is hashed: the ID, trimmed and in capitals, and the symptom.
unfoldable pub fingerprint_input : Finding → String
fingerprint_input f = to_upper (trim_space f.id) ^^ "\n" ^^ f.symptom

abbrev is_hex : Char → Bool
is_hex c = (leb b'0' (code c) && leb (code c) b'9') || (leb b'a' (code c) && leb (code c) b'f')

unfoldable pub all_hex : String → Bool
all_hex String.[] = true
all_hex (String.◌∷◌ c s) = is_hex c && all_hex s

unfoldable pub is_valid_fingerprint : String → Bool
unfolding all_hex
is_valid_fingerprint v = if not (len v == 64) then false else all_hex v

-- The errors, as what they are about.
pub data Problem : Type 0 where
  unsupported_schema : String → Problem
  empty_id : ℕ → Problem
  zero_created_at : ℕ → Problem
  invalid_fingerprint : ℕ → Problem

unfoldable pub entry_problem : ℕ → Entry → Option Problem
entry_problem i entry =
    if is_blank (trim_space entry.id)
    then some (empty_id i)
    else if entry.created_at == 0
    then some (zero_created_at i)
    else if not (is_blank entry.fingerprint) && not (is_valid_fingerprint entry.fingerprint)
    then some (invalid_fingerprint i)
    else none

unfoldable pub entries_problem : ℕ → List Entry → Option Problem
entries_problem i [] = none
entries_problem i (e ∷ es) = elim (entry_problem i e) [
  | none ↦ entries_problem (suc i) es
  | some p ↦ some p
]

-- `validate`: the first problem, if there is one
unfoldable pub validate : Baseline → Option Problem
unfolding entries_problem entry_problem
validate b =
    if not (b.schema_version =ₛ schema_version_1)
    then some (unsupported_schema b.schema_version)
    else entries_problem 0 b.entries

-- `entry.ExpiresAt != nil && entry.ExpiresAt.Before(now)`
unfoldable pub is_expired : ℕ → Entry → Bool
is_expired now entry = elim entry.expires_at [ none ↦ false | some t ↦ ltb t now ]

-- The loop of `Prune`, with its `active` and its `pruned`.
unfoldable pub prune_loop : ℕ → List Entry → List Entry → ℕ → List Entry × ℕ
unfolding is_expired
prune_loop now [] active pruned = (active, pruned)
prune_loop now (e ∷ es) active pruned =
    let dropped = prune_loop now es active (pruned + 1) in
    let kept = prune_loop now es (active ++ e ∷ []) pruned in
    if is_expired now e then dropped else kept

unfoldable pub prune : Baseline → ℕ → Baseline × ℕ
unfolding prune_loop
prune b now =
    let (active, pruned) = prune_loop now b.entries [] 0 in (record b { entries = active }, pruned)

-- `ActiveEntries`
unfoldable pub active_loop : ℕ → List Entry → List Entry → List Entry
unfolding is_expired
active_loop now [] active = active
active_loop now (e ∷ es) active =
    active_loop now es (if is_expired now e then active else active ++ e ∷ [])

unfoldable pub active_entries : Baseline → ℕ → List Entry
unfolding active_loop
active_entries b now = active_loop now b.entries []

pub data AddError : Type 0 where
  no_id no_reason bad_fingerprint : AddError

pub data AddResult : Type 0 where
  added : Baseline → Bool → AddResult
  refused : AddError → AddResult

unfoldable pub same_entry : Entry → Entry → Bool
same_entry a b = a.id =ₛ b.id && a.fingerprint =ₛ b.fingerprint

-- The loop of `Add` over the entries: the entries with the match replaced, where there is one.
unfoldable pub replace_entry : Entry → List Entry → Option (List Entry)
unfolding same_entry
replace_entry entry [] = none
replace_entry entry (e ∷ es) =
    if same_entry e entry
    then some (entry ∷ es)
    else elim (replace_entry entry es) [ none ↦ none | some rest ↦ some (e ∷ rest) ]

unfoldable pub normal_entry : Entry → Entry
normal_entry entry = record entry {
  id = to_upper (trim_space entry.id);
  reason = trim_space entry.reason;
  created_by = trim_space entry.created_by;
}

abbrev pub stamped : ℕ → Entry → Entry
stamped now entry = record entry {
  created_at = if entry.created_at == 0 then now else entry.created_at;
}

abbrev pub versioned : Baseline → Baseline
versioned b = record b {
  schema_version = if is_blank b.schema_version then schema_version_1 else b.schema_version;
}

unfoldable pub store_entry : Baseline → Entry → AddResult
unfolding replace_entry
store_entry b entry = elim (replace_entry entry b.entries) [
  | none ↦ added (record b { entries = b.entries ++ entry ∷ [] }) false
  | some es ↦ added (record b { entries = es }) true
]

-- `Add`, at the time `now`
unfoldable pub add : Baseline → Entry → ℕ → AddResult
unfolding normal_entry store_entry
add b given now =
    let entry = normal_entry given in
    if is_blank entry.id
    then refused no_id
    else if is_blank entry.reason
    then refused no_reason
    else if not (is_blank entry.fingerprint) && not (is_valid_fingerprint entry.fingerprint)
    then refused bad_fingerprint
    else store_entry (versioned b) (stamped now entry)

-- The loop of `Remove`.
unfoldable pub remove_entry : String → String → List Entry → Option (List Entry)
remove_entry id fingerprint [] = none
remove_entry id fingerprint (e ∷ es) =
    if e.id =ₛ id && e.fingerprint =ₛ fingerprint
    then some es
    else elim (remove_entry id fingerprint es) [ none ↦ none | some rest ↦ some (e ∷ rest) ]

unfoldable pub removed_from : Baseline → Option (List Entry) → Baseline × Bool
removed_from b none = (b, false)
removed_from b (some es) = (record b { entries = es }, true)

unfoldable pub remove : Baseline → String → String → Baseline × Bool
unfolding remove_entry removed_from
remove b id fingerprint =
    let id' = to_upper (trim_space id) in
    if is_blank id'
    then (b, false)
    else removed_from b (remove_entry id' (trim_space fingerprint) b.entries)
