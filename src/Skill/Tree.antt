-- ===== src/Skill/Tree.antt =====
-- internal/skillmanager/validate.go: a whole tree (`Validate`).
use Prim.Native.Nat.{ℕ, ◌+◌, ◌-◌, ◌^◌}
use agent_remote_node.Prelude.{
  String, Bool, true, false, not, ◌&&◌, ◌||◌, Option, none, some, List, [], ◌∷◌, ◌==◌, string_Eq,
  int_Eq, if◌then◌else◌, ltb, length, Outcome, ok, err, refuse_if, ◌>>=◌, ◌>>◌, ℤ, pos, negsuc,
}
use agent_remote_node.Prelude.Map.{Map, empty, get, put}
use agent_remote_node.Skill.Paths.{
  Problem, bad_manifest, unsorted, no_parent, too_many_bytes, missing, path_before, parents,
  path_of,
}
use agent_remote_node.Skill.Entries.{Entry, Manifest, validate_entry}
use agent_remote_node.Skill.Links.{validate_link}

-- `math.MaxInt64`
abbrev pub max_int64 : ℕ
max_int64 = 2 ^ 63 - 1

-- The size of an entry that `validateEntry` accepted is not negative.
abbrev pub bytes : ℤ → ℕ
bytes (pos n) = n
bytes (negsuc n) = 0

-- The variables of the first loop.
pub record Progress : Type 0 where
  pub by_path : Map String Entry
  pub previous : String
  pub total : ℕ

unfoldable pub start : Progress
unfolding empty
start = record { by_path = empty; previous = ""; total = 0 }

abbrev pub is_directory : Option Entry → Bool
is_directory none = false
is_directory (some e) = e.kind == "directory"

-- The components that lead to an entry, the last of them first, are directories.
unfoldable pub has_parents : Map String Entry → List String → Bool
unfolding get path_of
has_parents m [] = true
has_parents m (part ∷ rest) = is_directory (get m (path_of (part ∷ rest))) && has_parents m rest

abbrev pub or_missing : Option Entry → Outcome Problem Entry
or_missing none = err missing
or_missing (some e) = ok e

-- `validateLink` looks an entry up.
abbrev pub lookup_in : Map String Entry → String → Outcome Problem Entry
lookup_in m path = or_missing (get m path)

abbrev pub advanced : Entry → Progress → Progress
advanced e s = record {
  by_path = put s.by_path e.path e;
  previous = e.path;
  total = s.total + bytes e.size;
}

-- The second loop.
unfoldable pub check_links : Map String Entry → List Entry → Outcome Problem (Unit {0})
unfolding validate_link get
check_links m [] = ok tt
check_links m (e ∷ rest) = do
  (if e.kind == "symlink" then validate_link (lookup_in m) e else ok tt)
  check_links m rest

module _ (is_nfc : String → Bool) where
  -- One round of the first loop.
  unfoldable pub check_entry : Entry → Progress → Outcome Problem Progress
  unfolding validate_entry has_parents parents put
  check_entry e s = do
    validate_entry is_nfc e
    refuse_if (not (path_before s.previous e.path)) unsorted
    refuse_if (not (has_parents s.by_path (parents e.path))) no_parent
    refuse_if (ltb (max_int64 - bytes e.size) s.total) too_many_bytes
    ok (advanced e s)

  unfoldable pub check_entries : List Entry → Progress → Outcome Problem Progress
  unfolding check_entry
  check_entries [] s = ok s
  check_entries (e ∷ rest) s = check_entry e s >>= check_entries rest

  -- `Validate`
  unfoldable pub validate : Manifest → Outcome Problem (Unit {0})
  unfolding check_entries check_links start
  validate m = do
    refuse_if (not (m.version == pos 1) || ltb 100000 (length m.entries)) bad_manifest
    s ← check_entries m.entries start
    check_links s.by_path m.entries
