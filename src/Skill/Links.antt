-- ===== src/Skill/Links.antt =====
-- internal/skillmanager/validate.go: where a link of a skill's tree leads (`validateLinkLookup`).
use Prim.Native.Nat.{ℕ, zero, suc}
use agent_remote_node.Prelude.{
  String, Bool, true, false, not, ◌||◌, List, [], ◌∷◌, ◌++◌, ◌==◌, string_Eq, if◌then◌else◌,
  Outcome, ok, err, refuse_if, ◌>>=◌,
}
use agent_remote_node.Skill.Paths.{
  Problem, escapes, too_many_links, not_a_directory, cycle, components, parents, path_of, beneath,
  has_prefix,
}
use agent_remote_node.Skill.Entries.{Entry}

abbrev pub is_stay : String → Bool
is_stay part = (part == "") || (part == ".")

-- What a component does: nothing, a step up, an error, a link that is followed, or a step into an
-- entry.
pub data Move : Type 0 where
  stays : Move
  climbs : List String → Move
  refused : Problem → Move
  follows : Entry → Move
  enters : Entry → Move

abbrev pub up : List String → Move
up [] = refused escapes
up (part ∷ resolved) = climbs resolved

abbrev pub at_entry : Outcome Problem Entry → Move
at_entry (err problem) = refused problem
at_entry (ok e) = if e.kind == "symlink" then follows e else enters e

-- Something is to come, and the entry is no directory.
abbrev pub blocked : List String → Entry → Bool
blocked [] e = false
blocked (part ∷ rest) e = not (e.kind == "directory")

-- The link leads to the root, or to a directory that it lies in.
abbrev pub is_cycle : Entry → List String → Bool
is_cycle e [] = true
is_cycle e (part ∷ resolved) = has_prefix e.path (beneath (part ∷ resolved))

module _ (lookup : String → Outcome Problem Entry) where
  unfoldable pub move_of : String → List String → Move
  unfolding path_of
  move_of part resolved =
      if is_stay part
      then stays
      else if part == ".."
      then up resolved
      else at_entry (lookup (path_of (part ∷ resolved)))

  -- The loop up to the next link, which `follow` takes over; the components that are resolved are
  -- held with the last one first.
  unfoldable pub scan :
      (List String → List String → Outcome Problem (List String))
      → List String
      → List String
      → Outcome Problem (List String)
  unfolding move_of components
  scan follow [] resolved = ok resolved
  scan follow (part ∷ rest) resolved = elim (move_of part resolved) [
    | stays ↦ scan follow rest resolved
    | climbs above ↦ scan follow rest above
    | refused problem ↦ err problem
    | follows e ↦ follow (components e.target ++ rest) resolved
    | enters e ↦ elim (blocked rest e) [
      | true ↦ err not_a_directory
      | false ↦ scan follow rest (part ∷ resolved)
    ]
  ]

  -- The loop, with the number of links that may still be followed.
  unfoldable pub resolve : ℕ → List String → List String → Outcome Problem (List String)
  unfolding scan
  resolve zero pending resolved = scan (λ _ _. err too_many_links) pending resolved
  resolve (suc left) pending resolved = scan (resolve left) pending resolved

  -- `validateLinkLookup`
  unfoldable pub validate_link : Entry → Outcome Problem (Unit {0})
  unfolding resolve parents components path_of
  validate_link e = do
    resolved ← resolve 40 (components e.target) (parents e.path)
    refuse_if (is_cycle e resolved) cycle
