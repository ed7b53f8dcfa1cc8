-- ===== src/Skill/Placed.antt =====
-- internal/skillmanager/validate.go: where the resolution of a link ends.
use Prim.Native.Nat.{ℕ}
use agent_remote_node.Prelude.{
  String, false, List, [], ◌∷◌, ◌≡◌, ap, ◌==◌, string_Eq, Outcome, ok, inl, inr,
}
use agent_remote_node.Skill.Paths.{Problem, path_of}
use agent_remote_node.Skill.Entries.{Entry}
use agent_remote_node.Skill.Resolution.{Resolves, ends, stay, climb, enter, follow}

module _ (lookup : String → Outcome Problem Entry) where
  -- The components lead through directories.
  abbrev pub IsDirs : List String → Type 0
  IsDirs [] = Unit {0}
  IsDirs (part ∷ rest) =
      ((e : Entry) × (lookup (path_of (part ∷ rest)) ≡ ok e) × (e.kind ≡ "directory")) × IsDirs rest

  -- The components lead through directories to an entry that is no link.
  abbrev pub IsPlaced : List String → Type 0
  IsPlaced [] = Unit {0}
  IsPlaced (part ∷ rest) =
      ((e : Entry) × (lookup (path_of (part ∷ rest)) ≡ ok e) × ((e.kind == "symlink") ≡ false))
      × IsDirs rest

  dirs-IsPlaced : (resolved : List String) → IsDirs resolved → IsPlaced resolved
  dirs-IsPlaced [] h = tt
  dirs-IsPlaced (part ∷ rest) ((e, found, directory), h) =
      ((e, found, ap (λ k. k == "symlink") directory), h)

  last-IsPlaced :
      {n : ℕ} {pending resolved final : List String}
      → Resolves lookup n pending resolved final
      → pending ≡ []
      → IsPlaced resolved
      → IsPlaced final
  last-IsPlaced ends h p = p
  last-IsPlaced (stay a d) h p = absurd (some_component h)
    where
      some_component : {x : String} {xs : List String} → ¬ (x ∷ xs ≡ [])
      some_component k = cc
  last-IsPlaced (climb a d) h p = cc
  last-IsPlaced (enter a b c e d) h p = cc
  last-IsPlaced (follow a b c d) h p = cc

  -- What a resolution that starts in directories ends with.
  pub Resolves-IsPlaced :
      {n : ℕ} {pending resolved final : List String}
      → Resolves lookup n pending resolved final
      → IsDirs resolved
      → IsPlaced final
  Resolves-IsPlaced (ends {resolved = resolved}) h = dirs-IsPlaced resolved h
  Resolves-IsPlaced (stay a d) h = Resolves-IsPlaced d h
  Resolves-IsPlaced (climb a d) (first, h) = Resolves-IsPlaced d h
  Resolves-IsPlaced (enter {e = e} name found other (inl last) d) h =
      last-IsPlaced d last ((e, found, other), h)
  Resolves-IsPlaced (enter {e = e} name found other (inr directory) d) h =
      Resolves-IsPlaced d ((e, found, directory), h)
  Resolves-IsPlaced (follow name found link d) h = Resolves-IsPlaced d h
