-- ===== src/Skill/Resolution.antt =====
-- internal/skillmanager/validate.go: `validateLinkLookup` resolves a link the way a file system does,
-- with a bound on the links that it follows.
use Prim.Native.Nat.{ℕ, zero, suc, ◌≤◌}
use agent_remote_node.Prelude.{
  String, Bool, true, false, List, [], ◌∷◌, ◌++◌, ◌≡◌, refl, sym, ◌==◌, string_Eq, Outcome, ok, err,
  inl, inr, ◌⊎◌, arith, subst, if_both, unnot,
}
use agent_remote_node.Skill.Paths.{Problem, components, path_of, too_many_links, not_a_directory}
use agent_remote_node.Skill.Entries.{Entry}
use agent_remote_node.Skill.Links.{
  is_stay, Move, stays, climbs, refused, follows, enters, up, at_entry, blocked, move_of, scan,
  resolve,
}

-- A component that names an entry of the directory.
abbrev pub IsName : String → Type 0
IsName part = (is_stay part ≡ false) × ((part == "..") ≡ false)

module _ (lookup : String → Outcome Problem Entry) where
  -- How the components that are pending lead from the resolved ones to the final ones, over some links:
  -- `.` and the empty component stay, `..` goes up where there is a directory to leave, a name enters what
  -- the lookup finds, which is a directory if more is to come, and a link is replaced by its target.
  pub data Resolves : ℕ → List String → List String → List String → Type 0 where
    ends : {resolved : List String} → Resolves 0 [] resolved resolved
    stay :
        {n : ℕ} {part : String} {rest resolved final : List String}
        → is_stay part ≡ true
        → Resolves n rest resolved final
        → Resolves n (part ∷ rest) resolved final
    climb :
        {n : ℕ} {part last : String} {rest resolved final : List String}
        → part ≡ ".."
        → Resolves n rest resolved final
        → Resolves n (part ∷ rest) (last ∷ resolved) final
    enter :
        {n : ℕ} {part : String} {rest resolved final : List String} {e : Entry}
        → IsName part
        → lookup (path_of (part ∷ resolved)) ≡ ok e
        → (e.kind == "symlink") ≡ false
        → (rest ≡ []) ⊎ (e.kind ≡ "directory")
        → Resolves n rest (part ∷ resolved) final
        → Resolves n (part ∷ rest) resolved final
    follow :
        {n : ℕ} {part : String} {rest resolved final : List String} {e : Entry}
        → IsName part
        → lookup (path_of (part ∷ resolved)) ≡ ok e
        → e.kind ≡ "symlink"
        → Resolves n (components e.target ++ rest) resolved final
        → Resolves (suc n) (part ∷ rest) resolved final

  abbrev pub Within : ℕ → List String → List String → List String → Type 0
  Within left pending resolved final = (n : ℕ) × (n ≤ left) × Resolves n pending resolved final

  -- What is known of a move.
  abbrev pub Facts : String → List String → Move → Type 0
  Facts part resolved stays = is_stay part ≡ true
  Facts part resolved (climbs above) = (part ≡ "..") × (last : String) × (resolved ≡ last ∷ above)
  Facts part resolved (refused problem) = Unit {0}
  Facts part resolved (follows e) =
      IsName part × (lookup (path_of (part ∷ resolved)) ≡ ok e) × (e.kind ≡ "symlink")
  Facts part resolved (enters e) =
      IsName part × (lookup (path_of (part ∷ resolved)) ≡ ok e) × ((e.kind == "symlink") ≡ false)

  up-Facts :
      (part : String) (resolved : List String) → part ≡ ".." → Facts part resolved (up resolved)
  up-Facts part [] h = tt
  up-Facts part (last ∷ above) h = (h, last, refl)

  entry-Facts :
      (part : String) (resolved : List String) (found : Outcome Problem Entry)
      → IsName part
      → lookup (path_of (part ∷ resolved)) ≡ found
      → Facts part resolved (at_entry found)
  entry-Facts part resolved (err problem) name h = tt
  entry-Facts part resolved (ok e) name h =
      if_both (Facts part resolved) (e.kind == "symlink")
        (λ link. (name, h, (string_Eq.eqb_iff e.kind "symlink").0 link)) (λ other. (name, h, other))

  move_of-Facts :
      (part : String) (resolved : List String) → Facts part resolved (move_of lookup part resolved)
  unfolding move_of
  move_of-Facts part resolved =
      if_both (Facts part resolved) (is_stay part) (λ h. h)
        (λ named.
          if_both (Facts part resolved) (part == "..")
            (λ dots. up-Facts part resolved ((string_Eq.eqb_iff part "..").0 dots))
            (λ other. entry-Facts part resolved _ (named, other) refl))

  -- What the loop does after a move.
  abbrev pub after :
      (List String → List String → Outcome Problem (List String))
      → String
      → List String
      → List String
      → Move
      → Outcome Problem (List String)
  after next part rest resolved m = elim m [
    | stays ↦ scan lookup next rest resolved
    | climbs above ↦ scan lookup next rest above
    | refused problem ↦ err problem
    | follows e ↦ next (components e.target ++ rest) resolved
    | enters e ↦ elim (blocked rest e) [
      | true ↦ err not_a_directory
      | false ↦ scan lookup next rest (part ∷ resolved)
    ]
  ]

  unblocked :
      (rest : List String) (e : Entry)
      → blocked rest e ≡ false
      → (rest ≡ []) ⊎ (e.kind ≡ "directory")
  unblocked [] e h = inl refl
  unblocked (part ∷ rest) e h = inr ((string_Eq.eqb_iff e.kind "directory").0 (unnot _ h))

  module _ (left : ℕ) (next : List String → List String → Outcome Problem (List String))
      (sound : (pending resolved final : List String)
        → next pending resolved ≡ ok final
        → (n : ℕ) × (suc n ≤ left) × Resolves n pending resolved final) where
    module _ (part : String) (rest : List String)
        (again : (resolved final : List String)
          → scan lookup next rest resolved ≡ ok final
          → Within left rest resolved final) where
      entered_sound :
          (resolved final : List String) (e : Entry) (b : Bool)
          → blocked rest e ≡ b
          → Facts part resolved (enters e)
          → (elim b [
            | true ↦ err not_a_directory
            | false ↦ scan lookup next rest (part ∷ resolved)
          ])
            ≡ ok final
          → Within left (part ∷ rest) resolved final
      entered_sound resolved final e true b f k = cc
      entered_sound resolved final e false b f k =
          let (n, small, d) = again (part ∷ resolved) final k in
          (n, small, enter f.0 f.1 f.2 (unblocked rest e b) d)

      after_sound :
          (resolved final : List String) (m : Move)
          → Facts part resolved m
          → after next part rest resolved m ≡ ok final
          → Within left (part ∷ rest) resolved final
      after_sound resolved final stays f k =
          let (n, small, d) = again resolved final k in (n, small, stay f d)
      after_sound resolved final (climbs above) f k =
          let (n, small, d) = again above final k in
          (n, small, subst (λ r. Resolves n (part ∷ rest) r final) (sym f.2) (climb f.0 d))
      after_sound resolved final (refused problem) f k = cc
      after_sound resolved final (follows e) f k =
          let (n, small, d) = sound (components e.target ++ rest) resolved final k in
          (suc n, small, follow f.0 f.1 f.2 d)
      after_sound resolved final (enters e) f k =
          entered_sound resolved final e (blocked rest e) refl f k

    scan_sound :
        (pending resolved final : List String)
        → scan lookup next pending resolved ≡ ok final
        → Within left pending resolved final
    unfolding scan
    scan_sound [] resolved final h = (0, ground arith, subst (Resolves 0 [] resolved) (same h) ends)
      where
        same : {a b : List String} → ◌≡◌ {A = Outcome Problem (List String)} (ok a) (ok b) → a ≡ b
        same k = cc
    scan_sound (part ∷ rest) resolved final h =
        after_sound part rest (λ r f k. scan_sound rest r f k) resolved final
          (move_of lookup part resolved) (move_of-Facts part resolved) h

  pub resolve_sound :
      (left : ℕ) (pending resolved final : List String)
      → resolve lookup left pending resolved ≡ ok final
      → Within left pending resolved final
  unfolding resolve
  resolve_sound zero pending resolved final h =
      scan_sound 0 (λ _ _. err too_many_links) (λ p r f k. cc) pending resolved final h
  resolve_sound (suc left) pending resolved final h =
      scan_sound (suc left) (resolve lookup left)
        (λ p r f k. let (n, small, d) = resolve_sound left p r f k in (n, ground (arith, small), d))
        pending resolved final h
