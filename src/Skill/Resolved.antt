-- ===== src/Skill/Resolved.antt =====
-- internal/skillmanager/validate.go: `validateLinkLookup` finds every place that the rules of a file system
-- lead to within its bound on links.
use Prim.Native.Nat.{ℕ, zero, suc, ◌≤◌}
use agent_remote_node.Prelude.{
  String, true, false, not, List, [], ◌∷◌, ◌≡◌, refl, ap, ◌∙◌, ◌==◌, string_Eq, if◌then◌else◌,
  Outcome, ok, err, inl, inr, ◌⊎◌, ◌↔◌, arith,
}
use agent_remote_node.Skill.Paths.{Problem, path_of, too_many_links, not_a_directory}
use agent_remote_node.Skill.Entries.{Entry}
use agent_remote_node.Skill.Links.{
  is_stay, Move, stays, climbs, follows, enters, at_entry, blocked, move_of, scan, resolve,
}
use agent_remote_node.Skill.Resolution.{
  IsName, Resolves, Within, after, climb, ends, enter, follow, resolve_sound, stay,
}

module _ (lookup : String → Outcome Problem Entry) where
  -- The move that a component makes.
  stays_there :
      (part : String) (resolved : List String)
      → is_stay part ≡ true
      → move_of lookup part resolved ≡ stays
  unfolding move_of
  stays_there part resolved h = rw h refl

  climbs_up :
      (part last : String) (above : List String)
      → part ≡ ".."
      → move_of lookup part (last ∷ above) ≡ climbs above
  unfolding move_of
  climbs_up part last above h = rw h refl

  finds :
      (part : String) (resolved : List String) (e : Entry) (m : Move)
      → IsName part
      → lookup (path_of (part ∷ resolved)) ≡ ok e
      → at_entry (ok e) ≡ m
      → move_of lookup part resolved ≡ m
  unfolding move_of
  finds part resolved e m name h k = rw (name.0, name.1) (ap at_entry h ∙ k)

  open_way :
      (rest : List String) (e : Entry)
      → (rest ≡ []) ⊎ (e.kind ≡ "directory")
      → blocked rest e ≡ false
  open_way rest e (inl last) = ap (λ r. blocked r e) last
  open_way [] e (inr directory) = refl
  open_way (part ∷ rest) e (inr directory) = ap (λ k. not (k == "directory")) directory

  abbrev rest_of : ℕ → List String → List String → Outcome Problem (List String)
  rest_of zero = λ _ _. err too_many_links
  rest_of (suc left) = resolve lookup left

  resolve-after :
      (left : ℕ) (part : String) (rest resolved : List String) (m : Move)
      → move_of lookup part resolved ≡ m
      → resolve lookup left (part ∷ rest) resolved
        ≡ after lookup (rest_of left) part rest resolved m
  unfolding resolve scan
  resolve-after zero part rest resolved m h = ap (after lookup (rest_of zero) part rest resolved) h
  resolve-after (suc left) part rest resolved m h =
      ap (after lookup (rest_of (suc left)) part rest resolved) h

  resolve-scan :
      (left : ℕ) (pending resolved : List String)
      → scan lookup (rest_of left) pending resolved ≡ resolve lookup left pending resolved
  unfolding resolve
  resolve-scan zero pending resolved = refl
  resolve-scan (suc left) pending resolved = refl

  resolve_complete :
      {n : ℕ} {pending resolved final : List String} (left : ℕ)
      → n ≤ left
      → Resolves lookup n pending resolved final
      → resolve lookup left pending resolved ≡ ok final
  resolve_complete zero small ends = unfold resolve in unfold scan in refl
  resolve_complete (suc left) small ends = unfold resolve in unfold scan in refl
  resolve_complete left small (stay {part = part} {rest = rest} {resolved = resolved} h d) =
      resolve-after left part rest resolved stays (stays_there part resolved h)
      ∙ resolve-scan left rest resolved
      ∙ resolve_complete left small d
  resolve_complete left small
        (climb {part = part} {last = last} {rest = rest} {resolved = above} h d) =
      resolve-after left part rest (last ∷ above) (climbs above) (climbs_up part last above h)
      ∙ resolve-scan left rest above
      ∙ resolve_complete left small d
  resolve_complete left small
        (enter {part = part} {rest = rest} {resolved = resolved} {e = e} name h other free d) =
      resolve-after left part rest resolved (enters e) (
        finds part resolved e (enters e) name h (ap (λ b. if b then follows e else enters e) other))
      ∙ ap
          (λ b. elim b [
            | true ↦ err not_a_directory
            | false ↦ scan lookup (rest_of left) rest (part ∷ resolved)
          ])
          (open_way rest e free)
      ∙ resolve-scan left rest (part ∷ resolved)
      ∙ resolve_complete left small d
  resolve_complete zero small (follow name h link d) = absurd (ground (arith, small))
  resolve_complete (suc left) small
        (follow {part = part} {rest = rest} {resolved = resolved} {e = e} name h link d) =
      resolve-after (suc left) part rest resolved (follows e) (
        finds part resolved e (follows e) name h (
          ap (λ b. if b then follows e else enters e)
            ((string_Eq.eqb_iff e.kind "symlink").1 link)))
      ∙ resolve_complete left (ground (arith, small)) d

  -- The loop resolves a link to these components exactly where the file system's rules lead there over at
  -- most as many links as it may follow.
  pub resolve_iff :
      (left : ℕ) (pending resolved final : List String)
      → (resolve lookup left pending resolved ≡ ok final)
        ↔ Within lookup left pending resolved final
  resolve_iff left pending resolved final =
      (resolve_sound lookup left pending resolved final, λ w. resolve_complete left w.1 w.2)
