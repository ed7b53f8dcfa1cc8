-- ===== src/Skill/Entries.antt =====
-- internal/skillmanager/manifest.go and validate.go: the entries of a skill's tree.
use Prim.Native.Nat.{ℕ}
use Prim.Native.Char.{code}
use agent_remote_node.Prelude.{
  String, Bool, not, ◌&&◌, ◌||◌, List, ◌==◌, string_Eq, nat_Eq, if◌then◌else◌, ltb, codes, any,
  Outcome, err, refuse_if, ◌>>◌, ℤ, pos, ltz, int_Eq, is_digit, is_lower, starts_then,
}
use agent_remote_node.Finalization.Identity.{is_content_digest}
use agent_remote_node.Skill.Paths.{
  Problem, bad_entry, bad_file, bad_other, bad_directory, bad_kind, bad_link, bad_runtime_link,
  bad_ordinary_link, has_prefix, valid_path_text, validate_path,
}

-- `Entry`
pub record Entry : Type 0 where
  pub path : String
  pub kind : String
  pub mode : ℕ
  pub size : ℤ
  pub sha256 : String
  pub target : String
  pub content_kind : String
  pub dependency : String

-- `Manifest`
pub record Manifest : Type 0 where
  pub version : ℤ
  pub entries : List Entry

-- `dependencyPattern`
abbrev pub is_dependency : String → Bool
is_dependency =
    starts_then is_lower
      (λ c. is_lower c || (is_digit c || ((c == b'_') || ((c == b'.') || (c == b'-'))))) 63

-- `strings.TrimPrefix(value, "/")`
abbrev pub without_slash : String → String
without_slash String.[] = ""
without_slash (String.◌∷◌ c s) = if code c == b'/' then s else String.◌∷◌ c s

module _ (is_nfc : String → Bool) where
  -- `validateEntry` for a link.
  unfoldable pub validate_link_entry : Entry → Outcome Problem (Unit {0})
  unfolding valid_path_text validate_path
  validate_link_entry e =
      if not (e.mode == 511)
        || ((e.target == "")
            || (any (λ c. c == 92) (codes e.target) || not (valid_path_text is_nfc e.target)))
      then err bad_link
      else if e.kind == "runtime_link"
      then if not (has_prefix e.target "/") || not (is_dependency e.dependency)
        then err bad_runtime_link
        else validate_path is_nfc (without_slash e.target)
      else refuse_if (has_prefix e.target "/" || not (e.dependency == "")) bad_ordinary_link

  -- `validateEntry` for what is no file.
  unfoldable pub validate_other : Entry → Outcome Problem (Unit {0})
  unfolding validate_link_entry
  validate_other e =
      if not (e.size == pos 0) || (not (e.sha256 == "") || not (e.content_kind == ""))
      then err bad_other
      else if e.kind == "directory"
      then refuse_if (not (e.target == "") || not (e.dependency == "")) bad_directory
      else if not (e.kind == "symlink") && not (e.kind == "runtime_link")
      then err bad_kind
      else validate_link_entry e

  -- `validateEntry`
  unfoldable pub validate_entry : Entry → Outcome Problem (Unit {0})
  unfolding validate_path validate_other
  validate_entry e = do
    validate_path is_nfc e.path
    refuse_if (ltb 511 e.mode || ltz e.size (pos 0)) bad_entry
    (if e.kind == "file"
        then refuse_if
            (not (is_content_digest e.sha256)
              || ((not (e.content_kind == "text") && not (e.content_kind == "binary"))
                  || (not (e.target == "") || not (e.dependency == ""))))
            bad_file
        else validate_other e)
