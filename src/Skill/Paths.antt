-- ===== src/Skill/Paths.antt =====
-- internal/skillmanager/validate.go: the paths of a skill's tree. A text is valid UTF-8 here, and the
-- order of its characters is the order of its bytes.
use Prim.Native.Nat.{ℕ}
use Prim.Native.String.{◌++◌}
use Prim.Native.Char.{Char, code}
use agent_remote_node.Prelude.{
  String, Bool, true, false, not, ◌&&◌, ◌||◌, List, [], ◌∷◌, ◌==◌, string_Eq, nat_Eq, if◌then◌else◌,
  leb, ltb, len, codes, any, Outcome, refuse_if, ◌>>◌,
}

-- The errors of the package that this part of the model uses.
pub data Problem : Type 0 where
  not_relative not_canonical bad_component bad_entry bad_file bad_other bad_directory bad_kind
        bad_link bad_runtime_link bad_ordinary_link bad_manifest unsorted no_parent too_many_bytes
        missing escapes too_many_links not_a_directory cycle :
      Problem

abbrev pub slash : ℕ
slash = b'/'

-- The first character joins the first component.
abbrev onto_first : Char → List String → List String
onto_first c [] = (String.◌∷◌ c "") ∷ []
onto_first c (part ∷ parts) = (String.◌∷◌ c part) ∷ parts

-- `strings.Split(value, "/")`
unfoldable pub components : String → List String
components String.[] = "" ∷ []
components (String.◌∷◌ c s) =
    let rest = components s in if code c == slash then "" ∷ rest else onto_first c rest

abbrev pub onto {ℓ} : {A : Type ℓ} → List A → List A → List A
onto [] ys = ys
onto (x ∷ xs) ys = onto xs (x ∷ ys)

abbrev pub without_first : List String → List String
without_first [] = []
without_first (part ∷ parts) = parts

-- The components without the last, the last of them first.
unfoldable pub parents : String → List String
unfolding components
parents path = without_first (onto (components path) [])

-- `strings.Join` of components that are held with the last one first.
unfoldable pub path_of : List String → String
path_of [] = ""
path_of (part ∷ []) = part
path_of (part ∷ (up ∷ rest)) = path_of (up ∷ rest) ++ ("/" ++ part)

-- The path of a directory with the slash that its entries have after it.
abbrev pub beneath : List String → String
beneath resolved = path_of resolved ++ "/"

abbrev codes_start : List ℕ → List ℕ → Bool
codes_start [] t = true
codes_start (a ∷ s) [] = false
codes_start (a ∷ s) (b ∷ t) = (a == b) && codes_start s t

-- `strings.HasPrefix(value, prefix)`
abbrev pub has_prefix : String → String → Bool
has_prefix value prefix = codes_start (codes prefix) (codes value)

-- `a < b`
unfoldable pub codes_before : List ℕ → List ℕ → Bool
codes_before [] [] = false
codes_before [] (b ∷ t) = true
codes_before (a ∷ s) [] = false
codes_before (a ∷ s) (b ∷ t) = let rest = codes_before s t in if a == b then rest else ltb a b

abbrev pub path_before : String → String → Bool
path_before a b = codes_before (codes a) (codes b)

-- `unicode.IsControl`
abbrev is_control : ℕ → Bool
is_control c = ltb c 32 || (leb 127 c && leb c 159)

abbrev bad_part : String → Bool
bad_part part = (part == "") || ((part == ".") || ((part == "..") || not (leb (len part) 255)))

-- `is_nfc` stands for `norm.NFC.IsNormalString`.
module _ (is_nfc : String → Bool) where
  -- `validPathText`
  unfoldable pub valid_path_text : String → Bool
  valid_path_text value =
      leb (len value) 4096 && (is_nfc value && not (any is_control (codes value)))

  -- `ValidatePath`
  unfoldable pub validate_path : String → Outcome Problem (Unit {0})
  unfolding valid_path_text components
  validate_path value = do
    refuse_if ((value == "") || (has_prefix value "/" || any (λ c. c == 92) (codes value)))
        not_relative
    refuse_if (not (valid_path_text value)) not_canonical
    refuse_if (any bad_part (components value)) bad_component
