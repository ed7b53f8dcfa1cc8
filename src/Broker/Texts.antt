-- ===== src/Broker/Texts.antt =====
-- internal/egobrowser/broker.go: the tests on identities, digests, keys and scopes.
use Prim.Native.Nat.{ℕ, ◌+◌, ◌*◌, ◌-◌, ◌/◌, ◌%◌}
use Prim.Native.Char.{Char, code}
use Prim.Native.String.{String, len, ◌++◌}
use agent_remote_node.Prelude.{
  Bool, true, false, not, ◌&&◌, ◌||◌, Outcome, ok, err, ◌>>◌, refuse_if, ◌==◌, string_Eq, nat_Eq,
  leb, all, any, length, codes, is_digit, is_lower, is_upper, is_hex, has_line_break, if◌then◌else◌,
  List, [], ◌∷◌, Option, none, some, is_some,
}

-- The errors of the package, and those of the calls that it makes.
pub data BrokerError : Type 0 where
  disabled unavailable renewal_required lease_expired revoked replay too_many protocol : BrokerError
  io_error control_plane_error context_done : BrokerError

-- `validOpaqueText`; `len` counts bytes.
unfoldable pub valid_opaque_text : String → ℕ → Bool
valid_opaque_text value maximum =
    not (value == "") && (leb (len value) maximum && not (has_line_break value))

abbrev pub is_task_space_char : ℕ → Bool
is_task_space_char c =
    is_lower c || (is_upper c || (is_digit c || (c == b'-' || (c == b'_' || c == b':'))))

-- `dedicatedTaskSpace`
unfoldable pub dedicated_task_space : String → Outcome BrokerError String
dedicated_task_space session = do
  refuse_if (not (leb (len ("agent-remote:" ++ session)) 256)) protocol
  refuse_if (not (all is_task_space_char (codes ("agent-remote:" ++ session)))) protocol
  ok ("agent-remote:" ++ session)

-- The characters that `strings.TrimSpace` removes.
abbrev pub is_space : ℕ → Bool
is_space c =
    (leb 9 c && leb c 13)
    || (c == 32
        || (c == 133
            || (c == 160
                || (c == 5760
                    || ((leb 8192 c && leb c 8202)
                        || (c == 8232
                            || (c == 8233 || (c == 8239 || (c == 8287 || c == 12288)))))))))

unfoldable pub trim_left : String → String
trim_left String.[] = String.[]
trim_left (String.◌∷◌ c s) = if is_space (code c) then trim_left s else String.◌∷◌ c s

abbrev unless_blank : Char → String → String
unless_blank c String.[] = if is_space (code c) then String.[] else String.◌∷◌ c String.[]
unless_blank c (String.◌∷◌ d s) = String.◌∷◌ c (String.◌∷◌ d s)

unfoldable pub trim_right : String → String
trim_right String.[] = String.[]
trim_right (String.◌∷◌ c s) = unless_blank c (trim_right s)

-- `strings.TrimSpace`
unfoldable pub trim_space : String → String
unfolding trim_left trim_right
trim_space s = trim_right (trim_left s)

pub record Scope : Type 0 where
  pub mode : String
  pub task_space : String
  pub tab : String

abbrev pub binding_scope : Scope
binding_scope = record { mode = "binding"; task_space = ""; tab = "" }

-- `strings.ContainsAny(s, "*\r\n")`
abbrev pub has_wildcard : String → Bool
has_wildcard s = any (λ c. c == b'*' || (c == 13 || c == 10)) (codes s)

-- `normalizeScope` of texts that are trimmed.
unfoldable pub scope_of : String → String → String → Outcome BrokerError Scope
unfolding valid_opaque_text
scope_of mode task_space tab =
    if mode == "" || mode == "binding"
    then ok binding_scope
    else if (not (mode == "task_space") && not (mode == "task_space_tab"))
        || (task_space == "" || has_wildcard task_space)
    then ok binding_scope
    else if mode == "task_space_tab" && (tab == "" || has_wildcard tab)
    then ok binding_scope
    else if not (valid_opaque_text task_space 256)
        || (not (tab == "") && not (valid_opaque_text tab 256))
    then err protocol
    else ok (record { mode = mode; task_space = task_space; tab = tab })

-- `normalizeScope`
unfoldable pub normalize_scope : String → String → String → Outcome BrokerError Scope
unfolding scope_of trim_space
normalize_scope mode task_space tab =
    scope_of (trim_space mode) (trim_space task_space) (trim_space tab)

-- What follows a prefix.
abbrev pub after : List ℕ → List ℕ → Option (List ℕ)
after [] s = some s
after (p ∷ ps) [] = none
after (p ∷ ps) (c ∷ s) = let rest = after ps s in if p == c then rest else none

abbrev hex_digits : Option (List ℕ) → Bool
hex_digits none = false
hex_digits (some s) = all is_hex s

-- `validSHA256`
unfoldable pub valid_sha256 : String → Bool
valid_sha256 value = len value == 71 && hex_digits (after (codes "sha256:") (codes value))

-- The place of a character in the URL-safe base 64 alphabet.
abbrev pub base64_index : ℕ → Option ℕ
base64_index c =
    if is_upper c
    then some (c - 65)
    else if is_lower c
    then some (c - 71)
    else if is_digit c
    then some (c + 4)
    else if c == b'-'
    then some 62
    else if c == b'_'
    then some 63
    else none

abbrev in_alphabet : ℕ → Bool
in_alphabet c = is_some (base64_index c)

abbrev multiple : ℕ → Option ℕ → Bool
multiple unit none = false
multiple unit (some i) = i % unit == 0

-- Whether the bits of the last character that stand for no byte are zero.
abbrev clean_tail : ℕ → List ℕ → Bool
clean_tail unit [] = true
clean_tail unit (c ∷ []) = multiple unit (base64_index c)
clean_tail unit (c ∷ d ∷ s) = clean_tail unit (d ∷ s)

abbrev spare : ℕ → ℕ
spare n = if n == 0 then 1 else if n == 1 then 16 else 4

-- `validCanonicalBase64URL` at a length that is not negative: the encoding of that many bytes is
-- one that decoding and encoding give back.
unfoldable pub valid_canonical_base64_url : String → ℕ → Bool
valid_canonical_base64_url value n =
    not (value == "")
    && (length (codes value) == (n * 4 + 2) / 3
        && (all in_alphabet (codes value) && clean_tail (spare (n % 3)) (codes value)))
