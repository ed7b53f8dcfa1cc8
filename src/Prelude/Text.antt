-- ===== src/Prelude/Text.antt =====
-- Go strings as native texts: their characters, and the anchored patterns that the source matches.
use Prim.Native.Nat.{ℕ, zero, suc}
use Prim.Native.Char.{code}
use Prim.Native.String.{String}
use mathlib.Core.Bool.{Bool, true, false, ◌&&◌, ◌||◌}
use mathlib.Core.Option.{Option, none, some}
use mathlib.Core.List.{List, [], ◌∷◌}
use agent_remote_node.Prelude.Tests.{leb, ◌==◌, nat_Eq, if◌then◌else◌}
use agent_remote_node.Prelude.Lists.{length, all, any}

abbrev pub codes : String → List ℕ
codes String.[] = []
codes (String.◌∷◌ c s) = code c ∷ codes s

abbrev pub is_digit : ℕ → Bool
is_digit c = leb b'0' c && leb c b'9'

abbrev pub is_lower : ℕ → Bool
is_lower c = leb b'a' c && leb c b'z'

abbrev pub is_upper : ℕ → Bool
is_upper c = leb b'A' c && leb c b'Z'

-- The class `[0-9a-f]`.
abbrev pub is_hex : ℕ → Bool
is_hex c = is_digit c || (leb b'a' c && leb c b'f')

-- The text has `n` characters, all of the class: `^class{n}$`.
abbrev pub exactly : ℕ → (ℕ → Bool) → String → Bool
exactly n class s = length (codes s) == n && all class (codes s)

-- `strings.ContainsAny(s, "\x00\r\n")`.
abbrev pub has_line_break : String → Bool
has_line_break s = any (λ c. c == 0 || (c == 13 || c == 10)) (codes s)

-- `^first(rest){low,high}$`
abbrev pub starts_then : (ℕ → Bool) → (ℕ → Bool) → ℕ → String → Bool
starts_then first rest high String.[] = false
starts_then first rest high (String.◌∷◌ c s) =
    first (code c) && (leb (length (codes s)) high && all rest (codes s))

-- What is left after `n` characters of the class.
abbrev run_of : (ℕ → Bool) → ℕ → List ℕ → Option (List ℕ)
run_of class zero s = some s
run_of class (suc n) [] = none
run_of class (suc n) (c ∷ s) = let rest = run_of class n s in if class c then rest else none

-- Runs of classes of characters, one after the other, up to the end: `^class{n}class{n}…$`.
abbrev pub runs_of : List ((ℕ → Bool) × ℕ) → List ℕ → Bool
runs_of [] [] = true
runs_of [] (c ∷ s) = false
runs_of ((class, n) ∷ rest) s = elim (run_of class n s) [ none ↦ false | some t ↦ runs_of rest t ]

abbrev dash : List ℕ → Option (List ℕ)
dash [] = none
dash (c ∷ s) = if c == b'-' then some s else none

abbrev and_then : Option (List ℕ) → (List ℕ → Option (List ℕ)) → Option (List ℕ)
and_then none f = none
and_then (some s) f = f s

abbrev ended : Option (List ℕ) → Bool
ended (some []) = true
ended _ = false

-- `^h{8}-h{4}-h{4}-h{4}-h{12}$` over hexadecimal digits.
abbrev pub is_uuid : String → Bool
is_uuid s = ended (
    and_then
      (and_then
        (and_then
          (and_then
            (and_then
              (and_then (and_then (and_then (run_of is_hex 8 (codes s)) dash) (run_of is_hex 4))
                dash)
              (run_of is_hex 4))
            dash)
          (run_of is_hex 4))
        dash)
      (run_of is_hex 12))
