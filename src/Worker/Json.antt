-- ===== src/Worker/Json.antt =====
-- encoding/json as internal/worker uses it: decimal literals, and the fields of a decoded object.
use Prim.Native.Nat.{ℕ, zero, suc, ◌+◌, ◌-◌, ◌*◌, ◌/◌, ◌%◌, ◌^◌, ◌<◌}
use Prim.Native.Char.{Char, code}
use Prim.Native.String.{◌++◌}
use agent_remote_node.Prelude.{
  String, Bool, true, false, ◌&&◌, Option, none, some, List, ◌≡◌, refl, arith, ltb, leb, ◌==◌,
  nat_Eq, string_Eq, if◌then◌else◌, ℤ, pos, negsuc, is_digit, length, all, is_some, Bool-cases, inl,
  inr, ap, ◌∙◌,
}
use native.Mathlib.Nat.{pow-suc}
use agent_remote_node.Ledger.Value.{
  Value, Fields, null, flag, go_number, number, str, object, end, field,
}

digit : ℕ → Char
digit zero = "0"
digit (suc zero) = "1"
digit (suc (suc zero)) = "2"
digit (suc (suc (suc zero))) = "3"
digit (suc (suc (suc (suc zero)))) = "4"
digit (suc (suc (suc (suc (suc zero))))) = "5"
digit (suc (suc (suc (suc (suc (suc zero)))))) = "6"
digit (suc (suc (suc (suc (suc (suc (suc zero))))))) = "7"
digit (suc (suc (suc (suc (suc (suc (suc (suc zero)))))))) = "8"
digit _ = "9"

-- The digits of a number before a text, for as many digits as the fuel.
digits : ℕ → ℕ → String → String
unfolding digit
digits zero n out = out
digits (suc f) n out =
    let more = digits f (n / 10) (String.◌∷◌ (digit (n % 10)) out) in
    if ltb n 10 then String.◌∷◌ (digit n) out else more

-- The decimal literal of an integer below 10^20, which every int64 is.
unfoldable pub literal : ℤ → String
unfolding digits
literal (pos n) = digits 20 n ""
literal (negsuc n) = "-" ++ digits 20 (n + 1) ""

-- A literal without a sign: `none` for a text that has no digit or anything else.
unfoldable pub scan_digits : String → Option ℕ → Option ℕ
scan_digits String.[] read = read
scan_digits (String.◌∷◌ c s) read =
    if is_digit (code c)
    then scan_digits s (some ((elim read [ none ↦ 0 | some n ↦ n ]) * 10 + (code c - b'0')))
    else none

abbrev negated : ℕ → ℤ
negated zero = pos 0
negated (suc n) = negsuc n

-- An int64: the sign is taken off where the text is no plain number.
unfoldable pub scan_negative : String → Option ℤ
unfolding scan_digits
scan_negative String.[] = none
scan_negative (String.◌∷◌ c s) = elim (scan_digits s none) [
  | none ↦ none
  | some n ↦ if (code c == b'-') && leb n (2 ^ 63) then some (negated n) else none
]

unfoldable pub in_range : String → Option ℕ → Option ℤ
unfolding scan_negative
in_range s none = scan_negative s
in_range s (some n) = if ltb n (2 ^ 63) then some (pos n) else none

unfoldable pub scan_int : String → Option ℤ
unfolding scan_digits in_range
scan_int s = in_range s (scan_digits s none)

unfoldable pub get_field : String → Fields → Option Value
get_field k end = none
get_field k (field j v fs) = if j == k then some v else get_field k fs

abbrev pub count_fields : Fields → ℕ
count_fields end = 0
count_fields (field j v fs) = suc (count_fields fs)

-- `m[k] = v` for a map that is written in the order of its keys.
unfoldable pub set_field : (String → String → Bool) → String → Value → Fields → Fields
set_field before k v end = field k v end
set_field before k v (field j w fs) =
    let later = set_field before k v fs in
    if j == k
    then field k v fs
    else if before k j
    then field k v (field j w fs)
    else field j w later

-- `exactJournalFields`
unfoldable pub exact_fields : List String → Fields → Bool
unfolding get_field
exact_fields names fs =
    (count_fields fs == length names) && all (λ name. is_some (get_field name fs)) names

-- What `json.Unmarshal` puts into a variable of the type for a value that is there; `null` leaves the
-- zero value.
unfoldable pub text_of : Option Value → Option String
text_of (some (str s)) = some s
text_of (some null) = some ""
text_of none = some ""
text_of _ = none

unfoldable pub int_of : Option Value → Option ℤ
unfolding scan_int
int_of (some (number s)) = scan_int s
int_of (some (go_number s)) = scan_int s
int_of (some null) = some (pos 0)
int_of none = some (pos 0)
int_of _ = none

unfoldable pub flag_of : Option Value → Option Bool
flag_of (some (flag b)) = some b
flag_of (some null) = some false
flag_of none = some false
flag_of _ = none

-- The fields of an object; `null` leaves no fields.
unfoldable pub fields_of : Option Value → Option Fields
fields_of (some (object fs)) = some fs
fields_of (some null) = some end
fields_of _ = none

digit_code : (d : ℕ) → d < 10 → code (digit d) ≡ b'0' + d
unfolding digit
digit_code zero h = refl
digit_code (suc zero) h = refl
digit_code (suc (suc zero)) h = refl
digit_code (suc (suc (suc zero))) h = refl
digit_code (suc (suc (suc (suc zero)))) h = refl
digit_code (suc (suc (suc (suc (suc zero))))) h = refl
digit_code (suc (suc (suc (suc (suc (suc zero)))))) h = refl
digit_code (suc (suc (suc (suc (suc (suc (suc zero))))))) h = refl
digit_code (suc (suc (suc (suc (suc (suc (suc (suc zero)))))))) h = refl
digit_code (suc (suc (suc (suc (suc (suc (suc (suc (suc zero))))))))) h = refl
digit_code (suc (suc (suc (suc (suc (suc (suc (suc (suc (suc (n))))))))))) h = absurd (omega arith)

scan_digit :
    (d : ℕ) (s : String) (read : Option ℕ)
    → d < 10
    → scan_digits (String.◌∷◌ (digit d) s) read
      ≡ scan_digits s (some ((elim read [ none ↦ 0 | some n ↦ n ]) * 10 + d))
unfolding scan_digits
scan_digit d s read h =
    let c = digit_code d h in
    let digit_read : is_digit (code (digit d)) ≡ true = ground (arith, c) in
    let value : code (digit d) - b'0' ≡ d = omega (arith, c) in rw (digit_read, value) refl

scan_last :
    (n : ℕ) (out : String)
    → n < 10
    → scan_digits (String.◌∷◌ (digit n) out) none ≡ scan_digits out (some n)
scan_last n out h =
    scan_digit n out none h ∙ ap (λ m. scan_digits out (some m)) {y = n} (omega arith)

tenth_of : (p n : ℕ) → n < p * 10 → n / 10 < p
tenth_of p n h = omega arith

scan-digits :
    (f n : ℕ) (out : String)
    → n < 10 ^ suc f
    → scan_digits (digits (suc f) n out) none ≡ scan_digits out (some n)
unfolding digits
scan-digits zero n out h =
    let last : ltb n 10 ≡ true = ground (arith, h) in rw last (scan_last n out (omega arith))
scan-digits (suc f) n out h = elim (Bool-cases (ltb n 10)) [
  | inl last ↦ rw last (scan_last n out (ground (arith, last)))
  | inr more ↦
      let tenth : n / 10 < 10 ^ suc f = tenth_of (10 ^ suc f) n (rw pow-suc at h) in
      rw more (
        scan-digits f (n / 10) (String.◌∷◌ (digit (n % 10)) out) tenth
        ∙ scan_digit (n % 10) out (some (n / 10)) (omega arith)
        ∙ ap (λ m. scan_digits out (some m)) (omega arith))
]

scan_int-digits :
    (f n : ℕ) → n < 10 ^ suc f → n < 2 ^ 63 → scan_int (digits (suc f) n "") ≡ some (pos n)
unfolding scan_int
scan_int-digits f n h k =
    ap (in_range (digits (suc f) n "")) (scan-digits f n "" h ∙ nothing_left n)
    ∙ unfold in_range in ranged n k
  where
    nothing_left : (n : ℕ) → scan_digits "" (some n) ≡ some n
    nothing_left n = unfold scan_digits in refl

    ranged : (n : ℕ) → n < 2 ^ 63 → (if ltb n (2 ^ 63) then some (pos n) else none) ≡ some (pos n)
    ranged n k = ground (arith, k)

-- Every nonnegative int64 is read back from its literal.
pub scan_int-literal : (n : ℕ) → n < 2 ^ 63 → scan_int (literal (pos n)) ≡ some (pos n)
unfolding literal
scan_int-literal n h = scan_int-digits 19 n (omega arith) h
