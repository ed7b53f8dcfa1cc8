-- ===== src/Skill/Order.antt =====
-- The order of paths is a strict order.
use Prim.Native.Nat.{ℕ, compare as compare_ℕ}
use Prim.Native.Char.{Char, code}
use text.Mathlib.TextEquality.{codes_equal}
use text.Mathlib.TextPositions.{compare_self}
use mathlib.Core.Path.{ap₂}
use agent_remote_node.Prelude.{
  String, true, false, List, [], ◌∷◌, ◌≡◌, refl, nat_Eq, arith, codes, sym, ap, ◌∙◌, Bool-cases,
  inl, inr, ◌==◌,
}
use agent_remote_node.Skill.Paths.{codes_before, path_before}

codes_before_self : (s : List ℕ) → codes_before s s ≡ false
unfolding codes_before
codes_before_self [] = refl
codes_before_self (a ∷ s) = ground (arith, codes_before_self s)

codes_before_chain :
    (s t u : List ℕ) → codes_before s t ≡ true → codes_before t u ≡ true → codes_before s u ≡ true
unfolding codes_before
codes_before_chain [] [] u h k = cc
codes_before_chain [] (b ∷ t) [] h k = cc
codes_before_chain [] (b ∷ t) (c ∷ u) h k = refl
codes_before_chain (a ∷ s) [] u h k = cc
codes_before_chain (a ∷ s) (b ∷ t) [] h k = cc
codes_before_chain (a ∷ s) (b ∷ t) (c ∷ u) h k = ground (arith, h, k, codes_before_chain s t u)

pub path_before_self : (a : String) → path_before a a ≡ false
path_before_self a = codes_before_self (codes a)

pub path_before_chain :
    (a b c : String) → path_before a b ≡ true → path_before b c ≡ true → path_before a c ≡ true
path_before_chain a b c = codes_before_chain (codes a) (codes b) (codes c)

codes_equal_texts : (a b : String) → codes a ≡ codes b → a ≡ b
codes_equal_texts String.[] String.[] h = refl
codes_equal_texts String.[] (String.◌∷◌ d t) h = cc
codes_equal_texts (String.◌∷◌ c s) String.[] h = cc
codes_equal_texts (String.◌∷◌ c s) (String.◌∷◌ d t) h =
    ap₂ String.◌∷◌ (same_character c d (first h)) (codes_equal_texts s t (rest h))
  where
    first : {a b : ℕ} {x y : List ℕ} → a ∷ x ≡ b ∷ y → a ≡ b
    first q = cc

    rest : {a b : ℕ} {x y : List ℕ} → a ∷ x ≡ b ∷ y → x ≡ y
    rest q = cc

    same_character : (c d : Char) → code c ≡ code d → c ≡ d
    same_character c d q =
        codes_equal c d (ap (λ n. compare_ℕ n (code d)) q ∙ compare_self (code d))

codes_before_either : (s t : List ℕ) → codes_before s t ≡ false → codes_before t s ≡ false → s ≡ t
unfolding codes_before
codes_before_either [] [] h k = refl
codes_before_either [] (b ∷ t) h k = cc
codes_before_either (a ∷ s) [] h k = cc
codes_before_either (a ∷ s) (b ∷ t) h k = elim (Bool-cases (a == b)) [
  | inl same ↦
      let eq = (nat_Eq.eqb_iff a b).0 same in
      ap₂ ◌∷◌ eq
        (codes_before_either s t (rw same at h) (rw ((nat_Eq.eqb_iff b a).1 (sym eq)) at k))
  | inr differ ↦ absurd (ground (arith, h, k, differ))
]

-- Of two paths that differ one is before the other.
pub path_before_either : (a b : String) → path_before a b ≡ false → path_before b a ≡ false → a ≡ b
path_before_either a b h k = codes_equal_texts a b (codes_before_either (codes a) (codes b) h k)
