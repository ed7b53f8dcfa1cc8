-- ===== src/Deployment/Sorting.antt =====
-- Sorting a list by a strict order; where all members differ, every order of them gives the same list.
use mathlib.Core.Bool.{false≢true}
use mathlib.Core.Path.{ap₂}
use mathlib.Core.List.{Permᴰ}
use agent_remote_node.Prelude.{
  Bool, true, false, List, [], ◌∷◌, ◌≡◌, refl, sym, ap, ◌∙◌, if◌then◌else◌, Bool-cases, inl, inr,
  ◌⊎◌, All, subst,
}

module _ {A : Type 0} (before : A → A → Bool) where
  unfoldable pub insert : A → List A → List A
  insert x [] = x ∷ []
  insert x (y ∷ l) = let rest = insert x l in if before x y then x ∷ (y ∷ l) else y ∷ rest

  -- `slices.SortFunc`
  unfoldable pub sort : List A → List A
  unfolding insert
  sort [] = []
  sort (x ∷ l) = insert x (sort l)

module _ {A : Type 0} (before : A → A → Bool) (never : (x : A) → before x x ≡ false)
    (chain : (x y z : A) → before x y ≡ true → before y z ≡ true → before x z ≡ true) where
  unlike : (x y : A) → before x y ≡ true → before y x ≡ false
  unlike x y h = elim (Bool-cases (before y x)) [
    | inr apart ↦ apart
    | inl back ↦ absurd (false≢true (sym (never x) ∙ chain x y x h back))
  ]

  insert_before :
      (x y : A) (l : List A)
      → before x y ≡ true
      → insert before x (insert before y l) ≡ insert before y (insert before x l)
  unfolding insert
  insert_before x y [] h = rw (h, unlike x y h) refl
  insert_before x y (z ∷ l) h = elim (Bool-cases (before y z)) [
    | inl first ↦ let xz = chain x y z h first in rw (first, h, xz) (rw (unlike x y h, first) refl)
    | inr after ↦ elim (Bool-cases (before x z)) [
      | inl between ↦ rw (after, between) (rw (unlike x y h, after) refl)
      | inr last ↦ rw (after, last) (rw after (ap (λ r. z ∷ r) (insert_before x y l h)))
    ]
  ]

  -- One of the two is first.
  insert_either :
      (x y : A) (l : List A)
      → (before x y ≡ true) ⊎ (before y x ≡ true)
      → insert before x (insert before y l) ≡ insert before y (insert before x l)
  insert_either x y l (inl h) = insert_before x y l h
  insert_either x y l (inr h) = sym (insert_before y x l h)

-- All members differ.
module _ {A : Type 0} (Differ : A → A → Type 0) where
  abbrev pub IsDistinct : List A → Type 0
  IsDistinct [] = Unit {0}
  IsDistinct (x ∷ l) = All (Differ x) l × IsDistinct l

  pub perm-All : (P : A → Type 0) {l m : List A} → Permᴰ l m → All P l → All P m
  perm-All P Permᴰ.nil h = tt
  perm-All P (Permᴰ.cons same p) (first, h) = (subst P same first, perm-All P p h)
  perm-All P (Permᴰ.swap a b) (first, (second, h)) = (subst P b second, (subst P a first, h))
  perm-All P (Permᴰ.trans p q) h = perm-All P q (perm-All P p h)

  module _ (other : (x y : A) → Differ x y → Differ y x) where
    All-subst : {x y : A} (l : List A) → x ≡ y → All (Differ x) l → All (Differ y) l
    All-subst l same h = subst (λ z. All (Differ z) l) same h

    pub perm-IsDistinct : {l m : List A} → Permᴰ l m → IsDistinct l → IsDistinct m
    perm-IsDistinct Permᴰ.nil h = tt
    perm-IsDistinct (Permᴰ.cons {l₂ = l₂} same p) (first, h) =
        (All-subst l₂ same (perm-All (Differ _) p first), perm-IsDistinct p h)
    perm-IsDistinct (Permᴰ.swap {a = x} {b = y} {b' = w} {l = l} a b)
          ((apart, first), (second, h)) =
        (
          (subst (λ z. Differ z w) b (subst (Differ y) a (other x y apart)), All-subst l b second),
          (All-subst l a first, h),
        )
    perm-IsDistinct (Permᴰ.trans p q) h = perm-IsDistinct q (perm-IsDistinct p h)

    module _ (before : A → A → Bool) (never : (x : A) → before x x ≡ false)
        (chain : (x y z : A) → before x y ≡ true → before y z ≡ true → before x z ≡ true)
        (either : (x y : A) → Differ x y → (before x y ≡ true) ⊎ (before y x ≡ true)) where
      -- Lists that differ only in their order are sorted to the same list.
      pub sort-perm : {l m : List A} → Permᴰ l m → IsDistinct l → sort before l ≡ sort before m
      unfolding sort
      sort-perm Permᴰ.nil h = refl
      sort-perm (Permᴰ.cons same p) (first, h) = ap₂ (insert before) same (sort-perm p h)
      sort-perm (Permᴰ.swap {a = x} {b = y} {l = l} a b) ((apart, first), (second, h)) =
          insert_either before never chain x y (sort before l) (either x y apart)
          ∙ ap₂ (λ u v. insert before u (insert before v (sort before l))) b a
      sort-perm (Permᴰ.trans p q) h = sort-perm p h ∙ sort-perm q (perm-IsDistinct p h)
