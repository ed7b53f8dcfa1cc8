-- ===== src/Deployment/Accepted.antt =====
-- internal/skillmanager/deployment_plan.go: which sources a plan may have, whatever their order.
use mathlib.Core.List.{Permᴰ}
use agent_remote_node.Prelude.{
  Bool, true, false, ◌&&◌, ◌||◌, List, [], ◌∷◌, ◌≡◌, refl, sym, ap, ◌∙◌, ◌==◌, string_Eq, ◌↔◌,
  int_Eq, Outcome, ok, err, inl, inr, arith, All, contains, or_left, or_right, ◌>>=◌, passed,
  then_ok, Bool-cases, if◌then◌else◌, String,
}
use agent_remote_node.Deployment.Sorting.{IsDistinct, perm-All, perm-IsDistinct}
use agent_remote_node.Deployment.Sources.{
  SkillDeploymentSource, PlanError, bad_source, identity, Seen, is_ill_formed, check_origin,
  check_source, check_sources, seen_with,
}

abbrev Source : Type 0
Source = SkillDeploymentSource

-- The source is well formed, with an epoch where its origin demands one.
abbrev IsFine : Source → Type 0
IsFine s = (is_ill_formed s ≡ false) × (check_origin s ≡ ok tt)

-- Its identity, and its name where it is enabled, are not in the sets.
abbrev IsUnseen : Seen → Source → Type 0
IsUnseen seen s =
    (contains (identity s) seen.identities ≡ false)
    × ((s.enabled && contains s.name seen.names) ≡ false)

-- The two differ in their identity and, where both are enabled, in their name.
abbrev pub Apart : Source → Source → Type 0
Apart a b =
    ((identity a == identity b) ≡ false)
    × ((a.enabled && (b.enabled && (a.name == b.name))) ≡ false)

same_text : (a b : String) → (a == b) ≡ false → (b == a) ≡ false
same_text a b h = elim (Bool-cases (b == a)) [
  | inr apart ↦ apart
  | inl same ↦
      absurd (ground (arith, h, (string_Eq.eqb_iff a b).1 (sym ((string_Eq.eqb_iff b a).0 same))))
]

pub Apart-other : (a b : Source) → Apart a b → Apart b a
Apart-other a b (ids, names) = (
  same_text (identity a) (identity b) ids,
  turned a.enabled b.enabled (a.name == b.name) (b.name == a.name) (same_text a.name b.name) names,
)
  where
    turned :
        (x y p q : Bool)
        → (p ≡ false → q ≡ false)
        → (x && (y && p)) ≡ false
        → (y && (x && q)) ≡ false
    turned true true p q f h = f h
    turned true false p q f h = refl
    turned false true p q f h = refl
    turned false false p q f h = refl

-- After a source, what is unseen was unseen and is apart from it.
IsUnseen-split :
    (s x : Source) (seen : Seen) → IsUnseen (seen_with s seen) x → IsUnseen seen x × Apart s x
IsUnseen-split s x seen (ids, names) =
    let (free, apart) = split s.enabled x.enabled names in
    (
      (or_right (identity s == identity x) _ ids, free),
      (or_left _ (contains (identity x) seen.identities) ids, apart),
    )
  where
    split :
        (e f : Bool)
        → (f && contains x.name (if e then s.name ∷ seen.names else seen.names)) ≡ false
        → ((f && contains x.name seen.names) ≡ false) × ((e && (f && (s.name == x.name))) ≡ false)
    split true true h = (or_right (s.name == x.name) _ h, or_left _ (contains x.name seen.names) h)
    split true false h = (refl, refl)
    split false f h = (h, refl)

IsUnseen-join :
    (s x : Source) (seen : Seen) → IsUnseen seen x → Apart s x → IsUnseen (seen_with s seen) x
IsUnseen-join s x seen (ids, names) (other, apart) =
    (neither _ _ other ids, join s.enabled x.enabled names apart)
  where
    neither : (p q : Bool) → p ≡ false → q ≡ false → (p || q) ≡ false
    neither p q h k = ground (arith, h, k)

    join :
        (e f : Bool)
        → (f && contains x.name seen.names) ≡ false
        → (e && (f && (s.name == x.name))) ≡ false
        → (f && contains x.name (if e then s.name ∷ seen.names else seen.names)) ≡ false
    join true true h k = neither _ _ k h
    join true false h k = refl
    join false f h k = h

All-split :
    (s : Source) (seen : Seen) (xs : List Source)
    → All (IsUnseen (seen_with s seen)) xs
    → All (IsUnseen seen) xs × All (Apart s) xs
All-split s seen [] h = (tt, tt)
All-split s seen (x ∷ xs) (first, rest) =
    let (free, apart) = IsUnseen-split s x seen first in
    let (frees, aparts) = All-split s seen xs rest in ((free, frees), (apart, aparts))

All-join :
    (s : Source) (seen : Seen) (xs : List Source)
    → All (IsUnseen seen) xs
    → All (Apart s) xs
    → All (IsUnseen (seen_with s seen)) xs
All-join s seen [] h k = tt
All-join s seen (x ∷ xs) (free, frees) (apart, aparts) =
    (IsUnseen-join s x seen free apart, All-join s seen xs frees aparts)

check_source_passed :
    (s : Source) (seen next : Seen)
    → check_source s seen ≡ ok next
    → IsFine s × IsUnseen seen s × (seen_with s seen ≡ next)
unfolding check_source
check_source_passed s seen next h =
    let (fine, rest) =
      passed
        (is_ill_formed s
          || (contains (identity s) seen.identities || (s.enabled && contains s.name seen.names)))
        bad_source _ h in
    let (origin, end) = then_ok (check_origin s) _ rest in
    let unseen = or_right (is_ill_formed s) _ fine in
    (
      (or_left _ _ fine, origin),
      (or_left _ _ unseen, or_right (contains (identity s) seen.identities) _ unseen),
      same end,
    )
  where
    same : {x y : Seen} → ◌≡◌ {A = Outcome PlanError Seen} (ok x) (ok y) → x ≡ y
    same q = cc

check_source_passes :
    (s : Source) (seen : Seen)
    → IsFine s
    → IsUnseen seen s
    → check_source s seen ≡ ok (seen_with s seen)
unfolding check_source
check_source_passes s seen (formed, origin) (ids, names) = rw (formed, origin, ids, names) refl

pub bind_ok :
    {A B : Type 0} (first : Outcome PlanError A) (rest : A → Outcome PlanError B) {b : B}
    → (first >>= rest) ≡ ok b
    → (a : A) × (first ≡ ok a) × (rest a ≡ ok b)
bind_ok (err problem) rest h = cc
bind_ok (ok a) rest h = (a, refl, h)

check_sources_passed :
    (xs : List Source) (seen last : Seen)
    → check_sources xs seen ≡ ok last
    → All IsFine xs × All (IsUnseen seen) xs × IsDistinct Apart xs
unfolding check_sources
check_sources_passed [] seen last h = (tt, tt, tt)
check_sources_passed (s ∷ rest) seen last h =
    let (next, first, others) = bind_ok (check_source s seen) (check_sources rest) h in
    let (fine, unseen, same) = check_source_passed s seen next first in
    let (fines, unseens, distinct) =
      check_sources_passed rest (seen_with s seen) last (ap (check_sources rest) same ∙ others) in
    let (frees, aparts) = All-split s seen rest unseens in
    ((fine, fines), (unseen, frees), (aparts, distinct))

check_sources_passes :
    (xs : List Source) (seen : Seen)
    → All IsFine xs
    → All (IsUnseen seen) xs
    → IsDistinct Apart xs
    → (last : Seen) × (check_sources xs seen ≡ ok last)
unfolding check_sources
check_sources_passes [] seen _ _ _ = (seen, refl)
check_sources_passes (s ∷ rest) seen (fine, fines) (unseen, unseens) (aparts, distinct) =
    let (last, h) =
      check_sources_passes rest (seen_with s seen) fines (All-join s seen rest unseens aparts)
        distinct in
    (last, ap (λ o. o >>= check_sources rest) (check_source_passes s seen fine unseen) ∙ h)

abbrev pub unseen_yet : Seen
unseen_yet = record { identities = []; names = [] }

All-IsUnseen : (xs : List Source) → All (IsUnseen unseen_yet) xs
All-IsUnseen [] = tt
All-IsUnseen (x ∷ xs) = ((refl, no_names x.enabled), All-IsUnseen xs)
  where
    no_names : (e : Bool) → (e && false) ≡ false
    no_names true = refl
    no_names false = refl

-- The sources of a plan that is accepted are fine, and apart from each other.
abbrev pub AreSources : List Source → Type 0
AreSources xs = All IsFine xs × IsDistinct Apart xs

pub AreSources-perm : {xs ys : List Source} → Permᴰ xs ys → AreSources xs → AreSources ys
AreSources-perm perm (fine, distinct) =
    (perm-All Apart IsFine perm fine, perm-IsDistinct Apart Apart-other perm distinct)

pub check_sources_iff :
    (xs : List Source) → AreSources xs ↔ ((last : Seen) × (check_sources xs unseen_yet ≡ ok last))
check_sources_iff xs = (
  λ (fine, distinct). check_sources_passes xs unseen_yet fine (All-IsUnseen xs) distinct,
  λ (last, h).
      let (fine, _, distinct) = check_sources_passed xs unseen_yet last h in (fine, distinct),
)
