-- ===== src/Deployment/Digest.antt =====
-- internal/skillmanager/deployment_plan.go: the digest of a plan does not depend on the order of its
-- sources.
use mathlib.Core.Path.{ap₂}
use mathlib.Core.Bool.{false≢true}
use mathlib.Core.List.{Permᴰ}
use Prim.Native.String.{◌++◌}
use agent_remote_node.Prelude.{
  Bool, true, false, not, ◌&&◌, ◌||◌, some, List, [], ◌∷◌, ◌≡◌, refl, sym, ap, ◌∙◌, ◌==◌, string_Eq,
  int_Eq, ok, inl, inr, ◌⊎◌, arith, or_left, or_right, and_left, and_right, ◌>>◌, passed,
  Bool-cases, pos, ltz, all,
}
use agent_remote_node.Finalization.Identity.{valid_skill_uuid}
use agent_remote_node.Skill.Paths.{path_before}
use agent_remote_node.Skill.Order.{path_before_self, path_before_chain, path_before_either}
use agent_remote_node.Deployment.Accepted.{
  Apart, Apart-other, AreSources, AreSources-perm, bind_ok, check_sources_iff, unseen_yet,
}
use agent_remote_node.Deployment.Sorting.{sort, sort-perm}
use agent_remote_node.Deployment.Sources.{
  SkillDeploymentSource, SkillDeploymentPlan, bad_metadata, bad_owner, identity, check_sources,
  validate_plan, source_before, Encoding, json_digest, plan_digest,
}

before_self : (a : SkillDeploymentSource) → source_before a a ≡ false
before_self a = ground (arith, path_before_self a.origin, path_before_self a.source_id)

-- Before by the origin, or by the identifier where the origin is the same.
abbrev Earlier : SkillDeploymentSource → SkillDeploymentSource → Type 0
Earlier a b =
    (path_before a.origin b.origin ≡ true)
    ⊎ ((a.origin ≡ b.origin) × (path_before a.source_id b.source_id ≡ true))

before-Earlier : (a b : SkillDeploymentSource) → source_before a b ≡ true → Earlier a b
before-Earlier a b h = elim (Bool-cases (path_before a.origin b.origin)) [
  | inl first ↦ inl first
  | inr later ↦
      let rest = second (path_before a.origin b.origin) _ later h in
      inr (
        (string_Eq.eqb_iff a.origin b.origin).0 (and_left _ _ rest),
        and_right (a.origin == b.origin) _ rest,
      )
]
  where
    second : (x y : Bool) → x ≡ false → (x || y) ≡ true → y ≡ true
    second x y p q = ground (arith, p, q)

Earlier-before : (a b : SkillDeploymentSource) → Earlier a b → source_before a b ≡ true
Earlier-before a b (inl first) =
    ap (λ t. t || ((a.origin == b.origin) && path_before a.source_id b.source_id)) first
Earlier-before a b (inr (same, first)) =
    both (path_before a.origin b.origin) (a.origin == b.origin)
      (path_before a.source_id b.source_id) ((string_Eq.eqb_iff a.origin b.origin).1 same) first
  where
    both : (x y z : Bool) → y ≡ true → z ≡ true → (x || (y && z)) ≡ true
    both x y z p q = ground (arith, p, q)

Earlier-chain : (a b c : SkillDeploymentSource) → Earlier a b → Earlier b c → Earlier a c
Earlier-chain a b c (inl h) (inl k) = inl (path_before_chain a.origin b.origin c.origin h k)
Earlier-chain a b c (inl h) (inr (same, k)) = inl (ap (path_before a.origin) (sym same) ∙ h)
Earlier-chain a b c (inr (same, h)) (inl k) = inl (ap (λ o. path_before o c.origin) same ∙ k)
Earlier-chain a b c (inr (same, h)) (inr (again, k)) =
    inr (same ∙ again, path_before_chain a.source_id b.source_id c.source_id h k)

before_chain :
    (a b c : SkillDeploymentSource)
    → source_before a b ≡ true
    → source_before b c ≡ true
    → source_before a c ≡ true
before_chain a b c h k =
    Earlier-before a c (Earlier-chain a b c (before-Earlier a b h) (before-Earlier b c k))

-- Sources of which neither is before the other have one identity.
tied_identity :
    (a b : SkillDeploymentSource)
    → source_before a b ≡ false
    → source_before b a ≡ false
    → identity a ≡ identity b
tied_identity a b h k =
    let origins = path_before_either a.origin b.origin (or_left _ _ h) (or_left _ _ k) in
    let forth =
      and_false ((string_Eq.eqb_iff a.origin b.origin).1 origins)
        (or_right (path_before a.origin b.origin) _ h) in
    let back =
      and_false ((string_Eq.eqb_iff b.origin a.origin).1 (sym origins))
        (or_right (path_before b.origin a.origin) _ k) in
    ap₂ (λ o i. o ++ (":" ++ i)) origins (path_before_either a.source_id b.source_id forth back)
  where
    and_false : {x y : Bool} → x ≡ true → (x && y) ≡ false → y ≡ false
    and_false {x} {y} p q = ground (arith, p, q)

before_either :
    (a b : SkillDeploymentSource)
    → Apart a b
    → (source_before a b ≡ true) ⊎ (source_before b a ≡ true)
before_either a b (h, _) = elim (Bool-cases (source_before a b)) [
  | inl first ↦ inl first
  | inr later ↦ elim (Bool-cases (source_before b a)) [
    | inl first ↦ inr first
    | inr tied ↦ absurd (
        false≢true
          (sym h ∙ (string_Eq.eqb_iff (identity a) (identity b)).1 (tied_identity a b later tied)))
  ]
]

abbrev with_list : SkillDeploymentPlan → List SkillDeploymentSource → SkillDeploymentPlan
with_list p l = record p { sources = some l }

module _ (p : SkillDeploymentPlan) (xs ys : List SkillDeploymentSource) where
  -- What the two checks before the loop refuse does not depend on the sources.
  reordered :
      validate_plan (with_list p xs) ≡ ok tt
      → AreSources xs × (AreSources ys → validate_plan (with_list p ys) ≡ ok tt)
  unfolding validate_plan
  reordered h =
      let (fine, rest) =
        passed
          (not (p.version == pos 1)
            || (ltz p.generation (pos 0)
                || (not (p.tool_type == "claude")
                    || (not (p.runtime_backend == "native") || false))))
          bad_metadata _ h in
      let (owned, loop) =
        passed
          (not (
            all valid_skill_uuid
              (p.user_id ∷ (p.operation_id ∷ (p.account_id ∷ (p.node_id ∷ []))))))
          bad_owner _ rest in
      let (seen, checked, _) = bind_ok (check_sources xs unseen_yet) (λ _. ok tt) loop in
      (
        (check_sources_iff xs).1 (seen, checked),
        λ sources.
            let (last, again) = (check_sources_iff ys).0 sources in rw (fine, owned, again) refl,
      )

  -- A plan that is accepted is accepted with its sources in any other order too, and has the same
  -- digest then, whatever the encoding and the hash do.
  pub plan_digest-perm :
      (c : Encoding)
      → Permᴰ xs ys
      → validate_plan (with_list p xs) ≡ ok tt
      → (validate_plan (with_list p ys) ≡ ok tt)
        × (plan_digest c (with_list p xs) ≡ plan_digest c (with_list p ys))
  unfolding plan_digest
  plan_digest-perm c perm first =
      let (sources, accepts) = reordered first in
      let second = accepts (AreSources-perm perm sources) in
      let sorted =
        sort-perm Apart Apart-other source_before before_self before_chain before_either perm
          sources.1 in
      (
        second,
        ap (λ v. v >> json_digest c (with_list p (sort source_before xs))) (first ∙ sym second)
            ∙ ap (λ s. validate_plan (with_list p ys) >> json_digest c (with_list p s)) sorted,
      )
