-- ===== src/Device/Trust.antt =====
-- internal/devicecontrol/activation.go: what an accepted context payload is bound to.
use Prim.Native.Nat.{ℕ, ◌+◌, ◌≤◌, ◌<◌}
use agent_remote_node.Prelude.{
  String, true, false, not, ◌&&◌, ◌||◌, Option, none, some, List, Outcome, ok, err, ◌==◌, string_Eq,
  int_Eq, pos, ◌≡◌, ◌↔◌, refl, sym, ap, ◌∙◌, ◌≢◌, ℤ, subst, arith, then_ok, passed, unnot, or_right,
  unrefused, leb, ltb, Bool-cases, inl, inr, all, [], ◌∷◌,
}
use mathlib.Core.Path.{ap₂}
use mathlib.Core.Bool.{false≢true}
use agent_remote_node.Device.Capabilities.{
  per_application_approval, session_full_trust, capabilities_v2, same_texts, valid_capabilities_for,
  is_valid_authorization,
}
use agent_remote_node.Device.Payload.{
  ContextPayload, DeviceError, bad_authorization, bad_uuid, wrong_node, bad_platform,
  bad_capabilities, bad_lease, strictly, decode_context, check_context, normalize_context,
  is_short_lease, bad_active_generation, max_active_generation, is_canonical_uuid,
}

-- What is known of a context that has been accepted at the instant `now` on the node `node`.
pub record Bound (parse_time : String → Option ℕ) (node : String) (now : ℕ) (p : ContextPayload)
    : Type 0 where
  pub full_trust : (p.authorization_mode ≡ session_full_trust) ↔ (p.capabilities ≡ capabilities_v2)
  pub positive : 0 < p.generation
  pub active : p.generation ≤ max_active_generation
  pub here : (not (node == "") && not (p.node_id == node)) ≡ false
  pub ends : ℕ
  pub parsed : parse_time p.lease_until ≡ some ends
  pub future : now < ends
  pub short : ends ≤ now + 330000000000

same_texts_sound : (xs ys : List String) → same_texts xs ys ≡ true → xs ≡ ys
same_texts_sound [] [] h = refl
same_texts_sound [] (y ∷ ys) h = cc
same_texts_sound (x ∷ xs) [] h = cc
same_texts_sound (x ∷ xs) (y ∷ ys) h =
    ap₂ ◌∷◌ ((string_Eq.eqb_iff x y).0 (ground (arith, h)))
      (same_texts_sound xs ys (ground (arith, h)))

-- The modes, one after the other: the version is 1 and the mode one of the two.
mode_trust :
    (mode : String) (version : ℤ) (c : List String)
    → valid_capabilities_for mode version c ≡ true
    → (mode ≡ session_full_trust) ↔ (c ≡ capabilities_v2)
unfolding valid_capabilities_for
mode_trust mode version c h = elim (Bool-cases (version == pos 1)) [
  | inr other ↦ absurd (ground (arith, h, other))
  | inl one ↦ elim (Bool-cases (mode == per_application_approval)) [
    | inl each ↦
        let eq = (string_Eq.eqb_iff mode per_application_approval).0 each in
        (
          λ full. absurd (literals (sym eq ∙ full)),
          λ sets. absurd (
              apart (
                ap (valid_capabilities_for per_application_approval (pos 1)) (sym sets)
                ∙ ap (λ m. valid_capabilities_for m (pos 1) c) (sym eq)
                ∙ ap (λ v. valid_capabilities_for mode v c)
                    (sym ((int_Eq.eqb_iff version (pos 1)).0 one))
                ∙ h)),
        )
    | inr not_each ↦ elim (Bool-cases (mode == session_full_trust)) [
      | inl full ↦ (
        λ _. same_texts_sound c capabilities_v2 (ground (arith, h, one, not_each, full)),
        λ _. (string_Eq.eqb_iff mode session_full_trust).0 full,
      )
      | inr neither ↦ absurd (ground (arith, h, one, not_each, neither))
    ]
  ]
]
  where
    literals : per_application_approval ≢ session_full_trust
    literals e = false≢true ((string_Eq.eqb_iff per_application_approval session_full_trust).1 e)

    apart : valid_capabilities_for per_application_approval (pos 1) capabilities_v2 ≢ true
    apart e = false≢true e

short_lease :
    (parse_time : String → Option ℕ) (now : ℕ) (s : String)
    → is_short_lease parse_time now s ≡ true
    → (t : ℕ) × (parse_time s ≡ some t) × (now < t) × (t ≤ now + 330000000000)
unfolding is_short_lease
short_lease parse_time now s h = parsed (parse_time s) refl h
  where
    parsed :
        (o : Option ℕ)
        → parse_time s ≡ o
        → (elim o [ none ↦ false | some t ↦ ltb now t && leb t (now + 330000000000) ]) ≡ true
        → (t : ℕ) × (parse_time s ≡ some t) × (now < t) × (t ≤ now + 330000000000)
    parsed none e k = cc
    parsed (some t) e k = (t, e, ground (arith, k), ground (arith, k))

active_range : (g : ℕ) → bad_active_generation g ≡ false → (0 < g) × (g ≤ max_active_generation)
active_range g h = (ground (arith, h), ground (arith, h))

module _ (parse_time : String → Option ℕ) (node : String) (now : ℕ) where
  check_context-Bound :
      (p : ContextPayload)
      → check_context parse_time node now p ≡ ok tt
      → Bound parse_time node now p
  unfolding check_context
  check_context-Bound p h =
      let (valid, r1) =
        passed
          (not (
            is_valid_authorization (record {
              mode = p.authorization_mode;
              policy_version = p.authorization_policy_version;
            })))
          bad_authorization _ h in
      let (identities, r2) =
        passed
          (not (
            all is_canonical_uuid
              (p.user_id ∷ p.device_id ∷ p.tool_session_id ∷ p.device_session_id ∷ p.node_id ∷ [])))
          bad_uuid _ r1 in
      let (node_fits, r3) = passed (not (node == "") && not (p.node_id == node)) wrong_node _ r2 in
      let (generation, r4) =
        passed (not (p.platform == "macos") || bad_active_generation p.generation) bad_platform _
          r3 in
      let (sets, r5) =
        passed
          (not (
            valid_capabilities_for p.authorization_mode p.authorization_policy_version
              p.capabilities))
          bad_capabilities _ r4 in
      let range = active_range p.generation (or_right _ _ generation) in
      let late = unrefused (not (is_short_lease parse_time now p.lease_until)) bad_lease r5 in
      let lease = short_lease parse_time now p.lease_until (unnot _ late) in
      record {
        full_trust =
            mode_trust p.authorization_mode p.authorization_policy_version p.capabilities
              (unnot _ sets);
        positive = range.0;
        active = range.1;
        here = node_fits;
        ends = lease.0;
        parsed = lease.1;
        future = lease.2;
        short = lease.3;
      }

  accepted :
      (payload : Option ContextPayload) (p : ContextPayload)
      → decode_context parse_time payload node now ≡ ok p
      → Bound parse_time node now p
  unfolding decode_context strictly
  accepted none p h = cc
  accepted (some q) p h =
      let (version, rest) = then_ok _ _ h in
      let (checks, result) = then_ok _ _ rest in
      subst (Bound parse_time node now) (ap value result)
        (check_context-Bound (normalize_context q) checks)
    where
      value : Outcome DeviceError ContextPayload → ContextPayload
      value (ok x) = x
      value (err x) = p

  -- A context payload that is accepted carries the complete capability set exactly where it carries
  -- full trust; its generation is an active one; it is for this node where the node is given; and
  -- its lease ends after `now`, five and a half minutes later at most.
  pub decode_context-Bound :
      (payload : Option ContextPayload) (p : ContextPayload)
      → decode_context parse_time payload node now ≡ ok p
      → Bound parse_time node now p
  decode_context-Bound payload p h = accepted payload p h
