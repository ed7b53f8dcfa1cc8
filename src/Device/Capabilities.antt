-- ===== src/Device/Capabilities.antt =====
-- internal/devicecontrol/activation.go: the authorization modes and the capability sets that go with
-- them.
use agent_remote_node.Prelude.{
  String, Bool, true, false, ◌&&◌, ◌||◌, List, [], ◌∷◌, ◌==◌, string_Eq, int_Eq, ℤ, pos, ◌≡◌, arith,
  if◌then◌else◌, refl, Bool-cases, inl, inr,
}

abbrev pub per_application_approval : String
per_application_approval = "per_application_approval"

abbrev pub session_full_trust : String
session_full_trust = "session_full_trust"

-- `requiredCapabilitiesV2`
abbrev pub required_capabilities : List String
required_capabilities = "adaptive_settle_v2" ∷ ("ax_state_v2" ∷ ("observation_mode_v2" ∷ []))

-- `legacyCapabilitiesV2`
abbrev pub legacy_capabilities : List String
legacy_capabilities =
    "adaptive_settle_v2" ∷ ("ax_state_v2" ∷ ("clipboard_payload_v2" ∷ ("observation_mode_v2" ∷ [])))

-- `capabilitiesV2`
abbrev pub capabilities_v2 : List String
capabilities_v2 =
    "adaptive_settle_v2"
    ∷ ("application_launch_v1"
        ∷ ("ax_state_v2"
            ∷ ("clipboard_payload_v2"
                ∷ ("global_clipboard_v1"
                    ∷ ("observation_mode_v2" ∷ ("session_full_trust_v1" ∷ []))))))

-- `slices.Equal`
abbrev pub same_texts : List String → List String → Bool
same_texts [] [] = true
same_texts (x ∷ xs) (y ∷ ys) = (x == y) && same_texts xs ys
same_texts _ _ = false

abbrev pub is_empty : List String → Bool
is_empty [] = true
is_empty (_ ∷ _) = false

-- `ValidCapabilities`
unfoldable pub valid_capabilities : List String → Bool
valid_capabilities c =
    is_empty c
    || (same_texts c required_capabilities
        || (same_texts c legacy_capabilities || same_texts c capabilities_v2))

-- `ValidCapabilitiesForAuthorization`
unfoldable pub valid_capabilities_for : String → ℤ → List String → Bool
valid_capabilities_for mode version c =
    if version == pos 1
    then if mode == per_application_approval
      then is_empty c || (same_texts c required_capabilities || same_texts c legacy_capabilities)
      else if mode == session_full_trust
      then same_texts c capabilities_v2
      else false
    else false

-- The pair of mode and policy version that a payload carries.
pub record Authorization : Type 0 where
  pub mode : String
  pub policy_version : ℤ

-- `normalizeAndValidateAuthorization`, with the pair that it leaves and its answer.
unfoldable pub normalize : Bool → Authorization → Authorization
normalize allow_omission a =
    if allow_omission && ((a.mode == "") && (a.policy_version == pos 0))
    then record { mode = per_application_approval; policy_version = pos 1 }
    else a

unfoldable pub is_valid_authorization : Authorization → Bool
is_valid_authorization a =
    ((a.mode == per_application_approval) || (a.mode == session_full_trust))
    && (a.policy_version == pos 1)

-- A capability set is accepted with no authorization in view exactly where one of the two modes of
-- policy version 1 accepts it.
pub valid_capabilities-for :
    (c : List String)
    → valid_capabilities c ≡ (
        valid_capabilities_for per_application_approval (pos 1) c
        || valid_capabilities_for session_full_trust (pos 1) c)
unfolding valid_capabilities valid_capabilities_for
valid_capabilities-for c =
    regroup (is_empty c) (same_texts c required_capabilities) (same_texts c legacy_capabilities)
      (same_texts c capabilities_v2)
  where
    regroup : (w x y z : Bool) → (w || (x || (y || z))) ≡ ((w || (x || y)) || z)
    regroup w x y z = ground arith

not_both : (b : String) → ((b == "ax_state_v2") && (b == "application_launch_v1")) ≡ false
not_both b = elim (Bool-cases (b == "ax_state_v2")) [
  | inl h ↦ rw ((string_Eq.eqb_iff b "ax_state_v2").0 h) refl
  | inr h ↦ rw h refl
]

-- The modes keep the sets apart: no set is accepted by both, so that a full-trust set never passes
-- where each application is approved.
pub modes_apart :
    (c : List String)
    → (valid_capabilities_for per_application_approval (pos 1) c
        && valid_capabilities_for session_full_trust (pos 1) c)
      ≡ false
unfolding valid_capabilities_for
modes_apart [] = refl
modes_apart (a ∷ []) = ground arith
modes_apart (a ∷ (b ∷ c)) = ground (arith, not_both b)

-- What `normalizeAndValidateAuthorization` leaves is a fixed point of it, and a pair that it accepts
-- is one of the two modes at version 1.
pub normalize_idem : (b : Bool) (a : Authorization) → normalize b (normalize b a) ≡ normalize b a
unfolding normalize
normalize_idem b a = ground arith
