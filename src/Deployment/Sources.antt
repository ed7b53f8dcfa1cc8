-- ===== src/Deployment/Sources.antt =====
-- internal/skillmanager/deployment_plan.go: the sources of a deployment plan, its checks and its digest.
use Prim.Native.String.{◌++◌}
use agent_remote_node.Prelude.{
  String, Bool, true, not, ◌&&◌, ◌||◌, Option, none, some, List, [], ◌∷◌, ◌==◌, string_Eq, int_Eq,
  if◌then◌else◌, Outcome, ok, err, refuse_if, ◌>>=◌, ◌>>◌, ℤ, pos, ltz, all, contains, is_some,
  starts_then, is_lower, is_digit, nat_Eq,
}
use agent_remote_node.Finalization.Identity.{valid_skill_uuid, is_content_digest}
use agent_remote_node.Skill.Paths.{path_before}
use agent_remote_node.Deployment.Sorting.{sort}

pub data PlanError : Type 0 where
  bad_metadata bad_owner bad_source no_epoch local_epoch bad_origin no_json : PlanError

-- `SkillDeploymentSource`
pub record SkillDeploymentSource : Type 0 where
  pub origin : String
  pub source_id : String
  pub revision_id : String
  pub content_digest : String
  pub name : String
  pub enabled : Bool
  pub installation_epoch : Option ℤ

-- `SkillDeploymentPlan`; `none` is the slice `nil`.
pub record SkillDeploymentPlan : Type 0 where
  pub version : ℤ
  pub user_id : String
  pub operation_id : String
  pub generation : ℤ
  pub account_id : String
  pub node_id : String
  pub tool_type : String
  pub runtime_backend : String
  pub sources : Option (List SkillDeploymentSource)

-- `snapshotSkillName`
abbrev is_skill_name : String → Bool
is_skill_name =
    starts_then (λ c. is_lower c || is_digit c) (λ c. is_lower c || (is_digit c || (c == b'-'))) 63

abbrev pub identity : SkillDeploymentSource → String
identity s = s.origin ++ (":" ++ s.source_id)

-- The sets `identities` and `names`.
pub record Seen : Type 0 where
  pub identities : List String
  pub names : List String

abbrev bad_epoch : Option ℤ → Bool
bad_epoch none = true
bad_epoch (some epoch) = ltz epoch (pos 1)

unfoldable pub check_origin : SkillDeploymentSource → Outcome PlanError (Unit {0})
check_origin s =
    if s.origin == "library"
    then refuse_if (bad_epoch s.installation_epoch) no_epoch
    else if s.origin == "account_local"
    then refuse_if (is_some s.installation_epoch) local_epoch
    else err bad_origin

-- The test of a source but for the sets.
unfoldable pub is_ill_formed : SkillDeploymentSource → Bool
is_ill_formed s =
    not (valid_skill_uuid s.source_id)
    || (not (valid_skill_uuid s.revision_id)
        || (not (is_content_digest s.content_digest)
            || (not (is_skill_name s.name)
                || ((s.name == "ego-browser") || (s.name == "agent-remote-device")))))

abbrev pub seen_with : SkillDeploymentSource → Seen → Seen
seen_with s seen = record {
  identities = identity s ∷ seen.identities;
  names = if s.enabled then s.name ∷ seen.names else seen.names;
}

-- One round of the loop of `validate`.
unfoldable pub check_source : SkillDeploymentSource → Seen → Outcome PlanError Seen
unfolding check_origin is_ill_formed
check_source s seen = do
  refuse_if
      (is_ill_formed s
        || (contains (identity s) seen.identities || (s.enabled && contains s.name seen.names)))
      bad_source
  check_origin s
  ok (seen_with s seen)

unfoldable pub check_sources : List SkillDeploymentSource → Seen → Outcome PlanError Seen
unfolding check_source
check_sources [] seen = ok seen
check_sources (s ∷ rest) seen = check_source s seen >>= check_sources rest

abbrev pub listed : Option (List SkillDeploymentSource) → List SkillDeploymentSource
listed none = []
listed (some xs) = xs

-- `validate`
unfoldable pub validate_plan : SkillDeploymentPlan → Outcome PlanError (Unit {0})
unfolding check_sources valid_skill_uuid
validate_plan p = do
  refuse_if
      (not (p.version == pos 1)
        || (ltz p.generation (pos 0)
            || (not (p.tool_type == "claude")
                || (not (p.runtime_backend == "native") || not (is_some p.sources)))))
      bad_metadata
  refuse_if
      (not
        (all valid_skill_uuid (p.user_id ∷ (p.operation_id ∷ (p.account_id ∷ (p.node_id ∷ []))))))
      bad_owner
  seen ← check_sources (listed p.sources) (record { identities = []; names = [] })
  ok tt

-- The comparison of `Digest`: the first source is before the second.
abbrev pub source_before : SkillDeploymentSource → SkillDeploymentSource → Bool
source_before a b =
    path_before a.origin b.origin || ((a.origin == b.origin) && path_before a.source_id b.source_id)

-- The steps of `deploymentJSONDigest` that the standard library does: encoding a plan, reading the
-- object back with its numbers as texts and encoding it again, and the hexadecimal text of SHA-256.
pub record Encoding : Type 0 where
  pub marshal : SkillDeploymentPlan → Outcome PlanError String
  pub canonical : String → Outcome PlanError String
  pub hex_sha256 : String → String

-- `deploymentJSONDigest`
unfoldable pub json_digest : Encoding → SkillDeploymentPlan → Outcome PlanError String
json_digest c p = do
  data_text ← c.marshal p
  canonical ← c.canonical data_text
  ok (c.hex_sha256 canonical)

-- `Digest`
unfoldable pub plan_digest : Encoding → SkillDeploymentPlan → Outcome PlanError String
unfolding validate_plan sort json_digest
plan_digest c p = do
  validate_plan p
  json_digest c (record p { sources = some (sort source_before (listed p.sources)) })
