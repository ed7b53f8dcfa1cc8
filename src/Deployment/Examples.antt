-- ===== src/Deployment/Examples.antt =====
-- A plan with two sources, in both orders.
use mathlib.Core.List.{Permᴰ}
use Prim.Native.String.{◌++◌}
use agent_remote_node.Prelude.{String, true, none, some, List, [], ◌∷◌, ◌≡◌, refl, ok, pos}
use agent_remote_node.Finalization.Identity.{is_content_digest}
use agent_remote_node.Skill.Paths.{codes_before}
use agent_remote_node.Deployment.Sources.{
  listed, SkillDeploymentSource, SkillDeploymentPlan, Encoding, validate_plan, plan_digest,
}
use agent_remote_node.Deployment.Digest.{plan_digest-perm}

abbrev local : SkillDeploymentSource
local = record {
  origin = "account_local";
  source_id = "00000000-0000-4000-8000-000000000001";
  revision_id = "00000000-0000-4000-8000-000000000002";
  content_digest = "ba7816bf8f01cfea414140de5dae2223b00361a396177a9cb410ff61f20015ad";
  name = "notes";
  enabled = true;
  installation_epoch = none;
}

abbrev library : SkillDeploymentSource
library = record local { origin = "library"; name = "search"; installation_epoch = some (pos 4) }

abbrev plan : SkillDeploymentPlan
plan = record {
  version = pos 1;
  user_id = "00000000-0000-4000-8000-000000000003";
  operation_id = "00000000-0000-4000-8000-000000000004";
  generation = pos 2;
  account_id = "00000000-0000-4000-8000-000000000005";
  node_id = "00000000-0000-4000-8000-000000000006";
  tool_type = "claude";
  runtime_backend = "native";
  sources = none;
}

abbrev one_way : List SkillDeploymentSource
one_way = library ∷ (local ∷ [])

abbrev other_way : List SkillDeploymentSource
other_way = local ∷ (library ∷ [])

first_ok : validate_plan (record plan { sources = some one_way }) ≡ ok tt
unfolding validate_plan is_content_digest
first_ok = refl

-- The names of the sources in order stand for the text that is hashed.
abbrev names : List SkillDeploymentSource → String
names [] = ""
names (s ∷ rest) = s.name ++ (" " ++ names rest)

abbrev encoding : Encoding
encoding = record {
  marshal = λ p. ok (names (listed p.sources));
  canonical = λ s. ok s;
  hex_sha256 = λ s. s;
}

plan_digest-perm_example :
    (validate_plan (record plan { sources = some other_way }) ≡ ok tt)
    × (plan_digest encoding (record plan { sources = some one_way })
        ≡ plan_digest encoding (record plan { sources = some other_way }))
plan_digest-perm_example =
    plan_digest-perm plan one_way other_way encoding (Permᴰ.swap refl refl) first_ok

first_digest : plan_digest encoding (record plan { sources = some one_way }) ≡ ok "notes search "
unfolding plan_digest is_content_digest codes_before
first_digest = refl
