-- ===== src/Finalization/Identity.antt =====
-- Identities, digests and system releases (internal/skillmanager/preparation.go,
-- system_releases.go, journal.go and finalization_receipt.go).
use agent_remote_node.Prelude.{
  String, Bool, not, ◌&&◌, ◌||◌, Outcome, ◌>>◌, refuse_if, leb, ◌==◌, Eq, string_Eq, fields_Eq,
  pair_Eq, refl, ℤ, pos, int_Eq, is_digit, is_lower, is_upper, is_hex, is_uuid, exactly,
  starts_then, all, length, codes, nat_Eq,
}

-- `validSkillUUID`
unfoldable pub valid_skill_uuid : String → Bool
valid_skill_uuid s = is_uuid s && not (s == "00000000-0000-0000-0000-000000000000")

-- `contentDigestPattern`
unfoldable pub is_content_digest : String → Bool
is_content_digest = exactly 64 is_hex

-- `skillReleaseVersion`
unfoldable pub is_release_version : String → Bool
is_release_version =
    starts_then (λ c. is_digit c || (is_upper c || is_lower c))
      (λ c.
        is_digit c
        || (is_upper c || (is_lower c || (c == b'.' || (c == b'_' || (c == b'+' || c == b'-'))))))
      63

-- `skillReleaseCommit`
unfoldable pub is_release_commit : String → Bool
is_release_commit = exactly 40 is_hex

-- `finalizationKey`
unfoldable pub is_finalization_key : String → Bool
is_finalization_key s =
    leb 1 (length (codes s))
    && (leb (length (codes s)) 128 && all (λ c. leb b'!' c && leb c b'~') (codes s))

-- `publicationReason`
unfoldable pub is_publication_reason : String → Bool
is_publication_reason = starts_then is_lower (λ c. is_lower c || (is_digit c || c == b'_')) 95

-- The errors of the package's validation, by the object that is refused.
pub data Refusal : Type 0 where
  bad_identity bad_generation bad_preparation bad_release bad_record bad_input bad_receipt : Refusal
  bad_phase bad_authority lost_checkpoint bad_publication bad_acknowledgement : Refusal
  bad_authorization bad_export state_conflict write_failed : Refusal

pub record EgoBrowserRelease : Type 0 where
  pub version : String
  pub commit : String
  pub tree_sha256 : String

pub record DeviceSkillRelease : Type 0 where
  pub node_release_version : String
  pub protocol_version : ℤ

pub record SystemReleasePins : Type 0 where
  pub ego_browser : EgoBrowserRelease
  pub device : DeviceSkillRelease

abbrev pub no_device : DeviceSkillRelease
no_device = record { node_release_version = ""; protocol_version = pos 0 }

abbrev pub no_pins : SystemReleasePins
no_pins = record {
  ego_browser = record { version = ""; commit = ""; tree_sha256 = "" };
  device = no_device;
}

instance abbrev pub device_Eq : Eq DeviceSkillRelease
device_Eq =
    fields_Eq (λ (r : DeviceSkillRelease). (r.node_release_version, r.protocol_version))
      (λ (x : String × ℤ). record { node_release_version = x.0; protocol_version = x.1 })
      (λ r. refl) pair_Eq

instance abbrev pub ego_Eq : Eq EgoBrowserRelease
ego_Eq =
    fields_Eq (λ (r : EgoBrowserRelease). (r.version, (r.commit, r.tree_sha256)))
      (λ (x : String × (String × String)). record {
        version = x.0;
        commit = x.1.0;
        tree_sha256 = x.1.1;
      })
      (λ r. refl) pair_Eq

instance abbrev pub pins_Eq : Eq SystemReleasePins
pins_Eq =
    fields_Eq (λ (r : SystemReleasePins). (r.ego_browser, r.device))
      (λ (x : EgoBrowserRelease × DeviceSkillRelease). record { ego_browser = x.0; device = x.1 })
      (λ r. refl) pair_Eq

-- `SystemReleasePins.Validate`
unfoldable pub validate_pins : SystemReleasePins → Outcome Refusal (Unit {0})
validate_pins p = do
  refuse_if
      (not (is_release_version p.ego_browser.version)
        || (not (is_release_commit p.ego_browser.commit)
            || not (is_content_digest p.ego_browser.tree_sha256)))
      bad_release
  refuse_if
      (not (p.device == no_device)
        && (not (is_release_version p.device.node_release_version)
            || not (p.device.protocol_version == pos 1)))
      bad_release
