-- ===== src/Broker/Binding.antt =====
-- internal/api/client.go and internal/egobrowser/broker.go: the metadata of a browser binding.
use agent_remote_node.Prelude.{
  ℕ, String, Bool, true, false, not, ◌&&◌, ◌||◌, Outcome, ok, err, ◌>>=◌, ◌>>◌, refuse_if, ◌==◌,
  string_Eq, nat_Eq, bool_Eq, int_Eq, ℤ, pos, ltz, Option, none, some, is_some, List, [], ◌∷◌, all,
  contains, if◌then◌else◌,
}
use agent_remote_node.Broker.Texts.{
  BrokerError, protocol, valid_opaque_text, valid_sha256, valid_canonical_base64_url,
}

-- A timestamp text as `time.Parse` reads it: empty, refused, or an instant in nanoseconds.
pub data Stamp : Type 0 where
  no_stamp malformed : Stamp
  at : ℕ → Stamp

-- `EgoBrowserBinding`, without the fields that the broker only passes on.
pub record EgoBrowserBinding : Type 0 where
  pub binding_id : String
  pub encryption_public_key : String
  pub tool_session_id : String
  pub node_id : String
  pub status : String
  pub control_channel : String
  pub relay_binding_kind : String
  pub authorization_mode : String
  pub authorization_policy_version : ℤ
  pub binding_generation : ℕ
  pub generation : ℕ
  pub remote_platform : String
  pub local_platform : String
  pub bridge_protocol_version : String
  pub allowlist_revision : ℕ
  pub allowlist_roots_digest : Option String
  pub learning_bundle_digest : Option String
  pub max_parallel_requests : ℤ
  pub capabilities : List String
  pub lease_until : Option Stamp
  pub lease_health : String
  pub lease_grace_until : Option Stamp
  pub absolute_ttl_until : Stamp

-- `normalizeBindingGeneration`
unfoldable pub normalize_binding_generation : ℕ → ℕ → Outcome BrokerError ℕ
normalize_binding_generation explicit legacy =
    if not (explicit == 0) && (not (legacy == 0) && not (explicit == legacy))
    then err protocol
    else if not (explicit == 0)
    then ok explicit
    else ok legacy

abbrev pub with_generation : EgoBrowserBinding → ℕ → EgoBrowserBinding
with_generation b g = if g == 0 then b else record b { binding_generation = g; generation = g }

-- `NormalizeBindingGeneration`
unfoldable pub normalized : EgoBrowserBinding → Outcome BrokerError EgoBrowserBinding
unfolding normalize_binding_generation
normalized b = do
  g ← normalize_binding_generation b.binding_generation b.generation
  ok (with_generation b g)

abbrev pub required_capabilities : List String
required_capabilities =
    "ego_browser_script_execute_v1"
    ∷ ("ego_browser_snapshot_v1"
        ∷ ("ego_browser_screenshot_artifact_v1"
            ∷ ("ego_browser_task_space_v1" ∷ ("ego_browser_concurrency_v1" ∷ []))))

abbrev pub known_capabilities : List String
known_capabilities =
    "ego_browser_file_allowlist_v1" ∷ ("ego_browser_site_learning_v1" ∷ required_capabilities)

-- Every capability is known, and none stands twice.
abbrev pub distinct_known : List String → Bool
distinct_known [] = true
distinct_known (c ∷ rest) =
    contains c known_capabilities && (not (contains c rest) && distinct_known rest)

abbrev pub absent_or_digest : Option String → Bool
absent_or_digest none = true
absent_or_digest (some d) = valid_sha256 d

-- `validBindingCapabilities`
unfoldable pub valid_binding_capabilities : EgoBrowserBinding → Bool
valid_binding_capabilities b =
    distinct_known b.capabilities
    && (all (λ c. contains c b.capabilities) required_capabilities
        && (absent_or_digest b.allowlist_roots_digest
            && (absent_or_digest b.learning_bundle_digest
                && ((contains "ego_browser_file_allowlist_v1" b.capabilities
                      == is_some b.allowlist_roots_digest)
                    && (contains "ego_browser_site_learning_v1" b.capabilities
                        == is_some b.learning_bundle_digest)))))

-- `ProtocolVersion`
abbrev pub protocol_version : String
protocol_version = "ego-browser-bridge-v1"

abbrev pub accepted_statuses : List String
accepted_statuses =
    "active"
    ∷ ("connecting"
        ∷ ("pending_device" ∷ ("probing_local_browser" ∷ ("paused" ∷ ("expired" ∷ [])))))

abbrev pub lease_healths : List String
lease_healths = "healthy" ∷ ("renewal_grace" ∷ ("expired" ∷ []))

abbrev pub is_malformed : Stamp → Bool
is_malformed malformed = true
is_malformed _ = false

-- `validateBinding` of a broker whose configured node is `node`.
unfoldable pub validate_binding_metadata :
    String → EgoBrowserBinding → Outcome BrokerError (Unit {0})
validate_binding_metadata node b = do
  refuse_if
      (not (valid_opaque_text b.binding_id 128)
        || (not (valid_opaque_text b.tool_session_id 128)
            || (b.binding_generation == 0 || not (valid_opaque_text b.node_id 128))))
      protocol
  refuse_if (not (valid_canonical_base64_url b.encryption_public_key 32)) protocol
  refuse_if (not (node == "") && not (b.node_id == node)) protocol
  refuse_if
      (not (b.control_channel == "ego_browser_bridge")
        || (not (b.relay_binding_kind == "ego_browser")
            || (not (b.authorization_mode == "ego_browser_script_full_trust")
                || (not (b.authorization_policy_version == pos 1)
                    || (not (b.remote_platform == "linux") || not (b.local_platform == "macos"))))))
      protocol
  refuse_if (not (contains b.status accepted_statuses)) protocol
  refuse_if (ltz b.max_parallel_requests (pos 1) || ltz (pos 4) b.max_parallel_requests) protocol
  refuse_if (not (b.bridge_protocol_version == protocol_version)) protocol
  refuse_if (b.allowlist_revision == 0 || not (valid_binding_capabilities b)) protocol
  refuse_if (not (contains b.lease_health lease_healths)) protocol
  refuse_if (is_malformed b.absolute_ttl_until) protocol
