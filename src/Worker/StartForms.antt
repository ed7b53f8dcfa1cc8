-- ===== src/Worker/StartForms.antt =====
-- The two forms of a valid outcome, and how each is read back.
use Prim.Native.Nat.{ℕ, ◌^◌, ◌<◌}
use agent_remote_node.Prelude.{
  String, false, some, ◌≡◌, refl, sym, ap, ◌==◌, string_Eq, int_Eq, ℤ, pos, negsuc, arith, lez, ltz,
  subst,
}
use agent_remote_node.Ledger.Value.{normal_fields, normal}
use agent_remote_node.Worker.Json.{scan_int-literal}
use agent_remote_node.Worker.StartRecord.{
  SkillSnapshotIdentity, ManagedSessionStartResult, stopped_message, max_attempt, result_Eq,
}
use agent_remote_node.Worker.StartEncode.{encode_result, encode_identity}
use agent_remote_node.Worker.StartDecode.{decode_result, decode_identity}

-- The texts that both forms of an outcome carry.
pub record Common : Type 0 where
  pub session : String
  pub account : String
  pub backend : String
  pub resource : String
  pub snapshot : String
  pub task : String

abbrev pub running_result : Common → ℕ → String → ManagedSessionStartResult
running_result c n tmux = record {
  session_id = c.session;
  account_id = c.account;
  runtime_backend = c.backend;
  runtime_resource_id = c.resource;
  snapshot_id = c.snapshot;
  task_record_id = c.task;
  lease_attempt = pos n;
  status = "running";
  tool_type = "claude";
  tmux_session_name = tmux;
  code = "";
  message = "";
}

abbrev pub stopped_result : Common → ℕ → ManagedSessionStartResult
stopped_result c n = record {
  session_id = c.session;
  account_id = c.account;
  runtime_backend = c.backend;
  runtime_resource_id = c.resource;
  snapshot_id = c.snapshot;
  task_record_id = c.task;
  lease_attempt = pos n;
  status = "";
  tool_type = "";
  tmux_session_name = "";
  code = "SKILL_START_STOPPED";
  message = stopped_message;
}

pub running_read :
    (c : Common) (n : ℕ) (tmux : String)
    → (tmux == "") ≡ false
    → n < 2 ^ 63
    → decode_result (normal_fields (encode_result (running_result c n tmux)))
      ≡ some (running_result c n tmux)
unfolding decode_result encode_result normal_fields normal
running_read c n tmux h k = rw (h, scan_int-literal n k) refl

pub stopped_read :
    (c : Common) (n : ℕ)
    → n < 2 ^ 63
    → decode_result (normal_fields (encode_result (stopped_result c n))) ≡ some (stopped_result c n)
unfolding decode_result encode_result normal_fields normal
stopped_read c n k = rw (scan_int-literal n k) refl

pub identity_read :
    (b : SkillSnapshotIdentity) → decode_identity (normal_fields (encode_identity b)) ≡ some b
unfolding decode_identity encode_identity normal_fields normal
identity_read b = refl

pub attempt_range :
    (a : ℤ)
    → lez a (pos 0) ≡ false
    → ltz max_attempt a ≡ false
    → (n : ℕ) × (a ≡ pos n) × (n < 2 ^ 63)
attempt_range (pos n) h k = (n, refl, ground (arith, h, k))
attempt_range (negsuc n) h k = absurd (ground (arith, h))

-- The form that a valid outcome has.
pub data Form (r : ManagedSessionStartResult) : Type 0 where
  running :
      (c : Common) (n : ℕ) (tmux : String)
      → (tmux == "") ≡ false
      → n < 2 ^ 63
      → running_result c n tmux ≡ r
      → Form r
  stopped : (c : Common) (n : ℕ) → n < 2 ^ 63 → stopped_result c n ≡ r → Form r

pub Form-read :
    (r : ManagedSessionStartResult)
    → Form r
    → decode_result (normal_fields (encode_result r)) ≡ some r
Form-read r (running c n tmux h k e) =
    subst (λ x. decode_result (normal_fields (encode_result x)) ≡ some x) e
      (running_read c n tmux h k)
Form-read r (stopped c n k e) =
    subst (λ x. decode_result (normal_fields (encode_result x)) ≡ some x) e (stopped_read c n k)

pub Form-attempt : (r : ManagedSessionStartResult) → Form r → (n : ℕ) × (r.lease_attempt ≡ pos n)
Form-attempt r (running c n tmux h k e) =
    (n, sym (ap (λ (x : ManagedSessionStartResult). x.lease_attempt) e))
Form-attempt r (stopped c n k e) =
    (n, sym (ap (λ (x : ManagedSessionStartResult). x.lease_attempt) e))
