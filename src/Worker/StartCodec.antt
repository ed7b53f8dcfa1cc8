-- ===== src/Worker/StartCodec.antt =====
-- The records of the journal of managed startups are read back as they were written.
use Prim.Native.Nat.{ℕ, ◌^◌, ◌<◌}
use Prim.Native.String.{len}
use agent_remote_node.Prelude.{
  String, Bool, true, false, not, ◌&&◌, none, some, ◌≡◌, refl, sym, ap, ◌∙◌, ◌==◌, string_Eq,
  int_Eq, ℤ, pos, arith, Bool-cases, inl, inr, or_left, or_right, and_left, and_right,
  if◌then◌else◌, leb, subst, ◌||◌,
}
use mathlib.Core.Bool.{false≢true}
use agent_remote_node.Ledger.Value.{normal_fields, normal}
use agent_remote_node.Worker.Json.{scan_int-literal}
use agent_remote_node.Worker.StartRecord.{
  SkillSnapshotIdentity, ManagedSessionStartResult, ManagedStartRecord, valid_start_record,
  has_path_character, stopped_message, valid_result, bad_result_identity, is_running, is_stopped,
  new_start_result, is_expected, resource_of, result_Eq, common_result, validated,
}
use agent_remote_node.Worker.StartEncode.{encode_result, encode_record}
use agent_remote_node.Worker.StartForms.{
  Common, running_result, stopped_result, attempt_range, Form, running, stopped, Form-read,
  Form-attempt,
}
use agent_remote_node.Worker.StartDecode.{decode_result, decode_record, decode_plain}

abbrev pub recorded : SkillSnapshotIdentity → ManagedSessionStartResult → ManagedStartRecord
recorded b outcome = record { schema_version = pos 1; binding = b; outcome = outcome }

module _ (hash : String → String) where
  valid_attempt :
      (r : ManagedSessionStartResult) (b : SkillSnapshotIdentity) (a : ℤ)
      → valid_result hash r b a ≡ true
      → (n : ℕ) × (a ≡ pos n) × (n < 2 ^ 63)
  unfolding valid_result bad_result_identity
  valid_attempt r b a h =
      let good = and_left _ _ h in
      let rest = or_right _ _ (or_right _ _ (unnot_true good)) in
      attempt_range a (or_left _ _ rest) (or_left _ _ (or_right _ _ rest))
    where
      unnot_true : {x : Bool} → not x ≡ true → x ≡ false
      unnot_true {x} p = ground (arith, p)

  common_of : SkillSnapshotIdentity → Common
  common_of b = record {
    session = b.session_id;
    account = b.account_id;
    backend = b.runtime_backend;
    resource = resource_of hash b.session_id;
    snapshot = b.snapshot_id;
    task = b.task_id;
  }

  expected_of :
      (x r : ManagedSessionStartResult) (b : SkillSnapshotIdentity) (a : ℤ)
      → is_expected (validated hash x b a) r ≡ true
      → (valid_result hash x b a ≡ true) × (x ≡ r)
  expected_of x r b a h = elim (Bool-cases (valid_result hash x b a)) [
    | inl good ↦ (
      good,
      (result_Eq.eqb_iff x r).0
          (ap (λ t. is_expected (if t then some x else none) r) (sym good) ∙ h),
    )
    | inr bad ↦
        absurd (false≢true (ap (λ t. is_expected (if t then some x else none) r) (sym bad) ∙ h))
  ]

  abbrev running_as : SkillSnapshotIdentity → String → ℤ → ManagedSessionStartResult
  running_as b tmux a = record (common_result hash b a) {
    status = "running";
    tool_type = "claude";
    tmux_session_name = tmux;
  }

  abbrev stopped_as : SkillSnapshotIdentity → ℤ → ManagedSessionStartResult
  stopped_as b a = record (common_result hash b a) {
    code = "SKILL_START_STOPPED";
    message = stopped_message;
  }

  named :
      (b : SkillSnapshotIdentity) (tmux : String) (a : ℤ)
      → valid_result hash (running_as b tmux a) b a ≡ true
      → (tmux == "") ≡ false
  unfolding valid_result is_running is_stopped
  named b tmux a h = only (tmux == "") _ (and_right _ _ h)
    where
      only : (t rest : Bool) → ((not t && rest) || false) ≡ true → t ≡ false
      only t rest k = ground (arith, k)

  running-Form :
      (r : ManagedSessionStartResult) (b : SkillSnapshotIdentity) (a : ℤ) (tmux : String)
      → is_expected (new_start_result hash b a "running" tmux) r ≡ true
      → Form r
  unfolding new_start_result common_of
  running-Form r b a tmux h =
      let (good, same) = expected_of (running_as b tmux a) r b a h in
      let (n, value, small) = valid_attempt (running_as b tmux a) b a good in
      running (common_of b) n tmux (named b tmux a good) small
        (ap (running_as b tmux) (sym value) ∙ same)

  stopped-Form :
      (r : ManagedSessionStartResult) (b : SkillSnapshotIdentity) (a : ℤ) (tmux : String)
      → is_expected (new_start_result hash b a "stopped" tmux) r ≡ true
      → Form r
  unfolding new_start_result common_of
  stopped-Form r b a tmux h = elim (Bool-cases (tmux == "")) [
    | inr named_session ↦ absurd (
        false≢true (
          ap (λ t. is_expected (if t then validated hash (stopped_as b a) b a else none) r)
            (sym named_session)
          ∙ h))
    | inl unnamed ↦
        let (good, same) = expected_of (stopped_as b a) r b a (
          ap (λ t. is_expected (if t then validated hash (stopped_as b a) b a else none) r)
            (sym unnamed)
          ∙ h) in
        let (n, value, small) = valid_attempt (stopped_as b a) b a good in
        stopped (common_of b) n small (ap (stopped_as b) (sym value) ∙ same)
  ]

  word-Form :
      (r : ManagedSessionStartResult) (b : SkillSnapshotIdentity) (a : ℤ) (tmux : String) (t : Bool)
      → is_expected (new_start_result hash b a (if t then "stopped" else "running") tmux) r ≡ true
      → Form r
  word-Form r b a tmux true h = stopped-Form r b a tmux h
  word-Form r b a tmux false h = running-Form r b a tmux h

  -- What a valid record consists of.
  valid_parts :
      (r : ManagedStartRecord) (task : String)
      → valid_start_record hash r task ≡ true
      → (r.schema_version ≡ pos 1) × Form r.outcome
  unfolding valid_start_record
  valid_parts r task h =
      let (version, outcome) =
        ends (r.schema_version == pos 1) (not (task == "")) (leb (len task) 128)
          (not (has_path_character task)) _ h in
      (
        (int_Eq.eqb_iff r.schema_version (pos 1)).0 version,
        word-Form r.outcome r.binding r.outcome.lease_attempt r.outcome.tmux_session_name
            (r.outcome.code == "SKILL_START_STOPPED") outcome,
      )
    where
      ends : (v n l p w : Bool) → (v && (n && (l && (p && w)))) ≡ true → (v ≡ true) × (w ≡ true)
      ends v n l p w k = (ground (arith, k), ground (arith, k))

  running_record :
      (b : SkillSnapshotIdentity) (c : Common) (n : ℕ) (tmux task : String)
      → (tmux == "") ≡ false
      → n < 2 ^ 63
      → valid_start_record hash (recorded b (running_result c n tmux)) task ≡ true
      → decode_plain hash task
          (normal_fields (encode_record (recorded b (running_result c n tmux))))
        ≡ some (recorded b (running_result c n tmux))
  unfolding decode_plain decode_record encode_record normal_fields normal
  running_record b c n tmux task h k v = rw (h, scan_int-literal n k, v) refl

  stopped_record :
      (b : SkillSnapshotIdentity) (c : Common) (n : ℕ) (task : String)
      → n < 2 ^ 63
      → valid_start_record hash (recorded b (stopped_result c n)) task ≡ true
      → decode_plain hash task (normal_fields (encode_record (recorded b (stopped_result c n))))
        ≡ some (recorded b (stopped_result c n))
  unfolding decode_plain decode_record encode_record normal_fields normal
  stopped_record b c n task k v = rw (scan_int-literal n k, v) refl

  Form-record :
      (b : SkillSnapshotIdentity) (r : ManagedSessionStartResult) (task : String)
      → Form r
      → valid_start_record hash (recorded b r) task ≡ true
      → decode_plain hash task (normal_fields (encode_record (recorded b r))) ≡ some (recorded b r)
  Form-record b r task (running c n tmux h k e) =
      subst
        (λ x.
          valid_start_record hash (recorded b x) task ≡ true
          → decode_plain hash task (normal_fields (encode_record (recorded b x)))
            ≡ some (recorded b x))
        e (running_record b c n tmux task h k)
  Form-record b r task (stopped c n k e) =
      subst
        (λ x.
          valid_start_record hash (recorded b x) task ≡ true
          → decode_plain hash task (normal_fields (encode_record (recorded b x)))
            ≡ some (recorded b x))
        e (stopped_record b c n task k)

  -- A valid record is read back from its JSON.
  pub record_read :
      (b : SkillSnapshotIdentity) (r : ManagedSessionStartResult) (task : String)
      → valid_start_record hash (recorded b r) task ≡ true
      → decode_plain hash task (normal_fields (encode_record (recorded b r))) ≡ some (recorded b r)
  record_read b r task h = Form-record b r task (valid_parts (recorded b r) task h).1 h

  -- The outcome of a valid record is read back, and its lease attempt is positive.
  pub outcome_read :
      (r : ManagedStartRecord) (task : String)
      → valid_start_record hash r task ≡ true
      → decode_result (normal_fields (encode_result r.outcome)) ≡ some r.outcome
  outcome_read r task h = Form-read r.outcome (valid_parts r task h).1

  pub outcome_attempt :
      (r : ManagedStartRecord) (task : String)
      → valid_start_record hash r task ≡ true
      → (n : ℕ) × (r.outcome.lease_attempt ≡ pos n)
  outcome_attempt r task h = Form-attempt r.outcome (valid_parts r task h).1
