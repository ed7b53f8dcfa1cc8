-- ===== src/Worker/RetireCodec.antt =====
-- The evidence of a retirement is read back from the entry that it is added to
-- (internal/worker/start_retirement.go).
use Prim.Native.Nat.{ℕ, ◌^◌, ◌<◌}
use agent_remote_node.Prelude.{
  String, Bool, true, not, ◌&&◌, some, [], ◌∷◌, ◌≡◌, refl, sym, ap, ◌∙◌, ◌==◌, string_Eq, nat_Eq,
  int_Eq, ℤ, pos, negsuc, arith, lez, subst,
}
use agent_remote_node.Ledger.Value.{Fields, normal_fields, normal, object}
use agent_remote_node.Worker.Json.{get_field, set_field, exact_fields, scan_int-literal}
use agent_remote_node.Worker.StartRecord.{
  ManagedSessionStartResult, result_Eq, ManagedStartRecord, ManagedStartObservation,
  cancelled_start, valid_start_record, max_attempt,
}
use agent_remote_node.Worker.StartEncode.{encode_observation, encode_result}
use agent_remote_node.Worker.StartDecode.{
  decode_result, decode_record, decode_plain, decode_retired, decode_observation,
}
use agent_remote_node.Worker.StartCodec.{outcome_read, outcome_attempt}
use agent_remote_node.Worker.RetireFields.{get_field-set, exact_set}
use agent_remote_node.Worker.Chain.{bind_some, required, some_inj}

-- The attempt of the observation is one that a literal holds.
seen :
    (k : ℕ) (n : ℤ)
    → lez (pos k) n ≡ true
    → lez n max_attempt ≡ true
    → (m : ℕ) × (n ≡ pos m) × (m < 2 ^ 63)
seen k (pos m) h u = (m, refl, ground (arith, u))
seen k (negsuc m) h u = absurd (ground (arith, h))

record_same :
    (fs gs : Fields)
    → get_field "binding" gs ≡ get_field "binding" fs
    → get_field "outcome" gs ≡ get_field "outcome" fs
    → get_field "schema_version" gs ≡ get_field "schema_version" fs
    → decode_record gs ≡ decode_record fs
unfolding decode_record
record_same fs gs b o v = rw (b, o, v) refl

module _ (hash : String → String) where
  -- The parts of an observation that cancels.
  cancelled_parts :
      (r : ManagedSessionStartResult) (o : ManagedStartObservation)
      → cancelled_start r o ≡ true
      → (o.result ≡ r)
        × (lez r.lease_attempt o.current_lease_attempt ≡ true)
        × (lez o.current_lease_attempt max_attempt ≡ true)
  unfolding cancelled_start
  cancelled_parts r o h =
      let (same, low, high) =
        parts (o.result == r) (not o.accepted) (o.task_status == "cancelled") _ _ h in
      ((result_Eq.eqb_iff o.result r).0 same, low, high)
    where
      parts :
          (a b c d e : Bool)
          → (a && (b && (c && (d && e)))) ≡ true
          → (a ≡ true) × (d ≡ true) × (e ≡ true)
      parts a b c d e k = (ground (arith, k), ground (arith, k), ground (arith, k))

  -- An observation is read back once its outcome is.
  plain_observation :
      (r : ManagedSessionStartResult) (accepted : Bool) (m : ℕ) (status : String)
      → decode_result (normal_fields (encode_result r)) ≡ some r
      → m < 2 ^ 63
      → decode_observation (
          normal_fields (
            encode_observation (record {
              result = r;
              accepted = accepted;
              current_lease_attempt = pos m;
              task_status = status;
            })))
        ≡ some (record {
          result = r;
          accepted = accepted;
          current_lease_attempt = pos m;
          task_status = status;
        })
  unfolding decode_observation encode_observation normal_fields normal
  plain_observation r accepted m status h k = rw (h, scan_int-literal m k) refl

  observation_read :
      (r : ManagedStartRecord) (task : String) (o : ManagedStartObservation)
      → valid_start_record hash r task ≡ true
      → cancelled_start r.outcome o ≡ true
      → decode_observation (normal_fields (encode_observation o)) ≡ some o
  observation_read r task o valid h =
      let (same, low, high) = cancelled_parts r.outcome o h in
      let (n, attempt) = outcome_attempt hash r task valid in
      let (m, value, small) =
        seen n o.current_lease_attempt (ap (λ a. lez a o.current_lease_attempt) (sym attempt) ∙ low)
          high in
      let read =
        subst (λ x. decode_result (normal_fields (encode_result x)) ≡ some x) (sym same)
          (outcome_read hash r task valid) in
      subst
        (λ a.
          decode_observation
            (normal_fields (encode_observation (record o { current_lease_attempt = a })))
          ≡ some (record o { current_lease_attempt = a }))
        (sym value) (plain_observation o.result o.accepted m o.task_status read small)

  -- The parts of a record that has no retirement.
  plain_parts :
      (task : String) (fs : Fields) (r : ManagedStartRecord)
      → decode_plain hash task fs ≡ some r
      → (exact_fields ("schema_version" ∷ ("binding" ∷ ("outcome" ∷ []))) fs ≡ true)
        × (decode_record fs ≡ some r)
        × (valid_start_record hash r task ≡ true)
  unfolding decode_plain
  plain_parts task fs r h =
      let (exact, rest) =
        required (exact_fields ("schema_version" ∷ ("binding" ∷ ("outcome" ∷ []))) fs) _ h in
      let (c, read, after) = bind_some (decode_record fs) _ rest in
      let (valid, same) = required (valid_start_record hash c task) _ after in
      let e = some_inj same in
      (exact, read ∙ ap some e, ap (λ x. valid_start_record hash x task) (sym e) ∙ valid)

  retired_of :
      (task : String) (gs inner : Fields) (r : ManagedStartRecord) (o : ManagedStartObservation)
      → exact_fields ("schema_version" ∷ ("binding" ∷ ("outcome" ∷ ("retirement" ∷ [])))) gs ≡ true
      → decode_record gs ≡ some r
      → valid_start_record hash r task ≡ true
      → get_field "retirement" gs ≡ some (object inner)
      → decode_observation inner ≡ some o
      → cancelled_start r.outcome o ≡ true
      → decode_retired hash task gs ≡ some (r, o)
  unfolding decode_retired
  retired_of task gs inner r o exact read valid found seen cancels =
      rw (exact, read) (rw (valid, found) (rw seen (rw cancels refl)))

  -- Adding the evidence to the data of a pending entry gives the data of a retired one.
  pub retired_data :
      (before : String → String → Bool) (task : String) (fs : Fields) (r : ManagedStartRecord)
      (o : ManagedStartObservation)
      → decode_plain hash task fs ≡ some r
      → cancelled_start r.outcome o ≡ true
      → decode_retired hash task
          (set_field before "retirement" (object (normal_fields (encode_observation o))) fs)
        ≡ some (r, o)
  retired_data before task fs r o h c =
      let (exact, read, valid) = plain_parts task fs r h in
      let v = object (normal_fields (encode_observation o)) in
      let get = λ (j : String). get_field-set before "retirement" v j fs in
      retired_of task (set_field before "retirement" v fs) (normal_fields (encode_observation o)) r
        o (exact_set before v fs exact)
        (record_same fs (set_field before "retirement" v fs) (get "binding") (get "outcome")
            (get "schema_version")
          ∙ read)
        valid (get "retirement") (observation_read r task o valid c) c
