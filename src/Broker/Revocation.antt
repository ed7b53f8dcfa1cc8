-- ===== src/Broker/Revocation.antt =====
-- What the revocation of a binding takes away, and for how long.
use agent_remote_node.Prelude.{
  ℕ, String, ◌≡◌, refl, sym, ◌∙◌, Bool, true, false, not, Option, none, some, List, arith, ◌==◌,
  string_Eq, nat_Eq, Bool-cases, subst, inl, inr,
}
use agent_remote_node.Prelude.Map.{Map, get, get-put, retain, get-retain, kept}
use agent_remote_node.Broker.State.{
  Broker, BindingState, Permit, ActiveRequest, adjusted, next_epoch, clear_binding_materials,
}
use agent_remote_node.Broker.Bindings.{ended, end_generation, revoke_binding}
use agent_remote_node.Broker.Run.{Op, run}
use agent_remote_node.Broker.Revival.{over}
use agent_remote_node.Broker.Unrevived.{Ended, Stays, run-Ended}

pub adjusted_found :
    (f : BindingState → BindingState) (id : String) (m : Map String BindingState) (s : BindingState)
    → get m id ≡ some s
    → get (adjusted f id m) id ≡ some (f s)
adjusted_found f id m s e =
    rw e (get-put m id (f s) id ∙ rw ((string_Eq.eqb_iff id id).1 refl) refl)

pub ended_found :
    (now : ℕ) (status id : String) (b : Broker) (s : BindingState)
    → get b.bindings id ≡ some s
    → get (end_generation now status id b).bindings id ≡ some (next_epoch (ended status s))
unfolding end_generation clear_binding_materials
ended_found now status id b s e =
    adjusted_found next_epoch id (adjusted (ended status) id b.bindings) (ended status s)
      (adjusted_found (ended status) id b.bindings s e)

-- The binding has neither permits nor requests, and its relay is detached.
pub record IsCleared (id : String) (b : Broker) : Type 0 where
  pub permits : (s : ℕ) (p : Permit) → get b.permits s ≡ some p → (p.binding_id == id) ≡ false
  pub requests :
      (s : ℕ) (r : ActiveRequest) → get b.active s ≡ some r → (r.binding_id == id) ≡ false
  pub relay : (s : BindingState) → get b.bindings id ≡ some s → s.relay ≡ false

passes :
    {V : Type 0} (test : ℕ → V → Bool) (s : ℕ) (o : Option V) (v : V)
    → kept test s o ≡ some v
    → test s v ≡ true
passes test s none v h = cc
passes test s (some w) v h = elim (Bool-cases (test s w)) [
  | inl yes_w ↦
      let same : w ≡ v = ground (arith, yes_w, h) in subst (λ x. test s x ≡ true) same yes_w
  | inr no_w ↦ absurd (ground (arith, no_w, h))
]

kept_passes :
    {V : Type 0} (test : ℕ → V → Bool) (m : Map ℕ V) (s : ℕ) (v : V)
    → get (retain test m) s ≡ some v
    → test s v ≡ true
kept_passes test m s v h = passes test s (get m s) v (sym (get-retain test m s) ∙ h)

false_of : (x : Bool) → not x ≡ true → x ≡ false
false_of x h = ground (arith, h)

detached_value :
    {o : Option BindingState} {s t : BindingState}
    → o ≡ some s
    → o ≡ some t
    → s.relay ≡ false
    → t.relay ≡ false
detached_value p q r = ground (arith, p, q, r)

end-IsCleared :
    (now : ℕ) (status id : String) (b : Broker) (s : BindingState)
    → get b.bindings id ≡ some s
    → IsCleared id (end_generation now status id b)
unfolding end_generation clear_binding_materials
end-IsCleared now status id b s e = record {
  permits = λ k p h.
      false_of _ (kept_passes (λ (j : ℕ) (q : Permit). not (q.binding_id == id)) b.permits k p h);
  requests = λ k r h.
      false_of _
        (kept_passes (λ (j : ℕ) (q : ActiveRequest). not (q.binding_id == id)) b.active k r h);
  relay = λ t h. detached_value (ended_found now status id b s e) h refl;
}

revoked_is :
    (now : ℕ) (id : String) (b : Broker) (s : BindingState)
    → get b.bindings id ≡ some s
    → revoke_binding now id s.metadata.binding_generation b ≡ end_generation now "revoked" id b
unfolding revoke_binding
revoked_is now id b s e =
    rw (e, (nat_Eq.eqb_iff s.metadata.binding_generation s.metadata.binding_generation).1 refl)
      (ground arith)

-- Revoking the generation of a binding takes all its permits and requests and detaches its relay.
pub revoke_binding-IsCleared :
    (now : ℕ) (id : String) (b : Broker) (s : BindingState)
    → get b.bindings id ≡ some s
    → IsCleared id (revoke_binding now id s.metadata.binding_generation b)
revoke_binding-IsCleared now id b s e =
    subst (IsCleared id) (sym (revoked_is now id b s e)) (end-IsCleared now "revoked" id b s e)

-- After the generation of a binding is revoked, and after any calls in whose course the binding stays
-- in the snapshot, the binding is ended in that generation and not active, or of a later generation:
-- no snapshot of the control plane and no answer to a renewal revives the revoked one.
pub revoke_binding-Ended :
    (now : ℕ) (id : String) (b : Broker) (s : BindingState) (ops : List Op)
    → get b.bindings id ≡ some s
    → Stays id ops (revoke_binding now id s.metadata.binding_generation b)
    → Ended id s.metadata.binding_generation
        (run ops (revoke_binding now id s.metadata.binding_generation b))
revoke_binding-Ended now id b s ops e =
    let g = s.metadata.binding_generation in
    run-Ended ops (revoke_binding now id g b) id g (
      subst (Ended id g) (sym (revoked_is now id b s e)) (record {
        state = next_epoch (ended "revoked" s);
        found = ended_found now "revoked" id b s e;
        past = over refl refl refl refl;
      }))
