-- ===== src/Broker/Limit.antt =====
-- The limit on the parallel requests of a binding.
use agent_remote_node.Prelude.{
  ℕ, suc, ◌+◌, ◌≤◌, String, ◌≡◌, refl, sym, Bool, true, not, Outcome, ok, err, ◌>>=◌, List, [], ◌∷◌,
  if◌then◌else◌, if_both, arith, inl, inr, ℤ, pos, lez, ◌==◌, string_Eq, nat_Eq, Bool-cases, subst,
}
use agent_remote_node.Prelude.Map.{count, count-put, empty}
use agent_remote_node.Broker.Texts.{BrokerError}
use agent_remote_node.Broker.Binding.{EgoBrowserBinding}
use agent_remote_node.Broker.State.{
  Config, Broker, BindingState, Permit, ActiveRequest, active_request_count, next_sequence,
  new_broker, check_limits, prune_expired_permits,
}
use agent_remote_node.Broker.Sessions.{Answer, nonce_session, binding_for_session}
use agent_remote_node.Broker.Permits.{
  Admission, Randomness, drawn, permit_expiry, new_permit, stored_or, store_permit, request_of,
  fill_permit, check_binding, checked_issue, issue_for, commit_permit,
}
use agent_remote_node.Broker.Run.{Op, restarted, step, run}
use agent_remote_node.Broker.Keeps.{Fewer, prune-Fewer}
use agent_remote_node.Broker.Sequence.{bumped}
use agent_remote_node.Broker.SingleUse.{step_kind, kept, issued, started}

-- No binding has more requests than the configuration allows.
pub record IsLimited (b : Broker) : Type 0 where
  pub within :
      (id : String) → lez (pos (active_request_count id b)) b.cfg.max_parallel_requests ≡ true

lez_trans : (m n : ℕ) (z : ℤ) → m ≤ n → lez (pos n) z ≡ true → lez (pos m) z ≡ true
lez_trans m n z le h = ground (arith, le, h)

Fewer-IsLimited : (b c : Broker) → Fewer b c → IsLimited b → IsLimited c
Fewer-IsLimited b c f l = record {
  within = λ id.
      subst (λ (k : Config). lez (pos (active_request_count id c)) k.max_parallel_requests ≡ true)
        (sym f.config) (lez_trans _ _ b.cfg.max_parallel_requests (f.active id) (l.within id));
}

-- The binding has room for one more request.
abbrev HasRoom : Broker → String → Type 0
HasRoom b id = lez (pos (suc (active_request_count id b))) b.cfg.max_parallel_requests ≡ true

check-HasRoom :
    (b : Broker) (m : EgoBrowserBinding) → check_binding b m ≡ ok tt → HasRoom b m.binding_id
unfolding check_binding
check-HasRoom b m h = ground (arith, h)

stored_count :
    (b : Broker) (p : Permit) (id : String)
    → active_request_count id (store_permit (bumped b) p).0
      ≤ active_request_count id b + (if p.binding_id == id then 1 else 0)
unfolding active_request_count
stored_count b p id =
    count-put (λ (s : ℕ) (r : ActiveRequest). r.binding_id == id) b.active p.sequence (request_of p)

stored-IsLimited :
    (b : Broker) (p : Permit)
    → IsLimited b
    → HasRoom b p.binding_id
    → IsLimited (store_permit (bumped b) p).0
stored-IsLimited b p l room = record {
  within = λ id. elim (Bool-cases (p.binding_id == id)) [
    | inl same ↦
        let eq = (string_Eq.eqb_iff p.binding_id id).0 same in
        lez_trans _ (suc (active_request_count id b)) b.cfg.max_parallel_requests
          (ground (arith, stored_count b p id, same)) (subst (HasRoom b) eq room)
    | inr differ ↦
        lez_trans _ (active_request_count id b) b.cfg.max_parallel_requests
          (ground (arith, stored_count b p id, differ)) (l.within id)
  ];
}

bumped-IsLimited : (b : Broker) → IsLimited b → IsLimited (bumped b)
unfolding active_request_count
bumped-IsLimited b l = record { within = l.within }

stored_or-IsLimited :
    (b : Broker) (o : Outcome BrokerError Permit)
    → IsLimited b
    → ((p : Permit) → o ≡ ok p → HasRoom b p.binding_id)
    → IsLimited (stored_or (bumped b) o).0
stored_or-IsLimited b (err x) l f = bumped-IsLimited b l
stored_or-IsLimited b (ok p) l f = stored-IsLimited b p l (f p refl)

filled_binding :
    (c : Config) (m : EgoBrowserBinding) (a : Admission) (n : ℕ) (d : Outcome BrokerError String)
    (e : Outcome BrokerError ℕ) (p : Permit)
    → (d >>= λ id. e >>= λ x. ok (new_permit c m a id n x)) ≡ ok p
    → m.binding_id ≡ p.binding_id
unfolding new_permit
filled_binding c m a n (err x) e p h = cc
filled_binding c m a n (ok id) (err x) p h = cc
filled_binding c m a n (ok id) (ok x) p h = ground (arith, h)

fill-IsLimited :
    (now : ℕ) (persisted : Bool) (r : Randomness) (a : Admission) (m : EgoBrowserBinding)
    (b : Broker)
    → IsLimited b
    → HasRoom b m.binding_id
    → IsLimited (fill_permit now r a m (next_sequence persisted b)).0
unfolding next_sequence fill_permit
fill-IsLimited now persisted r a m b l room =
    if_both (λ (x : Answer ℕ). IsLimited (fill_permit now r a m x).0)
      (b.sequence == 18446744073709551615) (λ _. l)
      (λ _.
        if_both (λ (x : Answer ℕ). IsLimited (fill_permit now r a m x).0) persisted
          (λ _. stored_or-IsLimited b _ l (λ p h.
            subst (HasRoom b)
              (filled_binding b.cfg m a (suc b.sequence) (drawn r) (permit_expiry now m) p h) room))
          (λ _. l))

checked-IsLimited :
    (b : Broker) (x : Answer Permit) (o : Outcome BrokerError (Unit {0}))
    → IsLimited b
    → (o ≡ ok tt → IsLimited x.0)
    → IsLimited (checked_issue b x o).0
checked-IsLimited b x (err e) l f = l
checked-IsLimited b x (ok u) l f = f refl

issue_for-IsLimited :
    (now : ℕ) (persisted : Bool) (r : Randomness) (a : Admission) (b : Broker)
    (o : Outcome BrokerError BindingState)
    → IsLimited b
    → IsLimited (issue_for now persisted r a b o).0
unfolding issue_for
issue_for-IsLimited now persisted r a b (err x) l = l
issue_for-IsLimited now persisted r a b (ok s) l =
    checked-IsLimited b _ (check_binding b s.metadata) l
      (λ h. fill-IsLimited now persisted r a s.metadata b l (check-HasRoom b s.metadata h))

issue-IsLimited :
    (now : ℕ) (persisted : Bool) (r : Randomness) (nonce : String) (a : Admission) (b : Broker)
    → IsLimited b
    → IsLimited (commit_permit now persisted r nonce a b).0
unfolding commit_permit
issue-IsLimited now persisted r nonce a b l =
    let pruned = Fewer-IsLimited b (prune_expired_permits now b) (prune-Fewer now b) l in
    if_both (λ (x : Answer Permit). IsLimited x.0)
      (not (nonce_session nonce (prune_expired_permits now b) == a.session)) (λ _. pruned)
      (λ _.
        issue_for-IsLimited now persisted r a (prune_expired_permits now b)
          (binding_for_session a.session (prune_expired_permits now b)) pruned)

new-IsLimited :
    (c : Config) (o : Outcome BrokerError ℕ) (b : Broker) → new_broker c o ≡ ok b → IsLimited b
unfolding new_broker check_limits active_request_count count empty
new-IsLimited c (err x) b h = record { within = λ id. ground (arith, h) }
new-IsLimited c (ok n) b h = record { within = λ id. ground (arith, h) }

restart-IsLimited :
    (b : Broker) (o : Outcome BrokerError Broker)
    → ((c : Broker) → o ≡ ok c → IsLimited c)
    → IsLimited b
    → IsLimited (restarted b o)
restart-IsLimited b (err x) f l = l
restart-IsLimited b (ok c) f l = f c refl

step-IsLimited : (op : Op) (b : Broker) → IsLimited b → IsLimited (step op b)
step-IsLimited op b l = elim (step_kind op b) [
  | kept f ↦ Fewer-IsLimited b (step op b) f l
  | issued now persisted r nonce a e ↦
      subst IsLimited (sym e) (issue-IsLimited now persisted r nonce a b l)
  | started e ↦
      subst IsLimited (sym e)
        (restart-IsLimited b _ (λ c h. new-IsLimited b.cfg (ok b.sequence_file) c h) l)
]

run-IsLimited : (ops : List Op) (b : Broker) → IsLimited b → IsLimited (run ops b)
unfolding run
run-IsLimited [] b l = l
run-IsLimited (op ∷ ops) b l = run-IsLimited ops (step op b) (step-IsLimited op b l)

-- Whatever methods are called on a new broker, in whatever order, a binding never has more requests
-- at once than the broker's configured limit.
pub run-request_limit :
    (c : Config) (o : Outcome BrokerError ℕ) (b : Broker) (ops : List Op) (id : String)
    → new_broker c o ≡ ok b
    → lez (pos (active_request_count id (run ops b))) (run ops b).cfg.max_parallel_requests ≡ true
run-request_limit c o b ops id h = (run-IsLimited ops b (new-IsLimited c o b h)).within id
