-- ===== src/Broker/Confined.antt =====
-- What `IssuePermit` as a whole makes sure of the request.
use Prim.Native.String.{◌++◌}
use agent_remote_node.Prelude.{
  ℕ, String, ◌≡◌, refl, sym, ap, ◌∙◌, ◌⊎◌, inl, inr, Bool, true, false, not, ◌&&◌, Outcome, ok, err,
  ◌>>=◌, refuse_if, arith, pos, lez, ltz, ◌==◌, string_Eq, nat_Eq, Bool-cases, subst,
}
use agent_remote_node.Broker.Texts.{
  BrokerError, protocol, Scope, dedicated_task_space, normalize_scope,
}
use agent_remote_node.Broker.State.{Config, Broker, BindingState, Permit}
use agent_remote_node.Broker.Sessions.{
  Answer, nonce_session, session_nonce, binding_for_nonce, session_for_nonce, binding_for_session,
}
use agent_remote_node.Broker.Leases.{Renewal, ensure_lease}
use agent_remote_node.Broker.Permits.{
  PermitRequest, Admission, Randomness, check_request, or_unavailable, admit, commit_permit,
  after_lease, issue_admitted, issue_permit,
}
use agent_remote_node.Broker.Admit.{commit_permit-Backed}

-- What the request of a permit satisfies.
pub record Confined (r : PermitRequest) (b : Broker) (p : Permit) : Type 0 where
  pub enabled : b.cfg.enabled ≡ true
  pub script :
      (lez r.script_bytes (pos 0) ≡ false) × (ltz b.cfg.max_script_bytes r.script_bytes ≡ false)
  pub timeout :
      (lez r.timeout_ms (pos 0) ≡ false) × (ltz b.cfg.max_execute_timeout_ms r.timeout_ms ≡ false)
  pub capability : session_nonce (nonce_session r.startup_nonce b) b ≡ r.startup_nonce
  pub space : p.default_task_space ≡ "agent-remote:" ++ nonce_session r.startup_nonce b
  pub scope : (p.concurrency_mode ≡ "binding") ⊎ (p.task_space_scope ≡ p.default_task_space)

abbrev RequestFacts : Config → PermitRequest → Type 0
RequestFacts c r =
    (c.enabled ≡ true)
    × (lez r.script_bytes (pos 0) ≡ false)
    × (ltz c.max_script_bytes r.script_bytes ≡ false)
    × (lez r.timeout_ms (pos 0) ≡ false)
    × (ltz c.max_execute_timeout_ms r.timeout_ms ≡ false)

request_facts : (c : Config) (r : PermitRequest) → check_request c r ≡ ok tt → RequestFacts c r
unfolding check_request
request_facts c r h =
    (ground (arith, h), ground (arith, h), ground (arith, h), ground (arith, h), ground (arith, h))

dedicated_is : (t v : String) → dedicated_task_space t ≡ ok v → v ≡ "agent-remote:" ++ t
unfolding dedicated_task_space
dedicated_is t v h = ground (arith, h)

session_is :
    (n t : String) (b : Broker)
    → session_for_nonce n b ≡ ok t
    → (t ≡ nonce_session n b) × ((session_nonce (nonce_session n b) b == n) ≡ true)
unfolding session_for_nonce
session_is n t b h = (ground (arith, h), ground (arith, h))

second_ok :
    {A B : Type 0} (t : A) (o : Outcome BrokerError B) (x : A × B)
    → (o >>= λ s. ok (t, s)) ≡ ok x
    → t ≡ x.0
second_ok t (err e) x h = cc
second_ok t (ok s) x h = ground (arith, h)

first_ok :
    {A B : Type 0} (o : Outcome BrokerError A) (f : A → Outcome BrokerError B) (x : A × B)
    → (o >>= λ t. f t >>= λ s. ok (t, s)) ≡ ok x
    → o ≡ ok x.0
first_ok (err e) f x h = cc
first_ok (ok t) f x h = ap ok (second_ok t (f t) x h)

nonce_session_is :
    (n : String) (b : Broker) (x : String × BindingState)
    → binding_for_nonce n b ≡ ok x
    → session_for_nonce n b ≡ ok x.0
unfolding binding_for_nonce
nonce_session_is n b x h = first_ok (session_for_nonce n b) (λ t. binding_for_session t b) x h

-- The scope is the whole binding, or the task space itself.
abbrev ScopeFits : Admission → Type 0
ScopeFits a = ((a.scope.mode == "binding") ≡ true) ⊎ (a.scope.task_space ≡ a.task_space)

abbrev admission_of : String × BindingState → String → Scope → Admission
admission_of x space scope = record {
  session = x.0;
  task_space = space;
  scope = scope;
  handle = record { binding_id = x.1.metadata.binding_id; object = x.1.object };
}

record Admits (r : PermitRequest) (b : Broker) (a : Admission) : Type 0 where
  checked : check_request b.cfg r ≡ ok tt
  session : session_for_nonce r.startup_nonce b ≡ ok a.session
  space : dedicated_task_space a.session ≡ ok a.task_space
  scope : ScopeFits a

last_checks :
    (r : PermitRequest) (b : Broker) (x : String × BindingState) (d : Outcome BrokerError String)
    (e : Outcome BrokerError Scope) (a : Admission)
    → check_request b.cfg r ≡ ok tt
    → binding_for_nonce r.startup_nonce b ≡ ok x
    → dedicated_task_space x.0 ≡ d
    → (d >>= λ space. e >>= λ scope.
        refuse_if (not (scope.mode == "binding") && not (scope.task_space == space)) protocol
        >>= λ _. ok (record {
          session = x.0;
          task_space = space;
          scope = scope;
          handle = record { binding_id = x.1.metadata.binding_id; object = x.1.object };
        }))
      ≡ ok a
    → Admits r b a
last_checks r b x (err y) e a c f g h = cc
last_checks r b x (ok space) (err y) a c f g h = cc
last_checks r b x (ok space) (ok scope) a c f g h = elim (Bool-cases (scope.mode == "binding")) [
  | inl whole ↦
      let same : admission_of x space scope ≡ a = ground (arith, whole, h) in
      subst (Admits r b) same (record {
        checked = c;
        session = nonce_session_is r.startup_nonce b x f;
        space = g;
        scope = inl whole;
      })
  | inr part ↦ elim (Bool-cases (scope.task_space == space)) [
    | inl fits ↦
        let same : admission_of x space scope ≡ a = ground (arith, part, fits, h) in
        subst (Admits r b) same (record {
          checked = c;
          session = nonce_session_is r.startup_nonce b x f;
          space = g;
          scope = inr ((string_Eq.eqb_iff scope.task_space space).0 fits);
        })
    | inr foreign ↦ absurd (ground (arith, part, foreign, h))
  ]
]

abbrev admit_rest : (r : PermitRequest) → String × BindingState → Outcome BrokerError Admission
admit_rest r x = dedicated_task_space x.0 >>= λ space.
    normalize_scope r.concurrency_mode r.task_space_scope r.tab_scope >>= λ scope.
    refuse_if (not (scope.mode == "binding") && not (scope.task_space == space)) protocol >>= λ _.
    ok (record {
      session = x.0;
      task_space = space;
      scope = scope;
      handle = record { binding_id = x.1.metadata.binding_id; object = x.1.object };
    })

found_first :
    (r : PermitRequest) (b : Broker) (a : Admission)
    (o : Outcome BrokerError (String × BindingState))
    → check_request b.cfg r ≡ ok tt
    → binding_for_nonce r.startup_nonce b ≡ o
    → (or_unavailable o >>= admit_rest r) ≡ ok a
    → Admits r b a
found_first r b a (err e) c f h = cc
found_first r b a (ok x) c f h =
    last_checks r b x (dedicated_task_space x.0)
      (normalize_scope r.concurrency_mode r.task_space_scope r.tab_scope) a c f refl h

checked_first :
    (r : PermitRequest) (b : Broker) (a : Admission) (o : Outcome BrokerError (Unit {0}))
    → check_request b.cfg r ≡ o
    → (o >>= λ _. or_unavailable (binding_for_nonce r.startup_nonce b) >>= admit_rest r) ≡ ok a
    → Admits r b a
checked_first r b a (err e) c h = cc
checked_first r b a (ok tt) c h = found_first r b a (binding_for_nonce r.startup_nonce b) c refl h

admit-Admits : (r : PermitRequest) (b : Broker) (a : Admission) → admit r b ≡ ok a → Admits r b a
unfolding admit
admit-Admits r b a h = checked_first r b a (check_request b.cfg r) refl h

after_lease_ok :
    (commit : Broker → Answer Permit) (x : Answer (Unit {0})) (p : Permit)
    → (after_lease commit x).1 ≡ ok p
    → (c : Broker) × ((commit c).1 ≡ ok p)
after_lease_ok commit (c, err e) p h = cc
after_lease_ok commit (c, ok u) p h = (c, h)

issued_ok :
    (b : Broker) (go : Admission → Answer Permit) (o : Outcome BrokerError Admission) (p : Permit)
    → (issue_admitted b go o).1 ≡ ok p
    → (a : Admission) × (o ≡ ok a) × ((go a).1 ≡ ok p)
issued_ok b go (err x) p h = cc
issued_ok b go (ok a) p h = (a, refl, h)

scope_fits :
    (a : Admission) (p : Permit)
    → ScopeFits a
    → p.default_task_space ≡ a.task_space
    → p.concurrency_mode ≡ a.scope.mode
    → p.task_space_scope ≡ a.scope.task_space
    → (p.concurrency_mode ≡ "binding") ⊎ (p.task_space_scope ≡ p.default_task_space)
scope_fits a p (inl whole) space mode scope =
    inl (mode ∙ (string_Eq.eqb_iff a.scope.mode "binding").0 whole)
scope_fits a p (inr part) space mode scope = inr (scope ∙ part ∙ sym space)

-- A request that gets a permit came to an enabled broker with a script and a timeout within the
-- limits and with the capability of a session. The permit is confined to that session: its task space
-- is the one dedicated to the session, and its scope is the whole binding or that task space.
pub issue_permit-Confined :
    (now : ℕ) (persisted : Bool) (r : Randomness) (answer : Outcome BrokerError Renewal)
    (request : PermitRequest) (b meanwhile : Broker) (p : Permit)
    → (issue_permit now persisted r answer request b meanwhile).1 ≡ ok p
    → Confined request b p
unfolding issue_permit
issue_permit-Confined now persisted r answer request b meanwhile p h =
    let (a, admitted, went) = issued_ok b _ (admit request b) p h in
    let (c, committed) =
      after_lease_ok (commit_permit now persisted r request.startup_nonce a)
        (ensure_lease now a.handle answer b meanwhile) p went in
    let (s, backed) = commit_permit-Backed now persisted r request.startup_nonce a c p committed in
    let facts = admit-Admits request b a admitted in
    let checks = request_facts b.cfg request facts.checked in
    let session = session_is request.startup_nonce a.session b facts.session in
    record {
      enabled = checks.0;
      script = (checks.1, checks.2);
      timeout = (checks.3, checks.4);
      capability = (string_Eq.eqb_iff _ _).0 session.1;
      space =
          backed.space
          ∙ dedicated_is a.session a.task_space facts.space
          ∙ ap (λ t. "agent-remote:" ++ t) session.0;
      scope = scope_fits a p facts.scope backed.space backed.mode backed.scope;
    }
