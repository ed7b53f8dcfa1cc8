-- ===== src/Broker/Untouched.antt =====
-- The methods that leave the capabilities of tool sessions alone.
use agent_remote_node.Prelude.{
  ℕ, String, ◌≡◌, refl, ◌∙◌, Bool, not, Outcome, ok, err, Option, none, some, List, [], ◌∷◌,
  if_both, arith, ℤ, ◌==◌, string_Eq, nat_Eq, Bool-cases, inl, inr,
}
use agent_remote_node.Prelude.Map.{Map, get, entries}
use agent_remote_node.Broker.Texts.{BrokerError}
use agent_remote_node.Broker.Binding.{EgoBrowserBinding}
use agent_remote_node.Broker.State.{
  Broker, BindingState, clear_binding_materials, prune_expired_permits, next_sequence,
}
use agent_remote_node.Broker.Sessions.{Answer, clear_session}
use agent_remote_node.Broker.Bindings.{
  Handle, settled, settle, settle_all, set_fresh, set_bindings, end_generation, revoke_binding,
  expire_binding, reload_entries, mark_renewal_failure,
}
use agent_remote_node.Broker.Leases.{Renewal, finish_renewal, commit_renewal, fits_request}
use agent_remote_node.Broker.Permits.{Admission, Randomness, commit_permit, issue_for, fill_permit}
use agent_remote_node.Broker.Requests.{
  Identity, consume_permit, consume_found, pruned_replays, cancel_request, cancel_found,
  mark_request_sent,
}
use agent_remote_node.Broker.Capabilities.{IsPaired}

-- The capabilities of `c` are those of `b`.
pub record Same (b c : Broker) : Type 0 where
  pub sessions : c.sessions ≡ b.sessions
  pub nonces : c.nonces ≡ b.nonces
  pub peers : c.peer_uids ≡ b.peer_uids

pub Same-trans : {b c d : Broker} → Same b c → Same c d → Same b d
Same-trans f g = record {
  sessions = g.sessions ∙ f.sessions;
  nonces = g.nonces ∙ f.nonces;
  peers = g.peers ∙ f.peers;
}

pub Same-refl : {b : Broker} → Same b b
Same-refl = record { sessions = refl; nonces = refl; peers = refl }

pub Same-IsPaired : (b c : Broker) → Same b c → IsPaired b → IsPaired c
Same-IsPaired b c s p = rw (s.sessions, s.nonces, s.peers) p

clear-Same : (now : ℕ) (id : String) (b : Broker) → Same b (clear_binding_materials now id b)
unfolding clear_binding_materials
clear-Same now id b = record { sessions = refl; nonces = refl; peers = refl }

pub clear_session-Same :
    (now : ℕ) (t : String) (l : List (String × BindingState)) (b : Broker)
    → Same b (clear_session now t l b)
unfolding clear_session clear_binding_materials
clear_session-Same now t [] b = Same-refl
clear_session-Same now t ((id, s) ∷ rest) b = elim (Bool-cases (s.metadata.tool_session_id == t)) [
  | inl same ↦ rw same (
      let r = clear_session-Same now t rest _ in
      record { sessions = r.sessions; nonces = r.nonces; peers = r.peers })
  | inr differ ↦ rw differ (clear_session-Same now t rest b)
]

pub reload_entries-Same :
    (now : ℕ) (l : List (String × BindingState)) (b : Broker) → Same b (reload_entries now l b)
unfolding reload_entries clear_binding_materials
reload_entries-Same now [] b = Same-refl
reload_entries-Same now ((id, s) ∷ rest) b =
    let r = reload_entries-Same now rest _ in
    record { sessions = r.sessions; nonces = r.nonces; peers = r.peers }

settle-Same :
    (now : ℕ) (id : String) (old : BindingState) (fresh : Option BindingState)
    (x : Broker × Map String BindingState)
    → Same x.0 (settle now id old fresh x).0
unfolding settle
settle-Same now id old none (b, next) = clear-Same now id b
settle-Same now id old (some fresh) (b, next) =
    if_both (Same b) (settled old fresh).1 (λ _. clear-Same now id b) (λ _. Same-refl)

settle_all-Same :
    (now : ℕ) (l : List (String × BindingState)) (x : Broker × Map String BindingState)
    → Same x.0 (settle_all now l x).0
unfolding settle_all
settle_all-Same now [] x = Same-refl
settle_all-Same now ((id, old) ∷ rest) x =
    Same-trans (settle-Same now id old (get x.1 id) x)
      (settle_all-Same now rest (settle now id old (get x.1 id) x))

set_fresh-Same :
    (now count : ℕ) (b : Broker) (o : Outcome BrokerError (Map String BindingState))
    → Same b (set_fresh now count b o).0
unfolding set_fresh
set_fresh-Same now count b (err x) = Same-refl
set_fresh-Same now count b (ok next) =
    let r = settle_all-Same now (entries b.bindings) (b, next) in
    record { sessions = r.sessions; nonces = r.nonces; peers = r.peers }

pub set_bindings-Same :
    (now : ℕ) (metas : List EgoBrowserBinding) (b : Broker) → Same b (set_bindings now metas b).0
unfolding set_bindings
set_bindings-Same now metas b =
    if_both (λ (x : Answer (Unit {0})). Same b x.0) (not b.cfg.enabled) (λ _. Same-refl)
      (λ _. set_fresh-Same now _ b _)

pub revoke-Same : (now : ℕ) (id : String) (g : ℕ) (b : Broker) → Same b (revoke_binding now id g b)
unfolding revoke_binding end_generation clear_binding_materials
revoke-Same now id g b = record {
  sessions = ground arith;
  nonces = ground arith;
  peers = ground arith;
}

pub expire-Same : (now : ℕ) (h : Handle) (b : Broker) → Same b (expire_binding now h b)
unfolding expire_binding end_generation clear_binding_materials
expire-Same now h b = record {
  sessions = ground arith;
  nonces = ground arith;
  peers = ground arith;
}

pub failure-Same : (now : ℕ) (h : Handle) (b : Broker) → Same b (mark_renewal_failure now h b)
unfolding mark_renewal_failure end_generation clear_binding_materials
failure-Same now h b = record {
  sessions = ground arith;
  nonces = ground arith;
  peers = ground arith;
}

pub renew-Same :
    (now : ℕ) (h : Handle) (m : EgoBrowserBinding) (answer : Outcome BrokerError Renewal)
    (b : Broker)
    → Same b (finish_renewal now h m answer b).0
unfolding finish_renewal commit_renewal
renew-Same now h m (err x) b = failure-Same now h b
renew-Same now h m (ok r) b =
    if_both (λ (x : Answer (Unit {0})). Same b x.0) (fits_request now m r)
      (λ _. record { sessions = ground arith; nonces = ground arith; peers = ground arith })
      (λ _. failure-Same now h b)

pub issue-Same :
    (now : ℕ) (persisted : Bool) (r : Randomness) (nonce : String) (a : Admission) (b : Broker)
    → Same b (commit_permit now persisted r nonce a b).0
unfolding commit_permit issue_for fill_permit next_sequence prune_expired_permits
issue-Same now persisted r nonce a b = record {
  sessions = ground arith;
  nonces = ground arith;
  peers = ground arith;
}

pub consume-Same :
    (now : ℕ) (i : Identity) (payload : ℤ) (b : Broker) → Same b (consume_permit now i payload b).0
unfolding consume_permit consume_found pruned_replays
consume-Same now i payload b = record {
  sessions = ground arith;
  nonces = ground arith;
  peers = ground arith;
}

pub cancel-Same : (i : Identity) (b : Broker) → Same b (cancel_request i b).0
unfolding cancel_request cancel_found
cancel-Same i b = record { sessions = ground arith; nonces = ground arith; peers = ground arith }

pub sent-Same : (id : String) (s : ℕ) (b : Broker) → Same b (mark_request_sent id s b).0
unfolding mark_request_sent
sent-Same id s b = record { sessions = ground arith; nonces = ground arith; peers = ground arith }
