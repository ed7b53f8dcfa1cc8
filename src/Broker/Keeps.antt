-- ===== src/Broker/Keeps.antt =====
-- What the methods that end permits keep: no permit appears, and the sequence stands.
use agent_remote_node.Prelude.{
  Option-cases, ap, ◌≤◌, ℕ, String, ◌≡◌, refl, ◌∙◌, Bool, true, false, not, Outcome, ok, err,
  Option, none, some, List, [], ◌∷◌, if◌then◌else◌, if_both, arith, inl, inr, ℤ, ◌==◌, string_Eq,
  nat_Eq, leb, ltb, Bool-cases,
}
use agent_remote_node.Prelude.Map.{
  count, count-retain, count-remove, count-replace, Map, get, retain, remove, entries, get-retain,
  get-remove,
}
use agent_remote_node.Broker.Texts.{BrokerError}
use agent_remote_node.Broker.Binding.{EgoBrowserBinding}
use agent_remote_node.Broker.State.{
  active_request_count, ActiveRequest, Broker, BindingState, Permit, clear_binding_materials,
  prune_expired_permits, release_request, adjusted,
}
use agent_remote_node.Broker.Sessions.{
  forgotten, Answer, not_registered, register_tool_session, register_checked, with_nonce,
  clear_session, unregister_tool_session, reload_tool_session,
}
use agent_remote_node.Broker.Bindings.{
  Handle, still_live, grace_exhausted, in_grace, settle, settle_all, settled, set_fresh,
  set_bindings, end_generation, revoke_binding, expire_binding, reload_entries, reload,
  mark_renewal_failure,
}
use agent_remote_node.Broker.Leases.{
  Renewal, finish_renewal, commit_renewal, still_renewable, with_lease, fits_request,
}
use agent_remote_node.Broker.Requests.{
  adjust_request, submitted_request, Identity, pruned_replays, same_identity, permit_identity,
  bad_payload, dropped, used, consume_permit, consume_found,
}

-- `c` has no permit under a sequence where `b` has none, and the same sequence numbers.
pub record Fewer (b c : Broker) : Type 0 where
  pub absent : (s : ℕ) → get b.permits s ≡ none → get c.permits s ≡ none
  pub sequence : c.sequence ≡ b.sequence
  pub file : c.sequence_file ≡ b.sequence_file
  pub config : c.cfg ≡ b.cfg
  pub active : (id : String) → active_request_count id c ≤ active_request_count id b

pub Fewer-refl : {b : Broker} → Fewer b b
Fewer-refl = record {
  absent = λ s h. h;
  sequence = refl;
  file = refl;
  config = refl;
  active = λ id. unfold active_request_count in omega arith;
}

pub Fewer-trans : {b c d : Broker} → Fewer b c → Fewer c d → Fewer b d
Fewer-trans f g = record {
  absent = λ s h. g.absent s (f.absent s h);
  sequence = g.sequence ∙ f.sequence;
  file = g.file ∙ f.file;
  config = g.config ∙ f.config;
  active = λ id. omega (arith, f.active id, g.active id);
}

kept_none :
    (p : ℕ → Permit → Bool) (m : Map ℕ Permit) (s : ℕ) → get m s ≡ none → get (retain p m) s ≡ none
kept_none p m s h = rw (get-retain p m s, h)

removed_none : (m : Map ℕ Permit) (k s : ℕ) → get m s ≡ none → get (remove m k) s ≡ none
removed_none m k s h = rw (get-remove m k s, h) (ground arith)

-- Changing a request, but not its binding, keeps the counts.
pub adjust-count :
    (f : ActiveRequest → ActiveRequest)
    → ((r : ActiveRequest) → (f r).binding_id ≡ r.binding_id)
    → (id : String) (s : ℕ) (m : Map ℕ ActiveRequest)
    → count (λ s r. r.binding_id == id) (adjust_request f s m (get m s))
      ≤ count (λ s r. r.binding_id == id) m
adjust-count f same id s m = elim (Option-cases (get m s)) [
  | inl e ↦ rw e (omega arith)
  | inr (r, e) ↦ rw e (
      let kept =
        count-replace (λ (s : ℕ) (r : ActiveRequest). r.binding_id == id) m s r (f r) e
          (ap (λ x. x == id) (same r)) in
      omega (arith, kept))
]

pub clear-Fewer : (now : ℕ) (id : String) (b : Broker) → Fewer b (clear_binding_materials now id b)
unfolding clear_binding_materials
clear-Fewer now id b = record {
  absent = λ s h. kept_none (λ s p. not (p.binding_id == id)) b.permits s h;
  sequence = refl;
  file = refl;
  config = refl;
  active = λ k.
      unfold active_request_count in
      count-retain _ (λ (s : ℕ) (r : ActiveRequest). not (r.binding_id == id)) b.active;
}

pub prune-Fewer : (now : ℕ) (b : Broker) → Fewer b (prune_expired_permits now b)
unfolding prune_expired_permits
prune-Fewer now b = record {
  absent = λ s h. kept_none (λ s p. ltb now p.expires_at) b.permits s h;
  sequence = refl;
  file = refl;
  config = refl;
  active = λ id. unfold active_request_count in count-retain _ _ b.active;
}

pub release-Fewer : (s : ℕ) (b : Broker) → Fewer b (release_request s b)
unfolding release_request
release-Fewer k b = record {
  absent = λ s h. removed_none b.permits k s h;
  sequence = refl;
  file = refl;
  config = refl;
  active = λ id. unfold active_request_count in count-remove _ b.active k;
}

-- A change of the bindings alone.
pub same-Fewer : {b : Broker} (m : Map String BindingState) → Fewer b (record b { bindings = m })
same-Fewer m = record {
  absent = λ s h. h;
  sequence = refl;
  file = refl;
  config = refl;
  active = λ id. unfold active_request_count in omega arith;
}

abbrev maybe_cleared : ℕ → String → Broker → Bool → Broker
maybe_cleared now id b c = if c then clear_binding_materials now id b else b

maybe-Fewer : (now : ℕ) (id : String) (b : Broker) (c : Bool) → Fewer b (maybe_cleared now id b c)
maybe-Fewer now id b true = clear-Fewer now id b
maybe-Fewer now id b false = Fewer-refl

pub clear_session-Fewer :
    (now : ℕ) (t : String) (l : List (String × BindingState)) (b : Broker)
    → Fewer b (clear_session now t l b)
unfolding clear_session
clear_session-Fewer now t [] b = Fewer-refl
clear_session-Fewer now t ((id, s) ∷ rest) b = elim (Bool-cases (s.metadata.tool_session_id == t)) [
  | inl same ↦ rw same (
      Fewer-trans (Fewer-trans (clear-Fewer now id b) (same-Fewer _))
        (clear_session-Fewer now t rest _))
  | inr differ ↦ rw differ (clear_session-Fewer now t rest b)
]

forgotten-Fewer : (t : String) (b : Broker) → Fewer b (forgotten t b)
forgotten-Fewer t b = record {
  absent = λ s h. h;
  sequence = refl;
  file = refl;
  config = refl;
  active = λ id. unfold active_request_count in omega arith;
}

pub unregister-Fewer :
    (now : ℕ) (t n : String) (b : Broker) → Fewer b (unregister_tool_session now t n b).0
unfolding unregister_tool_session
unregister-Fewer now t n b =
    if_both (λ (x : Broker × Bool). Fewer b x.0) (not_registered t n b) (λ _. Fewer-refl)
      (λ _.
        Fewer-trans (forgotten-Fewer t b)
          (clear_session-Fewer now t (entries b.bindings) (forgotten t b)))

pub reload_session-Fewer :
    (now : ℕ) (t : String) (b : Broker) → Fewer b (reload_tool_session now t b)
unfolding reload_tool_session
reload_session-Fewer now t b = clear_session-Fewer now t (entries b.bindings) b

pub reload_entries-Fewer :
    (now : ℕ) (l : List (String × BindingState)) (b : Broker) → Fewer b (reload_entries now l b)
unfolding reload_entries
reload_entries-Fewer now [] b = Fewer-refl
reload_entries-Fewer now ((id, s) ∷ rest) b =
    Fewer-trans (Fewer-trans (clear-Fewer now id b) (same-Fewer _))
      (reload_entries-Fewer now rest _)

pub reload-Fewer : (now : ℕ) (b : Broker) → Fewer b (reload now b)
unfolding reload
reload-Fewer now b = reload_entries-Fewer now (entries b.bindings) b

settle-Fewer :
    (now : ℕ) (id : String) (old : BindingState) (fresh : Option BindingState)
    (x : Broker × Map String BindingState)
    → Fewer x.0 (settle now id old fresh x).0
unfolding settle
settle-Fewer now id old none (b, next) = clear-Fewer now id b
settle-Fewer now id old (some fresh) (b, next) = maybe-Fewer now id b (settled old fresh).1

settle_all-Fewer :
    (now : ℕ) (l : List (String × BindingState)) (x : Broker × Map String BindingState)
    → Fewer x.0 (settle_all now l x).0
unfolding settle_all
settle_all-Fewer now [] x = Fewer-refl
settle_all-Fewer now ((id, old) ∷ rest) x =
    Fewer-trans (settle-Fewer now id old (get x.1 id) x) (settle_all-Fewer now rest _)

set_fresh-Fewer :
    (now count : ℕ) (b : Broker) (o : Outcome BrokerError (Map String BindingState))
    → Fewer b (set_fresh now count b o).0
unfolding set_fresh
set_fresh-Fewer now count b (err x) = Fewer-refl
set_fresh-Fewer now count b (ok next) =
    Fewer-trans (settle_all-Fewer now (entries b.bindings) (b, next)) (record {
      absent = λ s h. h;
      sequence = refl;
      file = refl;
      config = refl;
      active = λ id. unfold active_request_count in omega arith;
    })

pub set_bindings-Fewer :
    (now : ℕ) (metas : List EgoBrowserBinding) (b : Broker) → Fewer b (set_bindings now metas b).0
unfolding set_bindings
set_bindings-Fewer now metas b =
    if_both (λ (x : Answer (Unit {0})). Fewer b x.0) (not b.cfg.enabled) (λ _. Fewer-refl)
      (λ _. set_fresh-Fewer now _ b _)

pub end-Fewer :
    (now : ℕ) (status id : String) (b : Broker) → Fewer b (end_generation now status id b)
unfolding end_generation
end-Fewer now status id b = Fewer-trans (same-Fewer _) (clear-Fewer now id _)

pub revoke-Fewer :
    (now : ℕ) (id : String) (g : ℕ) (b : Broker) → Fewer b (revoke_binding now id g b)
unfolding revoke_binding
revoke-Fewer now id g b = if_both (Fewer b) _ (λ _. end-Fewer now "revoked" id b) (λ _. Fewer-refl)

pub expire-Fewer : (now : ℕ) (h : Handle) (b : Broker) → Fewer b (expire_binding now h b)
unfolding expire_binding
expire-Fewer now h b =
    if_both (Fewer b) _ (λ _. end-Fewer now "expired" h.binding_id b) (λ _. Fewer-refl)

pub mark_failure-Fewer :
    (now : ℕ) (h : Handle) (b : Broker) → Fewer b (mark_renewal_failure now h b)
unfolding mark_renewal_failure
mark_failure-Fewer now h b =
    if_both (Fewer b) (not (still_live h b)) (λ _. Fewer-refl)
      (λ _.
        if_both (Fewer b) (grace_exhausted now h b)
          (λ _.
            Fewer-trans (end-Fewer now "expired" h.binding_id b) (clear-Fewer now h.binding_id _))
          (λ _.
            Fewer-trans (same-Fewer (adjusted (in_grace now b.cfg) h.binding_id b.bindings))
              (clear-Fewer now h.binding_id _)))

commit-Fewer :
    (h : Handle) (m : EgoBrowserBinding) (r : Renewal) (b : Broker)
    → Fewer b (commit_renewal h m r b).0
unfolding commit_renewal
commit-Fewer h m r b =
    if_both (λ (x : Answer (Unit {0})). Fewer b x.0) (still_renewable h m b)
      (λ _. same-Fewer (with_lease h m r b).bindings) (λ _. Fewer-refl)

pub renew-Fewer :
    (now : ℕ) (h : Handle) (m : EgoBrowserBinding) (answer : Outcome BrokerError Renewal)
    (b : Broker)
    → Fewer b (finish_renewal now h m answer b).0
unfolding finish_renewal
renew-Fewer now h m (err x) b = mark_failure-Fewer now h b
renew-Fewer now h m (ok r) b =
    if_both (λ (x : Answer (Unit {0})). Fewer b x.0) (fits_request now m r)
      (λ _. commit-Fewer h m r b) (λ _. mark_failure-Fewer now h b)

dropped-Fewer : (s : ℕ) (b : Broker) → Fewer b (dropped s b)
dropped-Fewer k b = record {
  absent = λ s h. removed_none b.permits k s h;
  sequence = refl;
  file = refl;
  config = refl;
  active = λ id. unfold active_request_count in count-remove _ b.active k;
}

used-Fewer : (now s : ℕ) (b : Broker) → Fewer b (used now s b)
used-Fewer now k b = record {
  absent = λ s h. removed_none b.permits k s h;
  sequence = refl;
  file = refl;
  config = refl;
  active =
      λ id. unfold active_request_count in adjust-count submitted_request (λ r. refl) id k b.active;
}

found-Fewer :
    (now : ℕ) (i : Identity) (payload : ℤ) (b : Broker) (o : Option Permit)
    → Fewer b (consume_found now i payload b o).0
unfolding consume_found
found-Fewer now i payload b none = Fewer-refl
found-Fewer now i payload b (some p) =
    if_both (λ (x : Answer Permit). Fewer b x.0) (not (same_identity (permit_identity p) i))
      (λ _. Fewer-refl)
      (λ _.
        if_both (λ (x : Answer Permit). Fewer b x.0) (bad_payload payload p) (λ _. Fewer-refl)
          (λ _.
            if_both (λ (x : Answer Permit). Fewer b x.0) (leb p.expires_at now)
              (λ _. dropped-Fewer i.sequence b) (λ _. used-Fewer now i.sequence b)))

pub consume-Fewer :
    (now : ℕ) (i : Identity) (payload : ℤ) (b : Broker) → Fewer b (consume_permit now i payload b).0
unfolding consume_permit pruned_replays
consume-Fewer now i payload b =
    Fewer-trans {c = pruned_replays now b}
      (record {
        absent = λ s h. h;
        sequence = refl;
        file = refl;
        config = refl;
        active = λ id. unfold active_request_count in omega arith;
      })
      (found-Fewer now i payload (pruned_replays now b) (get b.permits i.sequence))

checked-Fewer :
    (draws : List (Option String)) (t : String) (b : Broker) (o : Outcome BrokerError String)
    (a : Answer (String × Bool))
    → register_checked draws t b o ≡ some a
    → Fewer b a.0
unfolding register_checked with_nonce
checked-Fewer draws t b o a h = record {
  absent = λ s n. ground arith;
  sequence = ground arith;
  file = ground arith;
  config = ground arith;
  active = λ id. unfold active_request_count in ground arith;
}

pub register-Fewer :
    (draws : List (Option String)) (t : String) (b : Broker) (a : Answer (String × Bool))
    → register_tool_session draws t b ≡ some a
    → Fewer b a.0
unfolding register_tool_session
register-Fewer draws t b a h = checked-Fewer draws t b _ a h
