-- ===== src/Broker/Revival.antt =====
-- A generation of a binding that has ended is not revived.
use agent_remote_node.Prelude.{
  ℕ, ◌<◌, String, ◌≡◌, refl, ap, ◌∙◌, inl, inr, Bool, true, false, not, Outcome, ok, err, Option,
  none, some, List, [], ◌∷◌, if_both, arith, ◌==◌, string_Eq, nat_Eq, Bool-cases, subst,
}
use agent_remote_node.Prelude.Map.{Map, get, get-put, entries}
use agent_remote_node.Broker.Texts.{BrokerError}
use agent_remote_node.Broker.Binding.{EgoBrowserBinding}
use agent_remote_node.Broker.State.{
  Config, Broker, BindingState, adjusted, adjust, next_epoch, detached_relay,
  clear_binding_materials,
}
use agent_remote_node.Broker.Sessions.{
  Answer, clear_session, unregister_tool_session, not_registered, forgotten, reload_tool_session,
}
use agent_remote_node.Broker.Bindings.{
  Handle, current, ended, end_generation, revoke_binding, expire_binding, reload, reload_entries,
  mark_renewal_failure, still_live, grace_exhausted, in_grace, start_grace,
}
use agent_remote_node.Broker.Leases.{
  Renewal, finish_renewal, fits_request, commit_renewal, still_renewable, renewed,
}

-- The generation `g` has ended in this state, or the state is of a later one.
pub data Past (g : ℕ) (s : BindingState) : Type 0 where
  over :
      s.terminal ≡ true
      → s.terminal_generation ≡ g
      → s.metadata.binding_generation ≡ g
      → (s.metadata.status == "active") ≡ false
      → Past g s
  newer : g < s.metadata.binding_generation → Past g s

-- What the snapshot holds under the binding is past the generation.
pub record IsPast (id : String) (g : ℕ) (m : Map String BindingState) : Type 0 where
  pub found : (s : BindingState) → get m id ≡ some s → Past g s

same_past :
    (g : ℕ) (s t : BindingState)
    → t.terminal ≡ s.terminal
    → t.terminal_generation ≡ s.terminal_generation
    → t.metadata.binding_generation ≡ s.metadata.binding_generation
    → t.metadata.status ≡ s.metadata.status
    → Past g s
    → Past g t
same_past g s t a b c d (over w x y z) =
    over (a ∙ w) (b ∙ x) (c ∙ y) (ap (λ v. v == "active") d ∙ z)
same_past g s t a b c d (newer lt) = newer (omega (arith, c, lt))

adjust-IsPast :
    (f : BindingState → BindingState) (id k : String) (g : ℕ) (m : Map String BindingState)
    (o : Option BindingState)
    → get m k ≡ o
    → ((s : BindingState) → get m k ≡ some s → Past g s → Past g (f s))
    → IsPast id g m
    → IsPast id g (adjust f k m o)
adjust-IsPast f id k g m none e keeps p = p
adjust-IsPast f id k g m (some s) e keeps p = record {
  found = λ t h. elim (Bool-cases (k == id)) [
    | inl same ↦
        let eq = (string_Eq.eqb_iff k id).0 same in
        let value : f s ≡ t = ground (arith, get-put m k (f s) id, same, h) in
        let old = p.found s (subst (λ x. get m x ≡ some s) eq e) in
        subst (Past g) value (keeps s e old)
    | inr differ ↦ p.found t (ground (arith, get-put m k (f s) id, differ, h))
  ];
}

adjusted-IsPast :
    (f : BindingState → BindingState) (id k : String) (g : ℕ) (m : Map String BindingState)
    → ((s : BindingState) → get m k ≡ some s → Past g s → Past g (f s))
    → IsPast id g m
    → IsPast id g (adjusted f k m)
adjusted-IsPast f id k g m = adjust-IsPast f id k g m (get m k) refl

-- Whatever generations are past in `b` are past in `c`.
pub record Onward (b c : Broker) : Type 0 where
  pub keeps : (id : String) (g : ℕ) → IsPast id g b.bindings → IsPast id g c.bindings

pub Onward-refl : {b : Broker} → Onward b b
Onward-refl = record { keeps = λ id g p. p }

pub Onward-trans : {b c d : Broker} → Onward b c → Onward c d → Onward b d
Onward-trans f g = record { keeps = λ id n p. g.keeps id n (f.keeps id n p) }

abbrev with_adjusted : (BindingState → BindingState) → String → Broker → Broker
with_adjusted f k b = record b { bindings = adjusted f k b.bindings }

adjusted-Onward :
    (f : BindingState → BindingState) (k : String) (b : Broker)
    → ((g : ℕ) (s : BindingState) → get b.bindings k ≡ some s → Past g s → Past g (f s))
    → Onward b (with_adjusted f k b)
adjusted-Onward f k b keeps = record {
  keeps = λ id g p. adjusted-IsPast f id k g b.bindings (keeps g) p;
}

pub clear-Onward : (now : ℕ) (k : String) (b : Broker) → Onward b (clear_binding_materials now k b)
unfolding clear_binding_materials
clear-Onward now k b = record {
  keeps = λ id g p.
      adjusted-IsPast next_epoch id k g b.bindings
        (λ s e. same_past g s (next_epoch s) refl refl refl refl) p;
}

pub detach-Onward : (k : String) (b : Broker) → Onward b (with_adjusted detached_relay k b)
detach-Onward k b =
    adjusted-Onward detached_relay k b
      (λ g s e. same_past g s (detached_relay s) refl refl refl refl)

clear_session-Onward :
    (now : ℕ) (t : String) (l : List (String × BindingState)) (b : Broker)
    → Onward b (clear_session now t l b)
unfolding clear_session
clear_session-Onward now t [] b = Onward-refl
clear_session-Onward now t ((id, s) ∷ rest) b =
    elim (Bool-cases (s.metadata.tool_session_id == t)) [
      | inl same ↦ rw same (
          Onward-trans
            (Onward-trans (clear-Onward now id b)
              (detach-Onward id (clear_binding_materials now id b)))
            (clear_session-Onward now t rest _))
      | inr differ ↦ rw differ (clear_session-Onward now t rest b)
    ]

pub unregister-Onward :
    (now : ℕ) (t n : String) (b : Broker) → Onward b (unregister_tool_session now t n b).0
unfolding unregister_tool_session
unregister-Onward now t n b =
    if_both (λ (x : Broker × Bool). Onward b x.0) (not_registered t n b) (λ _. Onward-refl)
      (λ _. record {
        keeps = λ id g p.
            (clear_session-Onward now t (entries b.bindings) (forgotten t b)).keeps id g p;
      })

pub reload_session-Onward :
    (now : ℕ) (t : String) (b : Broker) → Onward b (reload_tool_session now t b)
unfolding reload_tool_session
reload_session-Onward now t b = clear_session-Onward now t (entries b.bindings) b

reload_entries-Onward :
    (now : ℕ) (l : List (String × BindingState)) (b : Broker) → Onward b (reload_entries now l b)
unfolding reload_entries
reload_entries-Onward now [] b = Onward-refl
reload_entries-Onward now ((id, s) ∷ rest) b =
    Onward-trans
      (Onward-trans (clear-Onward now id b) (detach-Onward id (clear_binding_materials now id b)))
      (reload_entries-Onward now rest _)

pub reload-Onward : (now : ℕ) (b : Broker) → Onward b (reload now b)
unfolding reload
reload-Onward now b = reload_entries-Onward now (entries b.bindings) b

ended_past :
    (status : String)
    → (status == "active") ≡ false
    → (g : ℕ) (s : BindingState) → Past g s
    → Past g (ended status s)
ended_past status idle g s (over w x y z) = over refl y y idle
ended_past status idle g s (newer lt) = newer lt

pub end-Onward :
    (now : ℕ) (status k : String) (b : Broker)
    → (status == "active") ≡ false
    → Onward b (end_generation now status k b)
unfolding end_generation
end-Onward now status k b idle =
    Onward-trans (adjusted-Onward (ended status) k b (λ g s e. ended_past status idle g s))
      (clear-Onward now k (with_adjusted (ended status) k b))

pub revoke-Onward :
    (now : ℕ) (id : String) (g : ℕ) (b : Broker) → Onward b (revoke_binding now id g b)
unfolding revoke_binding
revoke-Onward now id g b =
    if_both (Onward b) _ (λ _. end-Onward now "revoked" id b refl) (λ _. Onward-refl)

pub expire-Onward : (now : ℕ) (h : Handle) (b : Broker) → Onward b (expire_binding now h b)
unfolding expire_binding
expire-Onward now h b =
    if_both (Onward b) _ (λ _. end-Onward now "expired" h.binding_id b refl) (λ _. Onward-refl)

grace_past :
    (now : ℕ) (c : Config) (g : ℕ) (s : BindingState) → Past g s → Past g (in_grace now c s)
unfolding start_grace
grace_past now c g s = same_past g s (in_grace now c s) refl refl refl refl

pub failure-Onward : (now : ℕ) (h : Handle) (b : Broker) → Onward b (mark_renewal_failure now h b)
unfolding mark_renewal_failure
failure-Onward now h b =
    if_both (Onward b) (not (still_live h b)) (λ _. Onward-refl)
      (λ _.
        if_both (Onward b) (grace_exhausted now h b)
          (λ _.
            Onward-trans (end-Onward now "expired" h.binding_id b refl)
              (clear-Onward now h.binding_id _))
          (λ _.
            Onward-trans
              (adjusted-Onward (in_grace now b.cfg) h.binding_id b
                (λ g s e. grace_past now b.cfg g s))
              (clear-Onward now h.binding_id (with_adjusted (in_grace now b.cfg) h.binding_id b))))

-- A state that may be renewed has not ended, and keeps its generation.
renewed_past :
    (h : Handle) (m : EgoBrowserBinding) (r : Renewal) (b : Broker) (g : ℕ) (s : BindingState)
    → still_renewable h m b ≡ true
    → r.binding_generation ≡ m.binding_generation
    → get b.bindings h.binding_id ≡ some s
    → Past g s
    → (limit : _) → Past g (renewed r limit s)
unfolding still_renewable current
renewed_past h m r b g s live same e (over w x y z) limit = absurd (ground (arith, live, e, w))
renewed_past h m r b g s live same e (newer lt) limit =
    let own : s.metadata.binding_generation ≡ m.binding_generation = ground (arith, live, e) in
    newer (omega (arith, own, same, lt))

renew_commit-Onward :
    (h : Handle) (m : EgoBrowserBinding) (r : Renewal) (b : Broker)
    → r.binding_generation ≡ m.binding_generation
    → Onward b (commit_renewal h m r b).0
unfolding commit_renewal
renew_commit-Onward h m r b same =
    if_both (λ (x : Answer (Unit {0})). Onward b x.0) (still_renewable h m b)
      (λ live.
        adjusted-Onward (renewed r _) h.binding_id b
          (λ g s e p. renewed_past h m r b g s live same e p _))
      (λ _. Onward-refl)

fits_generation :
    (now : ℕ) (m : EgoBrowserBinding) (r : Renewal)
    → fits_request now m r ≡ true
    → r.binding_generation ≡ m.binding_generation
unfolding fits_request
fits_generation now m r h = ground (arith, h)

pub renew-Onward :
    (now : ℕ) (h : Handle) (m : EgoBrowserBinding) (answer : Outcome BrokerError Renewal)
    (b : Broker)
    → Onward b (finish_renewal now h m answer b).0
unfolding finish_renewal
renew-Onward now h m (err x) b = failure-Onward now h b
renew-Onward now h m (ok r) b =
    if_both (λ (x : Answer (Unit {0})). Onward b x.0) (fits_request now m r)
      (λ fits. renew_commit-Onward h m r b (fits_generation now m r fits))
      (λ _. failure-Onward now h b)
