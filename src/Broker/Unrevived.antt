-- ===== src/Broker/Unrevived.antt =====
-- A generation that has ended stays ended while the binding stays in the snapshot.
use agent_remote_node.Prelude.{
  ℕ, String, ◌≡◌, refl, sym, ap, ◌∙◌, inl, inr, Bool, true, not, ◌&&◌, Outcome, ok, err, Option,
  none, some, List, [], ◌∷◌, if◌then◌else◌, if_both, arith, ℤ, ◌==◌, string_Eq, nat_Eq, leb, ltb,
  Bool-cases, subst, is_some,
}
use agent_remote_node.Prelude.Map.{
  Map, get, get-put, get-empty, empty, entries, Unique, Fresh, lookup_pairs, lookup-Fresh,
}
use agent_remote_node.Broker.Texts.{BrokerError}
use agent_remote_node.Broker.Binding.{EgoBrowserBinding}
use agent_remote_node.Broker.State.{
  Config, Broker, BindingState, new_broker, next_sequence, prune_expired_permits, release_request,
}
use agent_remote_node.Broker.Sessions.{
  Answer, register_tool_session, register_checked, with_nonce, commit_peer,
}
use agent_remote_node.Broker.Bindings.{settled, settle, settle_all, set_fresh, set_bindings}
use agent_remote_node.Broker.Permits.{Admission, Randomness, commit_permit, issue_for, fill_permit}
use agent_remote_node.Broker.Run.{
  Op, registers, authorizes, unregisters, reloads_session, sets_bindings, revokes, expires, reloads,
  fails_renewal, renews, issues, consumes, cancels, releases, marks_sent, finishes, prunes, closes,
  restarts, after_register, restarted, step, run,
}
use agent_remote_node.Broker.Requests.{
  Identity, consume_permit, consume_found, pruned_replays, cancel_request, cancel_found,
  mark_request_sent, finish_request_forward,
}
use agent_remote_node.Broker.Revival.{
  Past, over, newer, IsPast, Onward, unregister-Onward, reload_session-Onward, revoke-Onward,
  expire-Onward, reload-Onward, failure-Onward, renew-Onward,
}

-- What a round of `SetBindings` leaves under the key of the old state.
abbrev chosen : Option BindingState → Option BindingState → Option BindingState
chosen none fresh = fresh
chosen (some old) none = none
chosen (some old) (some fresh) = some (settled old fresh).0

get-settle :
    (now : ℕ) (id : String) (old : BindingState) (fresh : Option BindingState)
    (x : Broker × Map String BindingState) (j : String)
    → get x.1 id ≡ fresh
    → get (settle now id old fresh x).1 j ≡ (if id == j then chosen (some old) fresh else get x.1 j)
unfolding settle
get-settle now id old none (b, next) j e = elim (Bool-cases (id == j)) [
  | inl same ↦ rw same (subst (λ k. get next k ≡ none) ((string_Eq.eqb_iff id j).0 same) e)
  | inr differ ↦ rw differ refl
]
get-settle now id old (some fresh) (b, next) j e = get-put next id (settled old fresh).0 j

get-settle_all :
    (now : ℕ) (l : List (String × BindingState)) (x : Broker × Map String BindingState) (j : String)
    → Unique l
    → get (settle_all now l x).1 j ≡ chosen (lookup_pairs j l) (get x.1 j)
unfolding settle_all lookup_pairs
get-settle_all now [] x j u = refl
get-settle_all now ((id, old) ∷ rest) x j u =
    let ih = get-settle_all now rest (settle now id old (get x.1 id) x) j u.1 in
    let head = get-settle now id old (get x.1 id) x j refl in
    elim (Bool-cases (id == j)) [
      | inl same ↦
          let eq = (string_Eq.eqb_iff id j).0 same in
          let gone = lookup-Fresh j rest (subst (λ k. Fresh k rest) eq u.0) in
          rw same (
            ih
            ∙ ap (λ o. chosen o (get (settle now id old (get x.1 id) x).1 j)) gone
            ∙ (head ∙ rw same (ap (λ k. chosen (some old) (get x.1 k)) eq)))
      | inr differ ↦ rw differ (ih ∙ ap (chosen (lookup_pairs j rest)) (head ∙ rw differ refl))
    ]

settled_past : (g : ℕ) (old fresh : BindingState) → Past g old → Past g (settled old fresh).0
unfolding settled
settled_past g old fresh (over w x y z) =
    if_both (λ (r : BindingState × Bool). Past g r.0)
      (ltb fresh.metadata.binding_generation old.metadata.binding_generation) (λ _. over w x y z)
      (λ lower.
        if_both (λ (r : BindingState × Bool). Past g r.0)
          (old.terminal && leb fresh.metadata.binding_generation old.terminal_generation)
          (λ _. over w x y z) (λ higher. newer (ground (arith, w, x, y, higher))))
settled_past g old fresh (newer lt) =
    if_both (λ (r : BindingState × Bool). Past g r.0)
      (ltb fresh.metadata.binding_generation old.metadata.binding_generation) (λ _. newer lt)
      (λ lower.
        if_both (λ (r : BindingState × Bool). Past g r.0)
          (old.terminal && leb fresh.metadata.binding_generation old.terminal_generation)
          (λ _. newer lt) (λ higher. newer (ground (arith, lower, lt))))

chosen_past :
    (g : ℕ) (old s : BindingState) (o : Option BindingState)
    → Past g old
    → chosen (some old) o ≡ some s
    → Past g s
chosen_past g old s none p e = cc
chosen_past g old s (some fresh) p e =
    subst (Past g) (ground (arith, e)) (settled_past g old fresh p)

-- The binding is there, and past the generation.
pub record Ended (id : String) (g : ℕ) (b : Broker) : Type 0 where
  pub state : BindingState
  pub found : get b.bindings id ≡ some state
  pub past : Past g state

Ended-IsPast : (id : String) (g : ℕ) (b : Broker) → Ended id g b → IsPast id g b.bindings
Ended-IsPast id g b e = record { found = λ s h. subst (Past g) (ground (arith, e.found, h)) e.past }

set_fresh-IsPast :
    (now count : ℕ) (b : Broker) (o : Outcome BrokerError (Map String BindingState)) (id : String)
    (g : ℕ)
    → Ended id g b
    → IsPast id g (set_fresh now count b o).0.bindings
unfolding set_fresh get entries
set_fresh-IsPast now count b (err x) id g e = Ended-IsPast id g b e
set_fresh-IsPast now count b (ok next) id g e = record {
  found = λ s h.
      let all = get-settle_all now b.bindings.pairs (b, next) id b.bindings.unique in
      chosen_past g e.state s (lookup_pairs id next.pairs) e.past
        (ap (λ o. chosen o (lookup_pairs id next.pairs)) (sym e.found) ∙ (sym all ∙ h));
}

pub set_bindings-IsPast :
    (now : ℕ) (metas : List EgoBrowserBinding) (b : Broker) (id : String) (g : ℕ)
    → Ended id g b
    → IsPast id g (set_bindings now metas b).0.bindings
unfolding set_bindings
set_bindings-IsPast now metas b id g e =
    if_both (λ (x : Answer (Unit {0})). IsPast id g x.0.bindings) (not b.cfg.enabled)
      (λ _. Ended-IsPast id g b e) (λ _. set_fresh-IsPast now _ b _ id g e)

same-IsPast :
    (id : String) (g : ℕ) (b : Broker) (m : Map String BindingState)
    → m ≡ b.bindings
    → Ended id g b
    → IsPast id g m
same-IsPast id g b m same e = subst (IsPast id g) (sym same) (Ended-IsPast id g b e)

Onward-IsPast :
    (id : String) (g : ℕ) (b c : Broker) → Onward b c → Ended id g b → IsPast id g c.bindings
Onward-IsPast id g b c f e = f.keeps id g (Ended-IsPast id g b e)

register_bindings :
    (draws : List (Option String)) (t : String) (b : Broker)
    → (after_register b (register_tool_session draws t b)).bindings ≡ b.bindings
unfolding register_tool_session register_checked with_nonce
register_bindings draws t b = ground arith

peer_bindings :
    (t n : String) (uid : ℕ) (b : Broker) → (commit_peer t n uid b).0.bindings ≡ b.bindings
unfolding commit_peer
peer_bindings t n uid b = ground arith

issue_bindings :
    (now : ℕ) (persisted : Bool) (r : Randomness) (nonce : String) (a : Admission) (b : Broker)
    → (commit_permit now persisted r nonce a b).0.bindings ≡ b.bindings
unfolding commit_permit issue_for fill_permit next_sequence prune_expired_permits
issue_bindings now persisted r nonce a b = ground arith

consume_bindings :
    (now : ℕ) (i : Identity) (payload : ℤ) (b : Broker)
    → (consume_permit now i payload b).0.bindings ≡ b.bindings
unfolding consume_permit consume_found pruned_replays
consume_bindings now i payload b = ground arith

cancel_bindings : (i : Identity) (b : Broker) → (cancel_request i b).0.bindings ≡ b.bindings
unfolding cancel_request cancel_found
cancel_bindings i b = ground arith

sent_bindings :
    (id : String) (s : ℕ) (b : Broker) → (mark_request_sent id s b).0.bindings ≡ b.bindings
unfolding mark_request_sent
sent_bindings id s b = ground arith

restart-IsPast :
    (id : String) (g : ℕ) (b : Broker) (o : Outcome BrokerError Broker)
    → ((c : Broker) → o ≡ ok c → c.bindings ≡ empty)
    → Ended id g b
    → IsPast id g (restarted b o).bindings
restart-IsPast id g b (err x) f e = Ended-IsPast id g b e
restart-IsPast id g b (ok c) f e = record {
  found = λ s h. cc (get-empty {V = BindingState} id, h, f c refl);
}

new_bindings : (c : Config) (n : ℕ) (b : Broker) → new_broker c (ok n) ≡ ok b → b.bindings ≡ empty
unfolding new_broker
new_bindings c n b h = ground (arith, h)

-- Whatever method is called while a binding whose generation has ended is in the snapshot: afterwards
-- the binding is gone, or still ended in that generation and not active, or of a later generation. A
-- snapshot of the control plane, late or not, and a renewal's answer do not revive it.
pub step-IsPast :
    (op : Op) (b : Broker) (id : String) (g : ℕ) → Ended id g b → IsPast id g (step op b).bindings
unfolding step release_request finish_request_forward prune_expired_permits
step-IsPast (registers draws t) b id g e = same-IsPast id g b _ (register_bindings draws t b) e
step-IsPast (authorizes t n uid) b id g e = same-IsPast id g b _ (peer_bindings t n uid b) e
step-IsPast (unregisters now t n) b id g e = Onward-IsPast id g b _ (unregister-Onward now t n b) e
step-IsPast (reloads_session now t) b id g e =
    Onward-IsPast id g b _ (reload_session-Onward now t b) e
step-IsPast (sets_bindings now metas) b id g e = set_bindings-IsPast now metas b id g e
step-IsPast (revokes now k n) b id g e = Onward-IsPast id g b _ (revoke-Onward now k n b) e
step-IsPast (expires now h) b id g e = Onward-IsPast id g b _ (expire-Onward now h b) e
step-IsPast (reloads now) b id g e = Onward-IsPast id g b _ (reload-Onward now b) e
step-IsPast (fails_renewal now h) b id g e = Onward-IsPast id g b _ (failure-Onward now h b) e
step-IsPast (renews now h m answer) b id g e =
    Onward-IsPast id g b _ (renew-Onward now h m answer b) e
step-IsPast (issues now persisted r nonce a) b id g e =
    same-IsPast id g b _ (issue_bindings now persisted r nonce a b) e
step-IsPast (consumes now i payload) b id g e =
    same-IsPast id g b _ (consume_bindings now i payload b) e
step-IsPast (cancels i) b id g e = same-IsPast id g b _ (cancel_bindings i b) e
step-IsPast (releases s) b id g e = Ended-IsPast id g b e
step-IsPast (marks_sent k s) b id g e = same-IsPast id g b _ (sent_bindings k s b) e
step-IsPast (finishes s observed) b id g e = Ended-IsPast id g b e
step-IsPast (prunes now) b id g e = Ended-IsPast id g b e
step-IsPast closes b id g e = Ended-IsPast id g b e
step-IsPast restarts b id g e =
    restart-IsPast id g b _ (λ c h. new_bindings b.cfg b.sequence_file c h) e

-- The binding is in the snapshot after every call.
abbrev pub Stays : String → List Op → Broker → Type 0
Stays id [] b = Unit
Stays id (op ∷ ops) b = (is_some (get (step op b).bindings id) ≡ true) × Stays id ops (step op b)

step-Ended :
    (op : Op) (b : Broker) (id : String) (g : ℕ) (o : Option BindingState)
    → get (step op b).bindings id ≡ o
    → is_some o ≡ true
    → Ended id g b
    → Ended id g (step op b)
step-Ended op b id g none h there e = cc
step-Ended op b id g (some s) h there e = record {
  state = s;
  found = h;
  past = (step-IsPast op b id g e).found s h;
}

-- An ended generation of a binding is past after every run in which the binding stays in the snapshot.
pub run-Ended :
    (ops : List Op) (b : Broker) (id : String) (g : ℕ)
    → Ended id g b
    → Stays id ops b
    → Ended id g (run ops b)
unfolding run
run-Ended [] b id g e st = e
run-Ended (op ∷ ops) b id g e st =
    run-Ended ops (step op b) id g (step-Ended op b id g (get (step op b).bindings id) refl st.0 e)
      st.1
