-- ===== src/Broker/Run.antt =====
-- Runs of the broker: every method that changes its state, in any order, with what the control
-- plane, the clock, the random source and the file system returned to it. A method that gives up the
-- lock in between is the steps on its two sides.
use agent_remote_node.Prelude.{
  ℕ, String, Bool, true, Outcome, ok, err, Option, none, some, List, [], ◌∷◌, ℤ,
}
use agent_remote_node.Broker.Texts.{BrokerError}
use agent_remote_node.Broker.Binding.{EgoBrowserBinding}
use agent_remote_node.Broker.State.{Broker, new_broker, release_request, prune_expired_permits}
use agent_remote_node.Broker.Sessions.{
  Answer, register_tool_session, commit_peer, unregister_tool_session, reload_tool_session,
}
use agent_remote_node.Broker.Bindings.{
  Handle, set_bindings, revoke_binding, expire_binding, reload, mark_renewal_failure,
}
use agent_remote_node.Broker.Leases.{Renewal, finish_renewal}
use agent_remote_node.Broker.Permits.{Admission, Randomness, commit_permit}
use agent_remote_node.Broker.Requests.{
  Identity, consume_permit, cancel_request, mark_request_sent, finish_request_forward,
}

pub data Op : Type 0 where
  registers : List (Option String) → String → Op
  authorizes : String → String → ℕ → Op
  unregisters : ℕ → String → String → Op
  reloads_session : ℕ → String → Op
  sets_bindings : ℕ → List EgoBrowserBinding → Op
  revokes : ℕ → String → ℕ → Op
  expires : ℕ → Handle → Op
  reloads : ℕ → Op
  fails_renewal : ℕ → Handle → Op
  renews : ℕ → Handle → EgoBrowserBinding → Outcome BrokerError Renewal → Op
  issues : ℕ → Bool → Randomness → String → Admission → Op
  consumes : ℕ → Identity → ℤ → Op
  cancels : Identity → Op
  releases : ℕ → Op
  marks_sent : String → ℕ → Op
  finishes : ℕ → Bool → Op
  prunes : ℕ → Op
  closes : Op
  restarts : Op

abbrev pub after_register : Broker → Option (Answer (String × Bool)) → Broker
after_register b none = b
after_register b (some a) = a.0

abbrev pub restarted : Broker → Outcome BrokerError Broker → Broker
restarted b (err x) = b
restarted b (ok fresh) = fresh

-- One call. `restarts` is `New` on the sequence file that the broker left.
unfoldable pub step : Op → Broker → Broker
unfolding register_tool_session commit_peer unregister_tool_session reload_tool_session set_bindings
    revoke_binding expire_binding reload mark_renewal_failure finish_renewal commit_permit
    consume_permit cancel_request release_request mark_request_sent finish_request_forward
    prune_expired_permits new_broker
step (registers draws t) b = after_register b (register_tool_session draws t b)
step (authorizes t n uid) b = (commit_peer t n uid b).0
step (unregisters now t n) b = (unregister_tool_session now t n b).0
step (reloads_session now t) b = reload_tool_session now t b
step (sets_bindings now metas) b = (set_bindings now metas b).0
step (revokes now id g) b = revoke_binding now id g b
step (expires now h) b = expire_binding now h b
step (reloads now) b = reload now b
step (fails_renewal now h) b = mark_renewal_failure now h b
step (renews now h m answer) b = (finish_renewal now h m answer b).0
step (issues now persisted r nonce a) b = (commit_permit now persisted r nonce a b).0
step (consumes now i payload) b = (consume_permit now i payload b).0
step (cancels i) b = (cancel_request i b).0
step (releases s) b = release_request s b
step (marks_sent id s) b = (mark_request_sent id s b).0
step (finishes s observed) b = finish_request_forward s observed b
step (prunes now) b = prune_expired_permits now b
step closes b = record b { closed = true }
step restarts b = restarted b (new_broker b.cfg (ok b.sequence_file))

unfoldable pub run : List Op → Broker → Broker
unfolding step
run [] b = b
run (op ∷ ops) b = run ops (step op b)
