-- ===== src/Broker/Sessions.antt =====
-- internal/egobrowser/broker.go: the capabilities of tool sessions and their peers.
use agent_remote_node.Prelude.{
  ℕ, String, Bool, true, false, not, ◌&&◌, ◌||◌, Outcome, ok, err, ◌>>=◌, ◌>>◌, refuse_if, ◌==◌,
  string_Eq, nat_Eq, Option, none, some, is_some, holds, List, [], ◌∷◌, if◌then◌else◌,
}
use agent_remote_node.Prelude.Map.{Map, get, put, remove, entries}
use agent_remote_node.Broker.Texts.{
  BrokerError, disabled, unavailable, protocol, io_error, valid_opaque_text, dedicated_task_space,
}
use agent_remote_node.Broker.State.{
  Config, Broker, BindingState, text_at, clear_binding_materials, detached_relay, adjusted,
}

abbrev pub session_nonce : String → Broker → String
session_nonce t b = text_at (get b.sessions t)

abbrev pub nonce_session : String → Broker → String
nonce_session n b = text_at (get b.nonces n)

-- The loop of `RegisterToolSession` over the tokens that `randomToken` draws; `none` where it still
-- draws when the tokens end.
unfoldable pub draw_nonce :
    List (Option String) → Map String String → Option (Outcome BrokerError String)
draw_nonce [] taken = none
draw_nonce (none ∷ draws) taken = some (err io_error)
draw_nonce (some n ∷ draws) taken =
    let rest = draw_nonce draws taken in if is_some (get taken n) then rest else some (ok n)

-- A call's answer beside the state that it leaves.
abbrev pub Answer : Type 0 → Type 0
Answer A = Broker × Outcome BrokerError A

unfoldable pub with_nonce :
    String → Broker → Option (Outcome BrokerError String) → Option (Answer (String × Bool))
with_nonce t b none = none
with_nonce t b (some (err x)) = some (b, err x)
with_nonce t b (some (ok n)) =
    some (record b { sessions = put b.sessions t n; nonces = put b.nonces n t }, ok (n, true))

unfoldable pub check_session : String → Config → Outcome BrokerError String
check_session t c = do
  refuse_if (not c.enabled) disabled
  refuse_if (not (valid_opaque_text t 128)) protocol
  dedicated_task_space t

unfoldable pub register_checked :
    List (Option String)
    → String
    → Broker
    → Outcome BrokerError String
    → Option (Answer (String × Bool))
unfolding with_nonce draw_nonce
register_checked draws t b (err x) = some (b, err x)
register_checked draws t b (ok _) =
    if b.closed
    then some (b, err unavailable)
    else if not (session_nonce t b == "")
    then some (b, ok (session_nonce t b, false))
    else with_nonce t b (draw_nonce draws b.nonces)

-- `RegisterToolSession`
unfoldable pub register_tool_session :
    List (Option String) → String → Broker → Option (Answer (String × Bool))
unfolding register_checked check_session
register_tool_session draws t b = register_checked draws t b (check_session t b.cfg)

-- `VerifyToolSessionPeer`
unfoldable pub verify_tool_session_peer :
    String → String → ℕ → Broker → Outcome BrokerError (Unit {0})
verify_tool_session_peer t n uid b = do
  refuse_if (not b.cfg.enabled) disabled
  refuse_if (not (valid_opaque_text t 128) || (not (valid_opaque_text n 256) || uid == 0)) protocol
  refuse_if b.closed unavailable
  refuse_if (not (session_nonce t b == n) || not (nonce_session n b == t)) unavailable
  refuse_if (not (is_some (get b.peer_uids t))) unavailable
  refuse_if (not (holds (λ (u : ℕ). u == uid) (get b.peer_uids t))) protocol

-- The last part of `AuthorizeToolSessionPeer`, under the lock.
unfoldable pub commit_peer : String → String → ℕ → Broker → Answer (Unit {0})
commit_peer t n uid b =
    if not (session_nonce t b == n) || not (nonce_session n b == t)
    then (b, err unavailable)
    else if holds (λ (u : ℕ). not (u == uid)) (get b.peer_uids t)
    then (b, err protocol)
    else (record b { peer_uids = put b.peer_uids t uid }, ok tt)

-- `AuthorizeToolSessionPeer`: `prepared` is what opening the socket and granting access to it
-- returned, and `meanwhile` is the broker when the lock is taken again after that.
unfoldable pub authorize_tool_session_peer :
    String → String → ℕ → Bool → Broker → Broker → Answer (Unit {0})
unfolding commit_peer verify_tool_session_peer
authorize_tool_session_peer t n uid prepared b meanwhile =
    if not b.cfg.enabled
    then (b, err disabled)
    else if not (valid_opaque_text t 128) || not (valid_opaque_text n 256)
    then (b, err protocol)
    else if not (session_nonce t b == n)
    then (b, err unavailable)
    else if is_some (get b.peer_uids t)
    then (b, verify_tool_session_peer t n uid b)
    else if not prepared
    then (meanwhile, err io_error)
    else commit_peer t n uid meanwhile

-- The loop over the bindings of a session: their materials are cleared and their relays closed.
unfoldable pub clear_session : ℕ → String → List (String × BindingState) → Broker → Broker
unfolding clear_binding_materials
clear_session now t [] b = b
clear_session now t ((id, s) ∷ rest) b =
    let cleared = clear_binding_materials now id b in
    clear_session now t rest (
      if s.metadata.tool_session_id == t
      then record cleared { bindings = adjusted detached_relay id cleared.bindings }
      else b)

-- `reloadToolSession`
unfoldable pub reload_tool_session : ℕ → String → Broker → Broker
unfolding clear_session
reload_tool_session now t b = clear_session now t (entries b.bindings) b

-- Whether the session has no capability, or not the expected one.
abbrev pub not_registered : String → String → Broker → Bool
not_registered t n b =
    t == "" || (session_nonce t b == "" || (not (n == "") && not (session_nonce t b == n)))

abbrev pub forgotten : String → Broker → Broker
forgotten t b = record b {
  sessions = remove b.sessions t;
  nonces = remove b.nonces (session_nonce t b);
  peer_uids = remove b.peer_uids t;
}

-- `UnregisterToolSession`
unfoldable pub unregister_tool_session : ℕ → String → String → Broker → Broker × Bool
unfolding clear_session
unregister_tool_session now t n b =
    if not_registered t n b
    then (b, false)
    else (clear_session now t (entries b.bindings) (forgotten t b), true)

-- `sessionForNonce`
unfoldable pub session_for_nonce : String → Broker → Outcome BrokerError String
session_for_nonce n b = do
  refuse_if (not (valid_opaque_text n 256)) protocol
  refuse_if (nonce_session n b == "" || not (session_nonce (nonce_session n b) b == n)) unavailable
  ok (nonce_session n b)

-- The loop of `bindingForSessionLocked`.
unfoldable pub select_binding :
    String → Option BindingState → List (String × BindingState) → Outcome BrokerError BindingState
select_binding t none [] = err unavailable
select_binding t (some s) [] = ok s
select_binding t none ((id, s) ∷ rest) =
    if s.metadata.tool_session_id == t
    then select_binding t (some s) rest
    else select_binding t none rest
select_binding t (some found) ((id, s) ∷ rest) =
    if s.metadata.tool_session_id == t then err protocol else select_binding t (some found) rest

-- `bindingForSessionLocked`
unfoldable pub binding_for_session : String → Broker → Outcome BrokerError BindingState
unfolding select_binding
binding_for_session t b = select_binding t none (entries b.bindings)

-- `bindingForNonce`
unfoldable pub binding_for_nonce : String → Broker → Outcome BrokerError (String × BindingState)
unfolding session_for_nonce binding_for_session
binding_for_nonce n b = do t ← session_for_nonce n b; s ← binding_for_session t b; ok (t, s)
