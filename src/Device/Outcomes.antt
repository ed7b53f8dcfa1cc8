-- ===== src/Device/Outcomes.antt =====
-- internal/devicecontrol/activation.go: what `Activate` and `Deactivate` leave behind on every path.
use Prim.Native.Nat.{◌≤◌, ◌<◌}
use agent_remote_node.Prelude.{
  Bool, true, false, Option, none, some, Outcome, ok, err, ◌==◌, string_Eq, nat_Eq, ltb,
  if◌then◌else◌, ◌≡◌, refl, ap, ◌∙◌, arith, Bool-cases, inl, inr, ◌⊎◌, refuse_if, if_both,
}
use agent_remote_node.Prelude.Map.{get, get-put, get-remove}
use agent_remote_node.Device.Payload.{
  ActivatePayload, DeactivatePayload, DeviceError, activate_Eq, stale_generation, changed_binding,
}
use agent_remote_node.Device.Store.{
  Manifest, Manifests, After, broken, holding, Root, prepare_root, ready, WriteCalls, written,
  stored, replace, activate_over, activate_in, activate, deactivate_over, deactivate_in, deactivate,
}

module _ (fits : ActivatePayload → Bool) where
  -- After a call that may have written `p`: success leaves what `p` reads back as, or the very
  -- payload that was there; a failure leaves everything as it was.
  abbrev Activated : ActivatePayload → Manifests → After (Unit {0}) → Type 0
  Activated p m (m', ok _) =
      (get m' p.device_session_id ≡ some (stored fits p))
      ⊎ ((m' ≡ m) × (get m p.device_session_id ≡ some (holding p)))
  Activated p m (m', err x) = m' ≡ m

  replace-Activated :
      (c : WriteCalls) (p : ActivatePayload) (m : Manifests) → Activated p m (replace fits c p m)
  unfolding replace
  replace-Activated c p m =
      if_both (Activated p m) (written c)
        (λ _. inl (
          get-put m p.device_session_id (stored fits p) p.device_session_id
          ∙ rw ((string_Eq.eqb_iff p.device_session_id p.device_session_id).1 refl) refl))
        (λ _. refl)

  same_generation-Activated :
      (p q : ActivatePayload) (m : Manifests)
      → get m p.device_session_id ≡ some (holding q)
      → Activated p m (m, refuse_if (if q == p then false else true) changed_binding)
  same_generation-Activated p q m e = elim (Bool-cases (q == p)) [
    | inl same ↦
        rw same (inr (refl, e ∙ ap (λ x. some (holding x)) ((activate_Eq.eqb_iff q p).0 same)))
    | inr differ ↦ rw differ refl
  ]

  activate_over-Activated :
      (c : WriteCalls) (p : ActivatePayload) (m : Manifests) (o : Option Manifest)
      → get m p.device_session_id ≡ o
      → Activated p m (activate_over fits c p m o)
  unfolding activate_over
  activate_over-Activated c p m none e = replace-Activated c p m
  activate_over-Activated c p m (some broken) e = refl
  activate_over-Activated c p m (some (holding q)) e =
      if_both (Activated p m) (ltb p.generation q.generation) (λ _. refl)
        (λ _.
          if_both (Activated p m) (q.generation == p.generation)
            (λ _. same_generation-Activated p q m e) (λ _. replace-Activated c p m))

  activate_in-Activated :
      (o : Outcome DeviceError (Unit {0})) (c : WriteCalls) (p : ActivatePayload) (m : Manifests)
      → Activated p m (activate_in fits o c p m)
  unfolding activate_in
  activate_in-Activated (err x) c p m = refl
  activate_in-Activated (ok _) c p m =
      activate_over-Activated c p m (get m p.device_session_id) refl

  -- `Activate` leaves the store as it was whenever it returns an error, at whichever step; on success
  -- the session holds the payload, as it reads back where it was written now.
  pub activate-Activated :
      (root : Root) (c : WriteCalls) (p : ActivatePayload) (m : Manifests)
      → Activated p m (activate fits root c p m)
  unfolding activate
  activate-Activated root c p m = activate_in-Activated (prepare_root root) c p m

  repeated :
      (c : WriteCalls) (p : ActivatePayload) (m : Manifests)
      → activate_over fits c p m (some (holding p)) ≡ (m, ok tt)
  unfolding activate_over
  repeated c p m =
      let F : Bool → Bool → Bool → After (Unit {0}) = λ late level same.
        if late
        then (m, err stale_generation)
        else if level
        then (m, refuse_if (if same then false else true) changed_binding)
        else replace fits c p m in
      let level : ltb p.generation p.generation ≡ false = ground arith in
      ap (λ b. F b (p.generation == p.generation) (p == p)) level
      ∙ ap (λ b. F false b (p == p)) ((nat_Eq.eqb_iff p.generation p.generation).1 refl)
      ∙ ap (F false true) ((activate_Eq.eqb_iff p p).1 refl)

  again :
      (c : WriteCalls) (p : ActivatePayload) (n : Manifests)
      → get n p.device_session_id ≡ some (holding p)
      → activate fits ready c p n ≡ (n, ok tt)
  unfolding activate activate_in prepare_root
  again c p n e = ap (activate_over fits c p n) e ∙ repeated c p n

  held_after :
      (p : ActivatePayload) (m : Manifests) (r : After (Unit {0}))
      → Activated p m r
      → r.1 ≡ ok tt
      → fits p ≡ true
      → get r.0 p.device_session_id ≡ some (holding p)
  unfolding stored
  held_after p m (m', err x) h o f = cc
  held_after p m (m', ok _) (inl new) o f = new ∙ rw f refl
  held_after p m (m', ok _) (inr old) o f = ap (λ x. get x p.device_session_id) old.0 ∙ old.1

  -- Activation is idempotent: once a payload that can be read back has been activated, the session
  -- holds it, and activating it again succeeds and changes nothing, whatever the system calls of a
  -- second write would have done.
  pub activate_again :
      (root : Root) (c c' : WriteCalls) (p : ActivatePayload) (m : Manifests)
      → (activate fits root c p m).1 ≡ ok tt
      → fits p ≡ true
      → (get (activate fits root c p m).0 p.device_session_id ≡ some (holding p))
        × (activate fits ready c' p (activate fits root c p m).0
            ≡ ((activate fits root c p m).0, ok tt))
  activate_again root c c' p m done f =
      let held = held_after p m (activate fits root c p m) (activate-Activated root c p m) done f in
      (held, again c' p (activate fits root c p m).0 held)

-- What a deactivation has done to the session: an error or `false` changes nothing, and `false` means
-- that nothing is active or something newer is; `true` means that the named tool session was active
-- at the generation or an earlier one, and that nothing is active now.
abbrev pub Deactivated : DeactivatePayload → Manifests → After Bool → Type 0
Deactivated d m (m', err x) = m' ≡ m
Deactivated d m (m', ok false) =
    (m' ≡ m)
    × ((get m d.device_session_id ≡ none)
        ⊎ ((q : ActivatePayload) × (get m d.device_session_id ≡ some (holding q))
            × (d.generation < q.generation)))
Deactivated d m (m', ok true) =
    (get m' d.device_session_id ≡ none)
    × ((q : ActivatePayload) × (get m d.device_session_id ≡ some (holding q))
        × (q.tool_session_id ≡ d.tool_session_id)
        × (q.generation ≤ d.generation))

deactivate_over-Deactivated :
    (removed : Bool) (d : DeactivatePayload) (m : Manifests) (o : Option Manifest)
    → get m d.device_session_id ≡ o
    → Deactivated d m (deactivate_over removed d m o)
unfolding deactivate_over
deactivate_over-Deactivated removed d m none e = (refl, inl e)
deactivate_over-Deactivated removed d m (some broken) e = refl
deactivate_over-Deactivated removed d m (some (holding q)) e =
    if_both (Deactivated d m) (q.tool_session_id == d.tool_session_id)
      (λ tool.
        if_both (Deactivated d m) (ltb d.generation q.generation)
          (λ late. (refl, inr (q, e, ground (arith, late))))
          (λ due.
            if_both (Deactivated d m) removed
              (λ _. (
                get-remove m d.device_session_id d.device_session_id
                    ∙ rw ((string_Eq.eqb_iff d.device_session_id d.device_session_id).1 refl) refl,
                (
                  q,
                  e,
                  (string_Eq.eqb_iff q.tool_session_id d.tool_session_id).0 tool,
                  ground (arith, due),
                ),
              ))
              (λ _. refl)))
      (λ _. refl)

deactivate_in-Deactivated :
    (o : Outcome DeviceError (Unit {0})) (removed : Bool) (d : DeactivatePayload) (m : Manifests)
    → Deactivated d m (deactivate_in o removed d m)
unfolding deactivate_in
deactivate_in-Deactivated (err x) removed d m = refl
deactivate_in-Deactivated (ok _) removed d m =
    deactivate_over-Deactivated removed d m (get m d.device_session_id) refl

-- `Deactivate` on every path: an error changes nothing; `false` changes nothing, and the session has
-- no activation or a newer one; `true` leaves no activation, where the named tool session was active
-- at the same generation or an earlier one.
pub deactivate-Deactivated :
    (root : Root) (removed : Bool) (d : DeactivatePayload) (m : Manifests)
    → Deactivated d m (deactivate root removed d m)
unfolding deactivate
deactivate-Deactivated root removed d m = deactivate_in-Deactivated (prepare_root root) removed d m
