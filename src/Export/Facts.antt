-- ===== src/Export/Facts.antt =====
-- What stays fixed while an export runs.
use Prim.Native.Nat.{ℕ, ◌+◌, ◌*◌, ◌≤◌, ◌<◌}
use agent_remote_node.Prelude.{
  holds, String, ◌≡◌, refl, ◌∙◌, Bool, true, false, not, ◌&&◌, ◌||◌, Outcome, ok, err, succeeded,
  ◌>>◌, ◌==◌, string_Eq, bool_Eq, nat_Eq, opt_Eq, ℤ, pos, negsuc, ltz, List, [], ◌∷◌, if_both,
  Option, none, some, is_some, arith, leb, ltb, Bool-cases, inl, inr, Eq, refuse_if,
}
use agent_remote_node.Finalization.Identity.{
  Refusal, bad_export, valid_skill_uuid, is_content_digest,
}
use agent_remote_node.Export.{
  matches_identity, export_binding_Eq, NodeExportPermission, ExportFacts, ExportAuthorization, Next,
  ExportEvent, observes, answers, looks, cancel_export, set_window, window_end, recheck_interval,
  valid_locked, observe_facts, same_fact, fits_observed, acceptable, with_permission, finish_verify,
  needs_refresh, validate_permission, validate_export_binding, match_export, export_step,
  export_run,
}

-- An authorization that still runs kept its binding, and every fact that it had.
pub record KeepsFacts (a b : ExportAuthorization) : Type 0 where
  pub initial : b.initial ≡ a.initial
  pub runs : b.cancelled ≡ false → a.cancelled ≡ false
  pub binding :
      b.cancelled ≡ false
      → a.current.binding ≡ a.initial.binding
      → b.current.binding ≡ b.initial.binding
  pub digest :
      b.cancelled ≡ false
      → (d : String) → a.current.incoming_digest ≡ some d
      → b.current.incoming_digest ≡ some d
  pub unclean :
      b.cancelled ≡ false → (u : Bool) → a.current.unclean ≡ some u → b.current.unclean ≡ some u
  pub observed : (f : ExportFacts) → a.observed ≡ some f → b.observed ≡ some f

KeepsFacts-refl : {a : ExportAuthorization} → KeepsFacts a a
KeepsFacts-refl = record {
  initial = refl;
  runs = λ h. h;
  binding = λ h e. e;
  digest = λ h d e. e;
  unclean = λ h u e. e;
  observed = λ f e. e;
}

KeepsFacts-trans : {a b c : ExportAuthorization} → KeepsFacts a b → KeepsFacts b c → KeepsFacts a c
KeepsFacts-trans f g = record {
  initial = g.initial ∙ f.initial;
  runs = λ h. f.runs (g.runs h);
  binding = λ h e. g.binding h (f.binding (g.runs h) e);
  digest = λ h d e. g.digest h d (f.digest (g.runs h) d e);
  unclean = λ h u e. g.unclean h u (f.unclean (g.runs h) u e);
  observed = λ x e. g.observed x (f.observed x e);
}

cancelled-KeepsFacts : (a : ExportAuthorization) → KeepsFacts a (cancel_export a)
cancelled-KeepsFacts a = record {
  initial = refl;
  runs = λ h. cc;
  binding = λ h e. cc;
  digest = λ h d e. cc;
  unclean = λ h u e. cc;
  observed = λ f e. e;
}

valid-KeepsFacts : (now : ℕ) (a : ExportAuthorization) → KeepsFacts a (valid_locked now a).0
unfolding valid_locked
valid-KeepsFacts now a =
    if_both (λ (x : ExportAuthorization × Bool). KeepsFacts a x.0)
      (a.cancelled || leb a.valid_until now) (λ _. cancelled-KeepsFacts a) (λ _. KeepsFacts-refl)

fact_kept :
    {A : Type 0} ⦃e : Eq A⦄ (o p : Option A) (x : A)
    → same_fact o p ≡ true
    → o ≡ some x
    → p ≡ some x
fact_kept none p x h o = cc
fact_kept ⦃e⦄ (some y) p x h o = (opt_Eq.eqb_iff p (some y)).0 h ∙ o

record Accepted (n : Next) (a : ExportAuthorization) : Type 0 where
  valid : succeeded (validate_permission n.permission) ≡ true
  binding : (n.permission.binding == a.initial.binding) ≡ true
  digest : same_fact a.current.incoming_digest n.permission.incoming_digest ≡ true
  unclean : same_fact a.current.unclean n.permission.unclean ≡ true

four_of :
    (a b c d e f g h : Bool)
    → (a && (b && (c && (d && (e && (f && (g && h))))))) ≡ true
    → (a ≡ true) × (c ≡ true) × (g ≡ true) × (h ≡ true)
four_of a b c d e f g h t =
    (ground (arith, t), ground (arith, t), ground (arith, t), ground (arith, t))

accepted : (now : ℕ) (n : Next) (a : ExportAuthorization) → acceptable now n a ≡ true → Accepted n a
unfolding acceptable
accepted now n a h =
    let (v, b, d, u) =
      four_of (succeeded (validate_permission n.permission))
        (matches_identity n.permission a.identity) (n.permission.binding == a.initial.binding)
        (n.renewed || n.permission.expires_at == a.initial.expires_at)
        (ltb now n.permission.expires_at) (fits_observed n.permission a.observed)
        (same_fact a.current.incoming_digest n.permission.incoming_digest)
        (same_fact a.current.unclean n.permission.unclean) h in
    record { valid = v; binding = b; digest = d; unclean = u }

permitted-KeepsFacts :
    (started : ℕ) (n : Next) (a : ExportAuthorization)
    → Accepted n a
    → KeepsFacts a (with_permission started n a)
unfolding set_window
permitted-KeepsFacts started n a p = record {
  initial = refl;
  runs = λ h. h;
  binding = λ h e. (export_binding_Eq.eqb_iff n.permission.binding a.initial.binding).0 p.binding;
  digest = λ h d e. fact_kept a.current.incoming_digest n.permission.incoming_digest d p.digest e;
  unclean = λ h u e. fact_kept a.current.unclean n.permission.unclean u p.unclean e;
  observed = λ f e. e;
}

finish-KeepsFacts :
    (started now later : ℕ) (o : Outcome Refusal Next) (a : ExportAuthorization)
    → KeepsFacts a (finish_verify started now later o a).0
unfolding finish_verify
finish-KeepsFacts started now later (err x) a = cancelled-KeepsFacts a
finish-KeepsFacts started now later (ok n) a =
    if_both (λ (x : ExportAuthorization × Bool). KeepsFacts a x.0)
      ((valid_locked now a).1 && acceptable now n a)
      (λ h.
        KeepsFacts-trans (permitted-KeepsFacts started n a (accepted now n a (ground (arith, h))))
          (valid-KeepsFacts later (with_permission started n a)))
      (λ _. cancelled-KeepsFacts a)

observe-KeepsFacts :
    (f : ExportFacts) (o : Option ExportFacts) (a : ExportAuthorization)
    → a.observed ≡ o
    → KeepsFacts a (observe_facts f o a).0
unfolding observe_facts
observe-KeepsFacts f none a e =
    if_both (λ (x : ExportAuthorization × Bool). KeepsFacts a x.0)
      (succeeded (match_export a.initial f) && succeeded (match_export a.current f))
      (λ _. record {
        initial = refl;
        runs = λ h. h;
        binding = λ h e. e;
        digest = λ h d e. e;
        unclean = λ h u e. e;
        observed = λ g h. cc (e, h);
      })
      (λ _. cancelled-KeepsFacts a)
observe-KeepsFacts f (some g) a e =
    if_both (λ (x : ExportAuthorization × Bool). KeepsFacts a x.0)
      (g.binding == f.binding && (g.tree_digest == f.tree_digest && g.unclean == f.unclean))
      (λ _. KeepsFacts-refl) (λ _. cancelled-KeepsFacts a)

look-KeepsFacts :
    (force : Bool) (now : ℕ) (a : ExportAuthorization) → KeepsFacts a (needs_refresh force now a).0
unfolding needs_refresh
look-KeepsFacts force now a =
    if_both (λ (x : ExportAuthorization × Outcome Refusal Bool). KeepsFacts a x.0)
      (valid_locked now a).1 (λ _. KeepsFacts-refl) (λ _. valid-KeepsFacts now a)

step-KeepsFacts : (e : ExportEvent) (a : ExportAuthorization) → KeepsFacts a (export_step e a)
unfolding export_step
step-KeepsFacts (observes f) a = observe-KeepsFacts f a.observed a refl
step-KeepsFacts (answers started now later n) a = finish-KeepsFacts started now later n a
step-KeepsFacts (looks force now) a = look-KeepsFacts force now a

-- Over any observations, answers and looks at the clock: an export that has been cancelled stays so,
-- and one that still runs has the binding that it was opened for, every digest and termination fact
-- that the Server had reported before, and the header that it had observed before.
pub export_run-KeepsFacts :
    (events : List ExportEvent) (a : ExportAuthorization) → KeepsFacts a (export_run events a)
unfolding export_run
export_run-KeepsFacts [] a = KeepsFacts-refl
export_run-KeepsFacts (e ∷ rest) a =
    KeepsFacts-trans (step-KeepsFacts e a) (export_run-KeepsFacts rest (export_step e a))

recheck_test :
    (z : ℤ) (a b c d e f : Bool) (x : Refusal)
    → succeeded (refuse_if (a || (b || (c || (d || (ltz (pos 10) z || (e || f)))))) x) ≡ true
    → ltz (pos 10) z ≡ false
recheck_test z a b c d e f x h = ground (arith, h)

succeeded_rest : (m k : Outcome Refusal (Unit {0})) → succeeded (m >> k) ≡ true → succeeded k ≡ true
succeeded_rest (err x) k h = cc
succeeded_rest (ok tt) k h = h

recheck_bound :
    (p : NodeExportPermission)
    → succeeded (validate_permission p) ≡ true
    → ltz (pos 10) p.recheck_seconds ≡ false
unfolding validate_permission
recheck_bound p h =
    recheck_test p.recheck_seconds (not (valid_skill_uuid p.device_id))
      (not (valid_skill_uuid p.ssh_key_id)) (p.expires_at == 0) (ltz p.recheck_seconds (pos 1))
      (is_some p.incoming_digest && not (is_some p.unclean))
      (holds (λ d. not (is_content_digest d)) p.incoming_digest) bad_export
      (succeeded_rest (validate_export_binding p.binding) _ h)

interval_bound : (z : ℤ) → ltz (pos 10) z ≡ false → recheck_interval z ≤ 10 * 1000000000
interval_bound (pos n) h = ground (arith, h)
interval_bound (negsuc n) h = omega arith

window_bound :
    (started : ℕ) (p : NodeExportPermission)
    → recheck_interval p.recheck_seconds ≤ 10 * 1000000000
    → (window_end started p ≤ started + 10 * 1000000000) × (window_end started p ≤ p.expires_at)
window_bound started p h = (ground (arith, h), ground (arith, h))

valid_runs :
    (now : ℕ) (a : ExportAuthorization)
    → (valid_locked now a).1 ≡ true
    → ((valid_locked now a).0 ≡ a) × (now < a.valid_until)
unfolding valid_locked
valid_runs now a h = (ground (arith, h), ground (arith, h))

-- An answer that is accepted opens a window that is still open when the call returns, and that ends no
-- later than ten seconds after the request was sent, whenever the answer came, and no later than the
-- permission itself.
pub finish_verify_window :
    (started now later : ℕ) (n : Next) (a : ExportAuthorization)
    → (finish_verify started now later (ok n) a).1 ≡ true
    → (later < (finish_verify started now later (ok n) a).0.valid_until)
      × ((finish_verify started now later (ok n) a).0.valid_until ≤ started + 10 * 1000000000)
      × ((finish_verify started now later (ok n) a).0.valid_until ≤ n.permission.expires_at)
unfolding finish_verify set_window
finish_verify_window started now later n a h =
    elim (Bool-cases ((valid_locked now a).1 && acceptable now n a)) [
      | inl good ↦
          let ends = valid_runs later (with_permission started n a) (rw good at h) in
          let w = window_bound started n.permission (
            interval_bound n.permission.recheck_seconds
              (recheck_bound n.permission (accepted now n a (ground (arith, good))).valid)) in
          rw good (rw ends.0 (ends.1, w.0, w.1))
      | inr bad ↦ cc (rw bad at h)
    ]
