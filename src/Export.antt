-- ===== src/Export.antt =====
-- internal/skillexport/authorization.go, with the permission of internal/skillmanager/node_export.go
-- and `matchesIdentity` of internal/skillexport/stream.go: the authorization of an export while it runs.
pub mod Facts
mod Examples
use Prim.Native.Nat.{ℕ, ◌+◌, ◌-◌, ◌*◌, ◌/◌}
use agent_remote_node.Prelude.{
  String, ◌≡◌, refl, Bool, true, false, not, ◌&&◌, ◌||◌, Outcome, ok, err, ◌>>=◌, ◌>>◌, refuse_if,
  succeeded, ◌==◌, all, fields_Eq, pair_Eq, opt_Eq, Eq, string_Eq, bool_Eq, nat_Eq, ℤ, pos, negsuc,
  ltz, lez, int_Eq, List, [], ◌∷◌, if◌then◌else◌, Option, none, some, is_some, holds, leb, ltb,
}
use agent_remote_node.Finalization.Identity.{
  Refusal, bad_export, valid_skill_uuid, is_content_digest,
}

pub record NodeExportBinding : Type 0 where
  pub snapshot_id : String
  pub session_id : String
  pub user_id : String
  pub account_id : String
  pub node_id : String
  pub task_id : String
  pub library_generation : ℤ
  pub directory_epoch : ℤ
  pub initial_tree_digest : String

instance abbrev pub export_binding_Eq : Eq NodeExportBinding
export_binding_Eq =
    fields_Eq
      (λ (r : NodeExportBinding). (
        r.snapshot_id,
        (
          r.session_id,
          (
            r.user_id,
            (
              r.account_id,
              (
                r.node_id,
                (r.task_id, (r.library_generation, (r.directory_epoch, r.initial_tree_digest))),
              ),
            ),
          ),
        ),
      ))
      (λ (x : String × (String × (String × (String × (String × (String × (ℤ × (ℤ × String)))))))).
        record {
          snapshot_id = x.0;
          session_id = x.1.0;
          user_id = x.1.1.0;
          account_id = x.1.1.1.0;
          node_id = x.1.1.1.1.0;
          task_id = x.1.1.1.1.1.0;
          library_generation = x.1.1.1.1.1.1.0;
          directory_epoch = x.1.1.1.1.1.1.1.0;
          initial_tree_digest = x.1.1.1.1.1.1.1.1;
        })
      (λ r. refl) pair_Eq

-- `NodeExportPermission`. Instants are nanoseconds, and 0 is the zero time.
pub record NodeExportPermission : Type 0 where
  pub binding : NodeExportBinding
  pub device_id : String
  pub ssh_key_id : String
  pub expires_at : ℕ
  pub recheck_seconds : ℤ
  pub incoming_digest : Option String
  pub unclean : Option Bool

-- `NodeExportBinding.Validate`
unfoldable pub validate_export_binding : NodeExportBinding → Outcome Refusal (Unit {0})
validate_export_binding b = do
  refuse_if
      (not (
        all valid_skill_uuid (
          b.snapshot_id
          ∷ (b.session_id ∷ (b.user_id ∷ (b.account_id ∷ (b.node_id ∷ (b.task_id ∷ []))))))))
      bad_export
  refuse_if
      (ltz b.library_generation (pos 0)
        || (ltz b.directory_epoch (pos 1) || not (is_content_digest b.initial_tree_digest)))
      bad_export

-- `NodeExportPermission.Validate`
unfoldable pub validate_permission : NodeExportPermission → Outcome Refusal (Unit {0})
unfolding validate_export_binding
validate_permission p = do
  validate_export_binding p.binding
  refuse_if
      (not (valid_skill_uuid p.device_id)
        || (not (valid_skill_uuid p.ssh_key_id)
            || (p.expires_at == 0
                || (ltz p.recheck_seconds (pos 1)
                    || (ltz (pos 10) p.recheck_seconds
                        || ((is_some p.incoming_digest && not (is_some p.unclean))
                            || holds (λ d. not (is_content_digest d)) p.incoming_digest))))))
      bad_export

-- The part of a header that the authorization keeps.
pub record ExportFacts : Type 0 where
  pub binding : NodeExportBinding
  pub tree_digest : String
  pub unclean : Bool

-- `MatchExport`
unfoldable pub match_export : NodeExportPermission → ExportFacts → Outcome Refusal (Unit {0})
unfolding validate_permission
match_export p f = do
  validate_permission p
  refuse_if
      (not (f.binding == p.binding)
        || (not (is_content_digest f.tree_digest)
            || (holds (λ d. not (d == f.tree_digest)) p.incoming_digest
                || holds (λ (u : Bool). not (u == f.unclean)) p.unclean)))
      bad_export

pub record ExportIdentity : Type 0 where
  pub node_id : String
  pub snapshot_id : String
  pub device_id : String
  pub ssh_key_id : String

-- `matchesIdentity`
unfoldable pub matches_identity : NodeExportPermission → ExportIdentity → Bool
matches_identity p i =
    p.binding.node_id == i.node_id
    && (p.binding.snapshot_id == i.snapshot_id
        && (p.device_id == i.device_id && p.ssh_key_id == i.ssh_key_id))

-- `exportAuthorization`, without its locks and workers. `cancelled` tells that its context has ended.
pub record ExportAuthorization : Type 0 where
  pub cancelled : Bool
  pub identity : ExportIdentity
  pub grant : String
  pub initial : NodeExportPermission
  pub current : NodeExportPermission
  pub observed : Option ExportFacts
  pub valid_until : ℕ
  pub refresh_at : ℕ

abbrev pub recheck_interval : ℤ → ℕ
recheck_interval (pos n) = n * 1000000000
recheck_interval (negsuc n) = 0

abbrev pub window_end : ℕ → NodeExportPermission → ℕ
window_end started p =
    let limit = started + recheck_interval p.recheck_seconds in
    if ltb p.expires_at limit then p.expires_at else limit

-- `setWindow`
unfoldable pub set_window : ℕ → NodeExportPermission → ExportAuthorization → ExportAuthorization
set_window started p a = record a {
  valid_until = window_end started p;
  refresh_at = started + (window_end started p - started) / 2;
}

abbrev pub cancel_export : ExportAuthorization → ExportAuthorization
cancel_export a = record a { cancelled = true }

-- `newExportAuthorization`
unfoldable pub new_export : ExportIdentity → String → NodeExportPermission → ℕ → ExportAuthorization
unfolding set_window
new_export i grant p started = set_window started p (record {
  cancelled = false;
  identity = i;
  grant = grant;
  initial = p;
  current = p;
  observed = none;
  valid_until = 0;
  refresh_at = 0;
})

-- `validLocked`
unfoldable pub valid_locked : ℕ → ExportAuthorization → ExportAuthorization × Bool
valid_locked now a =
    if a.cancelled || leb a.valid_until now then (cancel_export a, false) else (a, true)

-- The observation part of `observe`.
unfoldable pub observe_facts :
    ExportFacts → Option ExportFacts → ExportAuthorization → ExportAuthorization × Bool
unfolding match_export
observe_facts f none a =
    if succeeded (match_export a.initial f) && succeeded (match_export a.current f)
    then (record a { observed = some f }, true)
    else (cancel_export a, false)
observe_facts f (some g) a =
    if g.binding == f.binding && (g.tree_digest == f.tree_digest && g.unclean == f.unclean)
    then (a, true)
    else (cancel_export a, false)

-- What `nextPermission` returns: the permission, the grant, and whether it is a renewal.
pub record Next : Type 0 where
  pub permission : NodeExportPermission
  pub grant : String
  pub renewed : Bool

abbrev pub same_fact : {A : Type 0} ⦃e : Eq A⦄ → Option A → Option A → Bool
same_fact none o = true
same_fact (some x) o = o == some x

abbrev pub fits_observed : NodeExportPermission → Option ExportFacts → Bool
fits_observed p none = true
fits_observed p (some f) = succeeded (match_export p f)

-- The checks of `verify` on the permission that came at the time `now`.
unfoldable pub acceptable : ℕ → Next → ExportAuthorization → Bool
unfolding validate_permission matches_identity match_export
acceptable now n a =
    succeeded (validate_permission n.permission)
    && (matches_identity n.permission a.identity
        && ((n.permission.binding == a.initial.binding)
            && ((n.renewed || n.permission.expires_at == a.initial.expires_at)
                && (ltb now n.permission.expires_at
                    && (fits_observed n.permission a.observed
                        && (same_fact a.current.incoming_digest n.permission.incoming_digest
                            && same_fact a.current.unclean n.permission.unclean))))))

abbrev pub with_permission : ℕ → Next → ExportAuthorization → ExportAuthorization
with_permission started n a =
    set_window started n.permission (record a { current = n.permission; grant = n.grant })

-- `verify` once `nextPermission` has returned: the request was sent at `started`, the answer is looked
-- at at `now`, and the new window at `later`.
unfoldable pub finish_verify :
    ℕ → ℕ → ℕ → Outcome Refusal Next → ExportAuthorization → ExportAuthorization × Bool
unfolding acceptable valid_locked set_window
finish_verify started now later (err x) a = (cancel_export a, false)
finish_verify started now later (ok n) a =
    if (valid_locked now a).1 && acceptable now n a
    then valid_locked later (with_permission started n a)
    else (cancel_export a, false)

-- `needsRefresh`: whether the window still stands, and whether a refresh is due.
unfoldable pub needs_refresh :
    Bool → ℕ → ExportAuthorization → ExportAuthorization × Outcome Refusal Bool
unfolding valid_locked
needs_refresh force now a =
    if (valid_locked now a).1
    then (a, ok (force || leb a.refresh_at now))
    else ((valid_locked now a).0, err bad_export)

-- What happens to an authorization: an observed header, an answer, or a look at the clock.
pub data ExportEvent : Type 0 where
  observes : ExportFacts → ExportEvent
  answers : ℕ → ℕ → ℕ → Outcome Refusal Next → ExportEvent
  looks : Bool → ℕ → ExportEvent

unfoldable pub export_step : ExportEvent → ExportAuthorization → ExportAuthorization
unfolding observe_facts finish_verify needs_refresh
export_step (observes f) a = (observe_facts f a.observed a).0
export_step (answers started now later n) a = (finish_verify started now later n a).0
export_step (looks force now) a = (needs_refresh force now a).0

unfoldable pub export_run : List ExportEvent → ExportAuthorization → ExportAuthorization
unfolding export_step
export_run [] a = a
export_run (e ∷ rest) a = export_run rest (export_step e a)
