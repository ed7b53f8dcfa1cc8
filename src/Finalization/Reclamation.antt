-- ===== src/Finalization/Reclamation.antt =====
-- internal/skillmanager/reclamation.go: the Server's permission to reclaim a capture, against the
-- acknowledgement of the capture.
use Prim.Native.Nat.{ℕ, ◌+◌}
use agent_remote_node.Prelude.{
  String, ◌≡◌, refl, sym, ap, ◌∙◌, Bool, true, false, not, ◌&&◌, ◌||◌, Outcome, ok, err, ◌>>◌,
  refuse_if, then_ok, unrefused, ◌==◌, all, string_Eq, bool_Eq, nat_Eq, opt_Eq, ℤ, pos, ltz, lez,
  int_Eq, [], ◌∷◌, Option, none, some, arith, subst,
}
use agent_remote_node.Finalization.Identity.{Refusal, bad_authorization, valid_skill_uuid}
use agent_remote_node.Finalization.Journal.{
  Phase, phase_Eq, published, conflicted, detached, is_terminal, valid_finalization_state,
}
use agent_remote_node.Finalization.Receipt.{PublicationReceipt}
use agent_remote_node.Finalization.Acknowledgement.{FinalizationAcknowledgement, ack_state}
use agent_remote_node.Finalization.Progress.{ack_state-valid}

-- `ReclamationAuthorization`. Instants are nanoseconds, and 0 is the zero time.
pub record ReclamationAuthorization : Type 0 where
  pub version : ℤ
  pub request_id : String
  pub node_id : String
  pub user_id : String
  pub account_id : String
  pub session_id : String
  pub snapshot_id : String
  pub finalization_id : String
  pub checkpoint_id : String
  pub tree_digest : String
  pub unclean : Bool
  pub publication_id : String
  pub publication_attempt : ℤ
  pub publication_status : Phase
  pub verified_at : ℕ
  pub expires_at : ℕ

unfoldable pub terminal_state : Outcome Refusal Phase → Outcome Refusal (Unit {0})
terminal_state (err x) = err bad_authorization
terminal_state (ok s) = refuse_if (not (is_terminal s)) bad_authorization

abbrev pub valid_identities : ReclamationAuthorization → Bool
valid_identities a = all valid_skill_uuid (
    a.request_id
    ∷ (a.node_id
        ∷ (a.user_id
            ∷ (a.account_id
                ∷ (a.session_id
                    ∷ (a.snapshot_id
                        ∷ (a.finalization_id ∷ (a.checkpoint_id ∷ (a.publication_id ∷ [])))))))))

-- Whether the publication of the authorization may follow the acknowledged one.
unfoldable pub publication_follows : ReclamationAuthorization → PublicationReceipt → Bool
publication_follows a p =
    not (lez a.publication_attempt (pos 0))
    && (not (ltz a.publication_attempt p.attempt)
        && (((a.publication_attempt == p.attempt) == (a.publication_id == p.id))
            && not (
                (a.publication_attempt == p.attempt)
                && (not (a.publication_status == p.status)
                    && not (p.status == conflicted && a.publication_status == published)))))

unfoldable pub same_input : ReclamationAuthorization → FinalizationAcknowledgement → Bool
same_input a ack =
    a.node_id == ack.capture.binding.node_id
    && (a.user_id == ack.capture.binding.user_id
        && (a.account_id == ack.capture.binding.account_id
            && (a.session_id == ack.capture.binding.session_id
                && (a.snapshot_id == ack.capture.binding.snapshot_id
                    && (a.finalization_id == ack.receipt.id
                        && (some a.checkpoint_id == ack.receipt.checkpoint_id
                            && (a.tree_digest == ack.capture.tree_digest
                                && a.unclean == ack.capture.unclean)))))))

unfoldable pub bad_lifetime : ReclamationAuthorization → PublicationReceipt → Bool
unfolding publication_follows
bad_lifetime a p =
    not (a.version == pos 1)
    || (a.verified_at == 0
        || (not (a.expires_at == a.verified_at + 60000000000) || not (publication_follows a p)))

unfoldable pub bad_status : ReclamationAuthorization → Bool
bad_status a =
    not (is_terminal a.publication_status) || (a.unclean && not (a.publication_status == detached))

unfoldable pub match_publication :
    ReclamationAuthorization
    → FinalizationAcknowledgement
    → Option PublicationReceipt
    → Outcome Refusal (Unit {0})
unfolding bad_lifetime bad_status same_input terminal_state
match_publication a ack none = err bad_authorization
match_publication a ack (some p) = do
  terminal_state (ack_state ack)
  refuse_if (not (valid_identities a)) bad_authorization
  refuse_if (bad_lifetime a p) bad_authorization
  refuse_if (bad_status a) bad_authorization
  refuse_if (not (same_input a ack)) bad_authorization

-- `ReclamationAuthorization.Match`
unfoldable pub match_authorization :
    ReclamationAuthorization → FinalizationAcknowledgement → Outcome Refusal (Unit {0})
unfolding match_publication
match_authorization a ack = match_publication a ack ack.publication

-- What a matching authorization makes sure of.
pub record Reclaimable (a : ReclamationAuthorization) (ack : FinalizationAcknowledgement)
    : Type 0 where
  pub state : Phase
  pub acknowledged : ack_state ack ≡ ok state
  pub terminal : is_terminal state ≡ true
  pub accepted : valid_finalization_state state a.unclean ≡ true
  pub retained : ack.receipt.checkpoint_id ≡ some a.checkpoint_id
  pub bytes : a.tree_digest ≡ ack.capture.tree_digest
  pub session : a.session_id ≡ ack.capture.binding.session_id
  pub snapshot : a.snapshot_id ≡ ack.capture.binding.snapshot_id
  pub minute : a.expires_at ≡ a.verified_at + 60000000000
  pub unclean_detached : a.unclean ≡ true → (state ≡ detached) × (a.publication_status ≡ detached)

abbrev InputFacts : ReclamationAuthorization → FinalizationAcknowledgement → Type 0
InputFacts a ack =
    ((some a.checkpoint_id == ack.receipt.checkpoint_id) ≡ true)
    × ((a.tree_digest == ack.capture.tree_digest) ≡ true)
    × ((a.session_id == ack.capture.binding.session_id) ≡ true)
    × ((a.snapshot_id == ack.capture.binding.snapshot_id) ≡ true)
    × ((a.unclean == ack.capture.unclean) ≡ true)

unnot : (x : Bool) → not x ≡ false → x ≡ true
unnot x h = ground (arith, h)

right_of : (x y : Bool) → (x || y) ≡ false → y ≡ false
right_of x y h = ground (arith, h)

right_second : (x y z w : Bool) → (x || (y || (not z || w))) ≡ false → z ≡ true
right_second x y z w h = ground (arith, h)

input_facts :
    (a : ReclamationAuthorization) (ack : FinalizationAcknowledgement)
    → same_input a ack ≡ true
    → InputFacts a ack
unfolding same_input
input_facts a ack h =
    (ground (arith, h), ground (arith, h), ground (arith, h), ground (arith, h), ground (arith, h))

unclean_terminal :
    (s : Phase) → is_terminal s ≡ true → valid_finalization_state s true ≡ true → s ≡ detached
unfolding valid_finalization_state
unclean_terminal s t v = ground (arith, t, v)

terminal_ok : (s : Phase) → terminal_state (ok s) ≡ ok tt → is_terminal s ≡ true
unfolding terminal_state
terminal_ok s h = unnot (is_terminal s) (unrefused (not (is_terminal s)) bad_authorization h)

minute_of :
    (a : ReclamationAuthorization) (p : PublicationReceipt)
    → bad_lifetime a p ≡ false
    → (a.expires_at == a.verified_at + 60000000000) ≡ true
unfolding bad_lifetime
minute_of a p h =
    right_second (not (a.version == pos 1)) (a.verified_at == 0)
      (a.expires_at == a.verified_at + 60000000000) _ h

status_of :
    (a : ReclamationAuthorization)
    → bad_status a ≡ false
    → (a.unclean && not (a.publication_status == detached)) ≡ false
unfolding bad_status
status_of a h = right_of (not (is_terminal a.publication_status)) _ h

detached_of : (u d : Bool) → (u && not d) ≡ false → u ≡ true → d ≡ true
detached_of u d h e = ground (arith, h, e)

matched :
    (a : ReclamationAuthorization) (ack : FinalizationAcknowledgement)
    (o : Option PublicationReceipt) (r : Outcome Refusal Phase)
    → ack_state ack ≡ r
    → match_publication a ack o ≡ ok tt
    → Reclaimable a ack
unfolding match_publication terminal_state
matched a ack none r e h = cc
matched a ack (some p) (err x) e h = absurd (ground (arith, e, h))
matched a ack (some p) (ok s) e h =
    let (ends, rest) = then_ok (terminal_state (ack_state ack)) _ h in
    let (ids, rest') = then_ok (refuse_if (not (valid_identities a)) bad_authorization) _ rest in
    let (lives, rest'') = then_ok (refuse_if (bad_lifetime a p) bad_authorization) _ rest' in
    let (public, last) = then_ok (refuse_if (bad_status a) bad_authorization) _ rest'' in
    let terminal = terminal_ok s (ap terminal_state (sym e) ∙ ends) in
    let input =
      unnot (same_input a ack) (unrefused (not (same_input a ack)) bad_authorization last) in
    let minute = minute_of a p (unrefused (bad_lifetime a p) bad_authorization lives) in
    let status = status_of a (unrefused (bad_status a) bad_authorization public) in
    let facts = input_facts a ack input in
    let unclean = (bool_Eq.eqb_iff a.unclean ack.capture.unclean).0 facts.4 in
    let accepted =
      subst (λ u. valid_finalization_state s u ≡ true) (sym unclean) (ack_state-valid ack s e) in
    record {
      state = s;
      acknowledged = e;
      terminal = terminal;
      accepted = accepted;
      retained = sym ((opt_Eq.eqb_iff (some a.checkpoint_id) ack.receipt.checkpoint_id).0 facts.0);
      bytes = (string_Eq.eqb_iff a.tree_digest ack.capture.tree_digest).0 facts.1;
      session = (string_Eq.eqb_iff a.session_id ack.capture.binding.session_id).0 facts.2;
      snapshot = (string_Eq.eqb_iff a.snapshot_id ack.capture.binding.snapshot_id).0 facts.3;
      minute = (nat_Eq.eqb_iff a.expires_at (a.verified_at + 60000000000)).0 minute;
      unclean_detached = λ u. (
        unclean_terminal s terminal (subst (λ v. valid_finalization_state s v ≡ true) u accepted),
        (phase_Eq.eqb_iff a.publication_status detached).0
            (detached_of a.unclean (a.publication_status == detached) status u),
      );
    }

-- A reclamation authorization that matches an acknowledgement is for the same session, snapshot and
-- bytes, whose checkpoint the Server retains; the acknowledged phase is terminal and one that the
-- local journal accepts; the authorization lasts one minute; and a capture of an unclean end is
-- reclaimed only where both sides say detached.
pub match_authorization-Reclaimable :
    (a : ReclamationAuthorization) (ack : FinalizationAcknowledgement)
    → match_authorization a ack ≡ ok tt
    → Reclaimable a ack
unfolding match_authorization
match_authorization-Reclaimable a ack h = matched a ack ack.publication (ack_state ack) refl h
