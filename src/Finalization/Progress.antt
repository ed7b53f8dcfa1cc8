-- ===== src/Finalization/Progress.antt =====
-- What the Server's acknowledgements say of the local phase, and how one that follows another moves.
use agent_remote_node.Prelude.{
  String, ◌≡◌, refl, sym, ◌∙◌, ap, ◌⊎◌, inl, inr, Bool, true, false, ok, arith, Option, none, some,
  is_some, Bool-cases, ◌==◌, subst, bool_Eq,
}
use agent_remote_node.Finalization.Journal.{
  Phase, phase_Eq, local_durable, upload_pending, persisted, persisted_unclean, published,
  conflicted, detached, superseded, unknown, FinalizationRecord, record_Eq,
  valid_finalization_state, allowed_finalization_transition, is_terminal,
}
use agent_remote_node.Finalization.Receipt.{
  FinalizationInput, FinalizationReceipt, PublicationReceipt, validate_receipt_after,
  follows_receipt, keeps_checkpoint, validate_publication, decision_fits,
}
use agent_remote_node.Finalization.Acknowledgement.{
  FinalizationAcknowledgement, ack_input, validate_ack, validate_decision, ack_state, phase_of,
  receipt_state, follows_ack, same_finalization_input, keeps_decision, publication_Eq,
}

-- Zero or more transitions of the local journal, for a capture with the termination fact `u`.
pub data Reaches (u : Bool) : Phase → Phase → Type 0 where
  here : {p : Phase} → Reaches u p p
  next :
      {p q r : Phase} → allowed_finalization_transition p q u ≡ true → Reaches u q r → Reaches u p r

publication_fits :
    (p : PublicationReceipt) (i : FinalizationInput) (r : FinalizationReceipt)
    → validate_publication p i r ≡ ok tt
    → (decision_fits p.status p i.unclean ≡ true) × (is_some r.checkpoint_id ≡ true)
unfolding validate_publication
publication_fits p i r h = (ground arith, ground arith)

-- What an acknowledgement that validates says of its publication.
decision_of :
    (a : FinalizationAcknowledgement) (p : PublicationReceipt)
    → validate_ack a ≡ ok tt
    → a.publication ≡ some p
    → (decision_fits p.status p a.capture.unclean ≡ true) × (is_some a.receipt.checkpoint_id ≡ true)
unfolding validate_ack validate_decision ack_input
decision_of a p h e =
    let valid : validate_publication p (ack_input a) a.receipt ≡ ok tt = ground (arith, h, e) in
    publication_fits p (ack_input a) a.receipt valid

decision_states :
    (p : PublicationReceipt) (u : Bool)
    → decision_fits p.status p u ≡ true
    → (p.status ≡ superseded)
      ⊎ ((is_terminal p.status ≡ true) × (valid_finalization_state p.status u ≡ true))
unfolding decision_fits valid_finalization_state
decision_states p u h = ground arith

-- The facts about a decision that `decision_of` gives.
abbrev Decided : Option PublicationReceipt → Option String → Bool → Type 0
Decided o c u =
    (p : PublicationReceipt) → o ≡ some p → (decision_fits p.status p u ≡ true) × (is_some c ≡ true)

receipt_valid :
    (c : Option String) (u : Bool) → valid_finalization_state (receipt_state c u) u ≡ true
unfolding receipt_state valid_finalization_state
receipt_valid c u = ground arith

phase_valid :
    (o : Option PublicationReceipt) (c : Option String) (u : Bool)
    → Decided o c u
    → valid_finalization_state (phase_of o c u) u ≡ true
unfolding phase_of
phase_valid none c u d = receipt_valid c u
phase_valid (some p) c u d = ground (
  arith,
  receipt_valid c u,
  decision_states p u (d p refl).0,
  phase_Eq.eqb_iff p.status superseded,
)

ack_state_inv :
    (a : FinalizationAcknowledgement) (s : Phase)
    → ack_state a ≡ ok s
    → (validate_ack a ≡ ok tt)
      × (s ≡ phase_of a.publication a.receipt.checkpoint_id a.capture.unclean)
unfolding ack_state
ack_state_inv a s h = (ground arith, ground arith)

-- The phase that an acknowledgement proves is one that the local journal accepts for its capture.
pub ack_state-valid :
    (a : FinalizationAcknowledgement) (s : Phase)
    → ack_state a ≡ ok s
    → valid_finalization_state s a.capture.unclean ≡ true
ack_state-valid a s h =
    let (valid, eq) = ack_state_inv a s h in
    rw eq (
      phase_valid a.publication a.receipt.checkpoint_id a.capture.unclean
        (λ p e. decision_of a p valid e))

same_unclean :
    (x y : FinalizationRecord) → same_finalization_input x y ≡ true → x.unclean ≡ y.unclean
unfolding same_finalization_input
same_unclean x y h =
    let eq =
      (record_Eq.eqb_iff (record x { state = unknown "" }) (record y { state = unknown "" })).0 h in
    ap (λ (r : FinalizationRecord). r.unclean) eq

receipt_follows :
    (v : FinalizationReceipt) (i : FinalizationInput) (p : FinalizationReceipt)
    → validate_receipt_after v i (some p) ≡ ok tt
    → follows_receipt v p ≡ ok tt
unfolding validate_receipt_after
receipt_follows v i p h = ground arith

checkpoint_kept :
    (v p : FinalizationReceipt)
    → follows_receipt v p ≡ ok tt
    → is_some p.checkpoint_id ≡ true
    → is_some v.checkpoint_id ≡ true
unfolding follows_receipt keeps_checkpoint
checkpoint_kept v p h s = ground arith

-- What `Follows` establishes.
record Followed (a p : FinalizationAcknowledgement) : Type 0 where
  valid : validate_ack a ≡ ok tt
  valid' : validate_ack p ≡ ok tt
  unclean : a.capture.unclean ≡ p.capture.unclean
  decision : keeps_decision p.publication a.publication ≡ true
  checkpoint : is_some p.receipt.checkpoint_id ≡ true → is_some a.receipt.checkpoint_id ≡ true

follows_inv : (a p : FinalizationAcknowledgement) → follows_ack a p ≡ ok tt → Followed a p
unfolding follows_ack
follows_inv a p h =
    let same : same_finalization_input a.capture p.capture ≡ true = ground arith in
    let after : validate_receipt_after a.receipt (ack_input a) (some p.receipt) ≡ ok tt =
      ground arith in
    record {
      valid = ground arith;
      valid' = ground arith;
      unclean = same_unclean a.capture p.capture same;
      decision = ground arith;
      checkpoint =
          checkpoint_kept a.receipt p.receipt
            (receipt_follows a.receipt (ack_input a) p.receipt after);
    }

-- From the state that a receipt proves to the one that a later receipt or decision proves.
receipt_Reaches :
    (c d : Option String) (u : Bool)
    → (is_some c ≡ true → is_some d ≡ true)
    → Reaches u (receipt_state c u) (receipt_state d u)
unfolding receipt_state allowed_finalization_transition
receipt_Reaches none none u k = here
receipt_Reaches none (some d) true k = next refl here
receipt_Reaches none (some d) false k = next refl here
receipt_Reaches (some c) none u k = cc (k refl)
receipt_Reaches (some c) (some d) u k = here

terminal_Reaches :
    (q : Phase) (u : Bool)
    → is_terminal q ≡ true
    → valid_finalization_state q u ≡ true
    → Reaches u (receipt_state (some "") u) q
unfolding receipt_state allowed_finalization_transition valid_finalization_state
terminal_Reaches published true t v = cc
terminal_Reaches published false t v = next refl here
terminal_Reaches conflicted true t v = cc
terminal_Reaches conflicted false t v = next refl here
terminal_Reaches detached true t v = next refl here
terminal_Reaches detached false t v = next refl here
terminal_Reaches local_durable u t v = cc
terminal_Reaches upload_pending u t v = cc
terminal_Reaches persisted u t v = cc
terminal_Reaches persisted_unclean u t v = cc
terminal_Reaches superseded u t v = cc
terminal_Reaches (unknown s) u t v = cc

Reaches-trans : {u : Bool} {p q r : Phase} → Reaches u p q → Reaches u q r → Reaches u p r
Reaches-trans here s = s
Reaches-trans (next h r) s = next h (Reaches-trans r s)

decision_Reaches :
    (p : PublicationReceipt) (c d : Option String) (u : Bool)
    → decision_fits p.status p u ≡ true
    → is_some d ≡ true
    → (is_some c ≡ true → is_some d ≡ true)
    → Reaches u (receipt_state c u) (phase_of (some p) d u)
unfolding phase_of
decision_Reaches p c none u fits s k = cc
decision_Reaches p c (some x) u fits s k = elim (Bool-cases (p.status == superseded)) [
  | inl old ↦ rw old (receipt_Reaches c (some x) u k)
  | inr new ↦ rw new (elim (decision_states p u fits) [
    | inl e ↦ cc (new, (phase_Eq.eqb_iff p.status superseded).1 e)
    | inr (terminal, valid) ↦
        Reaches-trans (receipt_Reaches c (some x) u k)
          (unfold receipt_state in terminal_Reaches p.status u terminal valid)
  ])
]

phase_Reaches :
    (o o' : Option PublicationReceipt) (c d : Option String) (u : Bool)
    → Decided o' d u
    → keeps_decision o o' ≡ true
    → (is_some c ≡ true → is_some d ≡ true)
    → Reaches u (phase_of o c u) (phase_of o' d u)
unfolding keeps_decision
phase_Reaches none none c d u f h k = unfold phase_of in receipt_Reaches c d u k
phase_Reaches none (some q) c d u f h k =
    unfold phase_of in decision_Reaches q c d u (f q refl).0 (f q refl).1 k
phase_Reaches (some p) none c d u f h k = cc
phase_Reaches (some p) (some q) c d u f h k =
    let same : q ≡ p = sym ((publication_Eq.eqb_iff p q).0 h) in
    subst (λ (x : PublicationReceipt). Reaches u (phase_of (some p) c u) (phase_of (some x) d u))
      (sym same)
      (elim (Bool-cases (p.status == superseded)) [
        | inl old ↦ unfold phase_of in rw old (receipt_Reaches c d u k)
        | inr new ↦ unfold phase_of in rw new here
      ])

-- An acknowledgement that follows another moves the local journal only along its own transitions:
-- the phase that it proves is reached from the earlier one by zero or more allowed steps.
pub follows-Reaches :
    (a p : FinalizationAcknowledgement) (s t : Phase)
    → follows_ack a p ≡ ok tt
    → ack_state p ≡ ok s
    → ack_state a ≡ ok t
    → Reaches a.capture.unclean s t
follows-Reaches a p s t h hs ht =
    let f = follows_inv a p h in
    let u = a.capture.unclean in
    let earlier =
      (ack_state_inv p s hs).1
      ∙ ap (phase_of p.publication p.receipt.checkpoint_id) (sym f.unclean) in
    let later = (ack_state_inv a t ht).1 in
    rw (earlier, later)
      (phase_Reaches p.publication a.publication p.receipt.checkpoint_id a.receipt.checkpoint_id u
        (λ q e. decision_of a q f.valid e) f.decision f.checkpoint)
