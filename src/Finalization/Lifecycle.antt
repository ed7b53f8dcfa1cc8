-- ===== src/Finalization/Lifecycle.antt =====
-- The phases of a finalization record over any sequence of `AdvanceFinalization` calls.
use agent_remote_node.Prelude.{
  ℕ, suc, ◌≤◌, ◌≡◌, refl, ◌∙◌, ap, ◌⊎◌, inl, inr, Bool, true, false, ◌&&◌, arith, List, [], ◌∷◌,
  any,
}
use agent_remote_node.Finalization.Journal.{
  Phase, phase_Eq, local_durable, upload_pending, persisted, persisted_unclean, FinalizationRecord,
  valid_finalization_state, allowed_finalization_transition, is_terminal, can_delete_session,
  Advance, advance_finalization, advance_all,
}

abbrev pub phase_rank : Phase → ℕ
phase_rank local_durable = 0
phase_rank upload_pending = 1
phase_rank persisted = 2
phase_rank persisted_unclean = 2
phase_rank _ = 3

transition_rank :
    (p q : Phase) (u : Bool)
    → allowed_finalization_transition p q u ≡ true
    → (phase_rank q ≡ suc (phase_rank p)) × (valid_finalization_state q u ≡ true)
unfolding allowed_finalization_transition
transition_rank p q u h = ground arith

advance-valid :
    (a : Advance) (r : FinalizationRecord)
    → valid_finalization_state r.state r.unclean ≡ true
    → valid_finalization_state
        (advance_finalization a r).0.state
        (advance_finalization a r).0.unclean
      ≡ true
unfolding advance_finalization
advance-valid a r v = ground (arith, transition_rank r.state a.next r.unclean)

advance_rank :
    (a : Advance) (r : FinalizationRecord)
    → (phase_rank (advance_finalization a r).0.state ≡ phase_rank r.state)
      ⊎ ((phase_rank (advance_finalization a r).0.state ≡ suc (phase_rank r.state))
          × ((advance_finalization a r).0.state ≡ a.next)
          × (a.stored ≡ true))
unfolding advance_finalization
advance_rank a r = ground (arith, transition_rank r.state a.next r.unclean)

terminal_stops :
    (p q : Phase) (u : Bool) → is_terminal p ≡ true → allowed_finalization_transition p q u ≡ false
unfolding allowed_finalization_transition
terminal_stops p q u h = ground arith

advance_terminal :
    (a : Advance) (r : FinalizationRecord)
    → is_terminal r.state ≡ true
    → (advance_finalization a r).0 ≡ r
unfolding advance_finalization
advance_terminal a r h = ground (arith, terminal_stops r.state a.next r.unclean)

-- Over any calls, in any order and with any stores failing, a record in a valid phase stays in a
-- valid one, and a terminal record (published, conflicted or detached) never changes again.
pub advance_all_safe :
    (calls : List Advance) (r : FinalizationRecord)
    → valid_finalization_state r.state r.unclean ≡ true
    → (valid_finalization_state (advance_all calls r).state (advance_all calls r).unclean ≡ true)
      × (is_terminal r.state ≡ true → advance_all calls r ≡ r)
unfolding advance_all
advance_all_safe [] r v = (v, λ _. refl)
advance_all_safe (a ∷ rest) r v =
    let (valid, stops) = advance_all_safe rest (advance_finalization a r).0 (advance-valid a r v) in
    (
      valid,
      λ t.
          let same = advance_terminal a r t in
          stops (ap (λ (x : FinalizationRecord). is_terminal x.state) same ∙ t) ∙ same,
    )

-- The call records that the Server retains the complete capture.
abbrev pub records_persistence : Advance → Bool
records_persistence a =
    a.stored && elim a.next [ persisted ↦ true | persisted_unclean ↦ true | _ ↦ false ]

rank_two : (a : Advance) → phase_rank a.next ≡ 2 → a.stored ≡ true → records_persistence a ≡ true
rank_two a h s = ground (arith, h, s)

climb :
    (calls : List Advance) (r : FinalizationRecord)
    → phase_rank r.state ≤ 1
    → 3 ≤ phase_rank (advance_all calls r).state
    → any records_persistence calls ≡ true
unfolding advance_all
climb [] r low high = absurd (omega arith)
climb (a ∷ rest) r low high = elim (advance_rank a r) [
  | inl same ↦ ground (arith, climb rest (advance_finalization a r).0)
  | inr (up, next, stored) ↦ ground (arith, rank_two a, climb rest (advance_finalization a r).0)
]

delete_rank : (r : FinalizationRecord) → can_delete_session r ≡ true → 3 ≤ phase_rank r.state
unfolding can_delete_session
delete_rank r h = ground arith

-- The session view of a capture that the Server had not retained (local or pending upload) may be
-- deleted after some calls only if one of them recorded the persistence of the capture.
pub delete_after_persisted :
    (calls : List Advance) (r : FinalizationRecord)
    → phase_rank r.state ≤ 1
    → can_delete_session (advance_all calls r) ≡ true
    → any records_persistence calls ≡ true
delete_after_persisted calls r low h = climb calls r low (delete_rank (advance_all calls r) h)
