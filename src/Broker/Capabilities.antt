-- ===== src/Broker/Capabilities.antt =====
-- A capability names one tool session, and a tool session has one capability: the maps.
use agent_remote_node.Prelude.{
  ℕ, String, ◌≡◌, refl, sym, ap, ◌∙◌, true, false, none, some, arith, ◌==◌, string_Eq, nat_Eq,
  Bool-cases, subst, is_some, inl, inr,
}
use agent_remote_node.Prelude.Map.{Map, get, put, remove, get-put, get-remove}
use agent_remote_node.Broker.State.{Broker}

-- The maps of sessions and of capabilities are inverse to each other, no capability is the empty text,
-- and only a session that has a capability has a peer.
pub record ArePaired (sessions nonces : Map String String) (peers : Map String ℕ) : Type 0 where
  pub there : (t n : String) → get sessions t ≡ some n → get nonces n ≡ some t
  pub back : (n t : String) → get nonces n ≡ some t → get sessions t ≡ some n
  pub named : (t n : String) → get sessions t ≡ some n → (n == "") ≡ false
  pub peered : (t : String) (u : ℕ) → get peers t ≡ some u → is_some (get sessions t) ≡ true

abbrev pub IsPaired : Broker → Type 0
IsPaired b = ArePaired b.sessions b.nonces b.peer_uids

pub add-ArePaired :
    (s n : Map String String) (p : Map String ℕ) (t k : String)
    → ArePaired s n p
    → get s t ≡ none
    → get n k ≡ none
    → (k == "") ≡ false
    → ArePaired (put s t k) (put n k t) p
add-ArePaired s n p t k h free unused name = record {
  there = λ u m e. elim (Bool-cases (t == u)) [
    | inl same ↦
        let value : k ≡ m = ground (arith, get-put s t k u, same, e) in
        subst (λ x. get (put n k t) x ≡ some u) value
          (get-put n k t k
            ∙ rw ((string_Eq.eqb_iff k k).1 refl) (ap some ((string_Eq.eqb_iff t u).0 same)))
    | inr differ ↦
        let old : get s u ≡ some m = ground (arith, get-put s t k u, differ, e) in
        elim (Bool-cases (k == m)) [
          | inl clash ↦ cc (unused, h.there u m old, ap (get n) ((string_Eq.eqb_iff k m).0 clash))
          | inr apart ↦ get-put n k t m ∙ rw apart (h.there u m old)
        ]
  ];
  back = λ m u e. elim (Bool-cases (k == m)) [
    | inl same ↦
        let value : t ≡ u = ground (arith, get-put n k t m, same, e) in
        subst (λ x. get (put s t k) x ≡ some m) value
          (get-put s t k t
            ∙ rw ((string_Eq.eqb_iff t t).1 refl) (ap some ((string_Eq.eqb_iff k m).0 same)))
    | inr differ ↦
        let old : get n m ≡ some u = ground (arith, get-put n k t m, differ, e) in
        elim (Bool-cases (t == u)) [
          | inl clash ↦ cc (free, h.back m u old, ap (get s) ((string_Eq.eqb_iff t u).0 clash))
          | inr apart ↦ get-put s t k u ∙ rw apart (h.back m u old)
        ]
  ];
  named = λ u m e. elim (Bool-cases (t == u)) [
    | inl same ↦
        let value : k ≡ m = ground (arith, get-put s t k u, same, e) in
        subst (λ x. (x == "") ≡ false) value name
    | inr differ ↦ h.named u m (ground (arith, get-put s t k u, differ, e))
  ];
  peered = λ u x e. ground (arith, get-put s t k u, h.peered u x e);
}

pub remove-ArePaired :
    (s n : Map String String) (p : Map String ℕ) (t k : String)
    → ArePaired s n p
    → get s t ≡ some k
    → ArePaired (remove s t) (remove n k) (remove p t)
remove-ArePaired s n p t k h e = record {
  there = λ u m f. elim (Bool-cases (t == u)) [
    | inl same ↦ absurd (ground (arith, get-remove s t u, same, f))
    | inr differ ↦
        let old : get s u ≡ some m = ground (arith, get-remove s t u, differ, f) in
        elim (Bool-cases (k == m)) [
          | inl clash ↦
              let eq = (string_Eq.eqb_iff k m).0 clash in
              let u_is : get n k ≡ some u =
                subst (λ x. get n x ≡ some u) (sym eq) (h.there u m old) in
              let t_is : t ≡ u = ground (arith, u_is, h.there t k e) in
              cc (differ, (string_Eq.eqb_iff t u).1 t_is)
          | inr apart ↦ get-remove n k m ∙ rw apart (h.there u m old)
        ]
  ];
  back = λ m u f. elim (Bool-cases (k == m)) [
    | inl same ↦ absurd (ground (arith, get-remove n k m, same, f))
    | inr differ ↦
        let old : get n m ≡ some u = ground (arith, get-remove n k m, differ, f) in
        elim (Bool-cases (t == u)) [
          | inl clash ↦
              let eq = (string_Eq.eqb_iff t u).0 clash in
              let m_is : get s t ≡ some m =
                subst (λ x. get s x ≡ some m) (sym eq) (h.back m u old) in
              let k_is : k ≡ m = ground (arith, m_is, e) in
              cc (differ, (string_Eq.eqb_iff k m).1 k_is)
          | inr apart ↦ get-remove s t u ∙ rw apart (h.back m u old)
        ]
  ];
  named = λ u m f. h.named u m (ground (arith, get-remove s t u, f));
  peered = λ u x f. ground (arith, get-remove s t u, get-remove p t u, f, h.peered u x);
}
