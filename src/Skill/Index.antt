-- ===== src/Skill/Index.antt =====
-- internal/skillmanager/validate.go: the map of `Validate` holds the entries of the manifest.
use Prim.Native.Nat.{◌-◌}
use mathlib.Core.Bool.{false≢true}
use agent_remote_node.Prelude.{
  String, Bool, true, false, not, Option, none, some, List, [], ◌∷◌, ◌≡◌, refl, sym, ap, ◌∙◌, ◌==◌,
  string_Eq, if◌then◌else◌, Outcome, ok, err, Bool-cases, inl, inr, ◌⊎◌, ◌>>=◌, passed, then_ok,
  ltb, unnot,
}
use agent_remote_node.Prelude.Map.{get, get-put}
use agent_remote_node.Skill.Paths.{
  Problem, path_before, parents, unsorted, no_parent, too_many_bytes,
}
use agent_remote_node.Skill.Entries.{Entry, validate_entry}
use agent_remote_node.Skill.Order.{path_before_self, path_before_chain}
use agent_remote_node.Skill.Tree.{
  Progress, advanced, check_entry, check_entries, has_parents, or_missing, bytes, max_int64,
}

-- The entry of a path in a list, or what was there before.
unfoldable pub entry_at : String → List Entry → Option Entry → Option Entry
entry_at k [] before = before
entry_at k (e ∷ rest) before =
    let later = entry_at k rest before in if e.path == k then some e else later

-- The entry that a manifest has at a path.
abbrev pub entry_of : List Entry → String → Outcome Problem Entry
entry_of entries k = or_missing (entry_at k entries none)

-- No path of the map is later than the previous one.
abbrev pub Known : Progress → Type 0
Known s =
    (k : String) (v : Entry)
    → get s.by_path k ≡ some v
    → (k ≡ s.previous) ⊎ (path_before k s.previous ≡ true)

earlier_differs :
    (s : Progress) (e : Entry)
    → Known s
    → path_before s.previous e.path ≡ true
    → (k : String) (v : Entry) → get s.by_path k ≡ some v
    → (e.path == k) ≡ false
earlier_differs s e known later k v h = elim (Bool-cases (e.path == k)) [
  | inr differ ↦ differ
  | inl same ↦
      let eq = (string_Eq.eqb_iff e.path k).0 same in
      let ahead = ap (path_before s.previous) (sym eq) ∙ later in
      absurd (false≢true (sym (path_before_self k) ∙ at_itself k ahead (known k v h)))
]
  where
    at_itself :
        (j : String)
        → path_before s.previous j ≡ true
        → (j ≡ s.previous) ⊎ (path_before j s.previous ≡ true)
        → path_before j j ≡ true
    at_itself j ahead (inl same) = ap (λ x. path_before x j) same ∙ ahead
    at_itself j ahead (inr before) = path_before_chain j s.previous j before ahead

module _ (is_nfc : String → Bool) where
  -- What a round that succeeds has checked.
  pub record Checked (e : Entry) (s s' : Progress) : Type 0 where
    pub entry : validate_entry is_nfc e ≡ ok tt
    pub later : path_before s.previous e.path ≡ true
    pub parents : has_parents s.by_path (parents e.path) ≡ true
    pub fits : ltb (max_int64 - bytes e.size) s.total ≡ false
    pub next : advanced e s ≡ s'

  check_entry-Checked :
      (e : Entry) (s s' : Progress) → check_entry is_nfc e s ≡ ok s' → Checked e s s'
  unfolding check_entry
  check_entry-Checked e s s' h =
      let (entry, a) = then_ok (validate_entry is_nfc e) _ h in
      let (sorted, b) = passed (not (path_before s.previous e.path)) unsorted _ a in
      let (under, c) = passed (not (has_parents s.by_path (parents e.path))) no_parent _ b in
      let (fits, d) = passed (ltb (max_int64 - bytes e.size) s.total) too_many_bytes _ c in
      record {
        entry = entry;
        later = unnot _ sorted;
        parents = unnot _ under;
        fits = fits;
        next = same d;
      }
    where
      same : {x y : Progress} → ◌≡◌ {A = Outcome Problem Progress} (ok x) (ok y) → x ≡ y
      same k = cc

  pub bind_ok :
      {A B : Type 0} (first : Outcome Problem A) (rest : A → Outcome Problem B) {b : B}
      → (first >>= rest) ≡ ok b
      → (a : A) × (first ≡ ok a) × (rest a ≡ ok b)
  bind_ok (err problem) rest h = cc
  bind_ok (ok a) rest h = (a, refl, h)

  -- The first round, and the rest.
  pub check_entries_step :
      (e : Entry) (rest : List Entry) (s s' : Progress)
      → check_entries is_nfc (e ∷ rest) s ≡ ok s'
      → Checked e s (advanced e s) × (check_entries is_nfc rest (advanced e s) ≡ ok s')
  unfolding check_entries
  check_entries_step e rest s s' h =
      let (t, first, others) = bind_ok (check_entry is_nfc e s) (check_entries is_nfc rest) h in
      let c = check_entry-Checked e s t first in
      (
        record {
          entry = c.entry;
          later = c.later;
          parents = c.parents;
          fits = c.fits;
          next = refl;
        },
        ap (check_entries is_nfc rest) c.next ∙ others,
      )

  pub advanced-Known :
      (e : Entry) (s : Progress)
      → Known s
      → path_before s.previous e.path ≡ true
      → Known (advanced e s)
  advanced-Known e s known later k v h = elim (Bool-cases (e.path == k)) [
    | inl same ↦ inl (sym ((string_Eq.eqb_iff e.path k).0 same))
    | inr differ ↦
        let before =
          sym
            (get-put s.by_path e.path e k ∙ ap (λ b. if b then some e else get s.by_path k) differ)
          ∙ h in
        inr (ahead (known k v before))
  ]
    where
      ahead : (k ≡ s.previous) ⊎ (path_before k s.previous ≡ true) → path_before k e.path ≡ true
      ahead (inl same) = ap (λ x. path_before x e.path) same ∙ later
      ahead (inr before) = path_before_chain k s.previous e.path before later

  -- An entry of the map is not replaced.
  pub check_entries_keep :
      (entries : List Entry) (s s' : Progress)
      → Known s
      → check_entries is_nfc entries s ≡ ok s'
      → (k : String) (v : Entry) → get s.by_path k ≡ some v
      → get s'.by_path k ≡ some v
  unfolding check_entries
  check_entries_keep [] s s' known h k v there =
      ap (λ (t : Progress). get t.by_path k) (sym (same h)) ∙ there
    where
      same : {x y : Progress} → ◌≡◌ {A = Outcome Problem Progress} (ok x) (ok y) → x ≡ y
      same q = cc
  check_entries_keep (e ∷ rest) s s' known h k v there =
      let (c, others) = check_entries_step e rest s s' h in
      check_entries_keep rest (advanced e s) s' (advanced-Known e s known c.later) others k v (
        get-put s.by_path e.path e k
        ∙ ap (λ b. if b then some e else get s.by_path k)
            (earlier_differs s e known c.later k v there)
        ∙ there)

  -- The map that the loop ends with.
  pub check_entries_map :
      (entries : List Entry) (s s' : Progress)
      → Known s
      → check_entries is_nfc entries s ≡ ok s'
      → (k : String) → get s'.by_path k ≡ entry_at k entries (get s.by_path k)
  unfolding check_entries entry_at
  check_entries_map [] s s' known h k = ap (λ (t : Progress). get t.by_path k) (sym (same h))
    where
      same : {x y : Progress} → ◌≡◌ {A = Outcome Problem Progress} (ok x) (ok y) → x ≡ y
      same q = cc
  check_entries_map (e ∷ rest) s s' known h k =
      let (c, others) = check_entries_step e rest s s' h in
      let known_next = advanced-Known e s known c.later in
      let put_here = get-put s.by_path e.path e k in
      elim (Bool-cases (e.path == k)) [
        | inl same ↦
            check_entries_keep rest (advanced e s) s' known_next others k e
              (put_here ∙ ap (λ b. if b then some e else get s.by_path k) same)
            ∙ ap (λ b. if b then some e else entry_at k rest (get s.by_path k)) (sym same)
        | inr differ ↦
            check_entries_map rest (advanced e s) s' known_next others k
            ∙ ap (entry_at k rest)
                (put_here ∙ ap (λ b. if b then some e else get s.by_path k) differ)
            ∙ ap (λ b. if b then some e else entry_at k rest (get s.by_path k)) (sym differ)
      ]
