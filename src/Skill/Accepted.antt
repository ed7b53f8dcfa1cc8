-- ===== src/Skill/Accepted.antt =====
-- internal/skillmanager/validate.go: what `Validate` promises of a manifest that it accepts.
use Prim.Native.Nat.{ℕ, ◌≤◌, ◌+◌, ◌-◌}
use agent_remote_node.Prelude.{
  String, Bool, true, false, not, ◌||◌, Option, none, some, List, [], ◌∷◌, ◌≡◌, refl, sym, ap, ◌∙◌,
  ◌==◌, string_Eq, int_Eq, ok, arith, subst, passed, All, and_left, and_right, fun_ext, ltb, length,
  pos,
}
use agent_remote_node.Prelude.Map.{Map, get, get-empty}
use agent_remote_node.Skill.Paths.{path_before, parents, path_of, bad_manifest}
use agent_remote_node.Skill.Entries.{Entry, Manifest}
use agent_remote_node.Skill.Order.{path_before_chain}
use agent_remote_node.Skill.Tree.{
  Progress, advanced, check_entries, check_links, has_parents, is_directory, lookup_in, or_missing,
  bytes, max_int64, start, validate,
}
use agent_remote_node.Skill.Placed.{IsDirs}
use agent_remote_node.Skill.Index.{
  entry_at, entry_of, Known, bind_ok, check_entries_step, advanced-Known, check_entries_keep,
  check_entries_map,
}

-- Every path is before all later ones.
abbrev pub IsAscending : List Entry → Type 0
IsAscending [] = Unit {0}
IsAscending (e ∷ rest) =
    All (λ (x : Entry). path_before e.path x.path ≡ true) rest × IsAscending rest

abbrev pub total_bytes : List Entry → ℕ
total_bytes [] = 0
total_bytes (e ∷ rest) = bytes e.size + total_bytes rest

found_directory :
    (o : Option Entry) → is_directory o ≡ true → (e : Entry) × (o ≡ some e) × (e.kind ≡ "directory")
found_directory none h = cc
found_directory (some e) h = (e, refl, (string_Eq.eqb_iff e.kind "directory").0 h)

has_parents-IsDirs :
    (m m' : Map String Entry) (resolved : List String)
    → ((k : String) (v : Entry) → get m k ≡ some v → get m' k ≡ some v)
    → has_parents m resolved ≡ true
    → IsDirs (lookup_in m') resolved
unfolding has_parents
has_parents-IsDirs m m' [] keep h = tt
has_parents-IsDirs m m' (part ∷ rest) keep h =
    let (e, there, directory) =
      found_directory (get m (path_of (part ∷ rest))) (and_left _ (has_parents m rest) h) in
    (
      (e, ap or_missing (keep (path_of (part ∷ rest)) e there), directory),
      has_parents-IsDirs m m' rest keep
          (and_right (is_directory (get m (path_of (part ∷ rest)))) _ h),
    )

module _ (is_nfc : String → Bool) where
  entries-IsDirs :
      (entries : List Entry) (s s' : Progress)
      → Known s
      → check_entries is_nfc entries s ≡ ok s'
      → All (λ (e : Entry). IsDirs (lookup_in s'.by_path) (parents e.path)) entries
  entries-IsDirs [] s s' known h = tt
  entries-IsDirs (e ∷ rest) s s' known h =
      let (c, others) = check_entries_step is_nfc e rest s s' h in
      (
        has_parents-IsDirs s.by_path s'.by_path (parents e.path)
            (check_entries_keep is_nfc (e ∷ rest) s s' known h) c.parents,
        entries-IsDirs rest (advanced e s) s' (advanced-Known is_nfc e s known c.later) others,
      )

  after-All :
      (a b : String) (entries : List Entry)
      → path_before a b ≡ true
      → All (λ (x : Entry). path_before b x.path ≡ true) entries
      → All (λ (x : Entry). path_before a x.path ≡ true) entries
  after-All a b [] h all_later = tt
  after-All a b (e ∷ rest) h (first, others) =
      (path_before_chain a b e.path h first, after-All a b rest h others)

  entries-IsAscending :
      (entries : List Entry) (s s' : Progress)
      → check_entries is_nfc entries s ≡ ok s'
      → All (λ (x : Entry). path_before s.previous x.path ≡ true) entries × IsAscending entries
  entries-IsAscending [] s s' h = (tt, tt)
  entries-IsAscending (e ∷ rest) s s' h =
      let (c, others) = check_entries_step is_nfc e rest s s' h in
      let (later, ascending) = entries-IsAscending rest (advanced e s) s' others in
      ((c.later, after-All s.previous e.path rest c.later later), (later, ascending))

  entries_total :
      (entries : List Entry) (s s' : Progress)
      → All (λ (e : Entry). bytes e.size ≤ max_int64) entries
      → s.total ≤ max_int64
      → check_entries is_nfc entries s ≡ ok s'
      → s.total + total_bytes entries ≤ max_int64
  entries_total [] s s' sizes small h = ground (arith, small)
  entries_total (e ∷ rest) s s' (size, sizes) small h =
      let (c, others) = check_entries_step is_nfc e rest s s' h in
      let total =
        entries_total rest (advanced e s) s' sizes (fit (bytes e.size) s.total size c.fits)
          others in
      ground (arith, total)
    where
      fit : (n t : ℕ) → n ≤ max_int64 → ltb (max_int64 - n) t ≡ false → t + n ≤ max_int64
      fit n t a b = ground (arith, a, b)

  -- The two loops of a run that succeeds.
  validate_loops :
      (m : Manifest)
      → validate is_nfc m ≡ ok tt
      → (s : Progress) × (check_entries is_nfc m.entries start ≡ ok s)
        × (check_links s.by_path m.entries ≡ ok tt)
  unfolding validate
  validate_loops m h =
      let (fine, rest) =
        passed (not (m.version == pos 1) || ltb 100000 (length m.entries)) bad_manifest _ h in
      bind_ok is_nfc (check_entries is_nfc m.entries start) (λ s. check_links s.by_path m.entries)
        rest

  start-Known : Known start
  unfolding start
  start-Known k v h = absurd (nothing (sym (get-empty k) ∙ h))
    where
      nothing : {v : Entry} → ¬ (◌≡◌ {A = Option Entry} none (some v))
      nothing q = cc

  final_lookup :
      (entries : List Entry) (s : Progress)
      → check_entries is_nfc entries start ≡ ok s
      → lookup_in s.by_path ≡ entry_of entries
  unfolding start
  final_lookup entries s h = fun_ext (λ k. ap or_missing (
      check_entries_map is_nfc entries start s start-Known h k
      ∙ ap (entry_at k entries) (get-empty k)))

  -- In a manifest that is accepted the paths ascend, so that no path is there twice; every entry stands in
  -- directories that the manifest lists; and the number of bytes of all files together is a 64-bit integer,
  -- where each size is one.
  pub validate-IsAscending :
      (m : Manifest)
      → validate is_nfc m ≡ ok tt
      → All (λ (e : Entry). bytes e.size ≤ max_int64) m.entries
      → IsAscending m.entries
        × All (λ (e : Entry). IsDirs (entry_of m.entries) (parents e.path)) m.entries
        × (total_bytes m.entries ≤ max_int64)
  unfolding start
  validate-IsAscending m h sizes =
      let (s, first, second) = validate_loops m h in
      (
        (entries-IsAscending m.entries start s first).1,
        subst (λ f. All (λ (e : Entry). IsDirs f (parents e.path)) m.entries)
            (final_lookup m.entries s first) (entries-IsDirs m.entries start s start-Known first),
        ground (arith, entries_total m.entries start s sizes (ground arith) first),
      )
