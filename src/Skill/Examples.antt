-- ===== src/Skill/Examples.antt =====
-- A concrete manifest: a directory, a file in it, and a link to the directory's file.
use Prim.Native.Nat.{◌≤◌}
use agent_remote_node.Prelude.{
  String, Bool, true, List, [], ◌∷◌, ◌≡◌, refl, ok, pos, arith, All, ◌↔◌,
}
use agent_remote_node.Prelude.Map.{empty, get, put}
use agent_remote_node.Finalization.Identity.{is_content_digest}
use agent_remote_node.Skill.Paths.{codes_before, parents, components, path_of}
use agent_remote_node.Skill.Entries.{Entry, Manifest}
use agent_remote_node.Skill.Links.{resolve}
use agent_remote_node.Skill.Tree.{validate, bytes, max_int64}
use agent_remote_node.Skill.Resolution.{Within}
use agent_remote_node.Skill.Resolved.{resolve_iff}
use agent_remote_node.Skill.Placed.{IsDirs}
use agent_remote_node.Skill.Index.{entry_of, entry_at}
use agent_remote_node.Skill.Accepted.{validate-IsAscending, IsAscending, total_bytes}

-- Every text of the example is in normal form.
abbrev normal_text : String → Bool
normal_text s = true

abbrev directory : Entry
directory = record {
  path = "a";
  kind = "directory";
  mode = 493;
  size = pos 0;
  sha256 = "";
  target = "";
  content_kind = "";
  dependency = "";
}

abbrev file : Entry
file = record {
  path = "a/f";
  kind = "file";
  mode = 420;
  size = pos 3;
  sha256 = "ba7816bf8f01cfea414140de5dae2223b00361a396177a9cb410ff61f20015ad";
  target = "";
  content_kind = "text";
  dependency = "";
}

-- A link beside the directory's file, which goes up and down again.
abbrev link : Entry
link = record {
  path = "a/l";
  kind = "symlink";
  mode = 511;
  size = pos 0;
  sha256 = "";
  target = "../a/./f";
  content_kind = "";
  dependency = "";
}

-- A second link, to the first.
abbrev second_link : Entry
second_link = record link { path = "b"; target = "a/l" }

abbrev tree : Manifest
tree = record { version = pos 1; entries = directory ∷ (file ∷ (link ∷ (second_link ∷ []))) }

tree_ok : validate normal_text tree ≡ ok tt
unfolding validate get put empty codes_before is_content_digest
tree_ok = refl

sizes_ok : All (λ (e : Entry). bytes e.size ≤ max_int64) tree.entries
sizes_ok = (ground arith, (ground arith, (ground arith, (ground arith, tt))))

validate-IsAscending_example :
    IsAscending tree.entries
    × All (λ (e : Entry). IsDirs (entry_of tree.entries) (parents e.path)) tree.entries
    × (total_bytes tree.entries ≤ max_int64)
validate-IsAscending_example = validate-IsAscending normal_text tree tree_ok sizes_ok

resolve_iff_example :
    (resolve (entry_of tree.entries) 1 ("a" ∷ ("l" ∷ [])) [] ≡ ok ("f" ∷ ("a" ∷ [])))
    ↔ Within (entry_of tree.entries) 1 ("a" ∷ ("l" ∷ [])) [] ("f" ∷ ("a" ∷ []))
resolve_iff_example = resolve_iff (entry_of tree.entries) 1 ("a" ∷ ("l" ∷ [])) [] ("f" ∷ ("a" ∷ []))

-- The first link is followed with the one link that is left.
one_link : resolve (entry_of tree.entries) 1 ("a" ∷ ("l" ∷ [])) [] ≡ ok ("f" ∷ ("a" ∷ []))
unfolding resolve entry_at components path_of
one_link = refl
