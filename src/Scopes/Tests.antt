-- ===== src/Scopes/Tests.antt =====
-- Runs of the model of root_scope.py and path_authority.py: a project whose directory `evidence` may not be
-- read, on a file system that does not tell `Evidence` from `evidence`.
use universal_agent_middlewa.Prelude.{
  ◌≡◌, ◌↔◌, refl, Bool, true, false, some, List, [], ◌∷◌, all, str_eq, if◌then◌else◌,
}
use universal_agent_middlewa.Scopes.Root.{
  RootScopeAuthority, RootScope, PathParts, FileSystem, can_read, effective_authority, first_at,
  covers, deepest, deeper, covers_folded, depth, fold_path, starts_with, both, meet,
}
use universal_agent_middlewa.Scopes.Policy.{read_op, Zone, passes, allows, require}
use universal_agent_middlewa.Prelude.Sort.{sort, insert}
use universal_agent_middlewa.Scopes.Policy.{zone_allows, above}
use universal_agent_middlewa.Scopes.Subtrees.{
  excluded_subtrees, denied_zones, outermost, all_below, below_base, add_path, sorted_texts,
  texts_of, add_text, posix,
}
use universal_agent_middlewa.Scopes.Excluded.{here, later, IsExcluded, excluded_subtrees-IsExcluded}
use universal_agent_middlewa.Scopes.Order.{
  longest_first, is_resolved, is_longer, root_length, text_length,
}
use universal_agent_middlewa.Scopes.Specific.{IsMostSpecific, longest_first-IsMostSpecific}
use universal_agent_middlewa.Scopes.Proofs.{IsReadable, can_read-IsReadable, require-allows}

abbrev grants : Bool → RootScopeAuthority
grants content = record {
  discover = true;
  metadata_read = true;
  content_read = content;
  text_search = content;
  git_observe = true;
  classify = true;
  index = true;
  relate = true;
  auto_admit = false;
  directory_admit = false;
}

abbrev project : RootScope
project = record {
  scope_id = "project";
  root = "project";
  authority = grants true;
  description = "";
}

abbrev evidence : RootScope
evidence = record {
  scope_id = "evidence";
  root = "evidence";
  authority = grants false;
  description = "";
}

abbrev scopes : List RootScope
scopes = evidence ∷ project ∷ []

abbrev fs : FileSystem
fs = record {
  resolve = λ s. if str_eq s "project" then some ("p" ∷ []) else some ("p" ∷ "evidence" ∷ []);
  fold_name = λ s. if str_eq s "Evidence" then "evidence" else s;
}

abbrev note : PathParts
note = "p" ∷ "note" ∷ []

abbrev respelled : PathParts
respelled = "p" ∷ "Evidence" ∷ "x" ∷ []

abbrev zones : List Zone
zones =
    record {
      root = "p" ∷ "evidence" ∷ [];
      folded_root = "p" ∷ "evidence" ∷ [];
      scope_id = "evidence";
      authority = grants false;
    }
    ∷ []

note_run : can_read fs scopes note ≡ true
unfolding can_read effective_authority first_at covers deepest deeper covers_folded depth fold_path
    starts_with both meet
note_run = refl

respelled_run : can_read fs scopes respelled ≡ false
unfolding can_read effective_authority first_at covers deepest deeper covers_folded depth fold_path
    starts_with both meet
respelled_run = refl

can_read-IsReadable_example : IsReadable fs scopes note
can_read-IsReadable_example = can_read-IsReadable fs scopes note note_run

require-allows_example :
    (require fs zones read_op (note ∷ respelled ∷ []) ≡ passes)
    ↔ (all (allows fs zones read_op) (note ∷ respelled ∷ []) ≡ true)
require-allows_example = require-allows fs zones read_op (note ∷ respelled ∷ [])

abbrev closed_zone : Zone
closed_zone = record {
  root = "p" ∷ "evidence" ∷ [];
  folded_root = "p" ∷ "evidence" ∷ [];
  scope_id = "evidence";
  authority = grants false;
}

abbrev inner_zone : Zone
inner_zone = record {
  root = "p" ∷ "evidence" ∷ "old" ∷ [];
  folded_root = "p" ∷ "evidence" ∷ "old" ∷ [];
  scope_id = "old";
  authority = grants false;
}

-- The zone inside the other one is in the subtree that is listed.
excluded_subtrees-IsExcluded_example :
    IsExcluded (closed_zone ∷ inner_zone ∷ []) read_op ("p" ∷ []) ("evidence" ∷ []) inner_zone
unfolding excluded_subtrees denied_zones outermost all_below below_base add_path sorted_texts
    texts_of add_text posix above starts_with zone_allows fold_path sort insert
excluded_subtrees-IsExcluded_example =
    excluded_subtrees-IsExcluded fs (closed_zone ∷ inner_zone ∷ []) read_op ("p" ∷ []) inner_zone
      refl (later here) refl

abbrev old_note : PathParts
old_note = "p" ∷ "evidence" ∷ "old" ∷ []

sorted_run : longest_first fs (project ∷ evidence ∷ []) ≡ some (evidence ∷ project ∷ [])
unfolding longest_first is_resolved is_longer root_length text_length sort insert
sorted_run = refl

first_run : first_at (covers fs old_note) 0 (evidence ∷ project ∷ []) ≡ some (0, evidence)
unfolding first_at covers starts_with
first_run = refl

longest_first-IsMostSpecific_example : IsMostSpecific fs (project ∷ evidence ∷ []) old_note evidence
longest_first-IsMostSpecific_example =
    longest_first-IsMostSpecific fs (project ∷ evidence ∷ []) old_note sorted_run first_run
