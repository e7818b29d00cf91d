-- ===== src/Confinement/Tests.antt =====
-- Runs of the model of policy.py on a file system without links.
use universal_agent_middlewa.Prelude.{
  ◌≡◌, refl, true, false, some, [], ◌∷◌, ◌++◌, ◌==◌, str_eq, if◌then◌else◌,
}
use universal_agent_middlewa.Confinement.Names.{
  Unicode, fold_name, alias_key, drop_ignorable, strip_end, denied_spelling, is_denied_exact,
  denied_exact, denied_patterns, is_denied_component,
}
use universal_agent_middlewa.Confinement.Paths.{
  Files, passed, refused, denied_component, relative_to, ensure_relative_path, resolve_safe_path,
}
use universal_agent_middlewa.Confinement.Proofs.{IsConfined, resolve_safe_path-IsConfined}

abbrev unicode : Unicode
unicode = record {
  nfd = λ s. s;
  casefold = λ s. if str_eq s ".SSH" then ".ssh" else s;
  is_space = λ c. c == 32;
  fullmatch = λ p s. false;
}

abbrev files : Files
files = record {
  parts = λ s. if str_eq s "docs/plan.md" then "docs" ∷ "plan.md" ∷ [] else s ∷ [];
  is_absolute = λ s. false;
  resolve_root = λ s. some ("work" ∷ []);
  resolve = λ must_exist root parts. some (root ++ parts);
}

-- A trailing blank is taken off.
blank_run : denied_spelling unicode (alias_key unicode ".ssh ") (alias_key unicode ".ssh ") ≡ true
unfolding denied_spelling is_denied_exact alias_key drop_ignorable strip_end fold_name denied_exact
    denied_patterns
blank_run = refl

safe_run :
    resolve_safe_path unicode files "~" "docs/plan.md" true
    ≡ passed ("work" ∷ "docs" ∷ "plan.md" ∷ [])
unfolding resolve_safe_path relative_to is_denied_component denied_spelling is_denied_exact
    alias_key drop_ignorable strip_end fold_name denied_exact denied_patterns
safe_run = refl

folded_run : ensure_relative_path unicode files ".SSH" ≡ refused (denied_component ".SSH")
unfolding ensure_relative_path is_denied_component denied_spelling is_denied_exact alias_key
    drop_ignorable strip_end fold_name denied_exact denied_patterns
folded_run = refl

resolve_safe_path-IsConfined_example :
    IsConfined unicode files "~" "docs/plan.md" ("work" ∷ "docs" ∷ "plan.md" ∷ [])
resolve_safe_path-IsConfined_example =
    resolve_safe_path-IsConfined unicode files "~" "docs/plan.md" true
      ("work" ∷ "docs" ∷ "plan.md" ∷ []) safe_run
