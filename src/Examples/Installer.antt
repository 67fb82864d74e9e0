-- ===== src/Examples/Installer.antt =====
-- src/installer.ts on small artifacts.
use dsh_ai_coding.Base.{
  true, false, String, some, none, [], ◌∷◌, ok, err, IfOk, is_ok, ◌≡◌, refl, str_append, str_eq,
  Json, object, string, field, closed, if◌then◌else◌,
}
use dsh_ai_coding.Installs.Store.{normal}
use dsh_ai_coding.Installs.Artifact.{
  Platform, artifact_validation_failed, local_content_modified, front_matter,
  normalize_artifact_path,
}
use dsh_ai_coding.Installs.Contained.{is_contained, normalize_artifact_path_lem}
use dsh_ai_coding.Installs.Checked.{IsChecked, checked_files-IsChecked}
use dsh_ai_coding.Installs.Installer.{
  InstallRequest, Root, Faults, refused, checked_files, install_team_skill, uninstall_team_skill,
}

abbrev some_digest : String
some_digest = "0123456789abcdef0123456789abcdef0123456789abcdef0123456789abcdef"

abbrev fields : Json
fields = object (field "name" (string "lint") (field "description" (string "Lints.") closed))

abbrev platform : Platform
platform = record {
  unzip = λ archive. some (("SKILL.md", 1 ∷ []) ∷ ("docs/use.md", 2 ∷ []) ∷ []);
  sha256 = λ contents. some_digest;
  lower = λ t. t;
  decode = λ contents. "---\nname: lint\n---\n# Lint";
  parse_yaml = λ text. if str_eq text "name: lint" then some fields else none;
  collate = λ a b. true;
  resolve = λ path. path;
  join = λ root name. str_append root (str_append "/" name);
}

abbrev install_request : InstallRequest
install_request = record {
  scope_root = "/skills";
  runtime_name = "lint";
  version = "1";
  archive = 0 ∷ [];
  expected_sha256 = some_digest;
  expected_file_digests = some (
      record { path = "SKILL.md"; sha256 = some_digest }
      ∷ record { path = "docs/use.md"; sha256 = some_digest }
      ∷ []);
  current = none;
  confirm_modified_replace = false;
}

abbrev no_faults : Faults
no_faults = record {
  makes_root = false;
  makes = false;
  writes = false;
  written = [];
  removes = false;
  backs_up = false;
  swaps = false;
  restores = false;
  cleans = false;
}

abbrev bare : Root
bare = record { is_made = false; entries = λ name. none }

front_matter_test : front_matter "---\r\na\nb\n---" ≡ some "a\nb"
front_matter_test = refl

open_front_matter_test : front_matter "---\na\n--- b" ≡ none
open_front_matter_test = refl

normalize_artifact_path_lem_example :
    normalize_artifact_path "a/../b"
    ≡ (if is_contained "a/../b" then ok "a/../b" else err artifact_validation_failed)
normalize_artifact_path_lem_example = normalize_artifact_path_lem "a/../b"

checked_files-IsChecked_example :
    IfOk (IsChecked platform install_request) (checked_files platform install_request)
checked_files-IsChecked_example = checked_files-IsChecked platform install_request

checked_test : is_ok (checked_files platform install_request) ≡ true
unfolding checked_files
checked_test = refl

installed_test :
    is_ok (install_team_skill platform no_faults ".lint" "lint.old" install_request bare).1 ≡ true
unfolding install_team_skill
installed_test = refl

-- A copy that is gone counts as modified: it is removed only on confirmation.
uninstall_test :
    (uninstall_team_skill platform false false
      (record {
        runtime_name = "lint";
        version = "1";
        artifact_sha256 = some_digest;
        directory = "/skills/lint";
        files = [];
        state = normal;
      })
      none).1
    ≡ err (refused local_content_modified)
unfolding uninstall_team_skill
uninstall_test = refl
