-- ===== src/Installs/Installer.antt =====
-- src/installer.ts: installation, quarantine and removal of a local copy. An installation works on the
-- entries of its scope root, each a directory beside the others with the regular files below it, so none
-- holds another. A `Faults` tells which calls of `fs` raise. The names of the two entries that an
-- installation draws are arguments.
use dsh_ai_coding.Base.{
  ℕ, Bool, true, false, not, ◌||◌, ◌&&◌, Option, none, some, List, [], ◌∷◌, map, String, Result, ok,
  err, ◌>>=◌, ◌>>◌, str_eq, is_none, sort_by, if◌then◌else◌,
}
use dsh_ai_coding.Installs.Store.{FileDigest, InstalledTeamSkill, normal, withdrawn, uninstalled}
use dsh_ai_coding.Installs.Artifact.{
  InstallErrorCode, local_content_modified, target_conflict, ArtifactFile, Platform,
  validate_runtime_name, verify_archive_digest, unpack_and_validate, verify_file_manifest,
  digest_of,
}

pub record InstallRequest : Type 0 where
  pub scope_root : String
  pub runtime_name : String
  pub version : String
  pub archive : List ℕ
  pub expected_sha256 : String
  pub expected_file_digests : Option (List FileDigest)
  pub current : Option InstalledTeamSkill
  pub confirm_modified_replace : Bool

-- A refusal with its code, or an error of `fs`.
pub data InstallFailure : Type 0 where
  refused : InstallErrorCode → InstallFailure
  raised : InstallFailure

-- The directories of a root by their names.
abbrev pub Entries : Type 0
Entries = String → Option (List ArtifactFile)

abbrev pub put : String → Option (List ArtifactFile) → Entries → Entries
put directory tree disk name = if str_eq name directory then tree else disk name

-- A root, which may have to be made before it has entries.
pub record Root : Type 0 where
  pub is_made : Bool
  pub entries : Entries

-- Which calls raise: `mkdir` of the root and of the new directory, the writes into it, the removal of
-- the new directory, the renames of the target to its backup, of the new directory to the target and of
-- the backup to the target, and the last removal. `written` is what stands in the new directory when a
-- write raises.
pub record Faults : Type 0 where
  pub makes_root : Bool
  pub makes : Bool
  pub writes : Bool
  pub written : List ArtifactFile
  pub removes : Bool
  pub backs_up : Bool
  pub swaps : Bool
  pub restores : Bool
  pub cleans : Bool

-- `rename`, unless it raises: no directory takes the place of one with files.
abbrev pub is_free : Option (List ArtifactFile) → Bool
is_free none = true
is_free (some []) = true
is_free (some (file ∷ files)) = false

abbrev pub rename : Bool → String → String → Entries → Option Entries
rename fault source target disk = elim (disk source) [
  | none ↦ none
  | some tree ↦
      if fault || not (is_free (disk target))
      then none
      else some (put target (some tree) (put source none disk))
]

abbrev pub Written : Type 0
Written = Entries × Result InstallFailure (Unit {0})

-- One replacement at a time, as the queue of the target has it.
unfoldable pub replace_directory : Faults → String → String → String → Entries → Written
replace_directory faults temporary target backup disk =
    if is_none (disk target)
    then elim (rename faults.swaps temporary target disk) [
      | none ↦ (disk, err raised)
      | some moved ↦ (moved, ok tt)
    ]
    else elim (rename faults.backs_up target backup disk) [
      | none ↦ (disk, err raised)
      | some kept ↦ elim (rename faults.swaps temporary target kept) [
        | none ↦ elim (rename faults.restores backup target kept) [
          | none ↦ (if faults.cleans then kept else put backup none kept, err raised)
          | some restored ↦ (restored, err raised)
        ]
        | some moved ↦ if faults.cleans then (moved, err raised) else (put backup none moved, ok tt)
      ]
    ]

-- Where the writes or the replacement raise, the new directory is removed; where that raises as well,
-- it stays and its error is the one that is thrown.
abbrev pub removed : Bool → String → Written → Written
removed fault temporary (d, ok done) = (d, ok done)
removed fault temporary (d, err e) =
    if fault then (d, err raised) else (put temporary none d, err e)

-- The files are written into the new directory, which then takes the place of the target.
unfoldable pub write_files :
    Faults → String → String → String → List ArtifactFile → Entries → Written
unfolding replace_directory
write_files faults temporary target backup files entries = removed faults.removes temporary (
    if faults.writes
    then (put temporary (some faults.written) entries, err raised)
    else replace_directory faults temporary target backup (put temporary (some files) entries))

-- The root is made first, and stays where the rest fails.
unfoldable pub write_copy :
    Faults
    → String
    → String
    → String
    → List ArtifactFile
    → Root
    → Root × Result InstallFailure (Unit {0})
unfolding write_files
write_copy faults temporary target backup files root =
    if faults.makes_root
    then (root, err raised)
    else if faults.makes
    then (record root { is_made = true }, err raised)
    else let end = write_files faults temporary target backup files root.entries in
      (record { is_made = true; entries = end.0 }, end.1)

module _ (platform : Platform) where
  abbrev pub equal_digests : List FileDigest → List FileDigest → Bool
  equal_digests [] [] = true
  equal_digests [] (e ∷ expected) = false
  equal_digests (f ∷ files) [] = false
  equal_digests (f ∷ files) (e ∷ expected) =
      str_eq f.path e.path && str_eq f.sha256 e.sha256 && equal_digests files expected

  -- A directory that cannot be read does not match.
  abbrev pub matches_recorded_files : InstalledTeamSkill → Option (List ArtifactFile) → Bool
  matches_recorded_files installed directory = elim directory [
    | none ↦ false
    | some tree ↦
        equal_digests
          (sort_by (λ a b. platform.collate a.path b.path) (map (digest_of platform) tree))
          installed.files
  ]

  abbrev pub target_of : InstallRequest → String
  target_of request = platform.join (platform.resolve request.scope_root) request.runtime_name

  -- The checks of the archive: the files that are written.
  unfoldable pub checked_files : InstallRequest → Result InstallErrorCode (List ArtifactFile)
  unfolding unpack_and_validate
  checked_files request =
      validate_runtime_name request.runtime_name
      >> verify_archive_digest platform request.archive request.expected_sha256
      >> (unpack_and_validate platform request.archive request.runtime_name >>= λ files.
          verify_file_manifest platform files request.expected_file_digests >> ok files)

  -- Whether the target may be replaced.
  unfoldable pub check_target : InstallRequest → Root → Result InstallErrorCode (Unit {0})
  check_target request root = elim request.current [
    | none ↦ if is_none (root.entries request.runtime_name) then ok tt else err target_conflict
    | some current ↦
        if not (str_eq (platform.resolve current.directory) (target_of request))
        then err target_conflict
        else if not request.confirm_modified_replace
            && not (matches_recorded_files current (root.entries request.runtime_name))
        then err local_content_modified
        else ok tt
  ]

  abbrev pub installed_copy : InstallRequest → List ArtifactFile → InstalledTeamSkill
  installed_copy request files = record {
    runtime_name = request.runtime_name;
    version = request.version;
    artifact_sha256 = request.expected_sha256;
    directory = target_of request;
    files = map (digest_of platform) files;
    state = normal;
  }

  unfoldable pub install_team_skill :
      Faults
      → String
      → String
      → InstallRequest
      → Root
      → Root × Result InstallFailure InstalledTeamSkill
  unfolding checked_files check_target write_copy
  install_team_skill faults temporary backup request root =
      elim (checked_files request >>= λ files. check_target request root >> ok files) [
        | err e ↦ (root, err (refused e))
        | ok files ↦
            let end = write_copy faults temporary request.runtime_name backup files root in
            (end.0, end.1 >> ok (installed_copy request files))
      ]

  -- What a quarantine leaves in the directory of the copy and in the quarantine root, which lie apart.
  unfoldable pub quarantine_team_skill :
      Faults
      → InstalledTeamSkill
      → String
      → Option (List ArtifactFile)
      → Root
      → Option (List ArtifactFile) × Root × Result InstallFailure InstalledTeamSkill
  quarantine_team_skill faults installed quarantine_root copy root =
      if not (is_none (root.entries installed.runtime_name))
      then (copy, root, err (refused target_conflict))
      else if faults.makes_root
      then (copy, root, err raised)
      else elim copy [
        | none ↦ (none, record root { is_made = true }, err raised)
        | some tree ↦
            if faults.swaps then (some tree, record root { is_made = true }, err raised) else (
              none,
              record {
                is_made = true;
                entries = put installed.runtime_name (some tree) root.entries;
              },
              ok (record installed {
                directory = platform.join (platform.resolve quarantine_root) installed.runtime_name;
                state = withdrawn;
              }),
            )
      ]

  -- What a removal leaves in the directory of the copy.
  unfoldable pub uninstall_team_skill :
      Bool
      → Bool
      → InstalledTeamSkill
      → Option (List ArtifactFile)
      → Option (List ArtifactFile) × Result InstallFailure InstalledTeamSkill
  uninstall_team_skill fault confirmed installed copy =
      if not confirmed && not (matches_recorded_files installed copy)
      then (copy, err (refused local_content_modified))
      else if fault
      then (copy, err raised)
      else (none, ok (record installed { state = uninstalled }))
