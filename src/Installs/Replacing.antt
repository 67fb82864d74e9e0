-- ===== src/Installs/Replacing.antt =====
-- src/installer.ts: the scope root after an installation, by the way in which it ends.
use dsh_ai_coding.Base.{true, ◌⊎◌, ◌≡◌, some, List, Result, ok, err}
use dsh_ai_coding.Installs.Artifact.{InstallErrorCode, ArtifactFile, Platform}
use dsh_ai_coding.Installs.Store.{InstalledTeamSkill}
use dsh_ai_coding.Installs.Installer.{
  InstallRequest, InstallFailure, refused, Root, put, checked_files, check_target, installed_copy,
}
use dsh_ai_coding.Installs.Renaming.{Alike}

-- How an installation ends.
pub data Installed (platform : Platform) (request : InstallRequest) (root : Root)
    : Root × Result InstallFailure InstalledTeamSkill → Type 0 where
  installs :
      (files : List ArtifactFile) (r : Root)
      → checked_files platform request ≡ ok files
      → check_target platform request root ≡ ok tt
      → r.is_made ≡ true
      → Alike r.entries (put request.runtime_name (some files) root.entries)
      → Installed platform request root (r, ok (installed_copy platform request files))
  refuses : (code : InstallErrorCode) → Installed platform request root (root, err (refused code))
  fails :
      (r : Root) (e : InstallFailure)
      → (r.is_made ≡ true) ⊎ (r.is_made ≡ root.is_made)
      → Alike r.entries root.entries
      → Installed platform request root (r, err e)
