-- ===== src/Installs/Checked.antt =====
-- src/installer.ts: what the files of an artifact that passes every check have.
use dsh_ai_coding.Base.{
  ℕ, Bool, true, false, ◌≡◌, refl, sym, ap, ◌∙◌, subst, some, List, [], ◌∷◌, map, String, Result,
  ok, ◌>>◌, is_ok, require, All, any_of, find_by, sort_by, insert_by, IfOk, by_bind, by_option,
  eq_iff, by_if, arith, from_none, from_false,
}
use dsh_ai_coding.Installs.Store.{FileDigest}
use dsh_ai_coding.Installs.Artifact.{
  InstallErrorCode, ArtifactFile, Platform, is_runtime_name, validate_runtime_name,
  verify_archive_digest, verify_file_manifest, validate_skill_frontmatter, normalize_artifact_path,
  normalized, is_root_skill, unpack_and_validate, digest_of, same_digests,
}
use dsh_ai_coding.Installs.Installer.{InstallRequest, checked_files}
use dsh_ai_coding.Installs.Contained.{is_contained, normalize_artifact_path-IsSafe}

-- What an archive that passes all checks has: a name that is a single part, the digest that was
-- declared, the paths of files below the root, a `SKILL.md` among them, and the digests of the
-- manifest, if there is one.
pub record IsChecked (platform : Platform) (request : InstallRequest) (files : List ArtifactFile)
    : Type 0 where
  pub name : is_runtime_name request.runtime_name ≡ true
  pub digest : platform.sha256 request.archive ≡ platform.lower request.expected_sha256
  pub contained : All (λ f. is_contained f.path ≡ true) files
  pub skill : any_of (is_root_skill platform) files ≡ true
  pub manifest :
      (expected : List FileDigest)
      → request.expected_file_digests ≡ some expected
      → same_digests platform
          (map (digest_of platform) files)
          (sort_by (λ a b. platform.collate a.path b.path) expected)
        ≡ true

All-insert_by {ℓ κ} :
    {A : Type ℓ} (P : A → Type κ) (before : A → A → Bool) (x : A) (ys : List A)
    → P x
    → All P ys
    → All P (insert_by before x ys)
All-insert_by P before x [] hx h = (hx, tt)
All-insert_by P before x (y ∷ ys) hx h =
    by_if (All P) (before x y) (λ _. (hx, h)) (λ _. (h.0, All-insert_by P before x ys hx h.1))

All-sort_by {ℓ κ} :
    {A : Type ℓ} (P : A → Type κ) (before : A → A → Bool) (xs : List A)
    → All P xs
    → All P (sort_by before xs)
All-sort_by P before [] h = tt
All-sort_by P before (x ∷ xs) h =
    All-insert_by P before x (sort_by before xs) h.0 (All-sort_by P before xs h.1)

abbrev IsSafe : ArtifactFile → Type 0
IsSafe f = is_contained f.path ≡ true

normalized-IsSafe :
    (platform : Platform) (entries : List (String × List ℕ))
    → IfOk (All IsSafe) (normalized platform entries)
unfolding normalized
normalized-IsSafe platform [] = tt
normalized-IsSafe platform ((path, contents) ∷ entries) =
    by_bind (All IsSafe) (normalize_artifact_path path) _ (λ safe e.
      by_bind (All IsSafe) (normalized platform entries) _ (λ files t. (
        normalize_artifact_path-IsSafe path safe e,
        subst (IfOk (All IsSafe)) t (normalized-IsSafe platform entries),
      )))

-- The files of an archive that was unpacked.
abbrev Unpacked : Platform → List ArtifactFile → Type 0
Unpacked platform files = All IsSafe files × (any_of (is_root_skill platform) files ≡ true)

find_by-any_of {ℓ} :
    {A : Type ℓ} (p : A → Bool) (xs : List A) (x : A) → find_by p xs ≡ some x → any_of p xs ≡ true
find_by-any_of p [] x e = from_none e
find_by-any_of p (y ∷ xs) x e = ground (arith, e, find_by-any_of p xs x)

unpack_and_validate-Unpacked :
    (platform : Platform) (archive : List ℕ) (name : String)
    → IfOk (Unpacked platform) (unpack_and_validate platform archive name)
unfolding unpack_and_validate
unpack_and_validate-Unpacked platform archive name =
    by_option U (platform.unzip archive) (λ _. tt)
      (λ entries _. by_bind (Unpacked platform) (normalized platform entries) _ (λ unsorted e.
        let files = sort_by (λ a b. platform.collate a.path b.path) unsorted in
        by_option U (find_by (is_root_skill platform) files) (λ _. tt)
          (λ skill t.
            by_bind (Unpacked platform)
              (validate_skill_frontmatter platform (platform.decode skill.contents) name) _
              (λ _ _. (
                All-sort_by IsSafe (λ a b. platform.collate a.path b.path) unsorted
                    (subst (IfOk (All IsSafe)) e (normalized-IsSafe platform entries)),
                find_by-any_of (is_root_skill platform) files skill t,
              )))))
  where
    U : Result InstallErrorCode (List ArtifactFile) → Type 0
    U = IfOk (Unpacked platform)

-- Two requirements that are met.
required :
    (a b : Bool) (x y : InstallErrorCode) (u : Unit {0})
    → (require a x >> require b y) ≡ ok u
    → (a ≡ true) × (b ≡ true)
required true true x y u e = (refl, refl)
required true false x y u e = from_false (ap is_ok e)
required false b x y u e = from_false (ap is_ok e)

require-true {ℓ} : {E : Type ℓ} (b : Bool) (x : E) (u : Unit {0}) → require b x ≡ ok u → b ≡ true
require-true true x u e = refl
require-true false x u e = from_false (ap is_ok e)

-- The files of an artifact that passes all checks of an installation have the declared digests, and
-- none of their paths leads out of the root: each part of each path is a name. A `SKILL.md` is among
-- them, and the name of the directory is a single part of small letters, digits and dashes.
pub checked_files-IsChecked :
    (platform : Platform) (request : InstallRequest)
    → IfOk (IsChecked platform request) (checked_files platform request)
unfolding checked_files
checked_files-IsChecked platform request =
    by_bind C
      (validate_runtime_name request.runtime_name
        >> verify_archive_digest platform request.archive request.expected_sha256)
      _
      (λ u e.
        let both = required (is_runtime_name request.runtime_name) _ _ _ u e in
        by_bind C (unpack_and_validate platform request.archive request.runtime_name) _ (λ files t.
          let unpacked =
            subst (IfOk (Unpacked platform)) t
              (unpack_and_validate-Unpacked platform request.archive request.runtime_name) in
          by_bind C (verify_file_manifest platform files request.expected_file_digests) _ (λ v m.
            record {
              name = both.0;
              digest =
                  (eq_iff (platform.sha256 request.archive)
                      (platform.lower request.expected_sha256)).0
                    (ground (arith, both.1));
              contained = unpacked.0;
              skill = unpacked.1;
              manifest = λ expected q.
                  require-true _ _ v (sym (ap (verify_file_manifest platform files) q) ∙ m);
            })))
  where
    C : List ArtifactFile → Type 0
    C = IsChecked platform request
