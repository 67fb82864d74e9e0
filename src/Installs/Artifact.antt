-- ===== src/Installs/Artifact.antt =====
-- src/installer.ts: the checks of an artifact, before anything is written. Its archive is unpacked by
-- `unzipSync`, the front matter parsed by `parseYaml` and digests taken by `createHash`, which are
-- parameters; `collate a b` is `a.localeCompare(b) <= 0`. Contents are their bytes.
use Prim.Native.Char.{Char, code}
use text.Mathlib.Text.{starts_with}
use dsh_ai_coding.Base.{
  sort_by, opt_eq, nonempty, is_none, str_append, ℕ, Bool, true, false, not, ◌&&◌, ◌||◌, Option,
  none, some, List, [], ◌∷◌, map, String, Json, JsonFields, field_of, record_of, Result, ok, err,
  ◌>>=◌, ◌>>◌, require, find_by, any_of, any_char, utf16_length, is_blank, is_empty_text, leb, ◌==◌,
  str_eq, if◌then◌else◌,
}
use dsh_ai_coding.Installs.Store.{FileDigest}

pub data InstallErrorCode : Type 0 where
  artifact_integrity_failed : InstallErrorCode
  artifact_validation_failed : InstallErrorCode
  local_content_modified : InstallErrorCode
  target_conflict : InstallErrorCode

pub record ArtifactFile : Type 0 where
  pub path : String
  pub contents : List ℕ

-- `/^[a-z0-9][a-z0-9-]*$/`.
abbrev is_alphanumeric : ℕ → Bool
is_alphanumeric c = (leb 97 c && leb c 122) || (leb 48 c && leb c 57)

abbrev pub is_runtime_name : String → Bool
is_runtime_name String.[] = false
is_runtime_name (String.◌∷◌ c s) =
    is_alphanumeric (code c) && not (any_char (λ d. not (is_alphanumeric d || (d == 45))) s)

abbrev pub validate_runtime_name : String → Result InstallErrorCode (Unit {0})
validate_runtime_name name = require (is_runtime_name name) artifact_validation_failed

-- `/^[a-f0-9]{64}$/i`.
abbrev is_hexadecimal : ℕ → Bool
is_hexadecimal c = (leb 97 c && leb c 102) || (leb 65 c && leb c 70) || (leb 48 c && leb c 57)

abbrev pub is_digest : String → Bool
is_digest s = (utf16_length s == 64) && not (any_char (λ c. not (is_hexadecimal c)) s)

-- `path.split('/')`.
abbrev pub onto_first : Char → List String → List String
onto_first c [] = []
onto_first c (part ∷ parts) = String.◌∷◌ c part ∷ parts

abbrev pub is_slash : Char → Bool
is_slash c = str_eq (String.◌∷◌ c String.[]) "/"

abbrev pub split_path : String → List String
split_path String.[] = String.[] ∷ []
split_path (String.◌∷◌ c s) =
    let parts = split_path s in if is_slash c then String.[] ∷ parts else onto_first c parts

-- `parts.join('/')`.
abbrev pub joined : String → List String → String
joined part [] = part
joined part (next ∷ parts) = str_append part (str_append "/" (joined next parts))

abbrev pub join_path : List String → String
join_path [] = String.[]
join_path (part ∷ parts) = joined part parts

abbrev pub is_unsafe_part : String → Bool
is_unsafe_part part = is_empty_text part || str_eq part "." || str_eq part ".."

unfoldable pub normalize_artifact_path : String → Result InstallErrorCode String
normalize_artifact_path path =
    if is_empty_text path
      || any_char (λ c. c == 92) path
      || starts_with path "/"
      || any_char (λ c. c == 0) path
    then err artifact_validation_failed
    else if any_of is_unsafe_part (split_path path)
    then err artifact_validation_failed
    else ok (join_path (split_path path))

-- What the regular expression of the front matter takes, lazily, up to the line that closes it.
abbrev after_return : String → String
after_return String.[] = String.[]
after_return (String.◌∷◌ c s) = if code c == 13 then s else String.◌∷◌ c s

abbrev after_newline : String → Option String
after_newline String.[] = none
after_newline (String.◌∷◌ c s) = if code c == 10 then some s else none

abbrev after_dashes : String → Option String
after_dashes (String.◌∷◌ a (String.◌∷◌ b (String.◌∷◌ c s))) =
    if (code a == 45) && (code b == 45) && (code c == 45) then some s else none
after_dashes _ = none

-- `\r?\n---(\r?\n|$)` from here on.
abbrev closes : String → Bool
closes s = elim (after_newline (after_return s)) [
  | none ↦ false
  | some line ↦ elim (after_dashes line) [
    | none ↦ false
    | some rest ↦ is_empty_text rest || not (is_none (after_newline (after_return rest)))
  ]
]

abbrev until_closed : String → Option String
until_closed String.[] = none
until_closed (String.◌∷◌ c s) =
    let rest = until_closed s in
    if closes (String.◌∷◌ c s)
    then some String.[]
    else elim rest [ none ↦ none | some body ↦ some (String.◌∷◌ c body) ]

abbrev pub front_matter : String → Option String
front_matter skill = elim (after_dashes skill) [
  | none ↦ none
  | some line ↦ elim (after_newline (after_return line)) [
    | none ↦ none
    | some body ↦ until_closed body
  ]
]

pub record Platform : Type 0 where
  pub unzip : List ℕ → Option (List (String × List ℕ))
  pub sha256 : List ℕ → String
  pub lower : String → String
  pub decode : List ℕ → String
  pub parse_yaml : String → Option Json
  pub collate : String → String → Bool
  pub resolve : String → String
  pub join : String → String → String

abbrev text_field : String → JsonFields → String → Bool
text_field key fields text = opt_eq (nonempty (field_of key fields)) (some text)

module _ (platform : Platform) where
  abbrev pub validate_skill_frontmatter : String → String → Result InstallErrorCode (Unit {0})
  validate_skill_frontmatter skill name = elim (front_matter skill) [
    | none ↦ err artifact_validation_failed
    | some text ↦ elim (record_of (platform.parse_yaml text)) [
      | none ↦ err artifact_validation_failed
      | some fields ↦
          require
            (text_field "name" fields name && elim (nonempty (field_of "description" fields)) [
              | none ↦ false
              | some description ↦ not (is_blank description)
            ])
            artifact_validation_failed
    ]
  ]

  abbrev pub verify_archive_digest : List ℕ → String → Result InstallErrorCode (Unit {0})
  verify_archive_digest archive expected =
      require (is_digest expected && str_eq (platform.sha256 archive) (platform.lower expected))
        artifact_integrity_failed

  unfoldable pub normalized : List (String × List ℕ) → Result InstallErrorCode (List ArtifactFile)
  unfolding normalize_artifact_path
  normalized [] = ok []
  normalized ((path, contents) ∷ entries) =
      let rest = normalized entries in
      (normalize_artifact_path path >>= λ safe.
      rest >>= λ files. ok (record { path = safe; contents = contents } ∷ files))

  abbrev pub is_root_skill : ArtifactFile → Bool
  is_root_skill file = str_eq file.path "SKILL.md"

  unfoldable pub unpack_and_validate : List ℕ → String → Result InstallErrorCode (List ArtifactFile)
  unfolding normalized
  unpack_and_validate archive name = elim (platform.unzip archive) [
    | none ↦ err artifact_validation_failed
    | some entries ↦
        (normalized entries >>= λ unsorted.
        let files = sort_by (λ a b. platform.collate a.path b.path) unsorted in
        elim (find_by is_root_skill files) [
          | none ↦ err artifact_validation_failed
          | some skill ↦
              (validate_skill_frontmatter (platform.decode skill.contents) name >> ok files)
        ])
  ]

  abbrev pub digest_of : ArtifactFile → FileDigest
  digest_of file = record { path = file.path; sha256 = platform.sha256 file.contents }

  abbrev pub same_digests : List FileDigest → List FileDigest → Bool
  same_digests [] [] = true
  same_digests [] (e ∷ expected) = false
  same_digests (f ∷ files) [] = false
  same_digests (f ∷ files) (e ∷ expected) =
      str_eq f.path e.path
      && str_eq f.sha256 (platform.lower e.sha256)
      && same_digests files expected

  abbrev pub verify_file_manifest :
      List ArtifactFile → Option (List FileDigest) → Result InstallErrorCode (Unit {0})
  verify_file_manifest files none = ok tt
  verify_file_manifest files (some expected) =
      require
        (same_digests (map digest_of files)
          (sort_by (λ a b. platform.collate a.path b.path) expected))
        artifact_integrity_failed
