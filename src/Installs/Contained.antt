-- ===== src/Installs/Contained.antt =====
-- src/installer.ts: which paths of an artifact the checks accept.
use Prim.Native.Char.{Char, char}
use text.Mathlib.Text.{starts_with}
use text.Mathlib.TextBridge.{IsPrefix}
use text.Mathlib.TextEquality.{starts_with_iff}
use text.Mathlib.TextLemmas.{nil-append, cons-append}
use dsh_ai_coding.Base.{
  Bool, true, false, not, str_eq, ◌&&◌, ◌||◌, ◌≡◌, refl, sym, ap, ◌∙◌, subst, List, [], ◌∷◌, String,
  Result, ok, err, is_ok, any_of, all_of, any_char, Bool-cases, inl, inr, is_empty_text, eq_iff,
  str_append, if◌then◌else◌, by_if, arith, from_false, ◌==◌,
}
use dsh_ai_coding.Installs.Artifact.{
  InstallErrorCode, artifact_validation_failed, is_slash, split_path, onto_first, join_path, joined,
  is_unsafe_part, normalize_artifact_path,
}

-- A part that names something in its directory: it is not empty and neither this directory nor the one
-- above it.
abbrev pub is_name : String → Bool
is_name String.[] = false
is_name part = not (str_eq part ".") && not (str_eq part "..")

-- The parts of the path are names, none of which leads out of its directory, and it has neither a
-- back slash nor the character 0.
abbrev pub is_contained : String → Bool
is_contained path =
    not (any_char (λ c. c == 92) path)
    && not (any_char (λ c. c == 0) path)
    && all_of is_name (split_path path)

-- A text has a first part.
pub Parted : List String → Type 0
Parted parts = (part : String) × (rest : List String) × (parts ≡ part ∷ rest)

split_path-Parted : (path : String) → Parted (split_path path)
unfolding Parted
split_path-Parted String.[] = (String.[], [], refl)
split_path-Parted (String.◌∷◌ c s) =
    let h = split_path-Parted s in
    by_if Parted (is_slash c) (λ _. (String.[], split_path s, refl))
      (λ _. (String.◌∷◌ c h.0, h.1, ap (onto_first c) h.2))

join-empty :
    (parts : List String)
    → Parted parts
    → join_path (String.[] ∷ parts) ≡ str_append "/" (join_path parts)
unfolding Parted
join-empty parts h =
    subst (λ ps. join_path (String.[] ∷ ps) ≡ str_append "/" (join_path ps)) (sym h.2)
      (nil-append (str_append "/" (joined h.0 h.1)))

join-onto_first :
    (c : Char) (parts : List String)
    → Parted parts
    → join_path (onto_first c parts) ≡ String.◌∷◌ c (join_path parts)
unfolding Parted
join-onto_first c parts h =
    subst (λ ps. join_path (onto_first c ps) ≡ String.◌∷◌ c (join_path ps)) (sym h.2) (by_rest h.1)
  where
    by_rest :
        (ps : List String)
        → join_path (onto_first c (h.0 ∷ ps)) ≡ String.◌∷◌ c (join_path (h.0 ∷ ps))
    by_rest [] = refl
    by_rest (p ∷ ps) = cons-append c h.0 (str_append "/" (joined p ps))

slash-append : (c : Char) (s : String) → is_slash c ≡ true → str_append "/" s ≡ String.◌∷◌ c s
slash-append c s e =
    ap (λ t. str_append t s) (sym ((eq_iff (String.◌∷◌ c String.[]) "/").0 e))
    ∙ cons-append c String.[] s
    ∙ ap (λ t. String.◌∷◌ c t) (nil-append s)

-- The parts of a text, joined, are the text.
join-split : (path : String) → join_path (split_path path) ≡ path
join-split String.[] = refl
join-split (String.◌∷◌ c s) =
    by_if (λ parts. join_path parts ≡ String.◌∷◌ c s) (is_slash c)
      (λ e.
        join-empty (split_path s) (split_path-Parted s)
        ∙ ap (str_append "/") (join-split s)
        ∙ slash-append c s e)
      (λ _.
        join-onto_first c (split_path s) (split_path-Parted s)
        ∙ ap (λ t. String.◌∷◌ c t) (join-split s))

unsafe-is_name : (part : String) → is_unsafe_part part ≡ not (is_name part)
unsafe-is_name String.[] = refl
unsafe-is_name (String.◌∷◌ c s) = ground arith

any_unsafe-names : (parts : List String) → any_of is_unsafe_part parts ≡ not (all_of is_name parts)
any_unsafe-names [] = refl
any_unsafe-names (p ∷ ps) = ground (arith, unsafe-is_name p, any_unsafe-names ps)

-- A path that is empty or starts with a slash has an empty part.
empty-part :
    (path : String)
    → (is_empty_text path || starts_with path "/") ≡ true
    → any_of is_unsafe_part (split_path path) ≡ true
empty-part String.[] e = refl
empty-part (String.◌∷◌ c s) e =
    by_if (λ parts. any_of is_unsafe_part parts ≡ true) (is_slash c) (λ _. refl)
      (λ n. from_false (
        sym n
        ∙ (eq_iff (String.◌∷◌ c String.[]) "/").1
            (leading ((starts_with_iff (String.◌∷◌ c s) "/").0 e))))
  where
    leader : String → String
    leader String.[] = String.[]
    leader (String.◌∷◌ d t) = String.◌∷◌ d String.[]

    leading : IsPrefix "/" (String.◌∷◌ c s) → String.◌∷◌ c String.[] ≡ "/"
    leading h = ap leader (sym h.1) ∙ ap leader (cons-append (char 47 tt) String.[] h.0)

-- The path of a file in an archive is taken as it is where each of its parts is the name of something,
-- neither empty nor `.` nor `..`, and it has no back slash and no character 0. Any other path is refused;
-- an empty path and one that starts with a slash are among these, having an empty part.
pub normalize_artifact_path_lem :
    (path : String)
    → normalize_artifact_path path
      ≡ (if is_contained path then ok path else err artifact_validation_failed)
unfolding normalize_artifact_path
normalize_artifact_path_lem path =
    ground (arith, empty-part path, any_unsafe-names (split_path path), join-split path)

pub normalize_artifact_path-IsSafe :
    (path safe : String) → normalize_artifact_path path ≡ ok safe → is_contained safe ≡ true
normalize_artifact_path-IsSafe path safe e = elim (Bool-cases (is_contained path)) [
  | inl t ↦ subst (λ p. is_contained p ≡ true) (ap (from_ok path) (sym (chosen t) ∙ e)) t
  | inr t ↦ from_false (ap is_ok (sym (chosen t) ∙ e))
]
  where
    from_ok : String → Result InstallErrorCode String → String
    from_ok p (ok q) = q
    from_ok p (err x) = p

    chosen :
        {b : Bool}
        → is_contained path ≡ b
        → normalize_artifact_path path ≡ (if b then ok path else err artifact_validation_failed)
    chosen t =
        normalize_artifact_path_lem path
        ∙ ap (λ b. if b then ok path else err artifact_validation_failed) t
