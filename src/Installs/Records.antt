-- ===== src/Installs/Records.antt =====
-- src/installation-store.ts: one record per local copy, and what a record that is read holds.
use dsh_ai_coding.Base.{
  ◌≡◌, refl, subst, ◌∙◌, Bool, true, false, not, ◌&&◌, String, Option, none, some, List, [], ◌∷◌,
  ◌++◌, select, opt_eq, is_none, arith, str_eq_refl, All, All-append, All-select_sub, append-nil,
  select-append, by_if, Result, ok, err, IfOk, by_bind, require, Json, array, JsonFields, field_of,
  items_of, record_of,
}
use dsh_ai_coding.Installs.Store.{
  Scope, project, global, InstallationRecord, StoreError, map_result, is_project, parse_fields,
  parse_record, parse_records, same_scope, same_installation, upsert, require_scope,
  optional_string, require_string, require_array, require_installed_state, parse_digest,
  no_workspace, invalid_record, invalid_format,
}

-- No two records are of one skill, scope, workspace and project.
abbrev pub IsKeyed : List InstallationRecord → Type 0
IsKeyed [] = Unit
IsKeyed (r ∷ rs) = All (λ s. same_installation r s ≡ false) rs × IsKeyed rs

opt_eq_refl : (o : Option String) → opt_eq o o ≡ true
opt_eq_refl none = refl
opt_eq_refl (some s) = str_eq_refl s

same_scope_refl : (s : Scope) → same_scope s s ≡ true
same_scope_refl project = refl
same_scope_refl global = refl

same_installation_refl : (r : InstallationRecord) → same_installation r r ≡ true
same_installation_refl r = ground (
  arith,
  str_eq_refl r.skill_id,
  str_eq_refl r.project_id,
  same_scope_refl r.scope,
  opt_eq_refl r.workspace_id,
)

All-others :
    (next : InstallationRecord) (rs : List InstallationRecord)
    → All (λ r. same_installation r next ≡ false) (select (λ r. not (same_installation r next)) rs)
All-others next [] = tt
All-others next (r ∷ rs) =
    by_if (All (λ s. same_installation s next ≡ false)) (not (same_installation r next))
      (λ e. (ground (arith, e), All-others next rs)) (λ _. All-others next rs)

IsKeyed-select :
    (p : InstallationRecord → Bool) (rs : List InstallationRecord)
    → IsKeyed rs
    → IsKeyed (select p rs)
IsKeyed-select p [] h = tt
IsKeyed-select p (r ∷ rs) h =
    by_if IsKeyed (p r)
      (λ _. (All-select_sub (λ s. same_installation r s ≡ false) p rs h.0, IsKeyed-select p rs h.1))
      (λ _. IsKeyed-select p rs h.1)

IsKeyed-append :
    (next : InstallationRecord) (rs : List InstallationRecord)
    → IsKeyed rs
    → All (λ r. same_installation r next ≡ false) rs
    → IsKeyed (rs ++ (next ∷ []))
IsKeyed-append next [] h hn = (tt, tt)
IsKeyed-append next (r ∷ rs) h hn = (
  All-append (λ s. same_installation r s ≡ false) rs (next ∷ []) h.0 (hn.0, tt),
  IsKeyed-append next rs h.1 hn.1,
)

select-none :
    (next : InstallationRecord) (rs : List InstallationRecord)
    → All (λ r. same_installation r next ≡ false) rs
    → (select (λ r. same_installation r next) rs ≡ [])
      × (select (λ r. not (same_installation r next)) rs ≡ rs)
select-none next [] h = (refl, refl)
select-none next (r ∷ rs) h = ground (arith, h.0, select-none next rs h.1)

-- If no two records are of one skill, scope, workspace and project, this holds after `upsert`; the
-- new record is then the only one of its kind, and all records of other kinds stay in their order.
pub upsert_lem :
    (next : InstallationRecord) (records : List InstallationRecord)
    → IsKeyed records
    → IsKeyed (upsert next records)
      × (select (λ r. same_installation r next) (upsert next records) ≡ next ∷ [])
      × (select (λ r. not (same_installation r next)) (upsert next records)
          ≡ select (λ r. not (same_installation r next)) records)
unfolding upsert
upsert_lem next records h = (
  IsKeyed-append next others (IsKeyed-select other records h) apart,
  select-append same others (next ∷ [])
      ∙ ground (arith, same_installation_refl next, (select-none next others apart).0),
  select-append other others (next ∷ [])
      ∙ ground (
        arith,
        same_installation_refl next,
        (select-none next others apart).1,
        append-nil others,
      ),
)
  where
    same : InstallationRecord → Bool
    same r = same_installation r next

    other : InstallationRecord → Bool
    other r = not (same_installation r next)

    others : List InstallationRecord
    others = select (λ r. not (same_installation r next)) records

    apart :
        All
          (λ r. same_installation r next ≡ false)
          (select (λ r. not (same_installation r next)) records)
    apart = All-others next records

-- What the code asks of a record: a project copy names its workspace.
abbrev pub IsPlaced : InstallationRecord → Type 0
IsPlaced r = (is_project r.scope && is_none r.workspace_id) ≡ false

parse_fields-IsPlaced :
    (fields installed : JsonFields) → IfOk IsPlaced (parse_fields fields installed)
unfolding parse_fields
parse_fields-IsPlaced fields installed =
    by_bind IsPlaced (require_scope (field_of "scope" fields)) _ (λ scope _.
      by_bind IsPlaced (optional_string (field_of "workspaceId" fields)) _ (λ workspace _.
        by_bind IsPlaced (require (not (is_project scope && is_none workspace)) no_workspace) _
          (λ _ placed.
            by_bind IsPlaced (require_string (field_of "localInstallationId" fields)) _ (λ _ _.
              by_bind IsPlaced (require_string (field_of "skillId" fields)) _ (λ _ _.
                by_bind IsPlaced (require_string (field_of "projectId" fields)) _ (λ _ _.
                  by_bind IsPlaced (require_string (field_of "runtimeName" installed)) _ (λ _ _.
                    by_bind IsPlaced (require_string (field_of "version" installed)) _ (λ _ _.
                      by_bind IsPlaced (require_string (field_of "artifactSha256" installed)) _
                        (λ _ _.
                          by_bind IsPlaced (require_string (field_of "directory" installed)) _
                            (λ _ _.
                              by_bind IsPlaced (require_array (field_of "files" installed)) _
                                (λ items _.
                                  by_bind IsPlaced (map_result parse_digest items) _ (λ _ _.
                                    by_bind IsPlaced
                                      (require_installed_state (field_of "state" installed)) _
                                      (λ _ _.
                                        by_bind IsPlaced
                                          (require_string (field_of "installedAt" fields)) _
                                          (λ _ _.
                                            required (is_project scope && is_none workspace)
                                              placed))))))))))))))
  where
    required : (b : Bool) → require (not b) no_workspace ≡ ok tt → b ≡ false
    required true e = ground arith
    required false e = refl

parse_record-IsPlaced : (value : Json) → IfOk IsPlaced (parse_record value)
unfolding parse_record
parse_record-IsPlaced value = go (record_of (some value))
  where
    inner : JsonFields → Option JsonFields → Result StoreError InstallationRecord
    inner fields none = err invalid_record
    inner fields (some installed) = parse_fields fields installed

    deep : (fields : JsonFields) (o : Option JsonFields) → IfOk IsPlaced (inner fields o)
    deep fields none = tt
    deep fields (some installed) = parse_fields-IsPlaced fields installed

    go :
        (o : Option JsonFields)
        → IfOk IsPlaced (elim o as (λ _. Result StoreError InstallationRecord) [
          | none ↦ err invalid_record
          | some fields ↦ elim (record_of (field_of "installed" fields)) [
            | none ↦ err invalid_record
            | some installed ↦ parse_fields fields installed
          ]
        ])
    go none = tt
    go (some fields) = ground (arith, deep fields (record_of (field_of "installed" fields)))

map_result-IsPlaced : (items : List Json) → IfOk (All IsPlaced) (map_result parse_record items)
map_result-IsPlaced [] = tt
map_result-IsPlaced (x ∷ xs) = by_bind (All IsPlaced) (parse_record x) _ (λ r eq-r.
    by_bind (All IsPlaced) (map_result parse_record xs) _ (λ rs eq-rs. (
      placed (parse_record x) r eq-r (parse_record-IsPlaced x),
      rest (map_result parse_record xs) rs eq-rs (map_result-IsPlaced xs),
    )))
  where
    placed :
        (m : Result StoreError InstallationRecord) (r : InstallationRecord)
        → m ≡ ok r
        → IfOk IsPlaced m
        → IsPlaced r
    placed m r e h = subst (IfOk IsPlaced) e h

    rest :
        (m : Result StoreError (List InstallationRecord)) (rs : List InstallationRecord)
        → m ≡ ok rs
        → IfOk (All IsPlaced) m
        → All IsPlaced rs
    rest m rs e h = subst (IfOk (All IsPlaced)) e h

-- Records that are read from the state file name the workspace of each project copy, whatever the
-- file holds.
pub parse_records-IsPlaced :
    (parsed : Option Json) (records : List InstallationRecord)
    → parse_records parsed ≡ ok records
    → All IsPlaced records
unfolding parse_records
parse_records-IsPlaced none records h = ground arith
parse_records-IsPlaced (some parsed) records h =
    subst (IfOk (All IsPlaced)) h (top (record_of (some parsed)))
  where
    listed : Option Json → Result StoreError (List InstallationRecord)
    listed (some (array items)) = map_result parse_record (items_of items)
    listed _ = err invalid_format

    inner : (o : Option Json) → IfOk (All IsPlaced) (listed o)
    inner none = tt
    inner (some Json.null) = tt
    inner (some (Json.boolean b)) = tt
    inner (some (Json.number n)) = tt
    inner (some Json.not_finite) = tt
    inner (some (Json.string s)) = tt
    inner (some (array items)) = map_result-IsPlaced (items_of items)
    inner (some (Json.object entries)) = tt

    top :
        (o : Option JsonFields)
        → IfOk (All IsPlaced) (elim o as (λ _. Result StoreError (List InstallationRecord)) [
          | none ↦ err invalid_format
          | some entries ↦ listed (field_of "records" entries)
        ])
    top none = tt
    top (some entries) = inner (field_of "records" entries)
