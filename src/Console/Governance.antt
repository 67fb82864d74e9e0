-- ===== src/Console/Governance.antt =====
-- dev/team-skill-admin/src/lib/project-governance.ts: what depends on a project before it is archived.
-- dev/team-skill-admin/src/lib/permission-chain.ts: the sum of a batch of grants.
use dsh_ai_coding.Base.{
  ℕ, Bool, true, false, not, String, Option, none, some, List, [], ◌∷◌, ◌++◌, map, select, any_of,
  length, str_eq, ltb, is_none, if◌then◌else◌,
}

-- A list that could not be read is none.
pub record DependencyCountRows {ℓ} (A : Type ℓ) : Type ℓ where
  pub workspaces : Option (List A)
  pub profiles : Option (List A)
  pub members : Option (List A)
  pub assets : Option (List A)

pub record DependencyRow : Type 0 where
  pub label : String
  pub count : Option ℕ

-- What the message says: the dependencies that there are, or that there are none, with the labels of
-- the lists that were not read.
pub data Message : Type 0 where
  dependent : List DependencyRow → Message
  free : List String → Message

pub record DependencySummary : Type 0 where
  pub rows : List DependencyRow
  pub irreversible : Bool
  pub message : Message

unfoldable pub is_archived_readonly : String → Bool
is_archived_readonly status = str_eq status "archived"

abbrev pub count_of {ℓ} : {A : Type ℓ} → Option (List A) → Option ℕ
count_of none = none
count_of (some rows) = some (length rows)

abbrev pub is_positive : DependencyRow → Bool
is_positive row = elim row.count [ none ↦ false | some n ↦ ltb 0 n ]

unfoldable pub build_dependency_summary {ℓ} :
    {A : Type ℓ} → DependencyCountRows A → DependencySummary
build_dependency_summary input = record {
  rows = rows;
  irreversible = true;
  message =
      if any_of is_positive rows
      then dependent (select is_positive rows)
      else free (map (λ r. r.label) (select (λ r. is_none r.count) rows));
}
  where
    rows : List DependencyRow
    rows =
        record { label = "工作空间"; count = count_of input.workspaces }
        ∷ record { label = "Agent 配置绑定"; count = count_of input.profiles }
        ∷ record { label = "成员"; count = count_of input.members }
        ∷ record { label = "资产关联"; count = count_of input.assets }
        ∷ []

pub record SecurityRunSummary : Type 0 where
  pub runs_total : Option ℕ
  pub runs_running : Option ℕ
  pub runs_succeeded : Option ℕ
  pub runs_failed : Option ℕ
  pub authorization_denied : Option ℕ
  pub unavailable : List String

abbrev pub count_text : Option (List String) → String → Option ℕ
count_text none text = none
count_text (some rows) text = some (length (select (λ r. str_eq r text) rows))

-- Of the statuses of the runs and the results of the audits, where they were read.
unfoldable pub build_security_run_summary :
    Option (List String) → Option (List String) → SecurityRunSummary
build_security_run_summary runs audits = record {
  runs_total = count_of runs;
  runs_running = count_text runs "running";
  runs_succeeded = count_text runs "succeeded";
  runs_failed = count_text runs "failed";
  authorization_denied = count_text audits "failed";
  unavailable =
      (if is_none runs then "运行列表" ∷ [] else []) ++ (if is_none audits then "授权审计" ∷ [] else []);
}

pub record BatchGrantRow : Type 0 where
  pub user_id : String
  pub granted : Bool
  pub code : Option String

pub record BatchGrantSummary : Type 0 where
  pub affected : ℕ
  pub succeeded : ℕ
  pub failures : List BatchGrantRow

unfoldable pub summarize_batch_grant : List BatchGrantRow → BatchGrantSummary
summarize_batch_grant rows = record {
  affected = length rows;
  succeeded = length (select (λ r. r.granted) rows);
  failures = select (λ r. not r.granted) rows;
}
