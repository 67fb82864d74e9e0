-- ===== src/Context/Ledger.antt =====
-- src/context-ledger.ts: the eight sources, the checks of one entry and the ledger that is built.
use dsh_ai_coding.Base.{
  is_blank, ℕ, suc, Bool, not, String, Option, none, some, List, [], ◌∷◌, map, length, select,
  str_eq, leb, if◌then◌else◌, Result, ok, err, ◌>>=◌, ◌>>◌, require,
}

abbrev pub context_ledger_sources : List String
context_ledger_sources =
    "safety" ∷ "org-policy" ∷ "project-policy" ∷ "agent-config" ∷ "skill" ∷ "knowledge" ∷ "memory"
    ∷ "user" ∷ []

pub data Permission : Type 0 where
  allowed suppressed : Permission

-- The source is a text: the code meets unknown ones at run time.
pub record EntryInput : Type 0 where
  pub source : String
  pub title : String
  pub permission : Permission
  pub permission_reason : Option String
  pub selection_reason : String
  pub injected : Bool

pub record LedgerEntry : Type 0 where
  pub source : String
  pub title : String
  pub permission : Permission
  pub permission_reason : Option String
  pub selection_reason : String
  pub injected : Bool

pub record LedgerInput : Type 0 where
  pub turn : ℕ
  pub step : ℕ
  pub request_id : String
  pub entries : List EntryInput

pub record ContextLedger : Type 0 where
  pub turn : ℕ
  pub step : ℕ
  pub request_id : String
  pub entries : List LedgerEntry
  pub injected_count : ℕ

-- The errors that are thrown, with the text that each names.
pub data LedgerError : Type 0 where
  unknown_source : String → LedgerError
  injected_although_suppressed no_permission_reason no_selection_reason : String → LedgerError

-- The index of a text in a list, from a first index.
abbrev pub index_from : ℕ → String → List String → Option ℕ
index_from n s [] = none
index_from n s (t ∷ ts) = let rest = index_from (suc n) s ts in if str_eq s t then some n else rest

-- `SOURCE_RANK.get(source)`.
unfoldable pub source_rank : String → Option ℕ
source_rank source = index_from 0 source context_ledger_sources

pub record RankedEntry : Type 0 where
  pub entry : EntryInput
  pub rank : ℕ
  pub permission_reason : Option String

-- The reason that is kept: one is needed when the entry is suppressed, and none is kept otherwise.
abbrev pub kept_reason : EntryInput → Result LedgerError (Option String)
kept_reason e = elim e.permission [
  | allowed ↦ ok none
  | suppressed ↦
      if e.injected then err (injected_although_suppressed e.title) else elim e.permission_reason [
        | none ↦ err (no_permission_reason e.title)
        | some reason ↦
            if is_blank reason then err (no_permission_reason e.title) else ok (some reason)
      ]
]

-- The checks of one entry, in the order of the code.
unfoldable pub rank_entry : EntryInput → Result LedgerError RankedEntry
unfolding source_rank
rank_entry e = elim (source_rank e.source) [
  | none ↦ err (unknown_source e.source)
  | some rank ↦ do
    reason ← kept_reason e
    require (not (is_blank e.selection_reason)) (no_selection_reason e.title)
    ok (record { entry = e; rank = rank; permission_reason = reason })
]

-- The first entry that is refused decides the error.
unfoldable pub rank_entries : List EntryInput → Result LedgerError (List RankedEntry)
unfolding rank_entry
rank_entries [] = ok []
rank_entries (e ∷ es) = do r ← rank_entry e; rs ← rank_entries es; ok (r ∷ rs)

-- `Array.prototype.sort` with the difference of the ranks, which is stable.
abbrev pub insert_ranked : RankedEntry → List RankedEntry → List RankedEntry
insert_ranked r [] = r ∷ []
insert_ranked r (s ∷ ss) =
    let rest = insert_ranked r ss in if leb r.rank s.rank then r ∷ s ∷ ss else s ∷ rest

abbrev pub sort_ranked : List RankedEntry → List RankedEntry
sort_ranked [] = []
sort_ranked (r ∷ rs) = insert_ranked r (sort_ranked rs)

abbrev pub emitted : RankedEntry → LedgerEntry
emitted r = record {
  source = r.entry.source;
  title = r.entry.title;
  permission = r.entry.permission;
  permission_reason = r.permission_reason;
  selection_reason = r.entry.selection_reason;
  injected = r.entry.injected;
}

abbrev pub ledger_of : LedgerInput → List LedgerEntry → ContextLedger
ledger_of input entries = record {
  turn = input.turn;
  step = input.step;
  request_id = input.request_id;
  entries = entries;
  injected_count = length (select (λ e. e.injected) entries);
}

unfoldable pub build_context_ledger : LedgerInput → Result LedgerError ContextLedger
unfolding rank_entries
build_context_ledger input = do
  ranked ← rank_entries input.entries
  ok (ledger_of input (map emitted (sort_ranked ranked)))
