-- ===== src/Context/Admission.antt =====
-- src/context-ledger.ts: which requests get a ledger, and what stands in it.
use dsh_ai_coding.Base.{
  is_ok, is_blank, ℕ, suc, ◌≡◌, refl, sym, ap, ◌∙◌, subst, Bool, true, false, not, ◌&&◌, String,
  none, some, List, [], ◌∷◌, map, select, length, arith, str_eq, All, all_of, any_of, is_none,
  Result, ok, err, ◌>>=◌,
}
use dsh_ai_coding.Context.Ledger.{
  Permission, allowed, suppressed, EntryInput, LedgerEntry, LedgerInput, ContextLedger, LedgerError,
  source_rank, RankedEntry, rank_entry, rank_entries, sort_ranked, emitted, ledger_of,
  build_context_ledger, context_ledger_sources, index_from,
}
use dsh_ai_coding.Context.Sorting.{
  IsRanked, HasRank, is_from, All-sort_ranked, sort_ranked-IsRanked, select-sort_ranked,
}

-- What a caller must respect: a source of the vocabulary, a suppressed entry with a reason and not
-- injected, and a reason for the selection.
abbrev pub is_admissible : EntryInput → Bool
is_admissible e =
    any_of (str_eq e.source) context_ledger_sources
    && (elim e.permission [
      | allowed ↦ true
      | suppressed ↦
          not e.injected
          && (elim e.permission_reason [ none ↦ false | some reason ↦ not (is_blank reason) ])
    ])
    && not (is_blank e.selection_reason)

-- What the ledger keeps of an entry.
abbrev pub recorded : EntryInput → LedgerEntry
recorded e = record {
  source = e.source;
  title = e.title;
  permission = e.permission;
  permission_reason = elim e.permission [ allowed ↦ none | suppressed ↦ e.permission_reason ];
  selection_reason = e.selection_reason;
  injected = e.injected;
}

index_from-any_of :
    (n : ℕ) (s : String) (ts : List String)
    → is_none (index_from n s ts) ≡ not (any_of (str_eq s) ts)
index_from-any_of n s [] = refl
index_from-any_of n s (t ∷ ts) = ground (arith, index_from-any_of (suc n) s ts)

rank_entry-is_ok : (e : EntryInput) → is_ok (rank_entry e) ≡ is_admissible e
unfolding rank_entry source_rank
rank_entry-is_ok e = ground (arith, index_from-any_of 0 e.source context_ledger_sources)

abbrev pub is_suppressed : Permission → Bool
is_suppressed allowed = false
is_suppressed suppressed = true

-- An entry is injected only if its permission allows it.
abbrev pub Permits : RankedEntry → Type 0
Permits r = (r.entry.injected && is_suppressed r.entry.permission) ≡ false

-- A ranked entry has the rank of its source and is emitted as it is recorded.
rank_entry-lem :
    (e : EntryInput) (r : RankedEntry)
    → rank_entry e ≡ ok r
    → HasRank r × Permits r × (emitted r ≡ recorded e)
unfolding rank_entry source_rank
rank_entry-lem e r h = ground arith

rank_entries-is_ok : (es : List EntryInput) → is_ok (rank_entries es) ≡ all_of is_admissible es
unfolding rank_entries
rank_entries-is_ok [] = refl
rank_entries-is_ok (e ∷ es) =
    go (rank_entry e) (rank_entries es) (rank_entry-is_ok e) (rank_entries-is_ok es)
  where
    go :
        (x : Result LedgerError RankedEntry) (xs : Result LedgerError (List RankedEntry))
        → is_ok x ≡ is_admissible e
        → is_ok xs ≡ all_of is_admissible es
        → is_ok (do r ← x; rs ← xs; ok (r ∷ rs)) ≡ (is_admissible e && all_of is_admissible es)
    go (ok r) (ok rs) h hs = rw (sym h, sym hs)
    go (ok r) (err m) h hs = rw (sym h, sym hs)
    go (err m) xs h hs = rw (sym h)

abbrev pub AreRanked : List EntryInput → List RankedEntry → Type 0
AreRanked es rs = All HasRank rs × All Permits rs × (map emitted rs ≡ map recorded es)

rank_entries-lem :
    (es : List EntryInput) (rs : List RankedEntry) → rank_entries es ≡ ok rs → AreRanked es rs
unfolding rank_entries
rank_entries-lem [] [] h = (tt, tt, refl)
rank_entries-lem [] (r ∷ rs) h = ground arith
rank_entries-lem (e ∷ es) rs h =
    go (rank_entry e) (rank_entries es) refl refl (rank_entries-lem es) h
  where
    go :
        (x : Result LedgerError RankedEntry) (xs : Result LedgerError (List RankedEntry))
        → rank_entry e ≡ x
        → rank_entries es ≡ xs
        → ((ss : List RankedEntry) → rank_entries es ≡ ok ss → AreRanked es ss)
        → (do r ← x; ss ← xs; ok (r ∷ ss)) ≡ ok rs
        → AreRanked (e ∷ es) rs
    go (ok r) (ok ss) hx hxs ih eq =
        subst (AreRanked (e ∷ es))
          (ap (λ x. elim x as (λ _. List RankedEntry) [ ok a ↦ a | err _ ↦ [] ]) eq)
          ((head.0, tail.0), (head.1, tail.1), cc (head.2, tail.2))
      where
        head : HasRank r × Permits r × (emitted r ≡ recorded e)
        head = rank_entry-lem e r hx

        tail : AreRanked es ss
        tail = ih ss hxs
    go (ok r) (err m) hx hxs ih eq = ground arith
    go (err m) xs hx hxs ih eq = ground arith

-- Whether an entry of a ledger is injected only if its permission allows it.
abbrev pub IsPermitted : LedgerEntry → Type 0
IsPermitted e = (e.injected && is_suppressed e.permission) ≡ false

All-emitted : (rs : List RankedEntry) → All Permits rs → All IsPermitted (map emitted rs)
All-emitted [] h = tt
All-emitted (r ∷ rs) h = (h.0, All-emitted rs h.1)

abbrev pub comes_from : String → LedgerEntry → Bool
comes_from source e = str_eq e.source source

-- The ledger of a request: for each source the entries of the request in their order, the sources
-- by their rank, nothing injected that is not permitted, and the injected entries counted.
pub record IsLedger (input : LedgerInput) (ledger : ContextLedger) : Type 0 where
  pub by_rank :
      (rs : List RankedEntry) × (ledger.entries ≡ map emitted rs) × All HasRank rs × IsRanked rs
  pub per_source :
      (source : String)
      → select (comes_from source) ledger.entries
        ≡ select (comes_from source) (map recorded input.entries)
  pub permitted : All IsPermitted ledger.entries
  pub counted : ledger.injected_count ≡ length (select (λ e. e.injected) ledger.entries)
  pub identified :
      (ledger.turn ≡ input.turn)
      × (ledger.step ≡ input.step)
      × (ledger.request_id ≡ input.request_id)

select-emitted :
    (source : String) (rs : List RankedEntry)
    → select (comes_from source) (map emitted rs) ≡ map emitted (select (is_from source) rs)
select-emitted source [] = refl
select-emitted source (r ∷ rs) = ground (arith, select-emitted source rs)

ledger_of-IsLedger :
    (input : LedgerInput) (rs : List RankedEntry)
    → AreRanked input.entries rs
    → IsLedger input (ledger_of input (map emitted (sort_ranked rs)))
ledger_of-IsLedger input rs h = record {
  by_rank = (sort_ranked rs, refl, All-sort_ranked HasRank rs h.0, sort_ranked-IsRanked rs);
  per_source = λ source.
      select-emitted source (sort_ranked rs)
      ∙ ap (map emitted) (select-sort_ranked source rs h.0)
      ∙ sym (select-emitted source rs)
      ∙ ap (select (comes_from source)) h.2;
  permitted = All-emitted (sort_ranked rs) (All-sort_ranked Permits rs h.1);
  counted = refl;
  identified = (refl, refl, refl);
}

-- A ledger that is built holds, under the turn, step and request id of the input, the sources in
-- the fixed order of their ranks and, for each source, what is recorded of its entries in the order
-- in which they were collected; no entry is injected that is not allowed, and the count is the
-- number of the injected entries.
pub build_context_ledger-IsLedger :
    (input : LedgerInput) (ledger : ContextLedger)
    → build_context_ledger input ≡ ok ledger
    → IsLedger input ledger
unfolding build_context_ledger
build_context_ledger-IsLedger input ledger h = go (rank_entries input.entries) refl h
  where
    go :
        (x : Result LedgerError (List RankedEntry))
        → rank_entries input.entries ≡ x
        → (do ranked ← x; ok (ledger_of input (map emitted (sort_ranked ranked)))) ≡ ok ledger
        → IsLedger input ledger
    go (ok rs) hx eq =
        subst (IsLedger input)
          (ap (λ x. elim x as (λ _. ContextLedger) [ ok a ↦ a | err _ ↦ ledger_of input [] ]) eq)
          (ledger_of-IsLedger input rs (rank_entries-lem input.entries rs hx))
    go (err m) hx eq = ground arith

-- A ledger is built exactly if every entry is admissible: its source is of the vocabulary, a
-- suppressed entry has a reason that is not blank and is not injected, and the selection has one.
pub build_context_ledger-is_ok :
    (input : LedgerInput) → is_ok (build_context_ledger input) ≡ all_of is_admissible input.entries
unfolding build_context_ledger
build_context_ledger-is_ok input =
    go (rank_entries input.entries) ∙ rank_entries-is_ok input.entries
  where
    go :
        (x : Result LedgerError (List RankedEntry))
        → is_ok (do ranked ← x; ok (ledger_of input (map emitted (sort_ranked ranked)))) ≡ is_ok x
    go (ok rs) = refl
    go (err m) = refl
