-- ===== src/Context/Sorting.antt =====
-- src/context-ledger.ts: the sort of the ranked entries.
use dsh_ai_coding.Base.{
  ℕ, ◌≤◌, ◌≡◌, refl, sym, ap, ◌∙◌, Bool, true, String, some, List, [], ◌∷◌, select, arith, str_eq,
  eq_iff, leb, if◌then◌else◌, some_inj, All, by_if,
}
use dsh_ai_coding.Context.Ledger.{RankedEntry, source_rank, insert_ranked, sort_ranked}

-- Every entry's rank is at most those of the entries after it.
abbrev pub IsRanked : List RankedEntry → Type 0
IsRanked [] = Unit
IsRanked (r ∷ rs) = All (λ s. r.rank ≤ s.rank) rs × IsRanked rs

abbrev pub HasRank : RankedEntry → Type 0
HasRank r = source_rank r.entry.source ≡ some r.rank

abbrev pub is_from : String → RankedEntry → Bool
is_from source r = str_eq r.entry.source source

All-insert_ranked :
    (P : RankedEntry → Type 0) (r : RankedEntry) (ss : List RankedEntry)
    → P r
    → All P ss
    → All P (insert_ranked r ss)
All-insert_ranked P r [] hr hs = (hr, tt)
All-insert_ranked P r (s ∷ ss) hr hs =
    by_if (All P) (leb r.rank s.rank) (λ _. (hr, hs))
      (λ _. (hs.0, All-insert_ranked P r ss hr hs.1))

pub All-sort_ranked :
    (P : RankedEntry → Type 0) (rs : List RankedEntry) → All P rs → All P (sort_ranked rs)
All-sort_ranked P [] h = tt
All-sort_ranked P (r ∷ rs) h = All-insert_ranked P r (sort_ranked rs) h.0 (All-sort_ranked P rs h.1)

All-le :
    (m n : ℕ) (ss : List RankedEntry) → m ≤ n → All (λ s. n ≤ s.rank) ss → All (λ s. m ≤ s.rank) ss
All-le m n [] h hs = tt
All-le m n (s ∷ ss) h hs = (omega (arith, h, hs.0), All-le m n ss h hs.1)

insert_ranked-IsRanked :
    (r : RankedEntry) (ss : List RankedEntry) → IsRanked ss → IsRanked (insert_ranked r ss)
insert_ranked-IsRanked r [] h = (tt, tt)
insert_ranked-IsRanked r (s ∷ ss) h =
    by_if IsRanked (leb r.rank s.rank)
      (λ e.
        let le : r.rank ≤ s.rank = ground (arith, e) in ((le, All-le r.rank s.rank ss le h.0), h))
      (λ e. (
        All-insert_ranked (λ t. s.rank ≤ t.rank) r ss (ground (arith, e)) h.0,
        insert_ranked-IsRanked r ss h.1,
      ))

pub sort_ranked-IsRanked : (rs : List RankedEntry) → IsRanked (sort_ranked rs)
sort_ranked-IsRanked [] = tt
sort_ranked-IsRanked (r ∷ rs) = insert_ranked-IsRanked r (sort_ranked rs) (sort_ranked-IsRanked rs)

-- Two entries of one source have one rank.
rank_eq :
    (source : String) (r s : RankedEntry)
    → HasRank r
    → HasRank s
    → is_from source r ≡ true
    → is_from source s ≡ true
    → r.rank ≡ s.rank
unfolding source_rank
rank_eq source r s hr hs fr fs = some_inj (sym hr ∙ ap source_rank (eq-r ∙ sym eq-s) ∙ hs)
  where
    eq-r : r.entry.source ≡ source
    eq-r = (eq_iff r.entry.source source).0 fr

    eq-s : s.entry.source ≡ source
    eq-s = (eq_iff s.entry.source source).0 fs

select-insert_ranked :
    (source : String) (r : RankedEntry) (ss : List RankedEntry)
    → HasRank r
    → All HasRank ss
    → select (is_from source) (insert_ranked r ss) ≡ select (is_from source) (r ∷ ss)
select-insert_ranked source r [] hr hs = refl
select-insert_ranked source r (s ∷ ss) hr hs =
    by_if (λ l. select (is_from source) l ≡ select (is_from source) (r ∷ s ∷ ss))
      (leb r.rank s.rank) (λ _. refl)
      (λ e. ground (arith, e, rank_eq source r s hr hs.0, select-insert_ranked source r ss hr hs.1))

pub select-sort_ranked :
    (source : String) (rs : List RankedEntry)
    → All HasRank rs
    → select (is_from source) (sort_ranked rs) ≡ select (is_from source) rs
select-sort_ranked source [] h = refl
select-sort_ranked source (r ∷ rs) h =
    select-insert_ranked source r (sort_ranked rs) h.0 (All-sort_ranked HasRank rs h.1)
    ∙ ap (λ l. if is_from source r then r ∷ l else l) (select-sort_ranked source rs h.1)
