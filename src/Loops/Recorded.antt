-- ===== src/Loops/Recorded.antt =====
-- src/knowledge-loop.ts: what the search for knowledge adds to a turn and to the session.
use dsh_ai_coding.Base.{
  ◌≢◌, sym, ap, ◌∙◌, Bool, Bool-cases, Json, ℕ, ◌≡◌, refl, true, false, some, none, Option, List,
  [], ◌∷◌, ◌++◌, map, String, Result, ok, err, by_if, by_option, by_result_eq, All, all_of,
  from_false, arith, ◌⊎◌, inl, inr,
}
use dsh_ai_coding.Loops.{ContentBlock, UserMessage, PreStepDecision, enter, reject}
use dsh_ai_coding.Loops.Knowledge.{
  KnowledgeCitation, KnowledgeSearchResult, CitedResult, KnowledgeSelection, KnowledgeSearchRequest,
  KnowledgeSearchResponse, KnowledgeSearchEvent, KnowledgeSearchStatus, SearchAnswer, ready,
  unready, SearchFailure, skipped, used, no_hits, skip, is_skipped, all_skipped, SearchStatus,
  failed_event, to_session_event, cite, search_request, recall_message, recalled, answered,
  search_step,
}

-- The event is about the request.
pub record IsFor (request : KnowledgeSearchRequest) (turn step : ℕ) (event : KnowledgeSearchEvent)
    : Type 0 where
  pub query : event.query ≡ request.query
  pub bases : event.knowledge_base_ids ≡ request.knowledge_base_ids
  pub at_turn : event.turn ≡ turn
  pub at_step : event.step ≡ step

-- Each base that is listed was skipped.
abbrev pub AllSkipped : List KnowledgeSearchStatus → Type 0
AllSkipped items = All (λ item. item.status ≡ skipped) items

AllSkipped-skip :
    (failure : SearchFailure) (ids : List String) → AllSkipped (map (skip failure) ids)
AllSkipped-skip failure [] = tt
AllSkipped-skip failure (id ∷ ids) = (refl, AllSkipped-skip failure ids)

skipped_eq : (item : KnowledgeSearchStatus) → is_skipped item ≡ true → item.status ≡ skipped
skipped_eq item e = by_status item.status e
  where
    by_status :
        (s : SearchStatus)
        → elim s [ used ↦ false | no_hits ↦ false | skipped ↦ true ] ≡ true
        → s ≡ skipped
    by_status used e = from_false e
    by_status no_hits e = from_false e
    by_status skipped e = refl

AllSkipped-all_of :
    (items : List KnowledgeSearchStatus) → all_of is_skipped items ≡ true → AllSkipped items
AllSkipped-all_of [] e = tt
AllSkipped-all_of (item ∷ items) e =
    (skipped_eq item (ground (arith, e)), AllSkipped-all_of items (ground (arith, e)))

AllSkipped-all_skipped :
    (items : List KnowledgeSearchStatus) → all_skipped items ≡ true → AllSkipped items
AllSkipped-all_skipped [] e = tt
AllSkipped-all_skipped (item ∷ items) e = AllSkipped-all_of (item ∷ items) e

-- Nothing is listed, or some base was not skipped.
abbrev pub AnyServed : List KnowledgeSearchStatus → Type 0
AnyServed [] = ⊥
AnyServed (item ∷ items) = (item.status ≢ skipped) ⊎ AnyServed items

abbrev pub IsServed : List KnowledgeSearchStatus → Type 0
IsServed items = (items ≡ []) ⊎ AnyServed items

served_item : (item : KnowledgeSearchStatus) → is_skipped item ≡ false → item.status ≢ skipped
served_item item e k = by_status item.status e k
  where
    by_status :
        (s : SearchStatus)
        → elim s [ used ↦ false | no_hits ↦ false | skipped ↦ true ] ≡ false
        → s ≢ skipped
    by_status used e k =
        from_false (ap (λ s. elim s [ used ↦ false | no_hits ↦ false | skipped ↦ true ]) k)
    by_status no_hits e k =
        from_false (ap (λ s. elim s [ used ↦ false | no_hits ↦ false | skipped ↦ true ]) k)
    by_status skipped e k = from_false (sym e)

AnyServed-all_of :
    (items : List KnowledgeSearchStatus) → all_of is_skipped items ≡ false → AnyServed items
AnyServed-all_of [] e = from_false (sym e)
AnyServed-all_of (item ∷ items) e = elim (Bool-cases (is_skipped item)) [
  | inl t ↦ inr (AnyServed-all_of items (ground (arith, t, e)))
  | inr t ↦ inl (served_item item t)
]

IsServed-all_skipped :
    (items : List KnowledgeSearchStatus) → all_skipped items ≡ false → IsServed items
IsServed-all_skipped [] e = inl refl
IsServed-all_skipped (item ∷ items) e = inr (AnyServed-all_of (item ∷ items) e)

is_listed : List KnowledgeSearchStatus → Bool
is_listed [] = false
is_listed (item ∷ items) = true

all_skipped-listed : (items : List KnowledgeSearchStatus) → all_skipped items ≡ true → items ≢ []
unfolding is_listed
all_skipped-listed [] e k = from_false e
all_skipped-listed (item ∷ items) e k = from_false (ap is_listed (sym k))

skip-ids :
    (failure : SearchFailure) (ids : List String)
    → map (λ b. b.knowledge_base_id) (map (skip failure) ids) ≡ ids
skip-ids failure [] = refl
skip-ids failure (id ∷ ids) = ap (λ rest. id ∷ rest) (skip-ids failure ids)

-- What a result shows of its document: base, document, title, text, address, score and place.
abbrev pub Shown : Type 0
Shown = String × String × String × String × String × Json × Option KnowledgeCitation

abbrev pub shown_result : KnowledgeSearchResult → Shown
shown_result r =
    (r.knowledge_base_id, r.knowledge_id, r.title, r.snippet, r.source_url, r.score, r.citation)

abbrev pub shown_citation : CitedResult → Shown
shown_citation r =
    (r.knowledge_base_id, r.knowledge_id, r.title, r.snippet, r.source_url, r.score, r.citation)

cite-shown :
    (items : List KnowledgeSearchResult)
    → map shown_citation (map cite items) ≡ map shown_result items
cite-shown [] = refl
cite-shown (item ∷ items) = ap (λ rest. shown_result item ∷ rest) (cite-shown items)

-- The event has the answer of the search: its bases and results, or each base of the request skipped
-- and no result.
abbrev pub Tells : SearchAnswer → KnowledgeSearchEvent → Type 0
Tells (ready response) event =
    (event.request_id ≡ response.request_id)
    × (event.knowledge_bases ≡ response.knowledge_bases)
    × (map shown_citation event.results ≡ map shown_result response.results)
Tells (unready failure) event =
    (map (λ b. b.knowledge_base_id) event.knowledge_bases ≡ event.knowledge_base_ids)
    × AllSkipped event.knowledge_bases
    × (event.results ≡ [])

listed-results :
    {item : KnowledgeSearchResult} {items results : List KnowledgeSearchResult}
    → results ≡ item ∷ items
    → results ≢ []
listed-results e k = from_false (ap is_some_result (sym k ∙ e))
  where
    is_some_result : List KnowledgeSearchResult → Bool
    is_some_result [] = false
    is_some_result (x ∷ xs) = true

module _ (create_user_message : List ContentBlock → String → UserMessage) {E : Type 0} where
  -- The others reject the step or raise.
  abbrev pub IsClosed : Result E PreStepDecision → Type 0
  IsClosed (err e) = Unit
  IsClosed (ok reject) = Unit
  IsClosed (ok (enter messages)) = ⊥

  -- What is decided on an answer, given what the others decide.
  pub data Decided (next : Result E PreStepDecision)
      : SearchAnswer → Result E PreStepDecision → Type 0 where
    fails : (failure : SearchFailure) → Decided next (unready failure) (ok reject)
    skips :
        (response : KnowledgeSearchResponse)
        → response.knowledge_bases ≢ []
        → AllSkipped response.knowledge_bases
        → Decided next (ready response) (ok reject)
    keeps :
        (response : KnowledgeSearchResponse)
        → IsServed response.knowledge_bases
        → (response.results ≡ []) ⊎ IsClosed next
        → Decided next (ready response) next
    recalls :
        (response : KnowledgeSearchResponse) (messages : List UserMessage)
        → IsServed response.knowledge_bases
        → response.results ≢ []
        → next ≡ ok (enter messages)
        → Decided next
            (ready response)
            (ok (enter (messages ++ recall_message create_user_message response ∷ [])))

  -- What a step does with a search: nothing where there is no request; nothing but raise where the
  -- search raises or is aborted; otherwise it appends one event of the request and the answer.
  pub data Recorded (asked : Option KnowledgeSearchRequest) (turn step : ℕ)
      (search : KnowledgeSearchRequest → Result E SearchAnswer) (aborted : Option E)
      (next : Result E PreStepDecision) (log : List KnowledgeSearchEvent)
      : List KnowledgeSearchEvent × Result E PreStepDecision → Type 0 where
    unasked : asked ≡ none → Recorded asked turn step search aborted next log (log, next)
    raised :
        (request : KnowledgeSearchRequest) (e : E)
        → asked ≡ some request
        → (search request ≡ err e) ⊎ (aborted ≡ some e)
        → Recorded asked turn step search aborted next log (log, err e)
    searched :
        (request : KnowledgeSearchRequest) (answer : SearchAnswer) (event : KnowledgeSearchEvent)
        (r : Result E PreStepDecision)
        → asked ≡ some request
        → search request ≡ ok answer
        → aborted ≡ none
        → IsFor request turn step event
        → Tells answer event
        → Decided next answer r
        → Recorded asked turn step search aborted next log (log ++ event ∷ [], r)

  Decided-recalled :
      (response : KnowledgeSearchResponse) (next : Result E PreStepDecision)
      → IsServed response.knowledge_bases
      → Decided next (ready response) (recalled create_user_message response next)
  Decided-recalled response (err e) h = keeps response h (inr tt)
  Decided-recalled response (ok reject) h = keeps response h (inr tt)
  Decided-recalled response (ok (enter messages)) h = by_results response.results refl
    where
      by_results :
          (results : List KnowledgeSearchResult)
          → response.results ≡ results
          → Decided (ok (enter messages)) (ready response) (
              ok (elim results [
                | [] ↦ enter messages
                | item ∷ items ↦
                    enter (messages ++ recall_message create_user_message response ∷ [])
              ]))
      by_results [] e = keeps response h (inl e)
      by_results (item ∷ items) e = recalls response messages h (listed-results e) refl

  Recorded-answered :
      (asked : Option KnowledgeSearchRequest) (turn step : ℕ) (draw : String)
      (search : KnowledgeSearchRequest → Result E SearchAnswer) (aborted : Option E)
      (next : Result E PreStepDecision) (log : List KnowledgeSearchEvent)
      (request : KnowledgeSearchRequest) (answer : SearchAnswer)
      → asked ≡ some request
      → search request ≡ ok answer
      → aborted ≡ none
      → Recorded asked turn step search aborted next log (
        (log ++ (answered create_user_message request turn step draw answer next).0 ∷ []),
        (answered create_user_message request turn step draw answer next).1,
      )
  Recorded-answered asked turn step draw search aborted next log request (unready failure) e a n =
      searched request (unready failure) (failed_event request turn step draw failure) (ok reject) e
        a n (record { query = refl; bases = refl; at_turn = refl; at_step = refl })
        (
          skip-ids failure request.knowledge_base_ids,
          AllSkipped-skip failure request.knowledge_base_ids,
          refl,
        )
        (fails failure)
  Recorded-answered asked turn step draw search aborted next log request (ready response) e a n =
      searched request (ready response) (to_session_event request turn step response) _ e a n
        (record { query = refl; bases = refl; at_turn = refl; at_step = refl })
        (refl, refl, cite-shown response.results)
        (by_if (Decided next (ready response)) (all_skipped response.knowledge_bases)
          (λ t.
            skips response (all_skipped-listed response.knowledge_bases t)
              (AllSkipped-all_skipped response.knowledge_bases t))
          (λ t. Decided-recalled response next (IsServed-all_skipped response.knowledge_bases t)))

  -- Where nothing is to be asked, the step leaves the session and the decision of the others.
  -- Otherwise it raises what the search or the abort raises, or appends exactly one event, of the
  -- request, the turn, the step and the answer. It rejects where the search was not answered, and
  -- where bases are listed and all of them were skipped. Else it adds the message of the answer's
  -- results to those of the others, where there are results and the others enter, and decides what
  -- the others do where not.
  pub search_step-Recorded :
      (selection : Option KnowledgeSelection) (messages : List UserMessage) (turn step : ℕ)
      (trace draw : String) (search : KnowledgeSearchRequest → Result E SearchAnswer)
      (aborted : Option E) (next : Result E PreStepDecision) (log : List KnowledgeSearchEvent)
      → Recorded (search_request selection messages trace) turn step search aborted next log (
          search_step create_user_message selection messages turn step trace draw search aborted
            next log)
  unfolding search_step
  search_step-Recorded selection messages turn step trace draw search aborted next log =
      by_option R asked (λ e. unasked e)
        (λ request e.
          by_result_eq R (search request)
            (λ answer a.
              by_option R aborted
                (λ n.
                  Recorded-answered asked turn step draw search aborted next log request answer e a
                    n)
                (λ x t. raised request x e (inr t)))
            (λ x t. raised request x e (inl t)))
    where
      asked : Option KnowledgeSearchRequest
      asked = search_request selection messages trace

      R : List KnowledgeSearchEvent × Result E PreStepDecision → Type 0
      R = Recorded asked turn step search aborted next log
