-- ===== src/Examples/Loops.antt =====
-- src/knowledge-loop.ts and src/memory-loop.ts on small inputs.
use dsh_ai_coding.Base.{
  ap, from_false, Bool, true, ℕ, false, String, some, none, List, [], ◌∷◌, Result, ok, ◌≡◌, refl,
  arith,
}
use dsh_ai_coding.Loops.{ContentBlock, UserMessage, enter, query_of}
use dsh_ai_coding.Loops.Knowledge.{
  KnowledgeSelection, KnowledgeSearchRequest, SearchAnswer, unready, signed_out, search_request,
  search_step,
}
use dsh_ai_coding.Loops.Memory.{
  MemoryRecallStatus, MemoryRecallResponse, recall_step, SessionEventData, user, SessionEvent,
  turn_start, user_message, assistant_message, conversation_messages, pending, index_pending,
  start_capture, finish_capture,
}
use dsh_ai_coding.Loops.Recorded.{Recorded, search_step-Recorded}
use dsh_ai_coding.Loops.Advised.{Advised, recall_step-Advised}
use dsh_ai_coding.Loops.Captured.{CaptureAnswer, settle, settle-start_capture}
use dsh_ai_coding.Loops.Quoted.{Quotes, conversation_messages-Quotes}

abbrev made : List ContentBlock → String → UserMessage
made content kind = record { source_kind = kind; content = content }

abbrev said : String → UserMessage
said text = made (record { block_type = "text"; text = some text } ∷ []) "user"

abbrev chosen : KnowledgeSelection
chosen = record { project_id = "p"; knowledge_base_ids = "kb" ∷ [] }

abbrev signed_off : KnowledgeSearchRequest → Result String SearchAnswer
signed_off request = ok (unready signed_out)

query_test : query_of (made [] "tool" ∷ said " how? " ∷ []) ≡ some "how?"
query_test = refl

search_step-Recorded_example :
    Recorded made
      (search_request (some chosen) (said "how?" ∷ []) "t")
      3
      1
      signed_off
      none
      (ok (enter []))
      []
      (search_step made
        (some chosen)
        (said "how?" ∷ [])
        3
        1
        "t"
        "u"
        signed_off
        none
        (ok (enter []))
        [])
search_step-Recorded_example =
    search_step-Recorded made (some chosen) (said "how?" ∷ []) 3 1 "t" "u" signed_off none
      (ok (enter [])) []

abbrev remembered : String → String → Result String MemoryRecallResponse
remembered id query =
    ok (record { status = MemoryRecallStatus.ready; items = "m" ∷ []; context_text = "note" })

recall_step-Advised_example :
    Advised made (some "p") (some "p") (some "q") (said "how?" ∷ []) remembered (ok (enter [])) (
      recall_step made
        (some "p")
        (some "p")
        (some "q")
        (said "how?" ∷ [])
        remembered
        none
        (ok (enter [])))
recall_step-Advised_example =
    recall_step-Advised made (some "p") (some "p") (some "q") (said "how?" ∷ []) remembered none
      (ok (enter []))

abbrev is_turn_start : SessionEventData → Bool
is_turn_start (turn_start t) = true
is_turn_start _ = false

abbrev event : ℕ → SessionEventData → SessionEvent
event seq d = record { seq = seq; data_of = d }

conversation_messages-Quotes_example : Quotes 1 (event 4 (assistant_message 1 (said "new")) ∷ []) (
    conversation_messages
      (event 1 (turn_start 0)
        ∷ event 2 (user_message (said "old"))
        ∷ event 3 (turn_start 1)
        ∷ event 4 (assistant_message 1 (said "new"))
        ∷ [])
      1)
conversation_messages-Quotes_example =
    conversation_messages-Quotes 1
      (event 1 (turn_start 0) ∷ event 2 (user_message (said "old")) ∷ []) (event 3 (turn_start 1))
      (event 4 (assistant_message 1 (said "new")) ∷ []) refl
      ((λ e. from_false (ap is_turn_start e)), tt) (omega arith, (omega arith, tt))
      (omega arith, tt)

abbrev other_answer : CaptureAnswer String
other_answer = record { agent = "a"; turn = 1; answer = ok pending }

settle-start_capture_example :
    start_capture
      (some "p")
      "a"
      "s"
      2
      (event 1 (turn_start 2) ∷ event 2 (user_message (said "x")) ∷ [])
      false
      (settle
        (other_answer ∷ [])
        (finish_capture {E = String} "a" 2 (ok index_pending) (record { captured_turns = [] })))
    ≡ none
settle-start_capture_example =
    settle-start_capture "a" 2 2 index_pending (record { captured_turns = [] }) (other_answer ∷ [])
      (some "p") "s" (event 1 (turn_start 2) ∷ event 2 (user_message (said "x")) ∷ []) false refl
      (omega arith)

captured_test :
    start_capture
      (some "p")
      "a"
      "s"
      3
      (event 1 (turn_start 3) ∷ event 2 (user_message (said "x")) ∷ [])
      false
      (finish_capture {E = String} "a" 2 (ok index_pending) (record { captured_turns = [] }))
    ≡ some (record {
      project_id = "p";
      session_id = "s";
      task_id = "a:3";
      messages = record { role = user; content = "x" } ∷ [];
      idempotency_key = "dsh-memory-loop:a:3";
    })
unfolding start_capture finish_capture
captured_test = refl
