-- ===== src/Loops/Captured.antt =====
-- src/memory-loop.ts: the captures of a turn, one after the other.
use dsh_ai_coding.Base.{
  ℕ, ◌≤◌, ◌≡◌, refl, sym, ◌∙◌, subst, true, some, none, Option, List, [], ◌∷◌, String, Result, ok,
  err, Bool, by_if, get_key, set_key, str_eq, eq_iff, str_eq_refl, leb, max, arith, if◌then◌else◌,
}
use dsh_ai_coding.Loops.Memory.{
  SessionEvent, MemoryLoop, CaptureStatus, is_queued, is_captured, start_capture, finish_capture,
}

-- An answer to a capture.
pub record CaptureAnswer (E : Type 0) : Type 0 where
  pub agent : String
  pub turn : ℕ
  pub answer : Result E CaptureStatus

-- The captures of any agents end one after the other.
abbrev pub settle : {E : Type 0} → List (CaptureAnswer E) → MemoryLoop → MemoryLoop
settle [] loop = loop
settle (a ∷ answers) loop = settle answers (finish_capture a.agent a.turn a.answer loop)

-- The last turn that an agent has captured is at least that one.
abbrev Reached : String → ℕ → MemoryLoop → Type 0
Reached agent turn loop = is_captured agent turn loop.captured_turns ≡ true

get_set :
    (k j : String) (v : ℕ) (m : List (String × ℕ))
    → get_key str_eq j (set_key str_eq k v m) ≡ (if str_eq k j then some v else get_key str_eq j m)
get_set k j v [] = refl
get_set k j v ((i, w) ∷ m) = ground (arith, eq_iff i k, eq_iff i j, eq_iff k j, get_set k j v m)

is_captured-set_key :
    (agent other : String) (turn v : ℕ) (m : List (String × ℕ))
    → is_captured agent turn (set_key str_eq other v m)
      ≡ (if str_eq other agent then leb turn v else is_captured agent turn m)
is_captured-set_key agent other turn v m = ground (arith, get_set other agent v m)

Reached-finish_capture :
    {E : Type 0} (agent other : String) (turn t : ℕ) (answer : Result E CaptureStatus)
    (loop : MemoryLoop)
    → Reached agent turn loop
    → Reached agent turn (finish_capture other t answer loop)
unfolding finish_capture
Reached-finish_capture agent other turn t (err e) loop h = h
Reached-finish_capture agent other turn t (ok status) loop h =
    by_if (Reached agent turn) (is_queued status)
      (λ _.
        is_captured-set_key agent other turn (grown other) loop.captured_turns
        ∙ by_if (λ b. b ≡ true) (str_eq other agent)
            (λ e.
              subst (λ k. leb turn (grown k) ≡ true) (sym ((eq_iff other agent).0 e))
                (ground (arith, h)))
            (λ _. h))
      (λ _. h)
  where
    grown : String → ℕ
    grown k = elim (get_key str_eq k loop.captured_turns) [ none ↦ t | some last ↦ max last t ]

Reached-settle :
    {E : Type 0} (agent : String) (turn : ℕ) (answers : List (CaptureAnswer E)) (loop : MemoryLoop)
    → Reached agent turn loop
    → Reached agent turn (settle answers loop)
Reached-settle agent turn [] loop h = h
Reached-settle agent turn (a ∷ answers) loop h =
    Reached-settle agent turn answers (finish_capture a.agent a.turn a.answer loop)
      (Reached-finish_capture agent a.agent turn a.turn a.answer loop h)

Reached-accepted :
    (E : Type 0) (agent : String) (turn t : ℕ) (status : CaptureStatus) (loop : MemoryLoop)
    → is_queued status ≡ true
    → t ≤ turn
    → Reached agent t (finish_capture {E = E} agent turn (ok status) loop)
unfolding finish_capture
Reached-accepted E agent turn t status loop a le = ground (
  arith,
  a,
  le,
  str_eq_refl agent,
  is_captured-set_key agent agent t
      (elim (get_key str_eq agent loop.captured_turns) [ none ↦ turn | some last ↦ max last turn ])
      loop.captured_turns,
)

-- Once the service has accepted the capture of a turn, neither that turn nor an earlier one of the
-- agent is captured again, whichever captures of this and of other agents end in the meantime.
pub settle-start_capture :
    {E : Type 0} (agent : String) (turn t : ℕ) (status : CaptureStatus) (loop : MemoryLoop)
    (answers : List (CaptureAnswer E)) (project : Option String) (session : String)
    (events : List SessionEvent) (aborted : Bool)
    → is_queued status ≡ true
    → t ≤ turn
    → start_capture project agent session t events aborted
        (settle answers (finish_capture {E = E} agent turn (ok status) loop))
      ≡ none
unfolding start_capture
settle-start_capture agent turn t status loop answers project session events aborted a le =
    refused project (settle answers (finish_capture agent turn (ok status) loop)) (
      Reached-settle agent t answers (finish_capture agent turn (ok status) loop)
        (Reached-accepted _ agent turn t status loop a le))
  where
    refused :
        (p : Option String) (l : MemoryLoop)
        → Reached agent t l
        → start_capture p agent session t events aborted l ≡ none
    refused p l h = ground (arith, h)
