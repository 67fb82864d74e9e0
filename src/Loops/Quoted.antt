-- ===== src/Loops/Quoted.antt =====
-- src/memory-loop.ts: which messages of a session are captured for a turn.
use dsh_ai_coding.Loops.{UserMessage, text_of_blocks, is_user}
use dsh_ai_coding.Base.{
  ◌≢◌, ◌⊎◌, inl, inr, Bool-cases, Option-cases, ℕ, ◌≤◌, ◌<◌, ◌≡◌, refl, sym, ap, ◌∙◌, subst, true,
  false, some, none, Option, List, [], ◌∷◌, ◌++◌, String, by_if, eq_iff, ltb, arith, All,
  from_false, ◌==◌,
}
use dsh_ai_coding.Loops.Memory.{
  user, assistant, SessionEvent, SessionEventData, turn_start, user_message, assistant_message,
  other_event, CapturedMessage, is_start, start_of, messages_of, collect, conversation_messages,
}

-- That an event says nothing in the turn: no text of the user's, and none of the assistant's in it.
abbrev pub IsSilent : ℕ → SessionEventData → Type 0
IsSilent turn (turn_start t) = Unit
IsSilent turn (other_event kind) = Unit
IsSilent turn (user_message m) = (m.source_kind ≢ "user") ⊎ (text_of_blocks m.content ≡ none)
IsSilent turn (assistant_message t m) = (t ≢ turn) ⊎ (text_of_blocks m.content ≡ none)

-- The messages are the texts of the events in their order: those of the user, and those of the
-- assistant in the turn. Every event is silent or quoted.
pub data Quotes (turn : ℕ) : List SessionEvent → List CapturedMessage → Type 0 where
  nothing : Quotes turn [] []
  silent :
      (event : SessionEvent) (events : List SessionEvent) (messages : List CapturedMessage)
      → IsSilent turn event.data_of
      → Quotes turn events messages
      → Quotes turn (event ∷ events) messages
  asks :
      (event : SessionEvent) (events : List SessionEvent) (messages : List CapturedMessage)
      (m : UserMessage) (text : String)
      → event.data_of ≡ user_message m
      → m.source_kind ≡ "user"
      → text_of_blocks m.content ≡ some text
      → Quotes turn events messages
      → Quotes turn (event ∷ events) (record { role = user; content = text } ∷ messages)
  replies :
      (event : SessionEvent) (events : List SessionEvent) (messages : List CapturedMessage)
      (m : UserMessage) (text : String)
      → event.data_of ≡ assistant_message turn m
      → text_of_blocks m.content ≡ some text
      → Quotes turn events messages
      → Quotes turn (event ∷ events) (record { role = assistant; content = text } ∷ messages)

-- The texts of events as the code collects them.
abbrev texts_of : ℕ → List SessionEvent → List CapturedMessage
texts_of turn [] = []
texts_of turn (event ∷ events) = messages_of turn event.data_of ++ texts_of turn events

Quotes-messages_of :
    (turn : ℕ) (event : SessionEvent) (events : List SessionEvent) (messages : List CapturedMessage)
    (d : SessionEventData)
    → event.data_of ≡ d
    → Quotes turn events messages
    → Quotes turn (event ∷ events) (messages_of turn d ++ messages)
Quotes-messages_of turn event events messages (turn_start t) e h =
    silent event events messages (subst (IsSilent turn) (sym e) tt) h
Quotes-messages_of turn event events messages (other_event kind) e h =
    silent event events messages (subst (IsSilent turn) (sym e) tt) h
Quotes-messages_of turn event events messages (user_message m) e h =
    by_if (λ ms. Quotes turn (event ∷ events) (ms ++ messages)) (is_user m)
      (λ u. elim (Option-cases (text_of_blocks m.content)) [
        | inl n ↦ rw n (silent event events messages (subst (IsSilent turn) (sym e) (inr n)) h)
        | inr t ↦
            rw t.1 (asks event events messages m t.0 e ((eq_iff m.source_kind "user").0 u) t.1 h)
      ])
      (λ u.
        silent event events messages
          (subst (IsSilent turn) (sym e)
            (inl (λ k. from_false (sym u ∙ (eq_iff m.source_kind "user").1 k))))
          h)
Quotes-messages_of turn event events messages (assistant_message t m) e h =
    by_if (λ ms. Quotes turn (event ∷ events) (ms ++ messages)) (t == turn)
      (λ u. elim (Option-cases (text_of_blocks m.content)) [
        | inl n ↦ rw n (silent event events messages (subst (IsSilent turn) (sym e) (inr n)) h)
        | inr q ↦ rw q.1 (
            replies event events messages m q.0
              (e ∙ ap (λ k. assistant_message k m) (ground (arith, u))) q.1 h)
      ])
      (λ u.
        silent event events messages
          (subst (IsSilent turn) (sym e) (inl (λ k. ground (arith, u, k)))) h)

Quotes-texts_of :
    (turn : ℕ) (events : List SessionEvent) → Quotes turn events (texts_of turn events)
Quotes-texts_of turn [] = nothing
Quotes-texts_of turn (event ∷ events) =
    Quotes-messages_of turn event events (texts_of turn events) event.data_of refl
      (Quotes-texts_of turn events)

start_of-none :
    (turn : ℕ) (events : List SessionEvent)
    → All (λ e. is_start turn e ≡ false) events
    → start_of turn events ≡ none
start_of-none turn [] h = refl
start_of-none turn (event ∷ events) h = ground (arith, h.0, start_of-none turn events h.1)

start_of-append :
    (turn : ℕ) (before : List SessionEvent) (start : SessionEvent) (after : List SessionEvent)
    → is_start turn start ≡ true
    → All (λ e. is_start turn e ≡ false) after
    → start_of turn (before ++ start ∷ after) ≡ some start.seq
start_of-append turn [] start after s h = ground (arith, s, start_of-none turn after h)
start_of-append turn (event ∷ before) start after s h =
    ground (arith, start_of-append turn before start after s h)

collect-after :
    (turn start : ℕ) (events : List SessionEvent)
    → All (λ e. start ≤ e.seq) events
    → collect turn start events ≡ texts_of turn events
collect-after turn start [] h = refl
collect-after turn start (event ∷ events) h =
    by_if (λ c. c ≡ texts_of turn (event ∷ events)) (ltb event.seq start)
      (λ t. ground (arith, t, h.0))
      (λ _. ap (λ c. messages_of turn event.data_of ++ c) (collect-after turn start events h.1))

collect-append :
    (turn start : ℕ) (before after : List SessionEvent)
    → All (λ e. e.seq < start) before
    → collect turn start (before ++ after) ≡ collect turn start after
collect-append turn start [] after h = refl
collect-append turn start (event ∷ before) after h =
    by_if (λ c. c ≡ collect turn start after) (ltb event.seq start)
      (λ _. collect-append turn start before after h.1) (λ t. ground (arith, t, h.0))

-- A start of a turn has no text.
start-texts :
    (turn : ℕ) (start : SessionEvent) (after : List SessionEvent)
    → is_start turn start ≡ true
    → texts_of turn (start ∷ after) ≡ texts_of turn after
start-texts turn start after s = ap (λ ms. ms ++ texts_of turn after) (no_text start.data_of s)
  where
    no_text :
        (d : SessionEventData)
        → elim d [
          | turn_start t ↦ t == turn
          | user_message m ↦ false
          | assistant_message t m ↦ false
          | other_event kind ↦ false
        ]
          ≡ true
        → messages_of turn d ≡ []
    no_text (turn_start t) e = refl
    no_text (user_message m) e = from_false e
    no_text (assistant_message t m) e = from_false e
    no_text (other_event kind) e = refl

conversation-texts :
    (turn : ℕ) (before : List SessionEvent) (start : SessionEvent) (after : List SessionEvent)
    → is_start turn start ≡ true
    → All (λ e. is_start turn e ≡ false) after
    → All (λ e. e.seq < start.seq) before
    → All (λ e. start.seq ≤ e.seq) after
    → conversation_messages (before ++ start ∷ after) turn ≡ texts_of turn after
unfolding conversation_messages
conversation-texts turn before start after s h lt le =
    ap found (start_of-append turn before start after s h)
    ∙ collect-append turn start.seq before (start ∷ after) lt
    ∙ collect-after turn start.seq (start ∷ after) (omega arith, le)
    ∙ start-texts turn start after s
  where
    found : Option ℕ → List CapturedMessage
    found o = elim o [ none ↦ [] | some n ↦ collect turn n (before ++ start ∷ after) ]

starts : (turn : ℕ) (e : SessionEvent) → e.data_of ≡ turn_start turn → is_start turn e ≡ true
starts turn e h = rw h (ground arith)

not_start : (turn : ℕ) (e : SessionEvent) → e.data_of ≢ turn_start turn → is_start turn e ≡ false
not_start turn e h = by_data e.data_of refl
  where
    by_data :
        (d : SessionEventData)
        → e.data_of ≡ d
        → elim d [
          | turn_start t ↦ t == turn
          | user_message m ↦ false
          | assistant_message t m ↦ false
          | other_event kind ↦ false
        ]
          ≡ false
    by_data (turn_start t) k = elim (Bool-cases (t == turn)) [
      | inl u ↦ absurd (h (k ∙ ap turn_start (ground (arith, u))))
      | inr u ↦ u
    ]
    by_data (user_message m) k = refl
    by_data (assistant_message t m) k = refl
    by_data (other_event kind) k = refl

no_starts :
    (turn : ℕ) (events : List SessionEvent)
    → All (λ e. e.data_of ≢ turn_start turn) events
    → All (λ e. is_start turn e ≡ false) events
no_starts turn [] h = tt
no_starts turn (e ∷ events) h = (not_start turn e h.0, no_starts turn events h.1)

-- Where events are numbered in their order, at least across the last start of a turn, the messages
-- captured of the turn quote the events after that start, in their order: every text of the user, and
-- every text of the assistant in this turn, and nothing else. Nothing that was said before the start
-- is among them.
pub conversation_messages-Quotes :
    (turn : ℕ) (before : List SessionEvent) (start : SessionEvent) (after : List SessionEvent)
    → start.data_of ≡ turn_start turn
    → All (λ e. e.data_of ≢ turn_start turn) after
    → All (λ e. e.seq < start.seq) before
    → All (λ e. start.seq ≤ e.seq) after
    → Quotes turn after (conversation_messages (before ++ start ∷ after) turn)
conversation_messages-Quotes turn before start after s h lt le =
    subst (Quotes turn after)
      (sym (
        conversation-texts turn before start after (starts turn start s) (no_starts turn after h) lt
          le))
      (Quotes-texts_of turn after)
