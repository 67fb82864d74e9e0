-- ===== src/Telemetry/Reporter/Answers.antt =====
-- src/telemetry/reporter.ts: which responses do not answer exactly the batch that was sent.
use dsh_ai_coding.Base.{
  suc, ◌+◌, ◌≤◌, ◌≡◌, ◌≢◌, refl, sym, ap, ◌∙◌, subst, true, false, not, Bool, ◌==◌, String, List,
  [], ◌∷◌, ◌++◌, map, length, any_of, str_eq, eq_iff, str_eq_refl, by_if, arith, All, Bool-cases,
  inl, inr, from_false, length-append, length-map,
}
use dsh_ai_coding.Telemetry.Queue.Claims.{PendingBatch, QueuedTelemetryEvent}
use dsh_ai_coding.Telemetry.Queue.Upkeep.{add_distinct, distinct}
use dsh_ai_coding.Telemetry.Reporter.Pipeline.{TelemetryEventAck, TelemetryBatchResult}
use dsh_ai_coding.Telemetry.Reporter.Drain.{ack_id, sent_ids, is_mismatch}

-- The response is of another batch, has another number of acks than there are events, an ack of an
-- event that was not sent, or two acks of one event.
pub data Misses (batch : PendingBatch) (result : TelemetryBatchResult) : Type 0 where
  other_batch : result.batch_id ≢ batch.batch_id → Misses batch result
  other_count : length result.results ≢ length batch.events → Misses batch result
  foreign :
      (before after : List TelemetryEventAck) (ack : TelemetryEventAck)
      → result.results ≡ before ++ ack ∷ after
      → All (λ e. e.event_id ≢ ack_id ack) batch.events
      → Misses batch result
  repeated :
      (before between after : List TelemetryEventAck) (a b : TelemetryEventAck)
      → result.results ≡ before ++ a ∷ (between ++ b ∷ after)
      → ack_id a ≡ ack_id b
      → Misses batch result

any_of-ack :
    (q : String → Bool) (before after : List TelemetryEventAck) (ack : TelemetryEventAck)
    → q (ack_id ack) ≡ true
    → any_of q (map ack_id (before ++ ack ∷ after)) ≡ true
any_of-ack q [] after ack h = ground (arith, h)
any_of-ack q (a ∷ before) after ack h = ground (arith, any_of-ack q before after ack h)

unsent :
    (id : String) (events : List QueuedTelemetryEvent)
    → All (λ e. e.event_id ≢ id) events
    → any_of (str_eq id) (map (λ e. e.event_id) events) ≡ false
unsent id [] h = refl
unsent id (e ∷ events) h = elim (Bool-cases (str_eq id e.event_id)) [
  | inl t ↦ absurd (h.0 (sym ((eq_iff id e.event_id).0 t)))
  | inr t ↦ ground (arith, t, unsent id events h.1)
]

any_of-onto :
    (y x : String) (seen : List String)
    → any_of (str_eq y) seen ≡ true
    → any_of (str_eq y) (seen ++ x ∷ []) ≡ true
any_of-onto y x [] h = from_false h
any_of-onto y x (z ∷ seen) h = ground (arith, h, any_of-onto y x seen)

any_of-last : (x : String) (seen : List String) → any_of (str_eq x) (seen ++ x ∷ []) ≡ true
any_of-last x [] = ground (arith, str_eq_refl x)
any_of-last x (z ∷ seen) = ground (arith, any_of-last x seen)

add_distinct-has :
    (y x : String) (seen : List String)
    → any_of (str_eq y) seen ≡ true
    → any_of (str_eq y) (add_distinct x seen) ≡ true
add_distinct-has y x seen h =
    by_if (λ l. any_of (str_eq y) l ≡ true) (any_of (str_eq x) seen) (λ _. h)
      (λ _. any_of-onto y x seen h)

add_distinct-new :
    (x : String) (seen : List String) → any_of (str_eq x) (add_distinct x seen) ≡ true
add_distinct-new x seen =
    by_if (λ l. any_of (str_eq x) l ≡ true) (any_of (str_eq x) seen) (λ h. h)
      (λ _. any_of-last x seen)

length-add_distinct :
    (x : String) (seen : List String) → length (add_distinct x seen) ≤ length seen + 1
length-add_distinct x seen =
    by_if (λ l. length l ≤ length seen + 1) (any_of (str_eq x) seen) (λ _. omega arith)
      (λ _. omega (arith, length-append seen (x ∷ [])))

length-distinct : (seen xs : List String) → length (distinct seen xs) ≤ length seen + length xs
unfolding distinct
length-distinct seen [] = omega arith
length-distinct seen (x ∷ xs) =
    omega (arith, length-distinct (add_distinct x seen) xs, length-add_distinct x seen)

length-distinct-seen :
    (y : String) (seen xs zs : List String)
    → any_of (str_eq y) seen ≡ true
    → length (distinct seen (xs ++ y ∷ zs)) + 1 ≤ length seen + length (xs ++ y ∷ zs)
unfolding distinct
length-distinct-seen y seen [] zs h =
    by_if (λ l. length (distinct l zs) + 1 ≤ length seen + suc (length zs)) (any_of (str_eq y) seen)
      (λ _. omega (arith, length-distinct seen zs)) (λ n. from_false (sym n ∙ h))
length-distinct-seen y seen (x ∷ xs) zs h = omega (
  arith,
  length-distinct-seen y (add_distinct x seen) xs zs (add_distinct-has y x seen h),
  length-add_distinct x seen,
)

length-distinct-twice :
    (y : String) (seen xs ys zs : List String)
    → length (distinct seen (xs ++ y ∷ (ys ++ y ∷ zs))) + 1
      ≤ length seen + length (xs ++ y ∷ (ys ++ y ∷ zs))
unfolding distinct
length-distinct-twice y seen [] ys zs = omega (
  arith,
  length-distinct-seen y (add_distinct y seen) ys zs (add_distinct-new y seen),
  length-add_distinct y seen,
)
length-distinct-twice y seen (x ∷ xs) ys zs =
    omega
      (arith, length-distinct-twice y (add_distinct x seen) xs ys zs, length-add_distinct x seen)

map-ack_id :
    (before after : List TelemetryEventAck)
    → map ack_id (before ++ after) ≡ map ack_id before ++ map ack_id after
map-ack_id [] after = refl
map-ack_id (a ∷ before) after = ap (λ l. ack_id a ∷ l) (map-ack_id before after)

ids_twice :
    (before between after : List TelemetryEventAck) (a b : TelemetryEventAck)
    → ack_id a ≡ ack_id b
    → map ack_id (before ++ a ∷ (between ++ b ∷ after))
      ≡ map ack_id before ++ ack_id a ∷ (map ack_id between ++ ack_id a ∷ map ack_id after)
ids_twice before between after a b e =
    map-ack_id before (a ∷ (between ++ b ∷ after))
    ∙ ap (λ l. map ack_id before ++ ack_id a ∷ l)
        (map-ack_id between (b ∷ after)
          ∙ ap (λ id. map ack_id between ++ id ∷ map ack_id after) (sym e))

pub is_mismatch-Misses :
    (batch : PendingBatch) (result : TelemetryBatchResult)
    → Misses batch result
    → is_mismatch batch result ≡ true
unfolding is_mismatch
is_mismatch-Misses batch result (other_batch n) =
    elim (Bool-cases (str_eq result.batch_id batch.batch_id)) [
      | inl t ↦ absurd (n ((eq_iff result.batch_id batch.batch_id).0 t))
      | inr t ↦ ground (arith, t)
    ]
is_mismatch-Misses batch result (other_count n) =
    elim (Bool-cases (length result.results == length batch.events)) [
      | inl t ↦ absurd (n (ground (arith, t)))
      | inr t ↦ ground (arith, t)
    ]
is_mismatch-Misses batch result (foreign before after ack e h) =
    let hit : any_of (λ id. not (any_of (str_eq id) (sent_ids batch))) (map ack_id result.results)
        ≡ true =
      ap (λ l. any_of (λ id. not (any_of (str_eq id) (sent_ids batch))) (map ack_id l)) e
      ∙ any_of-ack (λ id. not (any_of (str_eq id) (sent_ids batch))) before after ack
          (ap not (unsent (ack_id ack) batch.events h)) in
    ground (arith, hit)
is_mismatch-Misses batch result (repeated before between after a b e k) =
    let fewer : length (distinct [] (map ack_id result.results)) + 1
        ≤ length (map ack_id result.results) =
      subst (λ l. length (distinct [] l) + 1 ≤ length l)
        (sym (ap (map ack_id) e ∙ ids_twice before between after a b k))
        (omega (
          arith,
          length-distinct-twice (ack_id a) [] (map ack_id before) (map ack_id between)
              (map ack_id after),
        )) in
    ground (arith, fewer, length-map ack_id result.results)
