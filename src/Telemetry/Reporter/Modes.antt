-- ===== src/Telemetry/Reporter/Modes.antt =====
-- src/telemetry/reporter.ts: the mode that the status shows, and the single drain in flight.
use dsh_ai_coding.Base.{
  ◌+◌, ◌≡◌, Bool, true, false, not, ◌&&◌, is_none, List, [], ◌∷◌, arith, if◌then◌else◌,
}
use dsh_ai_coding.Telemetry.Reporter.Pipeline.{Pipeline}
use dsh_ai_coding.Telemetry.Reporter.Control.{
  CollectorMode, active, mode, DrainSlot, SlotCall, start, stop, flush, finish, request_drain,
  finish_drain, slot_step,
}

abbrev pub is_active : CollectorMode → Bool
is_active active = true
is_active _ = false

-- The status shows an active reporter exactly if no storage error, pause, missing account,
-- revocation or failure stands.
pub mode-is_active :
    (p : Pipeline)
    → is_active (mode p) ≡ (
        is_none p.storage_error
        && not p.paused
        && not p.signed_out
        && not p.not_ready
        && not p.authorization_revoked
        && not p.failing)
unfolding mode
mode-is_active p = ground arith

-- A drain is queued only behind one in flight.
abbrev pub IsSlotted : DrainSlot → Type 0
IsSlotted s = (s.queued_drain && not s.in_flight) ≡ false

abbrev pub slot_run : DrainSlot → List SlotCall → DrainSlot
slot_run s [] = s
slot_run s (c ∷ cs) = slot_run (slot_step s c) cs

slot_step-IsSlotted : (s : DrainSlot) (c : SlotCall) → IsSlotted s → IsSlotted (slot_step s c)
unfolding slot_step
slot_step-IsSlotted s start h = ground arith
slot_step-IsSlotted s stop h = ground arith
slot_step-IsSlotted s flush h = ground arith
slot_step-IsSlotted s finish h = ground arith

-- The slot once the request of a flush is served: at once, or when the drain in flight ends.
abbrev pub flushed : DrainSlot → DrainSlot
flushed s = if s.in_flight then slot_step (slot_step s flush) finish else slot_step s flush

abbrev pub IsServed : DrainSlot → Type 0
IsServed s =
    ((flushed s).started ≡ s.started + 1)
    × ((flushed s).in_flight ≡ true)
    × ((flushed s).queued_drain ≡ false)

flushed-IsServed : (s : DrainSlot) → IsSlotted s → IsServed s
unfolding slot_step request_drain finish_drain
flushed-IsServed s h = ground arith

-- After any calls of start, stop, flush and the ends of drains, from a slot in which a drain waits
-- only behind one in flight, this still holds, and a flush is then never lost and runs no second
-- drain beside the first: exactly one more drain is started, at once or when the one in flight ends.
pub slot_run-IsServed :
    (s : DrainSlot) (calls : List SlotCall)
    → IsSlotted s
    → IsSlotted (slot_run s calls) × IsServed (slot_run s calls)
slot_run-IsServed s [] h = (h, flushed-IsServed s h)
slot_run-IsServed s (c ∷ cs) h = slot_run-IsServed (slot_step s c) cs (slot_step-IsSlotted s c h)
