-- ===== src/Telemetry/Queue/Gaps.antt =====
-- src/telemetry/queue.ts: what the gap inserts leave alone.
use dsh_ai_coding.Base.{
  ℕ, ◌≡◌, refl, ◌∙◌, String, Option, List, [], ◌∷◌, Bool-cases, append-nil, inl, inr, select-append,
}
use dsh_ai_coding.Telemetry.Event.{TelemetryGapDetail, GapReason}
use dsh_ai_coding.Telemetry.Queue.Table.{EventRow, has_row, regular, is_regular}
use dsh_ai_coding.Telemetry.Queue.Store.{
  Runtime, TelemetryQueue, gap_id, insert_gap, record_groups, record_gap, group_rows,
}
use dsh_ai_coding.Telemetry.Queue.Keys.{Distinct, Distinct-append_one}

-- What a gap insert keeps: the settings, the other tables, the regular rows and the key.
pub record KeepsRegular (q s : TelemetryQueue) : Type 0 where
  pub same_settings : s.settings ≡ q.settings
  pub same_regular : regular s.rows ≡ regular q.rows
  pub same_closed : s.closed ≡ q.closed
  pub same_checkpoints : s.checkpoints ≡ q.checkpoints
  pub same_revocations : s.revocations ≡ q.revocations
  pub keeps_key : Distinct q.rows → Distinct s.rows

pub KeepsRegular-refl : (q : TelemetryQueue) → KeepsRegular q q
KeepsRegular-refl q = record {
  same_settings = refl;
  same_regular = refl;
  same_closed = refl;
  same_checkpoints = refl;
  same_revocations = refl;
  keeps_key = λ d. d;
}

pub KeepsRegular-trans :
    {q s t : TelemetryQueue} → KeepsRegular q s → KeepsRegular s t → KeepsRegular q t
KeepsRegular-trans h k = record {
  same_settings = k.same_settings ∙ h.same_settings;
  same_regular = k.same_regular ∙ h.same_regular;
  same_closed = k.same_closed ∙ h.same_closed;
  same_checkpoints = k.same_checkpoints ∙ h.same_checkpoints;
  same_revocations = k.same_revocations ∙ h.same_revocations;
  keeps_key = λ d. k.keeps_key (h.keeps_key d);
}

module _ (runtime : Runtime) where
  pub insert_gap-KeepsRegular :
      (account : String) (project session : Option String) (gap : TelemetryGapDetail) (now : ℕ)
      (q : TelemetryQueue)
      → KeepsRegular q (insert_gap runtime account project session gap now q).0
  unfolding insert_gap
  insert_gap-KeepsRegular account project session gap now q =
      elim (Bool-cases (has_row (gap_id q.installation_id (runtime.uuid q.drawn)) q.rows)) [
        | inl there ↦ rw there (record {
          same_settings = refl;
          same_regular = refl;
          same_closed = refl;
          same_checkpoints = refl;
          same_revocations = refl;
          keeps_key = λ d. d;
        })
        | inr absent ↦ rw absent (record {
          same_settings = refl;
          same_regular = select-append is_regular q.rows _ ∙ append-nil _;
          same_closed = refl;
          same_checkpoints = refl;
          same_revocations = refl;
          keeps_key = λ d. Distinct-append_one q.rows _ absent d;
        })
      ]

  pub record_groups-KeepsRegular :
      (reason : GapReason) (now : ℕ) (groups : List (String × List EventRow)) (q : TelemetryQueue)
      → KeepsRegular q (record_groups runtime reason now groups q)
  unfolding record_groups
  record_groups-KeepsRegular reason now [] q = KeepsRegular-refl q
  record_groups-KeepsRegular reason now ((p, []) ∷ groups) q =
      record_groups-KeepsRegular reason now groups q
  record_groups-KeepsRegular reason now ((p, first ∷ rest) ∷ groups) q =
      KeepsRegular-trans (insert_gap-KeepsRegular _ _ _ _ now q)
        (record_groups-KeepsRegular reason now groups _)

  pub record_gap-KeepsRegular :
      (rows : List EventRow) (reason : GapReason) (now : ℕ) (q : TelemetryQueue)
      → KeepsRegular q (record_gap runtime rows reason now q)
  unfolding record_gap
  record_gap-KeepsRegular rows reason now q =
      record_groups-KeepsRegular reason now (group_rows [] rows) q
