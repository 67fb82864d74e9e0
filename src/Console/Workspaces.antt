-- ===== src/Console/Workspaces.antt =====
-- dev/team-skill-admin/src/lib/workspace-ops.ts: what is abnormal about a cloud workspace.
use Prim.Native.String.{◌++◌ as str_append}
use dsh_ai_coding.Base.{
  ℕ, ◌+◌, ◌/◌, Bool, false, not, ◌&&◌, String, Option, none, some, or_else, List, [], ◌∷◌, ◌++◌,
  str_eq, ltb, if◌then◌else◌,
}

pub data Category : Type 0 where
  long_preparing stale_stream lost_checkpoint : Category

pub record AbnormalWorkspaceRow : Type 0 where
  pub workspace_id : String
  pub display_name : String
  pub category : Category
  pub detail : String

-- A flag that is absent is none.
pub record AbnormalWorkspaceInput : Type 0 where
  pub workspace_id : String
  pub display_name : String
  pub status : String
  pub preparing_ms : Option ℕ
  pub last_event_id : Option String
  pub event_stale : Option Bool
  pub has_checkpoint : Option Bool
  pub checkpoint_consumed : Option Bool

abbrev pub long_preparing_ms : ℕ
long_preparing_ms = 600_000

-- `flag === true` and `flag === false`.
abbrev pub is_set : Option Bool → Bool
is_set none = false
is_set (some b) = b

abbrev pub is_unset : Option Bool → Bool
is_unset none = false
is_unset (some b) = not b

-- `number_text` prints a number.
module _ (number_text : ℕ → String) where
  abbrev pub row_of : AbnormalWorkspaceInput → Category → String → AbnormalWorkspaceRow
  row_of input category detail = record {
    workspace_id = input.workspace_id;
    display_name = input.display_name;
    category = category;
    detail = detail;
  }

  -- `Math.round(ms / 60000)`.
  abbrev pub minutes : ℕ → ℕ
  minutes ms = (ms + 30_000) / 60_000

  abbrev pub preparing_rows : AbnormalWorkspaceInput → List AbnormalWorkspaceRow
  preparing_rows input =
      let ms = or_else input.preparing_ms 0 in
      if str_eq input.status "preparing" && ltb long_preparing_ms ms
      then row_of input long_preparing
          (str_append "已持续 " (str_append (number_text (minutes ms)) " 分钟未完成准备"))
        ∷ []
      else []

  abbrev pub stale_rows : AbnormalWorkspaceInput → List AbnormalWorkspaceRow
  stale_rows input =
      if is_set input.event_stale
      then row_of input stale_stream
          (str_append "事件流进入 stale（最后事件 " (str_append (or_else input.last_event_id "—") "）"))
        ∷ []
      else []

  abbrev pub checkpoint_rows : AbnormalWorkspaceInput → List AbnormalWorkspaceRow
  checkpoint_rows input =
      if not (str_eq input.status "preparing")
        && is_set input.has_checkpoint
        && is_unset input.checkpoint_consumed
        && not (str_eq input.status "paused")
      then row_of input lost_checkpoint
          (str_append "状态 " (str_append input.status " 下存在未消费检查点，无法恢复"))
        ∷ []
      else []

  unfoldable pub classify_abnormal_workspaces :
      List AbnormalWorkspaceInput → List AbnormalWorkspaceRow
  classify_abnormal_workspaces [] = []
  classify_abnormal_workspaces (input ∷ inputs) =
      preparing_rows input
      ++ stale_rows input
      ++ checkpoint_rows input
      ++ classify_abnormal_workspaces inputs
