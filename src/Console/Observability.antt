-- ===== src/Console/Observability.antt =====
-- dev/team-skill-admin/src/lib/observability.ts: the health of the four layers and the proposals that
-- follow from it.
use Prim.Native.String.{◌++◌ as str_append}
use dsh_ai_coding.Base.{
  ℕ, ◌*◌, Bool, true, false, not, ◌||◌, String, Option, or_else, List, [], ◌∷◌, ◌++◌, map, select,
  length, str_eq, ltb, ◌==◌, if◌then◌else◌,
}

pub data LayerStatus : Type 0 where
  healthy degraded critical : LayerStatus

pub data Layer : Type 0 where
  run_health delivery_quality asset_quality permission_safety : Layer

pub record Metric : Type 0 where
  pub label : String
  pub value : ℕ
  pub unit : String

pub record ObservabilityLayer : Type 0 where
  pub layer : Layer
  pub status : LayerStatus
  pub metrics : List Metric
  pub issues : List String

pub record TelemetryDelivery : Type 0 where
  pub accepted : ℕ
  pub retryable : ℕ
  pub rejected : ℕ
  pub gaps : ℕ

pub record AssetHealth : Type 0 where
  pub asset_type : String
  pub is_healthy : Bool
  pub reason : Option String

pub record ObservabilityInput : Type 0 where
  pub runs : List String
  pub telemetry_delivery : TelemetryDelivery
  pub asset_health : List AssetHealth
  pub authorization_denied : ℕ

abbrev pub metric : String → ℕ → String → Metric
metric label value unit = record { label = label; value = value; unit = unit }

abbrev pub failed_runs : ObservabilityInput → ℕ
failed_runs input = length (select (λ status. str_eq status "failed") input.runs)

abbrev pub unhealthy_assets : ObservabilityInput → List AssetHealth
unhealthy_assets input = select (λ a. not a.is_healthy) input.asset_health

-- `failed / total > 0.3`, in whole numbers.
abbrev pub run_status : ℕ → ℕ → LayerStatus
run_status total failed =
    if total == 0
    then healthy
    else if ltb (3 * total) (10 * failed)
    then critical
    else if ltb 0 failed
    then degraded
    else healthy

abbrev pub delivery_status : TelemetryDelivery → LayerStatus
delivery_status d =
    if ltb 0 d.gaps || ltb 0 d.rejected
    then critical
    else if ltb 0 d.retryable
    then degraded
    else healthy

-- `unhealthy > total / 2`.
abbrev pub asset_status : ℕ → ℕ → LayerStatus
asset_status total unhealthy =
    if unhealthy == 0 then healthy else if ltb total (2 * unhealthy) then critical else degraded

abbrev pub permission_status : ℕ → LayerStatus
permission_status denied =
    if ltb 5 denied then critical else if ltb 0 denied then degraded else healthy

module _ (number_text : ℕ → String) where
  abbrev pub issue : ℕ → String → List String
  issue n text = if ltb 0 n then str_append (number_text n) text ∷ [] else []

  abbrev pub asset_issue : AssetHealth → String
  asset_issue a = str_append a.asset_type (str_append ":" (or_else a.reason "未知原因"))

  unfoldable pub build_observability_layers : ObservabilityInput → List ObservabilityLayer
  build_observability_layers input =
      let d = input.telemetry_delivery in
      record {
        layer = run_health;
        status = run_status (length input.runs) (failed_runs input);
        metrics = metric "总运行" (length input.runs) "个" ∷ metric "失败" (failed_runs input) "个" ∷ [];
        issues = issue (failed_runs input) " 个运行失败";
      }
      ∷ record {
        layer = delivery_quality;
        status = delivery_status d;
        metrics =
            metric "已接受" d.accepted "条"
            ∷ metric "可重试" d.retryable "条"
            ∷ metric "已拒绝" d.rejected "条"
            ∷ metric "缺口" d.gaps "个"
            ∷ [];
        issues = issue d.gaps " 个交付缺口";
      }
      ∷ record {
        layer = asset_quality;
        status = asset_status (length input.asset_health) (length (unhealthy_assets input));
        metrics =
            metric "总资产" (length input.asset_health) "项"
            ∷ metric "不健康" (length (unhealthy_assets input)) "项"
            ∷ [];
        issues = map asset_issue (unhealthy_assets input);
      }
      ∷ record {
        layer = permission_safety;
        status = permission_status input.authorization_denied;
        metrics = metric "授权拒绝" input.authorization_denied "次" ∷ [];
        issues = issue input.authorization_denied " 次授权拒绝";
      }
      ∷ []

-- A proposal, whose texts are fixed by its kind: each needs an approval.
pub data ChangeProposal : Type 0 where
  proposal_run_health proposal_asset_quality : ChangeProposal

abbrev pub is_healthy_status : LayerStatus → Bool
is_healthy_status healthy = true
is_healthy_status _ = false

abbrev pub is_empty {ℓ} : {A : Type ℓ} → List A → Bool
is_empty [] = true
is_empty (x ∷ xs) = false

abbrev pub proposed : Layer → List ChangeProposal
proposed run_health = proposal_run_health ∷ []
proposed asset_quality = proposal_asset_quality ∷ []
proposed _ = []

unfoldable pub generate_change_proposals : List ObservabilityLayer → List ChangeProposal
generate_change_proposals [] = []
generate_change_proposals (l ∷ ls) =
    let rest = generate_change_proposals ls in
    if is_healthy_status l.status || is_empty l.issues then rest else proposed l.layer ++ rest
