-- ===== src/Console/Proposals.antt =====
-- dev/team-skill-admin/src/lib/observability.ts: when something is proposed.
use dsh_ai_coding.Base.{
  ℕ, Bool, not, String, List, [], ◌∷◌, ◌++◌, map, select, any_of, length, length-select-le, str_eq,
  ltb, if◌then◌else◌, ◌≡◌, refl, arith,
}
use dsh_ai_coding.Console.Observability.{
  ObservabilityInput, proposal_run_health, proposal_asset_quality, unhealthy_assets, asset_issue,
  is_empty, build_observability_layers, generate_change_proposals,
}

select-any_of {ℓ} :
    {A : Type ℓ} (p : A → Bool) (xs : List A) → any_of p xs ≡ ltb 0 (length (select p xs))
select-any_of p [] = refl
select-any_of p (x ∷ xs) = ground (arith, select-any_of p xs)

is_empty-map {ℓ κ} :
    {A : Type ℓ} {B : Type κ} (f : A → B) (xs : List A)
    → is_empty (map f xs) ≡ not (ltb 0 (length xs))
is_empty-map f [] = refl
is_empty-map f (x ∷ xs) = ground arith

module _ (number_text : ℕ → String) where
  -- A proposal on the runs is made exactly when a run has failed, and one on the assets exactly when an
  -- asset is not healthy, in this order; nothing else is proposed, whatever was delivered or denied.
  pub generate_change_proposals_lem :
      (input : ObservabilityInput)
      → generate_change_proposals (build_observability_layers number_text input)
        ≡ (if any_of (λ status. str_eq status "failed") input.runs
            then proposal_run_health ∷ []
            else [])
          ++ (if any_of (λ a. not a.is_healthy) input.asset_health
              then proposal_asset_quality ∷ []
              else [])
  unfolding generate_change_proposals build_observability_layers
  generate_change_proposals_lem input = ground (
    arith,
    select-any_of (λ status. str_eq status "failed") input.runs,
    select-any_of (λ a. not a.is_healthy) input.asset_health,
    length-select-le (λ status. str_eq status "failed") input.runs,
    is_empty-map (asset_issue number_text) (unhealthy_assets input),
  )
