-- ===== src/Costing/Grid/Cells.antt =====
-- costing/scenario_grid.py: what a table has to say, cell by cell, and that a row says it.
use ai_inference_cost_optimi.Prelude.{
  ℕ, ◌-◌, ◌*◌, ◌≤◌, ◌<◌, String, ◌≡◌, refl, Option, none, some, List, [], ◌∷◌, ◌++◌,
}
use ai_inference_cost_optimi.Prelude.Dict.{Dict}
use ai_inference_cost_optimi.Decimal.{Decimal, zero_decimal, whole, ◌+ᵈ◌, ◌*ᵈ◌, over, sum_from}
use ai_inference_cost_optimi.Config.Pricing.{million}
use ai_inference_cost_optimi.Costing.Rates.{Sensitivity, low, typical, high, CostConfig}
use ai_inference_cost_optimi.Costing.Grid.{
  TokenProfile, UtilizationTier, QualityCase, GridRow, platform_components,
}
use ai_inference_cost_optimi.Costing.Grid.Rows.{
  GridPoint, GridPrices, components_of, with_platform, month_of_managed, grid_row,
}
use ai_inference_cost_optimi.Costing.Grid.Totals.{IsLower, lower_path-IsLower}

-- One combination of the configuration; no level is View A.
pub record Cell : Type 0 where
  pub volume : ℕ
  pub profile : String × TokenProfile
  pub tier : String × UtilizationTier
  pub quality : QualityCase
  pub level : Option Sensitivity

abbrev pub each : {A B : Type 0} → List A → (A → List B) → List B
each [] f = []
each (x ∷ xs) f = f x ++ each xs f

abbrev pub cell_at :
    ℕ → String × TokenProfile → String × UtilizationTier → QualityCase → Option Sensitivity → Cell
cell_at volume profile tier quality level = record {
  volume = volume;
  profile = profile;
  tier = tier;
  quality = quality;
  level = level;
}

-- View A, and View B at each level.
abbrev pub views : ℕ → String × TokenProfile → String × UtilizationTier → QualityCase → List Cell
views volume profile tier quality =
    cell_at volume profile tier quality none
    ∷ cell_at volume profile tier quality (some low)
    ∷ cell_at volume profile tier quality (some typical)
    ∷ cell_at volume profile tier quality (some high)
    ∷ []

-- All combinations, the last coordinates varying first.
abbrev pub cells : List ℕ → Dict TokenProfile → Dict UtilizationTier → List QualityCase → List Cell
cells volumes profiles tiers cases =
    each volumes (λ v. each profiles (λ p. each tiers (λ t. each cases (views v p t))))

-- The rows stand for the cells, one by one and in order.
abbrev pub Pairs : (Cell → GridRow → Type 0) → List Cell → List GridRow → Type 0
Pairs P [] [] = Unit
Pairs P (c ∷ cs) (r ∷ rows) = P c r × Pairs P cs rows
Pairs P _ _ = ⊥

pub Pairs-append :
    (P : Cell → GridRow → Type 0) (cs ds : List Cell) (rows others : List GridRow)
    → Pairs P cs rows
    → Pairs P ds others
    → Pairs P (cs ++ ds) (rows ++ others)
Pairs-append P [] ds [] others h k = k
Pairs-append P (c ∷ cs) ds (r ∷ rows) others h k = (h.0, Pairs-append P cs ds rows others h.1 k)
Pairs-append P [] ds (r ∷ rows) others h k = absurd h
Pairs-append P (c ∷ cs) ds [] others h k = absurd h

-- A total of View A is the cost of inference; one of View B adds the platform at the level.
abbrev pub Total :
    CostConfig → Decimal → Option Sensitivity → Decimal → Decimal → Option (List Decimal) → Type 0
Total config hours none inference total components = (total ≡ inference) × (components ≡ none)
Total config hours (some level) inference total components =
    let platform = platform_components config hours level in
    (total ≡ inference +ᵈ sum_from zero_decimal platform) × (components ≡ some platform)

-- The least fleet that carries the volume, the cost of a month on both paths, and the cheaper path.
pub record IsRow (config : CostConfig) (prices : GridPrices) (cell : Cell) (row : GridRow)
    : Type 0 where
  pub volume : row.monthly_requests ≡ cell.volume
  pub profile : row.token_profile ≡ cell.profile.0
  pub tier : row.utilization_tier ≡ cell.tier.0
  pub quality : row.quality_case ≡ cell.quality
  pub level : row.sensitivity ≡ cell.level
  pub enough : cell.volume ≤ row.replicas * cell.tier.1.requests_per_replica_month
  pub least : (row.replicas - 1) * cell.tier.1.requests_per_replica_month < cell.volume
  pub managed :
      Total config cell.tier.1.replica_hours_per_month cell.level
        (over
          (whole cell.volume
            *ᵈ (whole cell.profile.1.input_tokens *ᵈ prices.managed_input_per_1m
                +ᵈ whole cell.profile.1.output_tokens *ᵈ prices.managed_output_per_1m))
          million)
        row.managed_total
        row.components
  pub private :
      Total config cell.tier.1.replica_hours_per_month cell.level
        (whole row.replicas
          *ᵈ cell.tier.1.replica_hours_per_month
          *ᵈ config.private.gpu_node_hourly_usd)
        row.private_total
        row.components
  pub lower :
      IsLower row.managed_total row.private_total cell.quality.managed_quality
        cell.quality.private_quality row.lower_cost_path

with_platform-Total :
    (config : CostConfig) (hours : Decimal) (level : Option Sensitivity) (inference : Decimal)
    → Total config hours level inference
        (with_platform (components_of config hours level) inference)
        (components_of config hours level)
unfolding with_platform components_of
with_platform-Total config hours none inference = (refl, refl)
with_platform-Total config hours (some level) inference = (refl, refl)

module _ (config : CostConfig) (prices : GridPrices) where
  -- The point of a tier, with its fleet.
  abbrev pub point_at : ℕ → String × TokenProfile → String × UtilizationTier → ℕ → GridPoint
  point_at volume profile tier n = record {
    volume = volume;
    profile_name = profile.0;
    profile = profile.1;
    tier_name = tier.0;
    tier = tier.1;
    replicas = n;
    managed_inference = month_of_managed prices volume profile.1;
    private_inference =
        whole n *ᵈ tier.1.replica_hours_per_month *ᵈ config.private.gpu_node_hourly_usd;
  }

  pub grid_row-IsRow :
      (cell : Cell) (n : ℕ)
      → 0 < cell.volume
      → cell.volume ≤ n * cell.tier.1.requests_per_replica_month
      → (n - 1) * cell.tier.1.requests_per_replica_month < cell.volume
      → IsRow config prices cell
          (grid_row config (point_at cell.volume cell.profile cell.tier n) cell.quality cell.level)
  unfolding grid_row month_of_managed
  grid_row-IsRow cell n some_volume enough least =
      let hours = cell.tier.1.replica_hours_per_month in
      let components = components_of config hours cell.level in
      let g = point_at cell.volume cell.profile cell.tier n in
      record {
        volume = refl;
        profile = refl;
        tier = refl;
        quality = refl;
        level = refl;
        enough = enough;
        least = least;
        managed = with_platform-Total config hours cell.level g.managed_inference;
        private = with_platform-Total config hours cell.level g.private_inference;
        lower =
            lower_path-IsLower cell.volume (with_platform components g.managed_inference)
              (with_platform components g.private_inference) cell.quality.managed_quality
              cell.quality.private_quality some_volume;
      }
