-- ===== src/Costing/Grid/Table.antt =====
-- costing/scenario_grid.py: the whole table of a valid configuration.
use ai_inference_cost_optimi.Prelude.{
  ℕ, suc, ◌+◌, ◌-◌, ◌*◌, ◌≤◌, ◌<◌, String, ◌≡◌, refl, sym, subst, ltb, ◌⊎◌, inl, inr, false, Option,
  none, some, List, [], ◌∷◌, ◌++◌, arith, length, length-append, All, All-map_lem, any, Bool-cases,
  if◌then◌else◌,
}
use ai_inference_cost_optimi.Prelude.Dict.{Dict}
use ai_inference_cost_optimi.Prelude.Result.{
  Result, ok, ◌>>=◌, raise_if-ok, bind-Through, Result-cases, check_all, check_all_iff,
}
use ai_inference_cost_optimi.Decimal.{Decimal}
use ai_inference_cost_optimi.Costing.Rates.{Sensitivity, low, typical, high, CostConfig}
use ai_inference_cost_optimi.Costing.Capacity.{CapacityError, required_replicas}
use ai_inference_cost_optimi.Costing.Capacity.Bounds.{Fits, required_replicas-Fits}
use ai_inference_cost_optimi.Costing.Grid.{
  TokenProfile, UtilizationTier, ScenarioGridConfig, ℤ, is_measured, is_zero, QualityCase,
  quality_cases, point_cases, GridRow, validate_grid, tier_fields, grid_field, volume_not_positive,
}
use ai_inference_cost_optimi.Costing.Grid.Rows.{
  GridPrices, grid_row, case_rows, cases_rows, grid_point, tiers_rows, profiles_rows, volumes_rows,
  build_scenario_grid,
}
use ai_inference_cost_optimi.Costing.Grid.Cells.{
  Cell, cell_at, each, views, cells, Pairs, Pairs-append, IsRow, point_at, grid_row-IsRow,
}

-- A result of a number of rows, one for each cell.
abbrev Rows : CostConfig → GridPrices → ℕ → List Cell → Result CapacityError (List GridRow) → Type 0
Rows config prices n cs result =
    (rows : List GridRow) × (result ≡ ok rows)
    × (length rows ≡ n)
    × Pairs (IsRow config prices) cs rows

abbrev HasCapacity : String × UtilizationTier → Type 0
HasCapacity (name, tier) = 0 < tier.requests_per_replica_month

refused : {a b : ℕ} → 0 < a → 0 < b → (a ≡ 0) ⊎ (b ≡ 0) → ⊥
refused p q h = absurd (ground arith)

mul_suc : (k n : ℕ) → suc k * n ≡ n + k * n
mul_suc k n = omega arith

module _ (config : CostConfig) (prices : GridPrices) (cases : List QualityCase) where
  cases_rows-IsRow :
      (volume : ℕ) (profile : String × TokenProfile) (tier : String × UtilizationTier) (n : ℕ)
      (cases : List QualityCase)
      → 0 < volume
      → volume ≤ n * tier.1.requests_per_replica_month
      → (n - 1) * tier.1.requests_per_replica_month < volume
      → (length (cases_rows config (point_at config prices volume profile tier n) cases)
          ≡ length cases * 4)
        × Pairs
            (IsRow config prices)
            (each cases (views volume profile tier))
            (cases_rows config (point_at config prices volume profile tier n) cases)
  unfolding cases_rows case_rows
  cases_rows-IsRow volume profile tier n [] p enough least = (refl, tt)
  cases_rows-IsRow volume profile tier n (c ∷ cases) p enough least =
      let (k, rest) = cases_rows-IsRow volume profile tier n cases p enough least in
      let row : (level : Option Sensitivity)
          → IsRow config prices (cell_at volume profile tier c level)
              (grid_row config (point_at config prices volume profile tier n) c level) =
        λ level.
          grid_row-IsRow config prices (cell_at volume profile tier c level) n p enough least in
      (
        omega (arith, k),
        (row none, (row (some low), (row (some typical), (row (some high), rest)))),
      )

  -- Two tables, one after the other.
  both :
      (m n : ℕ) (cs ds : List Cell) (first second : Result CapacityError (List GridRow))
      → Rows config prices m cs first
      → Rows config prices n ds second
      → Rows config prices (m + n) (cs ++ ds) (first >>= λ a. second >>= λ b. ok (a ++ b))
  both m n cs ds first second (a, e, k, h) (b, f, l, i) =
      rw (e, f)
        (
          a ++ b,
          refl,
          omega (arith, length-append a b, k, l),
          Pairs-append (IsRow config prices) cs ds a b h i,
        )

  tiers_rows-Rows :
      (volume : ℕ) (profile : String × TokenProfile) (tiers : Dict UtilizationTier)
      → 0 < volume
      → All HasCapacity tiers
      → Rows config prices
          (length tiers * (length cases * 4))
          (each tiers (λ t. each cases (views volume profile t)))
          (tiers_rows config prices cases volume profile.0 profile.1 tiers)
  unfolding tiers_rows grid_point
  tiers_rows-Rows volume profile [] p h = ([], refl, omega arith, tt)
  tiers_rows-Rows volume profile (tier ∷ tiers) p (capacity, h) =
      let fits = required_replicas-Fits volume tier.1.requests_per_replica_month in
      rw (mul_suc (length tiers) (length cases * 4))
        (elim (Result-cases (required_replicas volume tier.1.requests_per_replica_month)) [
          | inl (n, e) ↦
              let (_, enough, least) =
                subst (Fits volume tier.1.requests_per_replica_month) e fits in
              let point = point_at config prices volume profile tier n in
              let (k, rows) = cases_rows-IsRow volume profile tier n cases p enough least in
              rw (e, grid_point)
                (both (length cases * 4) (length tiers * (length cases * 4)) _ _
                  (ok (cases_rows config point cases)) _ (_, refl, k, rows)
                  (tiers_rows-Rows volume profile tiers p h))
          | inr (bad, e) ↦
              absurd
                (refused p capacity (subst (Fits volume tier.1.requests_per_replica_month) e fits))
        ])

  profiles_rows-Rows :
      (tiers : Dict UtilizationTier) (volume : ℕ) (profiles : Dict TokenProfile)
      → 0 < volume
      → All HasCapacity tiers
      → Rows config prices
          (length profiles * (length tiers * (length cases * 4)))
          (each profiles (λ p. each tiers (λ t. each cases (views volume p t))))
          (profiles_rows config prices cases tiers volume profiles)
  unfolding profiles_rows
  profiles_rows-Rows tiers volume [] p h = ([], refl, omega arith, tt)
  profiles_rows-Rows tiers volume ((name, profile) ∷ profiles) p h =
      let n = length tiers * (length cases * 4) in
      rw (mul_suc (length profiles) n) (
        both _ _ _ _ _ _ (tiers_rows-Rows volume (name, profile) tiers p h)
          (profiles_rows-Rows tiers volume profiles p h))

  volumes_rows-Rows :
      (tiers : Dict UtilizationTier) (profiles : Dict TokenProfile) (volumes : List ℕ)
      → All (λ volume. 0 < volume) volumes
      → All HasCapacity tiers
      → Rows config prices
          (length volumes * (length profiles * (length tiers * (length cases * 4))))
          (cells volumes profiles tiers cases)
          (volumes_rows config prices cases tiers profiles volumes)
  unfolding volumes_rows
  volumes_rows-Rows tiers profiles [] p h = ([], refl, omega arith, tt)
  volumes_rows-Rows tiers profiles (volume ∷ volumes) p h =
      let n = length profiles * (length tiers * (length cases * 4)) in
      rw (mul_suc (length volumes) n) (
        both _ _ _ _ _ _ (profiles_rows-Rows tiers volume profiles p.0 h)
          (volumes_rows-Rows tiers profiles volumes p.1 h))

tier_fields-HasCapacity : (t : String × UtilizationTier) → tier_fields t ≡ ok tt → HasCapacity t
unfolding tier_fields
tier_fields-HasCapacity (name, tier) h = ground arith

any_zero-All : (volumes : List ℕ) → any is_zero volumes ≡ false → All (λ n. 0 < n) volumes
any_zero-All [] h = tt
any_zero-All (n ∷ volumes) h = ground (arith, any_zero-All volumes)

-- The rows of a table: two for each point but the measured ones, which have one, in four variants.
pub case_count : List ℤ → ℕ
case_count [] = 0
case_count (points ∷ rest) = (if is_measured points then 1 else 2) + case_count rest

length-quality_cases :
    (m p : Decimal) (points : List ℤ) → length (quality_cases m p points) ≡ case_count points
unfolding quality_cases point_cases case_count
length-quality_cases m p [] = refl
length-quality_cases m p (x ∷ points) = elim (Bool-cases (is_measured x)) [
  | inl e ↦ rw e (omega (arith, length-quality_cases m p points))
  | inr e ↦ rw e (omega (arith, length-quality_cases m p points))
]

-- A valid configuration has a table, whatever the prices and rates: in their order, a row for each
-- volume, profile, tier and quality case in View A and in View B at each of three levels. In every
-- row the fleet is the least of the tier that carries the volume; the totals of View A are the cost
-- of a month's tokens and of that fleet's hours; View B adds the sum of the platform components at
-- the row's level to both; and the path that is called cheaper is so by the totals weighed with the
-- other path's quality.
pub build_scenario_grid-IsRow :
    (config : CostConfig) (grid : ScenarioGridConfig) (prices : GridPrices)
    → validate_grid grid ≡ ok grid
    → (rows : List GridRow) × (build_scenario_grid config grid prices ≡ ok rows)
      × (length rows
          ≡ length grid.monthly_requests
            * (length grid.token_profiles
                * (length grid.utilization_tiers
                    * (case_count grid.quality_sensitivity_points * 4))))
      × Pairs
          (IsRow config prices)
          (cells grid.monthly_requests grid.token_profiles grid.utilization_tiers (
            quality_cases prices.managed_quality_rate prices.private_quality_rate
              grid.quality_sensitivity_points))
          rows
unfolding build_scenario_grid validate_grid
build_scenario_grid-IsRow config grid prices h =
    let (u, tiers, v1) = bind-Through (check_all tier_fields grid.utilization_tiers) _ h in
    let (a, v2) =
      raise_if-ok (ltb (length grid.monthly_requests) 2) (grid_field "monthly_requests") _ v1 in
    let (b, v3) =
      raise_if-ok (ltb (length grid.token_profiles) 2) (grid_field "token_profiles") _ v2 in
    let (c, v4) =
      raise_if-ok (ltb (length grid.quality_sensitivity_points) 3)
        (grid_field "quality_sensitivity_points") _ v3 in
    let (d, _) = raise_if-ok (any is_zero grid.monthly_requests) volume_not_positive _ v4 in
    let cases =
      quality_cases prices.managed_quality_rate prices.private_quality_rate
        grid.quality_sensitivity_points in
    let capacity =
      All-map_lem tier_fields-HasCapacity grid.utilization_tiers
        ((check_all_iff tier_fields grid.utilization_tiers).0 tiers) in
    let same =
      length-quality_cases prices.managed_quality_rate prices.private_quality_rate
        grid.quality_sensitivity_points in
    rw (sym same) (
      volumes_rows-Rows config prices cases grid.utilization_tiers grid.token_profiles
        grid.monthly_requests (any_zero-All grid.monthly_requests d) capacity)
