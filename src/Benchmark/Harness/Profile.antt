-- ===== src/Benchmark/Harness/Profile.antt =====
-- benchmark/harness.py: the requests of a hybrid run take the profiles in turn, each by its weight.
use ai_inference_cost_optimi.Prelude.{
  ℕ, zero, suc, ◌+◌, ◌-◌, ◌%◌, ◌<◌, ◌≡◌, refl, Option, none, some, List, [], ◌∷◌, ◌∙◌, arith, ltb,
  if◌then◌else◌, length, All,
}
use ai_inference_cost_optimi.Prelude.Result.{ok}
use ai_inference_cost_optimi.Models.Enums.{DataClass, QualityTier}
use ai_inference_cost_optimi.Benchmark.Scenario.{
  RequestProfile, BenchmarkScenario, validate_evidence_shape,
}
use ai_inference_cost_optimi.Benchmark.Scenario.Validated.{
  AtLeastOne, validate_evidence_shape-AtLeastOne,
}
use ai_inference_cost_optimi.Benchmark.Harness.{total_weight, profile_from, request_profile}

abbrev Served : Type 0
Served = DataClass × QualityTier

-- A value repeated before a list.
abbrev repeated : ℕ → Served → List Served → List Served
repeated zero c rest = rest
repeated (suc n) c rest = c ∷ repeated n c rest

-- One cycle of the mix, written out: each profile as often as its weight says.
abbrev pub cycle : List RequestProfile → List Served
cycle [] = []
cycle (p ∷ mix) = repeated p.weight (p.data_class, p.quality_tier) (cycle mix)

-- `xs[i]`
abbrev pub get_elem? : List Served → ℕ → Option Served
get_elem? [] i = none
get_elem? (x ∷ xs) zero = some x
get_elem? (x ∷ xs) (suc i) = get_elem? xs i

length-repeated :
    (n : ℕ) (c : Served) (rest : List Served) → length (repeated n c rest) ≡ n + length rest
length-repeated zero c rest = omega arith
length-repeated (suc n) c rest = omega (arith, length-repeated n c rest)

length-cycle : (mix : List RequestProfile) → length (cycle mix) ≡ total_weight mix
unfolding total_weight
length-cycle [] = refl
length-cycle (p ∷ mix) =
    omega
      (arith, length-repeated p.weight (p.data_class, p.quality_tier) (cycle mix), length-cycle mix)

get_elem?-repeated :
    (n : ℕ) (c : Served) (rest : List Served) (slot : ℕ)
    → get_elem? (repeated n c rest) slot
      ≡ (if ltb slot n then some c else get_elem? rest (slot - n))
get_elem?-repeated zero c rest slot = ground arith
get_elem?-repeated (suc n) c rest zero = ground arith
get_elem?-repeated (suc n) c rest (suc slot) = ground (arith, get_elem?-repeated n c rest slot)

profile_from-cycle :
    (slot : ℕ) (mix : List RequestProfile) → profile_from slot mix ≡ get_elem? (cycle mix) slot
unfolding profile_from
profile_from-cycle slot [] = refl
profile_from-cycle slot (p ∷ mix) = ground (
  arith,
  get_elem?-repeated p.weight (p.data_class, p.quality_tier) (cycle mix) slot,
  profile_from-cycle (slot - p.weight) mix,
)

get_elem?_within :
    (xs : List Served) (i : ℕ) → i < length xs → (c : Served) × (get_elem? xs i ≡ some c)
get_elem?_within [] i h = absurd (omega arith)
get_elem?_within (x ∷ xs) zero h = (x, refl)
get_elem?_within (x ∷ xs) (suc i) h = get_elem?_within xs i (omega arith)

total_weight_pos :
    (p : RequestProfile) (mix : List RequestProfile) → AtLeastOne p → 0 < total_weight (p ∷ mix)
unfolding total_weight
total_weight_pos p mix h = omega (arith, h)

one : (i : ℕ) → i % 1 ≡ 0
one i = omega arith

mod_lt : (i n : ℕ) → 0 < n → i % n < n
mod_lt i n h = grind arith

-- The choices that a scenario goes through: its own, or those of its mix.
abbrev pub choices : BenchmarkScenario → List Served
choices s = elim s.request_mix [
  | [] ↦ (s.data_class, s.quality_tier) ∷ []
  | p ∷ mix ↦ cycle (p ∷ mix)
]

-- In a scenario that passes validation every request has a profile: the one at the request's index in
-- the choices of the scenario, gone through again and again. So each profile of a mix serves exactly
-- `weight` of the requests of a round, and the loop never runs off its end.
pub request_profile-cycle :
    (s : BenchmarkScenario) (i : ℕ)
    → validate_evidence_shape s ≡ ok s
    → (c : Served) × (request_profile s i ≡ some c)
      × (get_elem? (choices s) (i % length (choices s)) ≡ some c)
unfolding request_profile
request_profile-cycle s i h = go s.request_mix (validate_evidence_shape-AtLeastOne s h)
  where
    own : Served
    own = (s.data_class, s.quality_tier)

    go :
        (mix : List RequestProfile)
        → All AtLeastOne mix
        → (c : Served) × (request_profile (record s { request_mix = mix }) i ≡ some c)
          × (get_elem?
                (choices (record s { request_mix = mix }))
                (i % length (choices (record s { request_mix = mix })))
              ≡ some c)
    go [] h = (own, refl, rw (one i) refl)
    go (p ∷ mix) h =
        let e = length-cycle (p ∷ mix) in
        let within = mod_lt i (total_weight (p ∷ mix)) (total_weight_pos p mix h.0) in
        let (c, found) =
          get_elem?_within (cycle (p ∷ mix)) (i % total_weight (p ∷ mix)) (rw e within) in
        (c, profile_from-cycle (i % total_weight (p ∷ mix)) (p ∷ mix) ∙ found, rw e found)
