-- ===== src/Benchmark/Manifest/Gates.antt =====
-- benchmark/manifest.py: what each gate of a publishable run lets pass.
use text.Mathlib.TextEquality.{eq_iff}
use ai_inference_cost_optimi.Prelude.{
  ◌≤◌, String, ◌≡◌, ◌≢◌, ◌⊎◌, refl, subst, inl, inr, Bool, true, false, Option, none, some, List,
  [], ◌∷◌, arith, ltb, ltb→le, All, Bool-cases, Option-cases, not-true, if◌then◌else◌,
}
use ai_inference_cost_optimi.Prelude.Equality.{◌==◌, string_eq, elem}
use ai_inference_cost_optimi.Prelude.Dict.{Dict, get}
use ai_inference_cost_optimi.Prelude.Result.{Result, ok, err, raise_if, bind-Through, raise_if-ok}
use ai_inference_cost_optimi.Benchmark.Scenario.{BenchmarkScenario, slo_cells_used}
use ai_inference_cost_optimi.Benchmark.Slo.{SloTarget, SloDocument, require_cell}
use ai_inference_cost_optimi.Benchmark.Manifest.{
  RepositoryState, targets_of, Placement, is_local, missing_placement,
  validate_publishable_placement, Autoscaling, Deployment, by_keda, deployment_gates, t5_gates,
}

-- A variable that is set, and not to the value of a local run.
abbrev pub IsActual : Option String → String → Type 0
IsActual value local_value = (v : String) × (value ≡ some v) × (v ≢ "") × (v ≢ local_value)

abbrev pub HasTarget : SloDocument → String → Type 0
HasTarget slo cell = (t : SloTarget) × (require_cell slo cell ≡ some t)

-- A deployment that treatment T5 can scale.
abbrev pub Scales : Deployment → Type 0
Scales d =
    (2 ≤ d.gpu_count)
    × ((a : Autoscaling) × (d.autoscaling ≡ some a)
        × (a.enabled ≡ true)
        × (a.provider ≡ some "keda"))

-- The evidence that a publishable run needs.
pub record IsPublishable (s : BenchmarkScenario) (repository : RepositoryState) (checksum : String)
    (slo : SloDocument) (allow_dirty : Bool) (placement : Placement)
    (deployment : Option Deployment) : Type 0 where
  pub checked : checksum ≢ ""
  pub cells : All (HasTarget slo) (slo_cells_used s)
  pub clean : (repository.dirty ≡ false) ⊎ (allow_dirty ≡ true)
  pub known : repository.sha ≢ "unknown"
  pub location : IsActual placement.location "local-mock"
  pub node : IsActual placement.node "local"
  pub kind : IsActual placement.workload_kind "local-process"
  pub deployed :
      (d : Deployment) × (deployment ≡ some d) × ((s.treatment ≢ "t5-autoscale") ⊎ Scales d)

pub is_local-IsActual : (v : Option String) (w : String) → is_local v w ≡ false → IsActual v w
is_local-IsActual none w h = cc
is_local-IsActual (some v) w h =
    (v, refl, λ e. ground (arith, eq_iff v ""), λ e. ground (arith, eq_iff v w))

pub IsActual-is_local : (v : Option String) (w : String) → IsActual v w → is_local v w ≡ false
IsActual-is_local v w (t, e, f, g) = rw e (ground (arith, eq_iff t "", eq_iff t w))

err_ne_ok : {E A : Type 0} {e : E} {a : A} → err e ≡ ok a → ⊥
err_ne_ok h = cc

ok_injective : {E A : Type 0} {a b : A} → ◌≡◌ {A = Result E A} (ok a) (ok b) → a ≡ b
ok_injective h = cc

-- The targets of the cells, if each has one.
pub targets_of-HasTarget :
    (slo : SloDocument) (cells : List String) {targets : Dict SloTarget}
    → targets_of slo cells ≡ ok targets
    → All (HasTarget slo) cells
unfolding targets_of
targets_of-HasTarget slo [] h = tt
targets_of-HasTarget slo (cell ∷ cells) h = elim (Option-cases (require_cell slo cell)) [
  | inl e ↦ absurd (err_ne_ok (rw (e, targets_of) at h))
  | inr (t, e) ↦
      let (rest, f, g) = bind-Through (targets_of slo cells) _ (rw (e, targets_of) at h) in
      ((t, e), targets_of-HasTarget slo cells f)
]

pub HasTarget-targets_of :
    (slo : SloDocument) (cells : List String)
    → All (HasTarget slo) cells
    → (targets : Dict SloTarget) × (targets_of slo cells ≡ ok targets)
unfolding targets_of
HasTarget-targets_of slo [] h = ([], refl)
HasTarget-targets_of slo (cell ∷ cells) ((t, e), h) =
    let (targets, f) = HasTarget-targets_of slo cells h in
    ((cell, t) ∷ targets, rw (e, targets_of) (rw f refl))

pub get-targets_of :
    (slo : SloDocument) (k : String) (cells : List String) {targets : Dict SloTarget}
    → targets_of slo cells ≡ ok targets
    → get k targets ≡ (if elem k cells then require_cell slo k else none)
unfolding targets_of
get-targets_of slo k [] {targets} h = subst (λ d. get k d ≡ none) (ok_injective h) refl
get-targets_of slo k (cell ∷ cells) {targets} h = elim (Option-cases (require_cell slo cell)) [
  | inl e ↦ absurd (err_ne_ok (rw (e, targets_of) at h))
  | inr (t, e) ↦
      let (rest, f, g) = bind-Through (targets_of slo cells) _ (rw (e, targets_of) at h) in
      subst (λ d. get k d ≡ (if elem k (cell ∷ cells) then require_cell slo k else none))
        (ok_injective g) (first t rest e (get-targets_of slo k cells f))
]
  where
    first :
        (t : SloTarget) (rest : Dict SloTarget)
        → require_cell slo cell ≡ some t
        → get k rest ≡ (if elem k cells then require_cell slo k else none)
        → get k ((cell, t) ∷ rest) ≡ (if elem k (cell ∷ cells) then require_cell slo k else none)
    first t rest e ih = elim (Bool-cases (cell == k)) [
      | inl same ↦
          let found : require_cell slo k ≡ some t =
            subst (λ x. require_cell slo x ≡ some t) ((eq_iff cell k).0 same) e in
          ground (arith, eq_iff cell k, eq_iff k cell, found)
      | inr other ↦ ground (arith, eq_iff cell k, eq_iff k cell)
    ]

pub missing_placement-nil :
    (p : Placement)
    → missing_placement p ≡ []
    → (is_local p.location "local-mock" ≡ false)
      × (is_local p.node "local" ≡ false)
      × (is_local p.workload_kind "local-process" ≡ false)
unfolding missing_placement
missing_placement-nil p h = ground arith

pub validate_publishable_placement-ok :
    (s : BenchmarkScenario) (p : Placement)
    → s.publishable ≡ true
    → validate_publishable_placement s p ≡ ok tt
    → missing_placement p ≡ []
unfolding validate_publishable_placement
validate_publishable_placement-ok s p on h = ground arith

raise_if_tt : {E : Type 0} (bad : Bool) (e : E) → raise_if bad e ≡ ok tt → bad ≡ false
raise_if_tt bad e h = ground arith

by_keda-some :
    (o : Option Autoscaling)
    → by_keda o ≡ true
    → (a : Autoscaling) × (o ≡ some a) × (a.enabled ≡ true) × (a.provider ≡ some "keda")
by_keda-some none h = cc
by_keda-some (some a) h = elim (Option-cases a.provider) [
  | inl e ↦ absurd (ground arith)
  | inr (p, e) ↦ (a, refl, ground arith, ground (arith, eq_iff p "keda"))
]

pub deployment_gates-ok :
    (s : BenchmarkScenario) (o : Option Deployment)
    → s.publishable ≡ true
    → deployment_gates s o ≡ ok tt
    → (d : Deployment) × (o ≡ some d) × ((s.treatment ≢ "t5-autoscale") ⊎ Scales d)
unfolding deployment_gates t5_gates
deployment_gates-ok s none on h = absurd (err_ne_ok (rw on at h))
deployment_gates-ok s (some d) on h = elim (Bool-cases (s.treatment == "t5-autoscale")) [
  | inl e ↦
      let (few, rest) = raise_if-ok (ltb d.gpu_count 2) _ _ (rw (e, deployment_gates) at h) in
      (
        d,
        refl,
        inr (ltb→le _ _ few, by_keda-some d.autoscaling (not-true _ (raise_if_tt _ _ rest))),
      )
  | inr e ↦ (d, refl, inl (λ f. ground (arith, eq_iff s.treatment "t5-autoscale")))
]
