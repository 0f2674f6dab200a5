-- ===== src/Benchmark/Manifest/Outcome.antt =====
-- benchmark/manifest.py: with all of its evidence, a publishable run starts unless its own cell carries
-- no traffic.
use mathlib.Core.Bool.{false≢true}
use text.Mathlib.TextEquality.{eq_iff}
use ai_inference_cost_optimi.Prelude.{
  String, ◌≡◌, ◌≢◌, ◌⊎◌, refl, sym, ap, ◌∙◌, subst, inl, inr, Bool, true, false, not, ◌&&◌, Option,
  none, some, List, [], ◌∷◌, arith, All, Bool-cases, if◌then◌else◌,
}
use ai_inference_cost_optimi.Prelude.Equality.{◌==◌, string_eq, elem}
use ai_inference_cost_optimi.Prelude.Dict.{Dict, get}
use ai_inference_cost_optimi.Prelude.Result.{Result, ok, err, ◌>>=◌}
use ai_inference_cost_optimi.Models.Enums.{tier_eq}
use ai_inference_cost_optimi.Benchmark.Scenario.{
  BenchmarkScenario, slo_cells_used, tiers_used, validate_evidence_shape,
}
use ai_inference_cost_optimi.Benchmark.Scenario.Cells.{
  elem-slo_cells_used, validate_evidence_shape-slo_cell,
}
use ai_inference_cost_optimi.Benchmark.Slo.{SloTarget, SloDocument, require_cell}
use ai_inference_cost_optimi.Benchmark.Manifest.{
  RepositoryState, ManifestError, cell_key_error, or_key_error, validate_publishability, Placement,
  missing_placement, validate_publishable_placement, Deployment, by_keda, deployment_gates,
  t5_gates, build_manifest,
}
use ai_inference_cost_optimi.Benchmark.Manifest.Gates.{
  IsActual, HasTarget, Scales, IsPublishable, IsActual-is_local, HasTarget-targets_of,
  get-targets_of,
}

clean_passes :
    (on dirty allowed : Bool)
    → (dirty ≡ false) ⊎ (allowed ≡ true)
    → (on && dirty && not allowed) ≡ false
clean_passes on dirty allowed h = ground arith

known_passes : (on : Bool) (x y : String) → x ≢ y → (on && x == y) ≡ false
known_passes on x y h = elim (Bool-cases (x == y)) [
  | inl e ↦ absurd (h ((eq_iff x y).0 e))
  | inr e ↦ rw e (ground arith)
]

checked_passes : (x : String) → x ≢ "" → (x == "") ≡ false
checked_passes x h = known_passes true x "" h

placement_passes :
    (s : BenchmarkScenario) (p : Placement)
    → IsActual p.location "local-mock"
    → IsActual p.node "local"
    → IsActual p.workload_kind "local-process"
    → validate_publishable_placement s p ≡ ok tt
unfolding validate_publishable_placement missing_placement
placement_passes s p a b c =
    let a' = IsActual-is_local p.location "local-mock" a in
    let b' = IsActual-is_local p.node "local" b in
    let c' = IsActual-is_local p.workload_kind "local-process" c in ground arith

t5_passes : (d : Deployment) → Scales d → t5_gates d ≡ ok tt
unfolding t5_gates
t5_passes d (two, (a, e, on, keda)) =
    let by : by_keda d.autoscaling ≡ true = rw (e, on) (rw (keda, by_keda) refl) in ground arith

deployment_passes :
    (s : BenchmarkScenario) (o : Option Deployment)
    → ((d : Deployment) × (o ≡ some d) × ((s.treatment ≢ "t5-autoscale") ⊎ Scales d))
    → deployment_gates s o ≡ ok tt
unfolding deployment_gates
deployment_passes s o (d, e, inl other) =
    rw e (rw (known_passes true s.treatment "t5-autoscale" other) refl)
deployment_passes s o (d, e, inr scales) = elim (Bool-cases (s.treatment == "t5-autoscale")) [
  | inl t ↦ rw (e, deployment_gates) (rw (t, t5_passes d scales) refl)
  | inr t ↦ rw (e, deployment_gates) (rw t refl)
]

ok_again : {E A : Type 0} (m : Result E A) → (m >>= λ a. ok a) ≡ m
ok_again (ok a) = refl
ok_again (err e) = refl

HasTarget-elem :
    (slo : SloDocument) (k : String) (cells : List String)
    → All (HasTarget slo) cells
    → elem k cells ≡ true
    → HasTarget slo k
HasTarget-elem slo k [] h e = absurd (false≢true e)
HasTarget-elem slo k (cell ∷ cells) (h, hs) e = elim (Bool-cases (k == cell)) [
  | inl same ↦ subst (HasTarget slo) (sym ((eq_iff k cell).0 same)) h
  | inr other ↦ HasTarget-elem slo k cells hs (rw other at e)
]

-- The target of a cell that carries traffic, or the KeyError of one that does not.
target_of :
    (slo : SloDocument) (k : String) (b : Bool) (cells : List String) (targets : Dict SloTarget)
    → b ≡ elem k cells
    → All (HasTarget slo) cells
    → get k targets ≡ (if elem k cells then require_cell slo k else none)
    → ((b ≡ true)
        × ((t : SloTarget) × (require_cell slo k ≡ some t)
            × (or_key_error k (get k targets) ≡ ok t)))
      ⊎ ((b ≡ false) × (or_key_error k (get k targets) ≡ err (cell_key_error k)))
target_of slo k true cells targets e h f =
    let (t, found) = HasTarget-elem slo k cells h (sym e) in
    inl (refl, (t, found, rw (f, sym e, found) refl))
target_of slo k false cells targets e h f = inr (refl, rw (f, sym e) refl)

-- The outcome of the gates, by whether the tier of the scenario itself is one of its mix.
abbrev pub Outcome : BenchmarkScenario → SloDocument → Result ManifestError SloTarget → Type 0
Outcome s slo result =
    ((elem s.quality_tier (tiers_used s) ≡ true)
      × ((t : SloTarget) × (require_cell slo s.slo_cell ≡ some t) × (result ≡ ok t)))
    ⊎ ((elem s.quality_tier (tiers_used s) ≡ false) × (result ≡ err (cell_key_error s.slo_cell)))

-- A publishable run of a valid scenario that has all of its evidence passes the gates with the target
-- of the scenario's cell if requests of the scenario's own tier are among those sent; otherwise the
-- gates end in a KeyError.
pub build_manifest-Outcome :
    (s : BenchmarkScenario) (repository : RepositoryState) (checksum : String) (slo : SloDocument)
    (allow_dirty : Bool) (placement : Placement) (deployment : Option Deployment)
    → validate_evidence_shape s ≡ ok s
    → IsPublishable s repository checksum slo allow_dirty placement deployment
    → Outcome s slo (build_manifest s repository checksum slo allow_dirty placement deployment)
unfolding build_manifest validate_publishability
build_manifest-Outcome s repository checksum slo allow_dirty placement deployment valid p =
    let cells = slo_cells_used s in
    let (targets, f) = HasTarget-targets_of slo cells p.cells in
    let own : elem s.quality_tier (tiers_used s) ≡ elem s.slo_cell cells =
      sym (elem-slo_cells_used s s.quality_tier)
      ∙ ap (λ (c : String). elem c cells) (sym (validate_evidence_shape-slo_cell s valid)) in
    let a = checked_passes checksum p.checked in
    let b = clean_passes s.publishable repository.dirty allow_dirty p.clean in
    let c = known_passes s.publishable repository.sha "unknown" p.known in
    let d = placement_passes s placement p.location p.node p.kind in
    let e = deployment_passes s deployment p.deployed in
    let result = or_key_error s.slo_cell (get s.slo_cell targets) in
    let same : build_manifest s repository checksum slo allow_dirty placement deployment ≡ result =
      rw (a, f, b, c, d, e) (ok_again result) in
    subst (Outcome s slo) (sym same) (
      target_of slo s.slo_cell (elem s.quality_tier (tiers_used s)) cells targets own p.cells
        (get-targets_of slo s.slo_cell cells f))
