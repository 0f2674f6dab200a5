-- ===== src/Benchmark/Manifest/Publishable.antt =====
-- benchmark/manifest.py: a publishable run starts with all of its evidence, and only then.
use text.Mathlib.TextEquality.{eq_iff}
use ai_inference_cost_optimi.Prelude.{
  String, ◌≡◌, ◌≢◌, ◌⊎◌, refl, subst, inl, inr, Bool, true, false, not, ◌&&◌, Option, none, some,
  arith, All, if◌then◌else◌,
}
use ai_inference_cost_optimi.Prelude.Equality.{◌==◌, string_eq, elem}
use ai_inference_cost_optimi.Prelude.Dict.{get}
use ai_inference_cost_optimi.Prelude.Result.{
  Result, ok, err, ◌>>◌, raise_if, bind-Through, raise_if-ok,
}
use ai_inference_cost_optimi.Benchmark.Scenario.{BenchmarkScenario, slo_cells_used}
use ai_inference_cost_optimi.Benchmark.Slo.{SloTarget, SloDocument, require_cell}
use ai_inference_cost_optimi.Benchmark.Manifest.{
  RepositoryState, no_checksum, dirty_tree, unknown_revision, targets_of, or_key_error,
  validate_publishability, Placement, validate_publishable_placement, Deployment, deployment_gates,
  build_manifest,
}
use ai_inference_cost_optimi.Benchmark.Manifest.Gates.{
  HasTarget, IsPublishable, is_local-IsActual, targets_of-HasTarget, get-targets_of,
  missing_placement-nil, validate_publishable_placement-ok, deployment_gates-ok,
}

err_ne_ok : {E A : Type 0} {e : E} {a : A} → err e ≡ ok a → ⊥
err_ne_ok h = cc

-- The target that a found cell has.
or_key_error-ok :
    (slo : SloDocument) (k : String) (b : Bool) {o : Option SloTarget} {target : SloTarget}
    → o ≡ (if b then require_cell slo k else none)
    → or_key_error k o ≡ ok target
    → (b ≡ true) × (require_cell slo k ≡ some target)
or_key_error-ok slo k true {o} {target} e h =
    (refl, at_key (require_cell slo k) (subst (λ x. or_key_error k x ≡ ok target) e h))
  where
    at_key : (x : Option SloTarget) → or_key_error k x ≡ ok target → x ≡ some target
    at_key none h = cc
    at_key (some t) h = cc
or_key_error-ok slo k false {o} {target} e h =
    absurd (err_ne_ok (subst (λ x. or_key_error k x ≡ ok target) e h))

ok_injective : {E A : Type 0} {a b : A} → ◌≡◌ {A = Result E A} (ok a) (ok b) → a ≡ b
ok_injective h = cc

clean_or_allowed :
    (on dirty allowed : Bool)
    → on ≡ true
    → (on && dirty && not allowed) ≡ false
    → (dirty ≡ false) ⊎ (allowed ≡ true)
clean_or_allowed on false allowed e h = inl refl
clean_or_allowed on true true e h = inr refl
clean_or_allowed true true false e h = cc
clean_or_allowed false true false e h = cc

differs : (on : Bool) (x y : String) → on ≡ true → (on && x == y) ≡ false → x ≢ y
differs on x y e h same = ground (arith, eq_iff x y)

-- The gates on the revision and the tree, and the target.
record Passes (s : BenchmarkScenario) (repository : RepositoryState) (checksum : String)
    (slo : SloDocument) (allow_dirty : Bool) (target : SloTarget) : Type 0 where
  checked : (checksum == "") ≡ false
  cells : All (HasTarget slo) (slo_cells_used s)
  clean : (repository.dirty ≡ false) ⊎ (allow_dirty ≡ true)
  known : repository.sha ≢ "unknown"
  used : elem s.slo_cell (slo_cells_used s) ≡ true
  found : require_cell slo s.slo_cell ≡ some target

validate_publishability-Passes :
    (s : BenchmarkScenario) (repository : RepositoryState) (checksum : String) (slo : SloDocument)
    (allow_dirty : Bool) {target : SloTarget}
    → s.publishable ≡ true
    → validate_publishability s repository checksum slo allow_dirty ≡ ok target
    → Passes s repository checksum slo allow_dirty target
unfolding validate_publishability
validate_publishability-Passes s repository checksum slo allow_dirty on h =
    let cells = slo_cells_used s in
    let (a, v1) = raise_if-ok (checksum == "") no_checksum _ h in
    let (targets, f, v2) = bind-Through (targets_of slo cells) _ v1 in
    let (dirty, v3) =
      raise_if-ok (s.publishable && repository.dirty && not allow_dirty) dirty_tree
        (raise_if (s.publishable && repository.sha == "unknown") unknown_revision
          >> or_key_error s.slo_cell (get s.slo_cell targets))
        v2 in
    let (unknown, v4) =
      raise_if-ok (s.publishable && repository.sha == "unknown") unknown_revision
        (or_key_error s.slo_cell (get s.slo_cell targets)) v3 in
    let (used, found) =
      or_key_error-ok slo s.slo_cell (elem s.slo_cell cells) (get-targets_of slo s.slo_cell cells f)
        v4 in
    record {
      checked = a;
      cells = targets_of-HasTarget slo cells f;
      clean = clean_or_allowed s.publishable repository.dirty allow_dirty on dirty;
      known = differs s.publishable repository.sha "unknown" on unknown;
      used = used;
      found = found;
    }

-- A publishable run that passes the gates of `build_manifest` has its evidence: a dataset checksum, a
-- target for each cell that carries traffic, a clean tree or the override, a known revision, a
-- placement that is set and not the local one, and a deploy manifest, for treatment T5 one with two
-- GPUs and KEDA. The target in the manifest is the one of the scenario's cell, which carries traffic.
pub build_manifest-IsPublishable :
    (s : BenchmarkScenario) (repository : RepositoryState) (checksum : String) (slo : SloDocument)
    (allow_dirty : Bool) (placement : Placement) (deployment : Option Deployment)
    {target : SloTarget}
    → s.publishable ≡ true
    → build_manifest s repository checksum slo allow_dirty placement deployment ≡ ok target
    → IsPublishable s repository checksum slo allow_dirty placement deployment
      × (elem s.slo_cell (slo_cells_used s) ≡ true)
      × (require_cell slo s.slo_cell ≡ some target)
unfolding build_manifest
build_manifest-IsPublishable s repository checksum slo allow_dirty placement deployment on h =
    let (t, v, rest) =
      bind-Through (validate_publishability s repository checksum slo allow_dirty) _ h in
    let (u, placed, rest') = bind-Through (validate_publishable_placement s placement) _ rest in
    let (w, deployed, same) = bind-Through (deployment_gates s deployment) _ rest' in
    let p = validate_publishability-Passes s repository checksum slo allow_dirty on v in
    let (l, n, k) =
      missing_placement-nil placement (validate_publishable_placement-ok s placement on placed) in
    (
      record {
        checked = λ e. ground (arith, eq_iff checksum "", p.checked);
        cells = p.cells;
        clean = p.clean;
        known = p.known;
        location = is_local-IsActual placement.location "local-mock" l;
        node = is_local-IsActual placement.node "local" n;
        kind = is_local-IsActual placement.workload_kind "local-process" k;
        deployed = deployment_gates-ok s deployment on deployed;
      },
      p.used,
      subst (λ x. require_cell slo s.slo_cell ≡ some x) (ok_injective same) p.found,
    )
