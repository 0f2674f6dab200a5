-- ===== src/Benchmark/Comparison/Supported.antt =====
-- benchmark/comparison.py: a comparison supports a claim exactly when all of its evidence is there.
use ai_inference_cost_optimi.Prelude.{
  ◌≡◌, ◌↔◌, refl, Bool, true, false, not, ◌&&◌, ◌||◌, Option, List, [], ◌∷◌, arith, present,
  not-true, not-false,
}
use ai_inference_cost_optimi.Prelude.Equality.{string_eq}
use ai_inference_cost_optimi.Decimal.{Decimal}
use ai_inference_cost_optimi.Benchmark.Comparison.{
  Difference, Interval, Costs, delta_ci, ComparedManifest, placement_is_non_local, RunMetadata,
  treatment_a, treatment_b, Condition, missing_or_other, note, costs_complete, direction_of,
  failed_conditions, claimability,
}
use ai_inference_cost_optimi.Benchmark.Comparison.Claimable.{
  Same, IsLarge, IsRemote, HasCost, Winner, note-nil, Same-iff, IsLarge-iff, IsRemote-iff,
  HasCost-iff, all_five, direction_of-Winner, Winner-direction_of,
}

pub record IsSupported (a b : ComparedManifest) (ma mb : RunMetadata)
    (quality : Interval Difference) (costs : Costs) (ci_a ci_b : Option (Interval Decimal))
    : Type 0 where
  pub published : (a.publishable ≡ true) × (b.publishable ≡ true)
  pub checksum : Same a.dataset_sha256 b.dataset_sha256
  pub cell : Same a.slo_cell b.slo_cell
  pub workload : Same a.workload b.workload
  pub size : IsLarge ma × IsLarge mb
  pub place : IsRemote a.harness × IsRemote b.harness
  pub costs_a : HasCost costs.view_a_a × HasCost costs.view_b_a
  pub costs_b : HasCost costs.view_a_b × HasCost costs.view_b_b
  pub cheaper : Winner ci_a ci_b quality

neither_not : (a b : Bool) → (not a || not b) ≡ false → (a ≡ true) × (b ≡ true)
neither_not a b h = ground arith

both_true : (a b : Bool) → a ≡ true → b ≡ true → (not a || not b) ≡ false
both_true a b h k = ground arith

none_failed : (l : List Condition) → (elim l [ [] ↦ true | c ∷ rest ↦ false ]) ≡ true → l ≡ []
none_failed [] h = refl
none_failed (c ∷ rest) h = absurd (cc)

all_passed : (l : List Condition) → l ≡ [] → (elim l [ [] ↦ true | c ∷ rest ↦ false ]) ≡ true
all_passed [] h = refl
all_passed (c ∷ rest) h = cc

note-pass :
    (bad : Bool) (c : Condition) (rest : List Condition)
    → bad ≡ false
    → rest ≡ []
    → note bad c rest ≡ []
note-pass bad c rest e f = rw (e, f) refl

five_true :
    (a b c d e : Bool)
    → a ≡ true
    → b ≡ true
    → c ≡ true
    → d ≡ true
    → e ≡ true
    → (a && b && c && d && e) ≡ true
five_true a b c d e ha hb hc hd he = ground arith

-- A comparison is supported exactly when both runs are publishable, with one dataset checksum, SLO
-- cell and workload, at least three declared and seen repeats and two hundred successes in the whole
-- run (not in each repeat) each, and not placed locally; when both have their costs in View A and
-- View B; and when one treatment costs less for a correct task even at the nearest ends of the two
-- View A intervals, with no part of the quality interval against it.
pub claimability_iff :
    (a b : ComparedManifest) (ma mb : RunMetadata) (quality : Interval Difference) (costs : Costs)
    (ci_a ci_b : Option (Interval Decimal))
    → ((claimability a b ma mb quality costs (delta_ci ci_a ci_b)).supported ≡ true)
      ↔ IsSupported a b ma mb quality costs ci_a ci_b
unfolding claimability costs_complete
claimability_iff a b ma mb quality costs ci_a ci_b = (forth, back)
  where
    forth :
        (claimability a b ma mb quality costs (delta_ci ci_a ci_b)).supported ≡ true
        → IsSupported a b ma mb quality costs ci_a ci_b
    forth h =
        let (p, h1) =
          note-nil _ _ _
            (none_failed (failed_conditions a b ma mb quality costs (delta_ci ci_a ci_b)) h) in
        let (s, h2) = note-nil (missing_or_other a.dataset_sha256 b.dataset_sha256) _ _ h1 in
        let (c, h3) = note-nil (missing_or_other a.slo_cell b.slo_cell) _ _ h2 in
        let (w, h4) = note-nil (missing_or_other a.workload b.workload) _ _ h3 in
        let (la, h5) = (IsLarge-iff treatment_a ma _).0 h4 in
        let (lb, h6) = (IsLarge-iff treatment_b mb _).0 h5 in
        let (ra, h7) = note-nil (not (placement_is_non_local a.harness)) _ _ h6 in
        let (rb, h8) = note-nil (not (placement_is_non_local b.harness)) _ _ h7 in
        let (cs, h9) = note-nil (not (costs_complete costs (delta_ci ci_a ci_b))) _ _ h8 in
        let (d, h10) =
          note-nil (not (present (direction_of (delta_ci ci_a ci_b) quality))) _ _ h9 in
        let (x1, x2, x3, x4, x5) =
          all_five (present costs.view_a_a) (present costs.view_a_b) (present costs.view_b_a)
            (present costs.view_b_b) (present (delta_ci ci_a ci_b)) (not-true _ cs) in
        record {
          published = neither_not a.publishable b.publishable p;
          checksum = (Same-iff a.dataset_sha256 b.dataset_sha256).0 s;
          cell = (Same-iff a.slo_cell b.slo_cell).0 c;
          workload = (Same-iff a.workload b.workload).0 w;
          size = (la, lb);
          place = (
            (IsRemote-iff a.harness).0 (not-true (placement_is_non_local a.harness) ra),
            (IsRemote-iff b.harness).0 (not-true (placement_is_non_local b.harness) rb),
          );
          costs_a = ((HasCost-iff costs.view_a_a).0 x1, (HasCost-iff costs.view_b_a).0 x3);
          costs_b = ((HasCost-iff costs.view_a_b).0 x2, (HasCost-iff costs.view_b_b).0 x4);
          cheaper =
              direction_of-Winner ci_a ci_b quality
                (not-true (present (direction_of (delta_ci ci_a ci_b) quality)) d);
        }

    back :
        IsSupported a b ma mb quality costs ci_a ci_b
        → (claimability a b ma mb quality costs (delta_ci ci_a ci_b)).supported ≡ true
    back h =
        let (d, ci) = Winner-direction_of ci_a ci_b quality h.cheaper in
        let complete : costs_complete costs (delta_ci ci_a ci_b) ≡ true =
          five_true _ _ _ _ _ ((HasCost-iff costs.view_a_a).1 h.costs_a.0)
            ((HasCost-iff costs.view_a_b).1 h.costs_b.0)
            ((HasCost-iff costs.view_b_a).1 h.costs_a.1)
            ((HasCost-iff costs.view_b_b).1 h.costs_b.1) ci in
        all_passed (failed_conditions a b ma mb quality costs (delta_ci ci_a ci_b)) (
          note-pass _ _ _ (both_true a.publishable b.publishable h.published.0 h.published.1) (
            note-pass _ _ _ ((Same-iff a.dataset_sha256 b.dataset_sha256).1 h.checksum) (
              note-pass _ _ _ ((Same-iff a.slo_cell b.slo_cell).1 h.cell) (
                note-pass _ _ _ ((Same-iff a.workload b.workload).1 h.workload) (
                  (IsLarge-iff treatment_a ma _).1 (
                    h.size.0,
                    (IsLarge-iff treatment_b mb _).1 (
                      h.size.1,
                      note-pass _ _ _ (not-false _ ((IsRemote-iff a.harness).1 h.place.0)) (
                          note-pass _ _ _ (not-false _ ((IsRemote-iff b.harness).1 h.place.1)) (
                            note-pass _ _ _ (not-false _ complete)
                              (note-pass _ _ _ (not-false _ d) refl))),
                    ),
                  ))))))
