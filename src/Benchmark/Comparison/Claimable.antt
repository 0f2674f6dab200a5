-- ===== src/Benchmark/Comparison/Claimable.antt =====
-- benchmark/comparison.py: what each condition of a claim stands for.
use text.Mathlib.TextEquality.{eq_iff}
use ai_inference_cost_optimi.Prelude.{
  ℕ, ◌≤◌, String, ◌≡◌, ◌≢◌, ◌↔◌, refl, sym, ap, ◌⊎◌, inl, inr, Bool, true, false, not, ◌&&◌, ◌||◌,
  Option, none, some, List, [], arith, present, Option-cases, if◌then◌else◌,
}
use ai_inference_cost_optimi.Prelude.Equality.{◌==◌, string_eq}
use ai_inference_cost_optimi.Prelude.Text.{blank}
use ai_inference_cost_optimi.Decimal.{Decimal, less}
use ai_inference_cost_optimi.Benchmark.Manifest.{is_local}
use ai_inference_cost_optimi.Benchmark.Manifest.Gates.{
  IsActual, is_local-IsActual, IsActual-is_local,
}
use ai_inference_cost_optimi.Benchmark.Comparison.{
  Difference, below_zero, above_zero, Interval, delta_ci, HarnessPlace, placement_is_non_local,
  RunMetadata, Treatment, treatment_a, treatment_b, Condition, missing_or_other, note,
  metadata_checks, direction_of,
}

-- Two values that are there, equal and not empty.
abbrev pub Same : Option String → Option String → Type 0
Same x y = (s : String) × (x ≡ some s) × (y ≡ some s) × (s ≢ "")

-- Three repeats, declared and seen, and two hundred successes in all of them together.
abbrev pub IsLarge : RunMetadata → Type 0
IsLarge m =
    (3 ≤ m.repeat_count)
    × ((n : ℕ) × (m.declared_repeat_count ≡ some n) × (3 ≤ n))
    × (200 ≤ m.successful_responses)

abbrev pub IsRemote : Option HarnessPlace → Type 0
IsRemote place =
    (h : HarnessPlace) × (place ≡ some h)
    × IsActual h.location "local-mock"
    × IsActual h.node "local"
    × IsActual h.workload_kind "local-process"
    × (blank h.network_path ≡ false)

abbrev pub HasCost : Option Decimal → Type 0
HasCost cost = (c : Decimal) × (cost ≡ some c)

-- One treatment costs less for a correct task even at the ends of the intervals that are nearest, and
-- the whole interval of the quality effect (B minus A) is 0 or in its favour.
abbrev pub Wins : Treatment → Interval Decimal → Interval Decimal → Interval Difference → Type 0
Wins treatment_b a b quality = (less b.high a.low ≡ true) × (below_zero quality.low ≡ false)
Wins treatment_a a b quality = (less a.high b.low ≡ true) × (above_zero quality.high ≡ false)

pub note-nil :
    (bad : Bool) (c : Condition) (rest : List Condition)
    → note bad c rest ≡ []
    → (bad ≡ false) × (rest ≡ [])
note-nil true c rest h = absurd (cc)
note-nil false c rest h = (refl, h)

neither : (a b : Bool) → (a || not b) ≡ false → (a ≡ false) × (b ≡ true)
neither a b h = ground arith

four_nots :
    (a b c d : Bool)
    → ((not a && not b && not c && not d) ≡ true)
      ↔ ((a ≡ false) × (b ≡ false) × (c ≡ false) × (d ≡ false))
four_nots a b c d = ground arith

pub Same-iff : (x y : Option String) → (missing_or_other x y ≡ false) ↔ Same x y
Same-iff none y = (λ h. cc, λ h. cc)
Same-iff (some x) none = (λ h. cc, λ h. cc)
Same-iff (some x) (some y) = (forth, back)
  where
    forth : (x == "" || not (x == y)) ≡ false → Same (some x) (some y)
    forth h =
        let (filled, same) = neither (x == "") (x == y) h in
        (x, refl, ap some (sym ((eq_iff x y).0 same)), λ e. ground (arith, eq_iff x ""))

    back : Same (some x) (some y) → (x == "" || not (x == y)) ≡ false
    back (s, e, f, ne) =
        let x_s : x ≡ s = cc in
        let y_s : y ≡ s = cc in rw (x_s, y_s) (ground (arith, eq_iff s "", eq_iff s s))

pub IsLarge-iff :
    (t : Treatment) (m : RunMetadata) (rest : List Condition)
    → (metadata_checks t m rest ≡ []) ↔ (IsLarge m × (rest ≡ []))
unfolding metadata_checks
IsLarge-iff t m rest = elim (Option-cases m.declared_repeat_count) [
  | inl e ↦ (λ h. absurd (ground (arith, e)), λ (large, tail). absurd (ground (arith, e)))
  | inr (n, e) ↦ (
    λ h. ((ground (arith, e), (n, e, ground (arith, e)), ground (arith, e)), ground (arith, e)),
    λ h.
        let (three, (n', d, more), two) = h.0 in
        let same : n' ≡ n = cc in let tail = h.1 in ground arith,
  )
]

pub IsRemote-iff : (h : Option HarnessPlace) → (placement_is_non_local h ≡ true) ↔ IsRemote h
unfolding placement_is_non_local
IsRemote-iff none = (λ h. cc, λ h. cc)
IsRemote-iff (some h) =
    let split =
      four_nots (is_local h.location "local-mock") (is_local h.node "local")
        (is_local h.workload_kind "local-process") (blank h.network_path) in
    (
      λ e.
          let (l, n, k, p) = split.0 e in
          (
            h,
            refl,
            is_local-IsActual h.location "local-mock" l,
            is_local-IsActual h.node "local" n,
            is_local-IsActual h.workload_kind "local-process" k,
            p,
          ),
      back,
    )
  where
    back : IsRemote (some h) → placement_is_non_local (some h) ≡ true
    back (h', e, l, n, k, p) =
        let same : h ≡ h' = cc in
        rw same (
          (four_nots (is_local h'.location "local-mock") (is_local h'.node "local")
              (is_local h'.workload_kind "local-process") (blank h'.network_path)).1
            (
              IsActual-is_local h'.location "local-mock" l,
              IsActual-is_local h'.node "local" n,
              IsActual-is_local h'.workload_kind "local-process" k,
              p,
            ))

pub HasCost-iff : (c : Option Decimal) → (present c ≡ true) ↔ HasCost c
HasCost-iff none = (λ h. cc, λ h. cc)
HasCost-iff (some c) = (λ h. (c, refl), λ h. refl)

pub all_five :
    (a b c d e : Bool)
    → (a && b && c && d && e) ≡ true
    → (a ≡ true) × (b ≡ true) × (c ≡ true) × (d ≡ true) × (e ≡ true)
all_five a b c d e h = ground arith

-- The test that picks a treatment, over its four comparisons.
picks_iff :
    (p q r s : Bool)
    → (present
          (if p && not q then some treatment_b else if r && not s then some treatment_a else none)
        ≡ true)
      ↔ (((p ≡ true) × (q ≡ false)) ⊎ ((r ≡ true) × (s ≡ false)))
picks_iff p q r s = ground arith

abbrev pub Winner :
    Option (Interval Decimal) → Option (Interval Decimal) → Interval Difference → Type 0
Winner a b quality =
    (t : Treatment) × (x : Interval Decimal) × (y : Interval Decimal) × (a ≡ some x)
    × (b ≡ some y)
    × Wins t x y quality

pub direction_of-Winner :
    (a b : Option (Interval Decimal)) (quality : Interval Difference)
    → present (direction_of (delta_ci a b) quality) ≡ true
    → Winner a b quality
unfolding direction_of delta_ci
direction_of-Winner none b quality h = absurd (cc)
direction_of-Winner (some x) none quality h = absurd (cc)
direction_of-Winner (some x) (some y) quality h =
    elim ((picks_iff (less y.high x.low) (below_zero quality.low) (less x.high y.low)
        (above_zero quality.high)).0
      h) [
        | inl win ↦ (treatment_b, x, y, refl, refl, win)
        | inr win ↦ (treatment_a, x, y, refl, refl, win)
      ]

pub Winner-direction_of :
    (a b : Option (Interval Decimal)) (quality : Interval Difference)
    → Winner a b quality
    → (present (direction_of (delta_ci a b) quality) ≡ true) × (present (delta_ci a b) ≡ true)
unfolding direction_of delta_ci
Winner-direction_of a b quality (t, x, y, e, f, win) = rw (e, f) (go t win, refl)
  where
    go :
        (t : Treatment)
        → Wins t x y quality
        → present (direction_of (delta_ci (some x) (some y)) quality) ≡ true
    go treatment_b win =
        (picks_iff (less y.high x.low) (below_zero quality.low) (less x.high y.low)
            (above_zero quality.high)).1
          (inl win)
    go treatment_a win =
        (picks_iff (less y.high x.low) (below_zero quality.low) (less x.high y.low)
            (above_zero quality.high)).1
          (inr win)
