-- ===== src/Benchmark/Evaluators/Answered.antt =====
-- benchmark/evaluators.py: which outputs count as correct.
use text.Mathlib.TextEquality.{eq_iff}
use ai_inference_cost_optimi.Prelude.{
  String, ◌≡◌, ◌≢◌, ◌↔◌, refl, sym, ap, ◌⊎◌, inl, inr, true, false, Option, some, List, [], ◌∷◌,
  arith, Bool-cases, Option-cases, subst,
}
use ai_inference_cost_optimi.Prelude.Equality.{◌==◌, string_eq, elem}
use ai_inference_cost_optimi.Benchmark.Evaluators.{
  TextFunctions, reversed, normal_labels, named_labels, is_clear, extract_from, take_line,
  some_label, extract_label, prediction, evaluate_classification,
}

module _ (text : TextFunctions) (labels : List String) where
  -- A line that names no label, and one that names one label alone.
  abbrev pub IsSilent : String → Type 0
  IsSilent raw_line =
      let line = text.normalize raw_line in (line ≡ "") ⊎ (named_labels text labels line ≡ [])

  abbrev pub Names : String → String → Type 0
  Names label raw_line =
      let line = text.normalize raw_line in
      (line ≢ "") × (named_labels text labels line ≡ label ∷ []) × (is_clear text line label ≡ true)

  -- Lines of which the first that is not silent names the label.
  pub data Answers (label : String) : List String → Type 0 where
    here :
        {raw_line : String} {rest : List String}
        → Names label raw_line
        → Answers label (raw_line ∷ rest)
    later :
        {raw_line : String} {rest : List String}
        → IsSilent raw_line
        → Answers label rest
        → Answers label (raw_line ∷ rest)

  take_line-some :
      (line : String) (named : List String) (next : Option String) (label : String)
      → take_line text line named next ≡ some label
      → ((named ≡ []) × (next ≡ some label))
        ⊎ ((named ≡ label ∷ []) × (is_clear text line label ≡ true))
  unfolding take_line
  take_line-some line [] next label e = inl (refl, e)
  take_line-some line (x ∷ []) next label e = elim (Bool-cases (is_clear text line x)) [
    | inl clear ↦
        let same : x ≡ label = ground (arith, clear) in
        inr (ap (λ y. y ∷ []) same, rw (sym same) clear)
    | inr blurred ↦ absurd (ground (arith, blurred))
  ]
  take_line-some line (x ∷ y ∷ named) next label e = absurd (cc)

  extract_from-Answers :
      (lines : List String) (label : String)
      → extract_from text labels lines ≡ some label
      → Answers label lines
  unfolding extract_from
  extract_from-Answers [] label e = absurd (cc)
  extract_from-Answers (raw_line ∷ rest) label e =
      elim (Bool-cases (text.normalize raw_line == "")) [
        | inl empty ↦
            later (inl ((eq_iff _ _).0 empty))
              (extract_from-Answers rest label (ground (arith, empty)))
        | inr full ↦
            elim (take_line-some (text.normalize raw_line)
              (named_labels text labels (text.normalize raw_line)) (extract_from text labels rest)
              label (ground (arith, full))) [
                | inl (silent, more) ↦ later (inr silent) (extract_from-Answers rest label more)
                | inr (named, clear) ↦
                    here
                      (λ p. ground (arith, full, eq_iff (text.normalize raw_line) ""), named, clear)
              ]
      ]

  Answers-extract_from :
      (lines : List String) (label : String)
      → Answers label lines
      → extract_from text labels lines ≡ some label
  unfolding extract_from take_line
  Answers-extract_from [] label x = elim x [ ]
  Answers-extract_from (raw_line ∷ rest) label (here (full, named, clear)) =
      elim (Bool-cases (text.normalize raw_line == "")) [
        | inl empty ↦ absurd (full ((eq_iff _ _).0 empty))
        | inr e ↦ rw (e, named, clear) refl
      ]
  Answers-extract_from (raw_line ∷ rest) label (later silent answers) =
      let more = Answers-extract_from rest label answers in
      elim (Bool-cases (text.normalize raw_line == "")) [
        | inl empty ↦ rw empty more
        | inr full ↦ elim silent [
          | inl e ↦ absurd (ground (arith, full, e, eq_iff (text.normalize raw_line) ""))
          | inr none_named ↦ rw (full, none_named) more
        ]
      ]

elem-some_label :
    (text : TextFunctions) (x : String) (labels : List String)
    → elem x (normal_labels text labels) ≡ true
    → some_label labels ≡ true
elem-some_label text x [] h = absurd (cc)
elem-some_label text x (label ∷ labels) h = refl

-- Let the expected label be one of the labels. An output counts as correct exactly if all of it is the
-- expected label, or it is none of the labels, and the last of its lines that names a label names the
-- expected one alone, without a negation unless the line is the label.
pub evaluate_classification_iff :
    (text : TextFunctions) (output expected : String) (labels : List String)
    → elem (text.normalize expected) (normal_labels text labels) ≡ true
    → ((evaluate_classification text output expected labels).task_correct ≡ true) ↔ (
        (text.strip (text.normalize output) ≡ text.normalize expected)
        ⊎ ((elem (text.strip (text.normalize output)) (normal_labels text labels) ≡ false)
            × Answers text labels (text.normalize expected) (reversed (text.split_lines output))))
unfolding evaluate_classification prediction extract_label
evaluate_classification_iff text output expected labels known =
    let predicted = text.strip (text.normalize output) in
    let truth = text.normalize expected in
    let lines = reversed (text.split_lines output) in
    let filled = elem-some_label text truth labels known in
    elim (Bool-cases (elem predicted (normal_labels text labels))) [
      | inl bare ↦
          rw (filled, bare)
            (
              λ h. inl ((eq_iff predicted truth).0 h),
              λ h. elim h [
                | inl same ↦ (eq_iff predicted truth).1 same
                | inr (other, answers) ↦ absurd (ground (arith, bare, other))
              ],
            )
      | inr other ↦ elim (Option-cases (extract_from text labels lines)) [
        | inl e ↦
            rw (filled, other, e)
              (
                λ h. inl ((eq_iff predicted truth).0 h),
                λ h. elim h [
                  | inl same ↦ (eq_iff predicted truth).1 same
                  | inr (_, answers) ↦
                      let found = Answers-extract_from text labels lines truth answers in
                      absurd (cc)
                ],
              )
        | inr (x, e) ↦
            rw (filled, other, e)
              (
                λ h.
                    let same = (eq_iff x truth).0 h in
                    inr (refl, extract_from-Answers text labels lines truth (rw (sym same) e)),
                λ h. elim h [
                  | inl same ↦
                      let listed : elem predicted (normal_labels text labels) ≡ true =
                        subst (λ y. elem y (normal_labels text labels) ≡ true) (sym same) known in
                      absurd (cc)
                  | inr (_, answers) ↦
                      let found = Answers-extract_from text labels lines truth answers in
                      let same : x ≡ truth = cc in (eq_iff x truth).1 same
                ],
              )
      ]
    ]
