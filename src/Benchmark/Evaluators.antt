-- ===== src/Benchmark/Evaluators.antt =====
-- benchmark/evaluators.py: the evaluation of a classification. What the code asks of Python's text
-- functions is a parameter.
pub mod Answered
mod Examples
use ai_inference_cost_optimi.Prelude.{
  String, Bool, true, false, not, ◌&&◌, Option, none, some, List, [], ◌∷◌, ◌++◌, map, filter,
  if◌then◌else◌,
}
use ai_inference_cost_optimi.Prelude.Equality.{◌==◌, string_eq, elem}

-- `normalize_text`, `.strip(_TOKEN_STRIP)`, `.splitlines()`, `.split(" ")`, and the search for a
-- negation.
pub record TextFunctions : Type 0 where
  pub normalize : String → String
  pub strip : String → String
  pub split_lines : String → List String
  pub split_words : String → List String
  pub negates : String → Bool

-- `reversed`
pub reversed : List String → List String
reversed [] = []
reversed (x ∷ xs) = reversed xs ++ x ∷ []

-- `set(xs)`, each element once.
pub distinct : List String → List String
distinct [] = []
distinct (x ∷ xs) = if elem x xs then distinct xs else x ∷ distinct xs

pub data ExtractionMethod : Type 0 where
  bare closed_set_line_extraction no_label_found : ExtractionMethod

pub record Evaluation : Type 0 where
  pub task_correct : Bool
  pub normalized_prediction : String
  pub expected : String
  pub exact_match : Bool
  pub extraction_method : ExtractionMethod

abbrev is_bare : ExtractionMethod → Bool
is_bare bare = true
is_bare _ = false

abbrev pub some_label : List String → Bool
some_label [] = false
some_label (label ∷ labels) = true

module _ (text : TextFunctions) where
  abbrev pub normal_labels : List String → List String
  normal_labels labels = map text.normalize labels

  -- `words & label_set`, of a normalized line
  pub named_labels : List String → String → List String
  unfolding distinct
  named_labels labels line =
      let words = map text.strip (text.split_words line) in
      filter (λ label. elem label words) (distinct (normal_labels labels))

  abbrev pub is_clear : String → String → Bool
  is_clear line label = not (not (text.strip line == label) && text.negates line)

  -- A line that is not empty, with the labels that it names, before the rest of the loop.
  pub take_line : String → List String → Option String → Option String
  take_line line [] next = next
  take_line line (label ∷ []) next = if is_clear line label then some label else none
  take_line line (label ∷ other ∷ more) next = none

  -- The loop of `_extract_label` over the lines, the last one first.
  pub extract_from : List String → List String → Option String
  unfolding named_labels take_line
  extract_from labels [] = none
  extract_from labels (raw_line ∷ rest) =
      let line = text.normalize raw_line in
      let next = extract_from labels rest in
      if line == "" then next else take_line line (named_labels labels line) next

  -- `_extract_label`
  pub extract_label : String → List String → Option String
  unfolding extract_from reversed
  extract_label output labels = extract_from labels (reversed (text.split_lines output))

  -- The prediction and how it was found; no labels stand for `None`.
  pub prediction : String → List String → String × ExtractionMethod
  unfolding extract_label
  prediction output labels =
      let predicted = text.strip (text.normalize output) in
      if some_label labels && not (elem predicted (normal_labels labels))
      then elim (extract_label output labels) [
        | none ↦ (predicted, no_label_found)
        | some extracted ↦ (extracted, closed_set_line_extraction)
      ]
      else (predicted, bare)

  -- `evaluate_classification`
  pub evaluate_classification : String → String → List String → Evaluation
  unfolding prediction
  evaluate_classification output expected labels =
      let truth = text.normalize expected in
      let (predicted, method) = prediction output labels in
      let correct = predicted == truth in
      record {
        task_correct = correct;
        normalized_prediction = predicted;
        expected = truth;
        exact_match = correct && is_bare method;
        extraction_method = method;
      }
