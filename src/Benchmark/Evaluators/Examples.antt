-- ===== src/Benchmark/Evaluators/Examples.antt =====
-- benchmark/evaluators.py: an answer that ends in its label, on texts without any normalization.
use ai_inference_cost_optimi.Prelude.{
  String, ◌≡◌, ◌↔◌, refl, ◌⊎◌, true, false, none, List, [], ◌∷◌, if◌then◌else◌,
}
use ai_inference_cost_optimi.Prelude.Equality.{◌==◌, string_eq, elem}
use ai_inference_cost_optimi.Benchmark.Evaluators.{
  TextFunctions, reversed, distinct, normal_labels, named_labels, take_line, extract_from,
  extract_label, prediction, evaluate_classification,
}
use ai_inference_cost_optimi.Benchmark.Evaluators.Answered.{Answers, evaluate_classification_iff}

-- Every text has the same three lines, and none of them has a negation.
abbrev sample_text : TextFunctions
sample_text = record {
  normalize = λ s. s;
  strip = λ s. s;
  split_lines = λ s. "It is fraud or billing" ∷ "So: billing" ∷ "" ∷ [];
  split_words =
      λ s. if s == "So: billing" then "So:" ∷ "billing" ∷ [] else "fraud" ∷ "or" ∷ "billing" ∷ [];
  negates = λ s. false;
}

abbrev sample_labels : List String
sample_labels = "billing" ∷ "fraud" ∷ []

abbrev sample_output : String
sample_output = "long answer"

abbrev sample_label : String
sample_label = "billing"

evaluate_classification_iff_example :
    ((evaluate_classification sample_text sample_output "billing" sample_labels).task_correct
      ≡ true)
    ↔ ((sample_output ≡ sample_label)
        ⊎ ((elem sample_output (normal_labels sample_text sample_labels) ≡ false)
            × Answers sample_text sample_labels "billing"
                (reversed (sample_text.split_lines sample_output))))
evaluate_classification_iff_example =
    evaluate_classification_iff sample_text sample_output "billing" sample_labels refl

last_line_counts :
    (evaluate_classification sample_text sample_output "billing" sample_labels).task_correct ≡ true
unfolding evaluate_classification prediction extract_label extract_from take_line named_labels
    distinct reversed
last_line_counts = refl

-- The line before names both labels.
two_labels :
    extract_from sample_text sample_labels ("" ∷ "It is fraud or billing" ∷ "So: billing" ∷ [])
    ≡ none
unfolding extract_from take_line named_labels distinct
two_labels = refl
