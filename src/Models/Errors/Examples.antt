-- ===== src/Models/Errors/Examples.antt =====
-- models/errors.py: an overloaded provider.
use ai_inference_cost_optimi.Prelude.{some}
use ai_inference_cost_optimi.Models.Errors.{normalize_http_error}
use ai_inference_cost_optimi.Models.Errors.Laws.{Classified, normalize_http_error-Classified}

normalize_http_error-Classified_example :
    Classified 503 (normalize_http_error 503 "overloaded" (some 2_000_000))
normalize_http_error-Classified_example =
    normalize_http_error-Classified 503 "overloaded" (some 2_000_000)
