-- ===== src/Api/Schemas/Examples.antt =====
-- api/schemas.py: the translation of a request with a role that it cannot express.
use ai_inference_cost_optimi.Prelude.{◌≡◌, refl, false, none, [], ◌∷◌}
use ai_inference_cost_optimi.Prelude.Result.{ok, check_all}
use ai_inference_cost_optimi.Models.Enums.{restricted, balanced}
use ai_inference_cost_optimi.Api.Schemas.{
  ChatCompletionRequest, validate_request, is_alias, message_fields, to_canonical,
}
use ai_inference_cost_optimi.Api.Schemas.Translation.{Translation, to_canonical-Translation}

abbrev pub sample_wire : ChatCompletionRequest
sample_wire = record {
  model = "chat";
  messages = record { role = "user"; content = "hello"; name = none } ∷ [];
  temperature = 0;
  max_tokens = 64;
  stream = false;
}

pub sample_wire_valid : validate_request sample_wire ≡ ok sample_wire
unfolding validate_request is_alias message_fields check_all
sample_wire_valid = refl

abbrev with_tool : ChatCompletionRequest
with_tool = record {
  model = "chat";
  messages =
      record { role = "user"; content = "hello"; name = none }
      ∷ record { role = "tool"; content = "42"; name = none }
      ∷ [];
  temperature = 0;
  max_tokens = 64;
  stream = false;
}

to_canonical-Translation_example :
    Translation with_tool "generic" restricted balanced "r1"
      (to_canonical with_tool "generic" restricted balanced "r1")
to_canonical-Translation_example =
    to_canonical-Translation with_tool "generic" restricted balanced "r1"
