-- ===== src/Security/Auth/Examples.antt =====
-- security/auth.py: a key that two entries share, and one of them asserted.
use ai_inference_cost_optimi.Prelude.{◌≡◌, refl, some, [], ◌∷◌}
use ai_inference_cost_optimi.Prelude.Result.{err}
use ai_inference_cost_optimi.Security.Auth.{AuthConfig, team_assertion_mismatch, authenticate}
use ai_inference_cost_optimi.Security.Auth.Identity.{Verdict, authenticate-Verdict}

abbrev two_teams : AuthConfig
two_teams = record {
  keys =
      record { sha256 = "k1"; team = "search" } ∷ record { sha256 = "k1"; team = "support" } ∷ [];
}

asserted_first :
    authenticate (λ key. key) two_teams (some "k1") (some "search")
    ≡ err (team_assertion_mismatch "search" "support")
unfolding authenticate
asserted_first = refl

authenticate-Verdict_example :
    Verdict
      (λ key. key)
      two_teams
      (some "k1")
      (some "support")
      (authenticate (λ key. key) two_teams (some "k1") (some "support"))
authenticate-Verdict_example =
    authenticate-Verdict (λ key. key) two_teams (some "k1") (some "support")
