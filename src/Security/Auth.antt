-- ===== src/Security/Auth.antt =====
-- security/auth.py. SHA-256 is a parameter, a function from a key to its digest; the comparison in
-- constant time is equality of texts. Keys and configuration files are read elsewhere.
pub mod Identity
mod Examples
use ai_inference_cost_optimi.Prelude.{
  ℕ, String, Bool, true, false, not, ◌&&◌, ◌||◌, Option, none, some, List, [], ◌∷◌, leb, eqb, ltb,
  if◌then◌else◌, length,
}
use ai_inference_cost_optimi.Prelude.Equality.{◌==◌, string_eq}
use ai_inference_cost_optimi.Prelude.Text.{codes, blank, is_digit}
use ai_inference_cost_optimi.Prelude.Result.{Result, ok, err, ◌>>=◌, ◌>>◌, raise_if}

pub record ApiKeyEntry : Type 0 where
  pub sha256 : String
  pub team : String

pub record AuthConfig : Type 0 where
  pub keys : List ApiKeyEntry

pub record AuthenticatedTeam : Type 0 where
  pub team : String

-- `AuthenticationFailed` with its two messages, and `TeamAssertionMismatch`.
pub data AuthError : Type 0 where
  missing_bearer_key : AuthError
  unknown_api_key : AuthError
  team_assertion_mismatch : String → String → AuthError

-- The loop over the entries. It goes on after a match, so that its time says nothing.
pub match_team : String → List ApiKeyEntry → Option String → Option String
match_team presented [] matched_team = matched_team
match_team presented (entry ∷ entries) matched_team =
    match_team presented entries
      (if presented == entry.sha256 then some entry.team else matched_team)

-- The header only asserts the team that the key has given.
pub check_assertion : Option String → String → Result AuthError AuthenticatedTeam
check_assertion none team = ok (record { team = team })
check_assertion (some asserted) team = do
  raise_if (not (asserted == team)) (team_assertion_mismatch asserted team)
  ok (record { team = team })

unfoldable pub authenticate :
    (String → String)
    → AuthConfig
    → Option String
    → Option String
    → Result AuthError AuthenticatedTeam
unfolding match_team check_assertion
authenticate hash_api_key config none asserted_team = err missing_bearer_key
authenticate hash_api_key config (some bearer_key) asserted_team =
    if bearer_key == ""
    then err missing_bearer_key
    else elim (match_team (hash_api_key bearer_key) config.keys none) [
      | none ↦ err unknown_api_key
      | some team ↦ check_assertion asserted_team team
    ]
