-- ===== src/Api/Handler/Guards.antt =====
-- api/routes.py: what the checks of chat_completions guarantee of a request that is routed, and that
-- such a request is counted once.
use ai_inference_cost_optimi.Prelude.{
  String, ◌≡◌, refl, ap, ◌∙◌, inl, inr, Bool, true, false, not, Option, none, some, ◌∷◌, arith,
  if◌then◌else◌, Option-cases,
}
use ai_inference_cost_optimi.Prelude.Equality.{string_eq, elem}
use ai_inference_cost_optimi.Prelude.Result.{
  Result, ok, err, raise_if, OnOk, OnOk-bind, at_ok, Result-cases,
}
use ai_inference_cost_optimi.Models.Enums.{DataClass, QualityTier, parse_class, parse_tier}
use ai_inference_cost_optimi.Models.Domain.{CanonicalChatRequest}
use ai_inference_cost_optimi.Adapters.{Live}
use ai_inference_cost_optimi.Security.Auth.{
  AuthenticatedTeam, AuthError, missing_bearer_key, unknown_api_key, team_assertion_mismatch,
  authenticate,
}
use ai_inference_cost_optimi.Routing.Policy.{
  RouteDecision, no_permitted_provider, no_rule_matches, key_error, select_route,
}
use ai_inference_cost_optimi.Api.Schemas.{
  ChatCompletionRequest, validate_request, to_canonical, filled,
}
use ai_inference_cost_optimi.Api.Schemas.Translation.{
  Keeps, validate_request_same, to_canonical-Keeps,
}
use ai_inference_cost_optimi.Api.Record.{routing_decision}
use ai_inference_cost_optimi.Api.Respond.{Handled}
use ai_inference_cost_optimi.Api.Respond.Accounting.{
  CountedOnce, non_streamed-CountedOnce, streamed-CountedOnce,
}
use ai_inference_cost_optimi.Api.Handler.{
  JsonBody, not_json, other_shape, shaped, HttpRequest, Gateway, bearer_of, identify,
  parse_metadata, parse_body, Admitted, request_id_of, admit, denied, dispatch, route,
  chat_completions,
}

identify-ok :
    (r : Result AuthError AuthenticatedTeam)
    → OnOk (λ team. r ≡ ok (record { team = team })) (identify r)
unfolding identify
identify-ok (ok identity) = refl
identify-ok (err missing_bearer_key) = tt
identify-ok (err unknown_api_key) = tt
identify-ok (err (team_assertion_mismatch a t)) = tt

-- The texts of two headers, and what they parse to.
abbrev Classified : Option String → Option String → DataClass × QualityTier → Type 0
Classified c t (data_class, quality_tier) =
    ((text : String) × (c ≡ some text) × (parse_class text ≡ some data_class))
    × ((text : String) × (t ≡ some text) × (parse_tier text ≡ some quality_tier))

parse_metadata-Classified : (c t : Option String) → OnOk (Classified c t) (parse_metadata c t)
unfolding parse_metadata
parse_metadata-Classified none t = tt
parse_metadata-Classified (some c) none = tt
parse_metadata-Classified (some c) (some t) = elim (Option-cases (parse_class c)) [
  | inl e ↦ rw (e, OnOk) tt
  | inr (data_class, e) ↦ elim (Option-cases (parse_tier t)) [
    | inl f ↦ rw (e, f, OnOk) tt
    | inr (quality_tier, f) ↦ rw (e, f, OnOk) ((c, refl, e), (t, refl, f))
  ]
]

-- The canonical request is the translation of a valid body.
abbrev Parsed : JsonBody → String → DataClass → QualityTier → String → CanonicalChatRequest → Type 0
Parsed body w c t id r =
    (wire : ChatCompletionRequest) × (body ≡ shaped wire)
    × (validate_request wire ≡ ok wire)
    × Keeps wire w c t id r

parse_body-Parsed :
    (body : JsonBody) (w : String) (c : DataClass) (t : QualityTier) (id : String)
    → OnOk (Parsed body w c t id) (parse_body body w c t id)
unfolding parse_body
parse_body-Parsed not_json w c t id = tt
parse_body-Parsed other_shape w c t id = tt
parse_body-Parsed (shaped wire) w c t id = elim (Result-cases (validate_request wire)) [
  | inr (x, e) ↦ rw e tt
  | inl (valid, e) ↦
      let same : valid ≡ wire = validate_request_same wire e in
      let e' : validate_request wire ≡ ok wire = e ∙ ap ok same in
      elim (Result-cases (to_canonical wire w c t id)) [
        | inr (x, f) ↦ rw (e', f) tt
        | inl (r, f) ↦ rw (e', f) (wire, refl, e', to_canonical-Keeps wire w c t id f)
      ]
]

module _ {W : Type 0} (g : Gateway W) where
  -- What was checked of an admitted request.
  pub record Guarded (q : HttpRequest) (a : Admitted) : Type 0 where
    pub team :
        authenticate g.hash_api_key g.auth (bearer_of q.authorization) q.x_gateway_team
        ≡ ok (record { team = a.team })
    pub workload : elem a.workload g.routing.workloads ≡ true
    pub named : a.workload ≡ filled q.x_gateway_workload "generic"
    pub classes :
        Classified q.x_gateway_data_class q.x_gateway_quality_tier (a.data_class, a.quality_tier)
    pub body : Parsed q.body a.workload a.data_class a.quality_tier (request_id_of g q) a.canonical

  raise_if-true : {E : Type 0} (b : Bool) (e : E) → OnOk (λ _. b ≡ true) (raise_if (not b) e)
  raise_if-true true e = refl
  raise_if-true false e = tt

  admit-OnOk : (q : HttpRequest) → OnOk (Guarded q) (admit g q)
  unfolding admit
  admit-OnOk q =
      let w = filled q.x_gateway_workload "generic" in
      OnOk-bind _ (Guarded q) (identify _) _ (identify-ok _) (λ team authentic.
        OnOk-bind (λ _. elem w g.routing.workloads ≡ true) (Guarded q) (raise_if _ _) _
          (raise_if-true (elem w g.routing.workloads) _)
          (λ _ known.
            OnOk-bind _ (Guarded q) (parse_metadata q.x_gateway_data_class q.x_gateway_quality_tier)
              _ (parse_metadata-Classified q.x_gateway_data_class q.x_gateway_quality_tier)
              (λ classes given.
                OnOk-bind _ (Guarded q) (parse_body q.body w classes.0 classes.1 _) _
                  (parse_body-Parsed q.body w classes.0 classes.1 (request_id_of g q))
                  (λ canonical parsed. record {
                    team = authentic;
                    workload = known;
                    named = refl;
                    classes = given;
                    body = parsed;
                  }))))

  -- An admitted request has the team of its API key, a workload of the policy's list, the data class
  -- and the tier that its headers name, and a canonical form that translates its valid body under
  -- these labels.
  pub admit-Guarded : {a : Admitted} (q : HttpRequest) → admit g q ≡ ok a → Guarded q a
  admit-Guarded q e = at_ok (Guarded q) (admit g q) (admit-OnOk q) e

  -- The entry of the routing decision counts no request.
  recorded :
      (stream : Bool) (x y : Handled W) (rule : String)
      → CountedOnce x
      → CountedOnce y
      → CountedOnce (
          let handled = if stream then x else y in
          record handled { entries = routing_decision rule ∷ handled.entries })
  recorded true x y rule h k = elim h [
    | inl e ↦ inl (omega (arith, e))
    | inr (e, f) ↦ inr (omega (arith, e), f)
  ]
  recorded false x y rule h k = elim k [
    | inl e ↦ inl (omega (arith, e))
    | inr (e, f) ↦ inr (omega (arith, e), f)
  ]

  dispatch-CountedOnce :
      (q : HttpRequest) (a : Admitted) (d : RouteDecision) (s : Live W)
      → CountedOnce (dispatch g q a d s)
  unfolding dispatch
  dispatch-CountedOnce q a d s =
      recorded a.canonical.stream _ _ d.rule_name
        (streamed-CountedOnce g.adapters g.pace g.routing _ s)
        (non_streamed-CountedOnce g.adapters g.routing _ s)

  route-CountedOnce : (q : HttpRequest) (a : Admitted) (s : Live W) → CountedOnce (route g q a s)
  unfolding route denied
  route-CountedOnce q a s =
      elim (Result-cases (select_route g.routing a.data_class a.workload a.quality_tier)) [
        | inl (d, e) ↦ rw (e, route) (dispatch-CountedOnce q a d s)
        | inr (no_permitted_provider n, e) ↦ rw (e, route) (inl refl)
        | inr (no_rule_matches, e) ↦ rw (e, route) (inl refl)
        | inr (key_error n, e) ↦ rw (e, route) (inr (refl, refl))
      ]

  -- An admitted request, whole, streamed or denied by the policy, is counted exactly once in
  -- requests_total, unless it ends in an exception that no handler catches: then it is not counted.
  pub chat_completions-CountedOnce :
      {a : Admitted} (q : HttpRequest) (s : Live W)
      → admit g q ≡ ok a
      → CountedOnce (chat_completions g q s)
  unfolding chat_completions
  chat_completions-CountedOnce {a} q s e = rw (e, chat_completions) (route-CountedOnce q a s)
