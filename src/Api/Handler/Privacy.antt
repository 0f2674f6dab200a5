-- ===== src/Api/Handler/Privacy.antt =====
-- api/routes.py and routing/: the handler keeps restricted data from external providers, from the
-- header to the response.
use ai_inference_cost_optimi.Prelude.{
  String, ◌≡◌, refl, sym, subst, ◌∙◌, inl, inr, Bool, true, some, ◌∷◌, if◌then◌else◌,
}
use ai_inference_cost_optimi.Prelude.Result.{ok, Result-cases}
use ai_inference_cost_optimi.Models.Enums.{restricted, parse_class}
use ai_inference_cost_optimi.Adapters.{Adapters, Live}
use ai_inference_cost_optimi.Routing.Policy.{
  RouteDecision, no_permitted_provider, no_rule_matches, key_error, select_route,
}
use ai_inference_cost_optimi.Routing.Policy.Selection.{Private}
use ai_inference_cost_optimi.Routing.Fallback.Permitted.{Agree}
use ai_inference_cost_optimi.Api.Record.{routing_decision}
use ai_inference_cost_optimi.Api.Respond.{Handled}
use ai_inference_cost_optimi.Api.Respond.Privacy.{non_streamed-Agree, streamed-Agree}
use ai_inference_cost_optimi.Api.Handler.{
  HttpRequest, Gateway, Admitted, request_id_of, admit, labels_of, denied, dispatch, route,
  chat_completions,
}
use ai_inference_cost_optimi.Api.Handler.Guards.{admit-Guarded}

some_injective : {A : Type 0} {x y : A} → some x ≡ some y → x ≡ y
some_injective e = cc

module _ {W : Type 0} (g : Gateway W) (b : Adapters W)
    (never : g.routing.fallback.never_cross_data_policy ≡ true)
    (agree : Agree (Private g.routing.providers) g.adapters b)
    (priced : g.adapters.price ≡ b.price) where
  -- The gateway with the other adapters.
  abbrev other : Gateway W
  other = record g { adapters = b }

  -- The choice between the two handlers.
  either :
      (stream : Bool) (x y x' y' : Handled W) (rule : String)
      → x ≡ x'
      → y ≡ y'
      → (let handled = if stream then x else y in
          record handled { entries = routing_decision rule ∷ handled.entries })
        ≡ (let handled = if stream then x' else y' in
            record handled { entries = routing_decision rule ∷ handled.entries })
  either stream x y x' y' rule e f = rw (e, f)

  dispatch-Agree :
      (q : HttpRequest) (a : Admitted) (d : RouteDecision) (s : Live W)
      → a.canonical.metadata.data_class ≡ restricted
      → dispatch g q a d s ≡ dispatch other q a d s
  unfolding dispatch request_id_of labels_of
  dispatch-Agree q a d s c =
      either a.canonical.stream _ _ _ _ d.rule_name
        (streamed-Agree g.adapters b g.routing never agree priced g.pace _ s c)
        (non_streamed-Agree g.adapters b g.routing never agree priced _ s c)

  route-Agree :
      (q : HttpRequest) (a : Admitted) (s : Live W)
      → a.canonical.metadata.data_class ≡ restricted
      → route g q a s ≡ route other q a s
  unfolding route denied labels_of
  route-Agree q a s c =
      elim (Result-cases (select_route g.routing a.data_class a.workload a.quality_tier)) [
        | inl (d, e) ↦ rw (e, route) (dispatch-Agree q a d s c)
        | inr (no_permitted_provider n, e) ↦ rw (e, route) refl
        | inr (no_rule_matches, e) ↦ rw (e, route) refl
        | inr (key_error n, e) ↦ rw (e, route) refl
      ]

  -- An admitted request whose header names restricted data has it in its canonical form.
  admitted_restricted :
      {a : Admitted} (q : HttpRequest)
      → q.x_gateway_data_class ≡ some "restricted"
      → admit g q ≡ ok a
      → a.canonical.metadata.data_class ≡ restricted
  unfolding parse_class
  admitted_restricted {a} q named e =
      let guarded = admit-Guarded g q e in
      let (text, given, parsed) = guarded.classes.0 in
      let same : text ≡ "restricted" = some_injective (sym given ∙ named) in
      let found : some restricted ≡ some a.data_class =
        subst (λ t. parse_class t ≡ some a.data_class) same parsed in
      let (wire, shape, valid, keeps) = guarded.body in
      keeps.data_class ∙ sym (some_injective found)

  -- Under `never_cross_data_policy` the handling of a request that names restricted data in its header,
  -- response, records, time and world, is the same whatever the adapters of external or unknown
  -- providers do, where the prices are the same.
  pub chat_completions_restricted-Agree :
      (q : HttpRequest) (s : Live W)
      → q.x_gateway_data_class ≡ some "restricted"
      → chat_completions g q s ≡ chat_completions other q s
  unfolding chat_completions admit request_id_of
  chat_completions_restricted-Agree q s named = elim (Result-cases (admit g q)) [
    | inl (a, e) ↦ rw (e, chat_completions) (route-Agree q a s (admitted_restricted q named e))
    | inr (response, e) ↦ rw (e, chat_completions) refl
  ]
