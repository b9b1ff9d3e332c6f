-- ===== src/Telemetry/Api/Effects.antt =====
-- What a request does to the storage on its way through the router.
use ctask.Common.{◌≡◌, refl, ◌∙◌, Bytes, List, [], ◌∷◌, some, inl, inr, Option-cases}
use ctask.Common.Assoc.{lookup, lookup_one}
use ctask.Common.Result.{Result, ok, thrown, undefined}
use ctask.Utils.{
  HttpRequest, HttpResponse, HttpMethod, get_method, post_method, unknown_method, response,
  http_status_ok,
}
use ctask.Router.Paths.{ParameterMetaData}
use ctask.Router.Dispatch.{answered, outcome, route_lem}
use ctask.Router.{HttpHandlerFn, Routed, route, call, caught}
use ctask.Telemetry.Storage.{TelemetryStorage, store_event}
use ctask.Telemetry.Mean.{Doubles}
use ctask.Telemetry.Api.{Json, handle_mean_length, handle_store}
use ctask.Telemetry.Api.Handlers.{Accepts, event, handle_store-Outcome}
use ctask.Telemetry.Api.Routing.{telemetry_router, first_get, first_post}

-- What `route` and its `try` block leave of the world is what the handler has left.
pub caught_world : {W : Type 0} (x : Routed W (Result HttpResponse)) → (caught x).2 ≡ x.2
caught_world (ok a, q, w) = refl
caught_world (thrown e, q, w) = refl
caught_world (undefined, q, w) = refl

-- Where a map has one handler, and it is the one of the first parameterized path, a request is
-- handed to it, with whatever parameters.
by_one_handler :
    {W : Type 0} (P : Routed W (Result HttpResponse) → Type 0) (key : Bytes) (h : HttpHandlerFn W)
    (metas : List ParameterMetaData) (q : HttpRequest) (w : W)
    → ((ps : List (Bytes × Bytes)) → P (caught (call h (record q { parameters = ps }) w)))
    → P (caught (answered (lookup q.path ((key, h) ∷ [])) (some (h, metas)) q w))
by_one_handler P key h metas q w all = elim (Option-cases (lookup q.path ((key, h) ∷ []))) [
  | inl missing ↦ rw missing (all _)
  | inr (g, found) ↦
      rw found (lookup_one (λ g. P (caught (call g q w))) q.path key g h (all q.parameters) found)
]

module _ (d : Doubles) (json : Json d) where
  -- The storage stays as it is; or the request is a POST that the handler accepts, with some
  -- parameters, its event is stored, and the answer is 200.
  pub data Effect (q : HttpRequest) (s : TelemetryStorage)
      (x : Routed TelemetryStorage (Result HttpResponse)) : Type 0 where
    kept : x.2 ≡ s → Effect q s x
    acknowledged :
        (parameters : List (Bytes × Bytes))
        (a : Accepts d json (record q { parameters = parameters }))
        → q.method ≡ post_method
        → x ≡ (
          ok (response http_status_ok []),
          record q { parameters = parameters },
          store_event a.name (event d json a) s,
        )
        → Effect q s x

  handle_store-Effect :
      (q : HttpRequest) (s : TelemetryStorage) (ps : List (Bytes × Bytes))
      → q.method ≡ post_method
      → Effect q s (caught (call (handle_store d json) (record q { parameters = ps }) s))
  handle_store-Effect q s ps post =
      elim (handle_store-Outcome d json (record q { parameters = ps }) s) [
        | inl (refused, same) ↦
            kept (caught_world (call (handle_store d json) (record q { parameters = ps }) s) ∙ same)
        | inr (a, done, stored) ↦ acknowledged ps a post (rw (done, stored) refl)
      ]

  handle_mean_length-Effect :
      (q : HttpRequest) (s : TelemetryStorage) (ps : List (Bytes × Bytes))
      → Effect q s (caught (call (handle_mean_length d json) (record q { parameters = ps }) s))
  unfolding handle_mean_length
  handle_mean_length-Effect q s ps =
      kept (caught_world (call (handle_mean_length d json) (record q { parameters = ps }) s))

  pub route-Effect :
      (q : HttpRequest) (s : TelemetryStorage) → Effect q s (route (telemetry_router d json) q s)
  route-Effect q s = rw (route_lem (telemetry_router d json) q s) (by_method q.method refl)
    where
      by_method :
          (m : HttpMethod) → q.method ≡ m → Effect q s (outcome m (telemetry_router d json) q s)
      by_method get_method e = rw (first_get d json) (
          by_one_handler (Effect q s) _ (handle_mean_length d json) _ q s
            (handle_mean_length-Effect q s))
      by_method post_method e = rw (first_post d json) (
          by_one_handler (Effect q s) _ (handle_store d json) _ q s
            (λ ps. handle_store-Effect q s ps e))
      by_method unknown_method e = kept refl
