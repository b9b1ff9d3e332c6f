-- ===== src/Telemetry/Api/Routing.antt =====
-- The routes of the telemetry in the router that the builder builds.
use ctask.Common.{
  ◌≡◌, ◌≢◌, refl, ap, ◌∙◌, Bytes, codes, bytes_eq, bytes_eq_iff, List, [], ◌∷◌, none, some, arith,
  get_elem?,
}
use ctask.Common.Assoc
use ctask.Common.Assoc.{lookup}
use ctask.Common.Result.{Result, ok}
use ctask.Utils.{
  HttpRequest, HttpResponse, HttpMethod, response, get_method, post_method, unknown_method,
  http_status_not_implemented,
}
use ctask.Router.Paths.{
  build_parameterized_path_template, parse_parameter_names, parse_parameters, index_of,
}
use ctask.Router.Paths.Split.{segments}
use ctask.Router.Paths.Names.{path_parts-eq-segments}
use ctask.Router.Dispatch.{first_parameterized, answered, outcome, route_lem}
use ctask.Router.{
  HttpHandlerFn, PathHandlerMap, HttpRouter, new_builder, register_get, register_post,
  register_handler, build, Routed, route, call, caught,
}
use ctask.Telemetry.Storage.{TelemetryStorage}
use ctask.Telemetry.Mean.{Doubles}
use ctask.Telemetry.Api.{Json, handle_mean_length, handle_store, register_routes}

abbrev mean_path : Bytes
mean_path = codes "/paths/{event}/meanLength"

abbrev store_path : Bytes
store_path = codes "/paths/{event}"

module _ (d : Doubles) (json : Json d) where
  -- The router that the program builds.
  abbrev pub telemetry_router : HttpRouter TelemetryStorage
  telemetry_router = record {
    get_handlers = (codes "/paths/{}/meanLength", handle_mean_length d json) ∷ [];
    post_handlers = (codes "/paths/{}", handle_store d json) ∷ [];
    path_parameters_info =
        record {
          parameterized_path = mean_path;
          parameters_meta = record { name = codes "event"; position_in_path = 1 } ∷ [];
        }
        ∷ record {
          parameterized_path = store_path;
          parameters_meta = record { name = codes "event"; position_in_path = 1 } ∷ [];
        }
        ∷ [];
  }

  -- Whatever the order of a walk, if it walks a map of one entry over that entry, the builder builds
  -- `telemetry_router` from the routes of the telemetry.
  pub build-register_routes :
      (walk : PathHandlerMap TelemetryStorage → PathHandlerMap TelemetryStorage)
      → ((x : Bytes × HttpHandlerFn TelemetryStorage) → walk (x ∷ []) ≡ x ∷ [])
      → build walk (register_routes d json new_builder) ≡ ok telemetry_router
  unfolding register_routes register_get register_post build register_handler lookup Assoc.emplace
      build_parameterized_path_template parse_parameter_names index_of bytes_eq
  build-register_routes walk single =
      rw (single (mean_path, handle_mean_length d json), single (store_path, handle_store d json))
        refl

-- The parameters of a request: its second segment, as the name of the event.
unfoldable pub event_parameter : Bytes → List (Bytes × Bytes)
event_parameter path = elim (get_elem? (segments path) 1) [
  | none ↦ []
  | some name ↦ (codes "event", name) ∷ []
]

parse-event_parameter :
    (path : Bytes)
    → parse_parameters path (record { name = codes "event"; position_in_path = 1 } ∷ [])
      ≡ event_parameter path
unfolding parse_parameters event_parameter
parse-event_parameter path = rw (path_parts-eq-segments path) (ground arith)

lookup_other : {V : Type 0} (k j : Bytes) (v : V) → k ≢ j → lookup k ((j, v) ∷ []) ≡ none
unfolding lookup
lookup_other k j v h = ground (arith, bytes_eq_iff j k)

module _ (d : Doubles) (json : Json d) where
  -- The path that is the template of a route of the method.
  abbrev pub IsTemplate : HttpMethod → Bytes → Type 0
  IsTemplate get_method path = path ≡ codes "/paths/{}/meanLength"
  IsTemplate post_method path = path ≡ codes "/paths/{}"
  IsTemplate unknown_method path = ⊥

  -- A request as a route hands it to its handler.
  abbrev pub handed : HttpRequest → HttpRequest
  handed request = record request { parameters = event_parameter request.path }

  -- What the routes make of a request by its method.
  abbrev pub telemetry_outcome :
      HttpMethod → HttpRequest → TelemetryStorage → Routed TelemetryStorage (Result HttpResponse)
  telemetry_outcome get_method request storage =
      caught (call (handle_mean_length d json) (handed request) storage)
  telemetry_outcome post_method request storage =
      caught (call (handle_store d json) (handed request) storage)
  telemetry_outcome unknown_method request storage = (
    ok (response http_status_not_implemented (codes "Method is not implemented")),
    request,
    storage,
  )

  by_template :
      (key : Bytes) (handler : HttpHandlerFn TelemetryStorage) (request : HttpRequest)
      (storage : TelemetryStorage)
      → request.path ≢ key
      → caught (
          answered
            (lookup request.path ((key, handler) ∷ []))
            (some (handler, record { name = codes "event"; position_in_path = 1 } ∷ []))
            request
            storage)
        ≡ caught (call handler (handed request) storage)
  by_template key handler request storage other = rw (lookup_other request.path key handler other) (
      ap (λ ps. caught (call handler (record request { parameters = ps }) storage))
        (parse-event_parameter request.path))

  pub first_get :
      first_parameterized
        (telemetry_router d json).path_parameters_info
        (telemetry_router d json).get_handlers
      ≡ some (handle_mean_length d json, record { name = codes "event"; position_in_path = 1 } ∷ [])
  unfolding first_parameterized build_parameterized_path_template lookup bytes_eq
  first_get = refl

  pub first_post :
      first_parameterized
        (telemetry_router d json).path_parameters_info
        (telemetry_router d json).post_handlers
      ≡ some (handle_store d json, record { name = codes "event"; position_in_path = 1 } ∷ [])
  unfolding first_parameterized build_parameterized_path_template lookup bytes_eq
  first_post = refl

  -- Every GET request is answered by the handler of the mean and every POST request by the handler
  -- that stores, whatever its path is but for the one path that is the template of the route itself,
  -- for the event that the second segment of the path names; any other method is answered by 501.
  pub telemetry_route_lem :
      (request : HttpRequest) (storage : TelemetryStorage)
      → ¬ IsTemplate request.method request.path
      → route (telemetry_router d json) request storage
        ≡ telemetry_outcome request.method request storage
  telemetry_route_lem request storage other =
      route_lem (telemetry_router d json) request storage ∙ by_method request.method other
    where
      by_method :
          (m : HttpMethod)
          → ¬ IsTemplate m request.path
          → outcome m (telemetry_router d json) request storage
            ≡ telemetry_outcome m request storage
      by_method get_method h =
          ap
            (λ x. caught (
              answered (lookup request.path (telemetry_router d json).get_handlers) x request
                storage))
            first_get
          ∙ by_template _ (handle_mean_length d json) request storage h
      by_method post_method h =
          ap
            (λ x. caught (
              answered (lookup request.path (telemetry_router d json).post_handlers) x request
                storage))
            first_post
          ∙ by_template _ (handle_store d json) request storage h
      by_method unknown_method h = refl
