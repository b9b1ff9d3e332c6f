-- ===== src/Router/Invariant.antt =====
-- What routing leaves as it is: what all handlers keep of the world, and the request but for its
-- parameters.
use ctask.Common.{Bytes, ◌≡◌, List, [], ◌∷◌, some, Option-cases, inl, inr}
use ctask.Common.Assoc.{lookup}
use ctask.Common.Result.{Result, ok, thrown, undefined}
use ctask.Utils.{HttpRequest, HttpResponse, HttpMethod, get_method, post_method, unknown_method}
use ctask.Router.Paths.{build_parameterized_path_template}
use ctask.Router.{
  HttpHandlerFn, PathHandlerMap, RouteParameterInfo, HttpRouter, Routed, route_parameterized,
  process_routing, caught, route_method, route,
}

module _ {W : Type 0} (P : HttpRequest → W → Type 0) where
  -- Each handler of a map, called with a request, keeps the property.
  pub record KeepHandlers (map : PathHandlerMap W) : Type 0 where
    pub keep :
        (k : Bytes) (h : HttpHandlerFn W)
        → lookup k map ≡ some h
        → (q : HttpRequest) (w : W) → P q w
        → P q (h q w).1

  -- The property does not depend on the parameters of the request.
  pub record IgnoresParameters : Type 0 where
    pub ignore :
        (q : HttpRequest) (w : W) (parameters : List (Bytes × Bytes))
        → P q w
        → P (record q { parameters = parameters }) w

  route_parameterized_keeps :
      (infos : List RouteParameterInfo) (map : PathHandlerMap W) (q : HttpRequest) (w : W)
      → IgnoresParameters
      → KeepHandlers map
      → P q w
      → P (route_parameterized infos map q w).1 (route_parameterized infos map q w).2
  unfolding route_parameterized
  route_parameterized_keeps [] map q w i k p = p
  route_parameterized_keeps (info ∷ infos) map q w i k p =
      elim (Option-cases (lookup (build_parameterized_path_template info.parameterized_path) map)) [
        | inl e ↦ rw (e, route_parameterized) (route_parameterized_keeps infos map q w i k p)
        | inr (h, e) ↦ rw (e, route_parameterized) (k.keep _ h e _ w (i.ignore q w _ p))
      ]

  process_routing_keeps :
      (r : HttpRouter W) (map : PathHandlerMap W) (q : HttpRequest) (w : W)
      → IgnoresParameters
      → KeepHandlers map
      → P q w
      → P (process_routing r map q w).1 (process_routing r map q w).2
  unfolding process_routing
  process_routing_keeps r map q w i k p = elim (Option-cases (lookup q.path map)) [
    | inl e ↦
        rw (e, process_routing) (route_parameterized_keeps r.path_parameters_info map q w i k p)
    | inr (h, e) ↦ rw (e, process_routing) (k.keep _ h e q w p)
  ]

  caught_keeps : (x : Routed W (Result HttpResponse)) → P x.1 x.2 → P (caught x).1 (caught x).2
  caught_keeps (ok a, q, w) p = p
  caught_keeps (thrown e, q, w) p = p
  caught_keeps (undefined, q, w) p = p

  -- What every handler keeps of a request and a world, and what does not depend on the parameters of
  -- the request, routing keeps.
  pub route_keeps :
      (r : HttpRouter W) (q : HttpRequest) (w : W)
      → IgnoresParameters
      → KeepHandlers r.get_handlers
      → KeepHandlers r.post_handlers
      → P q w
      → P (route r q w).1 (route r q w).2
  unfolding route
  route_keeps r q w i gets posts p = caught_keeps (route_method q.method r q w) (by_method q.method)
    where
      by_method : (m : HttpMethod) → P (route_method m r q w).1 (route_method m r q w).2
      by_method get_method = process_routing_keeps r r.get_handlers q w i gets p
      by_method post_method = process_routing_keeps r r.post_handlers q w i posts p
      by_method unknown_method = p
