-- ===== src/Router/Dispatch.antt =====
-- Which handler answers a request.
use ctask.Common.{
  ℕ, Bytes, codes, ◌≡◌, ◌≢◌, refl, ap, ◌∙◌, List, [], ◌∷◌, ◌++◌, All, Option, none, some,
  Option-cases, inl, inr, arith, bytes_eq_iff, bytes_eq_refl,
}
use ctask.Common.Assoc.{lookup, emplace, lookup-emplace}
use ctask.Common.Result.{Result, Exception, ok, thrown, undefined}
use ctask.Utils.{
  HttpRequest, HttpResponse, HttpMethod, response, get_method, post_method, unknown_method,
  http_status_not_found, http_status_not_implemented,
}
use ctask.Router.Paths.{
  index_of, ParameterMetaData, parse_parameter_names, build_parameterized_path_template,
  parse_parameters,
}
use ctask.Router.{
  HttpHandlerFn, PathHandlerMap, HttpRouter, RouteParameterInfo, Routed, add_get, call, caught,
  route_method, route_parameterized, process_routing, route,
}

module _ {W : Type 0} where
  -- The handler of the first parameterized path that the map has, with the path's metadata.
  unfoldable pub first_parameterized :
      List RouteParameterInfo → PathHandlerMap W → Option (HttpHandlerFn W × List ParameterMetaData)
  first_parameterized [] map = none
  first_parameterized (info ∷ infos) map =
      elim (lookup (build_parameterized_path_template info.parameterized_path) map) [
        | none ↦ first_parameterized infos map
        | some handler ↦ some (handler, info.parameters_meta)
      ]

  -- The answer where no direct path fits, from the first parameterized path.
  abbrev pub fall_back :
      Option (HttpHandlerFn W × List ParameterMetaData)
      → HttpRequest
      → W
      → Routed W (Result HttpResponse)
  fall_back none request world = (
    ok (response http_status_not_found (codes "Path is not found : " ++ request.path)),
    request,
    world,
  )
  fall_back (some (handler, metas)) request world =
      call handler (record request { parameters = parse_parameters request.path metas }) world

  route_parameterized_lem :
      (infos : List RouteParameterInfo) (map : PathHandlerMap W) (request : HttpRequest) (world : W)
      → route_parameterized infos map request world
        ≡ fall_back (first_parameterized infos map) request world
  unfolding route_parameterized first_parameterized
  route_parameterized_lem [] map request world = refl
  route_parameterized_lem (info ∷ infos) map request world =
      elim (Option-cases (lookup (build_parameterized_path_template info.parameterized_path) map)) [
        | inl e ↦
            rw (e, route_parameterized, first_parameterized)
              (route_parameterized_lem infos map request world)
        | inr (h, e) ↦ rw (e, route_parameterized, first_parameterized) refl
      ]

  -- What becomes of a request, from the direct handler of its path and the first parameterized path.
  abbrev pub answered :
      Option (HttpHandlerFn W)
      → Option (HttpHandlerFn W × List ParameterMetaData)
      → HttpRequest
      → W
      → Routed W (Result HttpResponse)
  answered (some handler) _ request world = call handler request world
  answered none first request world = fall_back first request world

  process_routing_lem :
      (r : HttpRouter W) (map : PathHandlerMap W) (request : HttpRequest) (world : W)
      → process_routing r map request world
        ≡ answered
            (lookup request.path map)
            (first_parameterized r.path_parameters_info map)
            request
            world
  unfolding process_routing
  process_routing_lem r map request world = elim (Option-cases (lookup request.path map)) [
    | inl miss ↦
        rw (miss, process_routing)
          (route_parameterized_lem r.path_parameters_info map request world)
    | inr (h, found) ↦ rw (found, process_routing) refl
  ]

  -- What becomes of a request by its method.
  abbrev pub outcome : HttpMethod → HttpRouter W → HttpRequest → W → Routed W (Result HttpResponse)
  outcome get_method r request world = caught (
      answered (lookup request.path r.get_handlers)
        (first_parameterized r.path_parameters_info r.get_handlers) request world)
  outcome post_method r request world = caught (
      answered (lookup request.path r.post_handlers)
        (first_parameterized r.path_parameters_info r.post_handlers) request world)
  outcome unknown_method r request world = (
    ok (response http_status_not_implemented (codes "Method is not implemented")),
    request,
    world,
  )

  -- What the router answers: by the handlers of the method, the handler of the very path gets the
  -- request as it is; any other request goes to the first parameterized path that has a handler of
  -- the method, whatever the path of the request is, with the parameters read by that path's
  -- metadata; and the answer is 404 only where there is no such path. An exception becomes an
  -- answer. A method that is neither GET nor POST is answered by 501, and no handler runs.
  pub route_lem :
      (r : HttpRouter W) (request : HttpRequest) (world : W)
      → route r request world ≡ outcome request.method r request world
  unfolding route
  route_lem r request world = by_method request.method
    where
      by_method :
          (m : HttpMethod) → caught (route_method m r request world) ≡ outcome m r request world
      by_method get_method = ap caught (process_routing_lem r r.get_handlers request world)
      by_method post_method = ap caught (process_routing_lem r r.post_handlers request world)
      by_method unknown_method = refl

  -- `route_lem` for a GET request.
  route_get :
      (r : HttpRouter W) (request : HttpRequest) (world : W)
      → request.method ≡ get_method
      → route r request world ≡ outcome get_method r request world
  route_get r request world get =
      route_lem r request world ∙ ap (λ m. outcome m r request world) get

  -- A parameterized path is unknown to the map.
  abbrev IsFree : Bytes → PathHandlerMap W → RouteParameterInfo → Type 0
  IsFree key map info =
      (lookup (build_parameterized_path_template info.parameterized_path) map ≡ none)
      × (build_parameterized_path_template info.parameterized_path ≢ key)

  first_parameterized_new :
      (path : Bytes) (h : HttpHandlerFn W) (map : PathHandlerMap W)
      (infos : List RouteParameterInfo) (metas : List ParameterMetaData)
      → All (IsFree (build_parameterized_path_template path) map) infos
      → lookup (build_parameterized_path_template path) map ≡ none
      → first_parameterized
          (infos ++ record { parameterized_path = path; parameters_meta = metas } ∷ [])
          (emplace (build_parameterized_path_template path) h map)
        ≡ some (h, metas)
  unfolding first_parameterized
  first_parameterized_new path h map [] metas free new =
      let key = build_parameterized_path_template path in
      let there : lookup key (emplace key h map) ≡ some h =
        ground (arith, lookup-emplace key key h map, bytes_eq_refl key) in
      rw (there, first_parameterized) refl
  first_parameterized_new path h map (info ∷ infos) metas free new =
      let key = build_parameterized_path_template path in
      let other = build_parameterized_path_template info.parameterized_path in
      let missing : lookup other (emplace key h map) ≡ none =
        ground (arith, free.0, lookup-emplace key other h map, bytes_eq_iff key other) in
      rw (missing, first_parameterized) (first_parameterized_new path h map infos metas free.1 new)

  -- What a registration of a parameterized GET path leaves.
  add_get_parameterized :
      (path : Bytes) (k : ℕ) (h : HttpHandlerFn W) (r r' : HttpRouter W)
      → index_of b'{' path ≡ some k
      → add_get path h r ≡ ok r'
      → (lookup (build_parameterized_path_template path) r.get_handlers ≡ none)
        × (r'.get_handlers ≡ emplace (build_parameterized_path_template path) h r.get_handlers)
        × (r'.path_parameters_info
            ≡ r.path_parameters_info
              ++ record { parameterized_path = path; parameters_meta = parse_parameter_names path }
                ∷ [])
  unfolding add_get
  add_get_parameterized path k h r r' brace added =
      elim (Option-cases (lookup (build_parameterized_path_template path) r.get_handlers)) [
        | inl new ↦ (new, ground arith, ground arith)
        | inr (g, taken) ↦ ground arith
      ]

  -- After the first registration of a parameterized GET path, every GET request whose path is no
  -- key of the GET handlers is answered by the handler of that registration, whatever the path is.
  pub route_any_path :
      (path : Bytes) (k : ℕ) (h : HttpHandlerFn W) (r r' : HttpRouter W) (request : HttpRequest)
      (world : W)
      → index_of b'{' path ≡ some k
      → add_get path h r ≡ ok r'
      → All (IsFree (build_parameterized_path_template path) r.get_handlers) r.path_parameters_info
      → request.method ≡ get_method
      → lookup request.path r'.get_handlers ≡ none
      → route r' request world
        ≡ caught (
            call h
              (record request {
                parameters = parse_parameters request.path (parse_parameter_names path);
              })
              world)
  route_any_path path k h r r' request world brace added free get unmatched =
      let (new, handlers, infos) = add_get_parameterized path k h r r' brace added in
      let first : first_parameterized r'.path_parameters_info r'.get_handlers
          ≡ some (h, parse_parameter_names path) =
        rw (handlers, infos)
          (first_parameterized_new path h r.get_handlers r.path_parameters_info
            (parse_parameter_names path) free new) in
      rw (route_get r' request world get, unmatched, first) refl

  -- No exception leaves the router, whatever the handlers throw.
  pub route-ne-thrown :
      (r : HttpRouter W) (request : HttpRequest) (world : W) (e : Exception)
      → (route r request world).0 ≢ thrown e
  unfolding route
  route-ne-thrown r request world e = no_throw (route_method request.method r request world)
    where
      no_throw : (x : Routed W (Result HttpResponse)) → (caught x).0 ≢ thrown e
      no_throw (ok a, q, w) h = cc
      no_throw (thrown x, q, w) h = cc
      no_throw (undefined, q, w) h = cc
