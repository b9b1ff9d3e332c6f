-- ===== src/Router.antt =====
-- ctask_lib/network/http/router: the router of custom/router.cpp and the builder of
-- router_builder.cpp. A handler is a `std::function` over a world that it may read and change.
pub mod Paths
pub mod Registration
pub mod Dispatch
pub mod Build
pub mod Invariant
pub mod Tests
use ctask.Common.{Bytes, codes, Bool, List, [], ◌∷◌, ◌++◌, Option, none, some}
use ctask.Common.Assoc.{lookup, emplace}
use ctask.Common.Result.{Result, ok, thrown, undefined, invalid_argument, what, ◌>>=◌}
use ctask.Utils.{
  HttpRequest, HttpResponse, response, HttpMethod, get_method, post_method, unknown_method,
  http_status_not_found, http_status_not_implemented, http_status_internal_server_error,
}
use ctask.Router.Paths.{
  index_of, ParameterMetaData, parse_parameter_names, build_parameterized_path_template,
  parse_parameters,
}

-- What a handler returns or throws, and the world that it leaves.
abbrev pub HttpHandlerFn : Type 0 → Type 0
HttpHandlerFn W = HttpRequest → W → Result HttpResponse × W

abbrev pub PathHandlerMap : Type 0 → Type 0
PathHandlerMap W = List (Bytes × HttpHandlerFn W)

pub record RouteParameterInfo : Type 0 where
  pub parameterized_path : Bytes
  pub parameters_meta : List ParameterMetaData

pub record HttpRouter (W : Type 0) : Type 0 where
  pub get_handlers : PathHandlerMap W
  pub post_handlers : PathHandlerMap W
  pub path_parameters_info : List RouteParameterInfo

-- What a routed request leaves: the answer, the request, whose parameters may be set, and the world.
abbrev pub Routed : Type 0 → Type 0 → Type 0
Routed W A = A × HttpRequest × W

module _ {W : Type 0} where
  abbrev pub new_router : HttpRouter W
  new_router = record { get_handlers = []; post_handlers = []; path_parameters_info = [] }

  -- The map that is given by reference, and the metadata, after a registration.
  unfoldable pub register_handler :
      Bytes
      → HttpHandlerFn W
      → PathHandlerMap W
      → List RouteParameterInfo
      → Result (PathHandlerMap W × List RouteParameterInfo)
  register_handler path handler map infos = elim (index_of b'{' path) [
    | none ↦ elim (lookup path map) [
      | some _ ↦ thrown (invalid_argument (path ++ codes ", handler already registered"))
      | none ↦ ok (emplace path handler map, infos)
    ]
    | some _ ↦ elim (lookup (build_parameterized_path_template path) map) [
      | some _ ↦ thrown (invalid_argument (path ++ codes ", handler already registered"))
      | none ↦ ok (
        emplace (build_parameterized_path_template path) handler map,
        infos
            ++ record { parameterized_path = path; parameters_meta = parse_parameter_names path }
              ∷ [],
      )
    ]
  ]

  unfoldable pub add_get : Bytes → HttpHandlerFn W → HttpRouter W → Result (HttpRouter W)
  unfolding register_handler
  add_get path handler r = do
    (map, infos) ← register_handler path handler r.get_handlers r.path_parameters_info
    ok (record r { get_handlers = map; path_parameters_info = infos })

  unfoldable pub add_post : Bytes → HttpHandlerFn W → HttpRouter W → Result (HttpRouter W)
  unfolding register_handler
  add_post path handler r = do
    (map, infos) ← register_handler path handler r.post_handlers r.path_parameters_info
    ok (record r { post_handlers = map; path_parameters_info = infos })

  -- A call of a handler.
  abbrev pub call : HttpHandlerFn W → HttpRequest → W → Routed W (Result HttpResponse)
  call handler request world =
      let (answer, world') = handler request world in (answer, request, world')

  -- The loop over the parameterized paths, and the answer when it ends.
  unfoldable pub route_parameterized :
      List RouteParameterInfo → PathHandlerMap W → HttpRequest → W → Routed W (Result HttpResponse)
  route_parameterized [] map request world = (
    ok (response http_status_not_found (codes "Path is not found : " ++ request.path)),
    request,
    world,
  )
  route_parameterized (info ∷ infos) map request world =
      elim (lookup (build_parameterized_path_template info.parameterized_path) map) [
        | none ↦ route_parameterized infos map request world
        | some handler ↦
            call handler
              (record request { parameters = parse_parameters request.path info.parameters_meta })
              world
      ]

  unfoldable pub process_routing :
      HttpRouter W → PathHandlerMap W → HttpRequest → W → Routed W (Result HttpResponse)
  unfolding route_parameterized
  process_routing r map request world = elim (lookup request.path map) [
    | some handler ↦ call handler request world
    | none ↦ route_parameterized r.path_parameters_info map request world
  ]

  -- The `try` block: an exception becomes an answer.
  abbrev pub caught : Routed W (Result HttpResponse) → Routed W (Result HttpResponse)
  caught (ok answer, request, world) = (ok answer, request, world)
  caught (thrown e, request, world) =
      (ok (response http_status_internal_server_error (what e)), request, world)
  caught (undefined, request, world) = (undefined, request, world)

  abbrev pub route_method :
      HttpMethod → HttpRouter W → HttpRequest → W → Routed W (Result HttpResponse)
  route_method get_method r request world = process_routing r r.get_handlers request world
  route_method post_method r request world = process_routing r r.post_handlers request world
  route_method unknown_method r request world = (
    ok (response http_status_not_implemented (codes "Method is not implemented")),
    request,
    world,
  )

  unfoldable pub route : HttpRouter W → HttpRequest → W → Routed W (Result HttpResponse)
  unfolding process_routing
  route r request world = caught (route_method request.method r request world)

-- The builder. An `std::unordered_map` is walked in an order that the language leaves open; here it
-- is a parameter of `build`.
pub record RouterBuilder (W : Type 0) : Type 0 where
  pub get_handlers : PathHandlerMap W
  pub post_handlers : PathHandlerMap W

module _ {W : Type 0} where
  abbrev pub new_builder : RouterBuilder W
  new_builder = record { get_handlers = []; post_handlers = [] }

  unfoldable pub register_get : Bytes → HttpHandlerFn W → RouterBuilder W → RouterBuilder W
  register_get path handler b = record b { get_handlers = emplace path handler b.get_handlers }

  unfoldable pub register_post : Bytes → HttpHandlerFn W → RouterBuilder W → RouterBuilder W
  register_post path handler b = record b { post_handlers = emplace path handler b.post_handlers }

  unfoldable pub add_gets : PathHandlerMap W → HttpRouter W → Result (HttpRouter W)
  unfolding add_get
  add_gets [] r = ok r
  add_gets ((path, handler) ∷ rest) r = do r' ← add_get path handler r; add_gets rest r'

  unfoldable pub add_posts : PathHandlerMap W → HttpRouter W → Result (HttpRouter W)
  unfolding add_post
  add_posts [] r = ok r
  add_posts ((path, handler) ∷ rest) r = do r' ← add_post path handler r; add_posts rest r'

  unfoldable pub build :
      (PathHandlerMap W → PathHandlerMap W) → RouterBuilder W → Result (HttpRouter W)
  unfolding add_gets add_posts
  build walk b = do
    r ← add_gets (walk b.get_handlers) new_router
    add_posts (walk b.post_handlers) r
