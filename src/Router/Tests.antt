-- ===== src/Router/Tests.antt =====
-- Runs of the router on concrete input.
use ctask.Common.{ℕ, suc, ◌≡◌, refl, Bytes, codes, bytes_eq, [], ◌∷◌}
use ctask.Common.Assoc
use ctask.Common.Assoc.{lookup, assign}
use ctask.Common.Result.{ok, thrown, runtime_error}
use ctask.Utils.{
  HttpRequest, response, HttpMethod, get_method, http_status_ok, http_status_internal_server_error,
}
use ctask.Router.Paths.{
  index_of, parse_parameter_names, build_parameterized_path_template, path_parts, parse_parameters,
}
use ctask.Router.Paths.Split.{segments}
use ctask.Router.Paths.Names.{bound, assign_all, parse_parameters-eq-assign_all}
use ctask.Router.Paths.Template.{template_of, build_parameterized_path_template-eq-template_of}
use ctask.Router.{
  HttpHandlerFn, HttpRouter, new_router, register_handler, add_get, route, RouterBuilder,
  new_builder, register_get, build,
}
use ctask.Router.Registration.{route_key}
use ctask.Router.Build.{lookup_route, HaveDistinctKeys, build_lem}

abbrev user_path : Bytes
user_path = codes "/users/{name}/{page}"

-- Handlers over a counter: one that counts, and one that throws.
abbrev counting : HttpHandlerFn ℕ
counting request n = (ok (response http_status_ok request.path), suc n)

abbrev failing : HttpHandlerFn ℕ
failing request n = (thrown (runtime_error (codes "no")), n)

abbrev ask : HttpMethod → Bytes → HttpRequest
ask method path = record {
  method = method;
  path = path;
  version = codes "1.1";
  headers = [];
  parameters = [];
  body = [];
}

path_tests :
    (build_parameterized_path_template user_path ≡ codes "/users/{}/{}")
    × (path_parts (codes "//users/ann/") ≡ codes "users" ∷ codes "ann" ∷ [])
    × (parse_parameters (codes "/users/ann/3") (parse_parameter_names user_path)
        ≡ (codes "name", codes "ann") ∷ (codes "page", codes "3") ∷ [])
unfolding build_parameterized_path_template path_parts parse_parameters parse_parameter_names
    bytes_eq
path_tests = (refl, refl, refl)

parse_parameters-eq-assign_all_example :
    parse_parameters (codes "/users/ann/3") (parse_parameter_names user_path)
    ≡ assign_all (bound (segments user_path) (segments (codes "/users/ann/3"))) []
parse_parameters-eq-assign_all_example =
    parse_parameters-eq-assign_all user_path (codes "/users/ann/3")

build_parameterized_path_template-eq-template_of_example :
    build_parameterized_path_template user_path ≡ template_of user_path
build_parameterized_path_template-eq-template_of_example =
    build_parameterized_path_template-eq-template_of user_path

-- The router after one registration.
abbrev user_router : HttpRouter ℕ
user_router = record {
  get_handlers = (codes "/users/{}/{}", counting) ∷ [];
  post_handlers = [];
  path_parameters_info =
      record { parameterized_path = user_path; parameters_meta = parse_parameter_names user_path }
      ∷ [];
}

user_router_added : add_get user_path counting new_router ≡ ok user_router
unfolding add_get register_handler index_of lookup Assoc.emplace build_parameterized_path_template
user_router_added = refl

abbrev failing_router : HttpRouter ℕ
failing_router = record {
  get_handlers = (codes "/fail", failing) ∷ [];
  post_handlers = [];
  path_parameters_info = [];
}

route_test :
    (route failing_router (ask get_method (codes "/fail")) 4).0
    ≡ ok (response http_status_internal_server_error (codes "no"))
unfolding route lookup bytes_eq
route_test = refl

abbrev user_builder : RouterBuilder ℕ
user_builder = register_get user_path counting (register_get (codes "/fail") failing new_builder)

user_builder-distinct : HaveDistinctKeys user_builder.get_handlers
unfolding register_get Assoc.emplace bytes_eq lookup_route route_key index_of
    build_parameterized_path_template
user_builder-distinct = (refl, (refl, tt))

user_builder-posts : HaveDistinctKeys user_builder.post_handlers
unfolding register_get
user_builder-posts = tt

build_lem_example :
    (r : HttpRouter ℕ) × (build (λ m. m) user_builder ≡ ok r)
    × ((k : Bytes) → lookup k r.get_handlers ≡ lookup_route k user_builder.get_handlers)
    × ((k : Bytes) → lookup k r.post_handlers ≡ lookup_route k user_builder.post_handlers)
build_lem_example = build_lem (λ m. m) user_builder user_builder-distinct user_builder-posts
