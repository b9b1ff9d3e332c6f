-- ===== src/Router/Registration.antt =====
-- What a registration does to the map of the handlers, and what it refuses.
use ctask.Common.{
  Bytes, codes, bytes_eq, bytes_eq_iff, ◌≡◌, ◌≢◌, refl, ◌↔◌, List, [], ◌∷◌, ◌++◌, none, some,
  Option-cases, inl, inr, arith, if◌then◌else◌,
}
use ctask.Common.Assoc.{lookup, emplace, lookup-emplace}
use ctask.Common.Result.{ok, thrown, invalid_argument}
use ctask.Router.Paths.{index_of, build_parameterized_path_template, parse_parameter_names}
use ctask.Router.{
  HttpHandlerFn, PathHandlerMap, HttpRouter, RouteParameterInfo, register_handler, add_get,
  add_post,
}

-- The key of a path in the map of the handlers.
unfoldable pub route_key : Bytes → Bytes
route_key path = elim (index_of b'{' path) [
  | none ↦ path
  | some _ ↦ build_parameterized_path_template path
]

module _ {W : Type 0} where
  -- A registration whose key is taken throws.
  register_handler_taken :
      (path : Bytes) (h : HttpHandlerFn W) (map : PathHandlerMap W)
      (infos : List RouteParameterInfo)
      → lookup (route_key path) map ≢ none
      → register_handler path h map infos
        ≡ thrown (invalid_argument (path ++ codes ", handler already registered"))
  unfolding register_handler route_key
  register_handler_taken path h map infos taken = ground arith

  -- A registration whose key is free adds the handler under the key, and nothing else.
  register_handler_free :
      (path : Bytes) (h : HttpHandlerFn W) (map : PathHandlerMap W)
      (infos : List RouteParameterInfo)
      → lookup (route_key path) map ≡ none
      → (map' : PathHandlerMap W) × (infos' : List RouteParameterInfo) × (register_handler path h
            map infos
          ≡ ok (map', infos'))
        × (map' ≡ emplace (route_key path) h map)
  unfolding register_handler route_key
  register_handler_free path h map infos free = elim (Option-cases (index_of b'{' path)) [
    | inl e ↦ (emplace path h map, infos, ground arith, ground arith)
    | inr (k, e) ↦ (
      emplace (build_parameterized_path_template path) h map,
      infos
          ++ record { parameterized_path = path; parameters_meta = parse_parameter_names path }
            ∷ [],
      ground arith,
      ground arith,
    )
  ]

  lookup_free :
      (k j : Bytes) (h : HttpHandlerFn W) (map : PathHandlerMap W)
      → lookup k map ≡ none
      → lookup j (emplace k h map) ≡ (if bytes_eq k j then some h else lookup j map)
  lookup_free k j h map free = ground (arith, lookup-emplace k j h map, bytes_eq_iff k j)

  -- A GET registration succeeds exactly when no GET route has its key. Then the key leads to the
  -- handler, every other key leads where it did, and the POST routes are as they were.
  pub add_get_lem :
      (path : Bytes) (h : HttpHandlerFn W) (r : HttpRouter W)
      → (lookup (route_key path) r.get_handlers ≡ none) ↔ (
          (r' : HttpRouter W) × (add_get path h r ≡ ok r')
          × ((k : Bytes)
              → lookup k r'.get_handlers
                ≡ (if bytes_eq (route_key path) k then some h else lookup k r.get_handlers))
          × (r'.post_handlers ≡ r.post_handlers))
  unfolding add_get
  add_get_lem path h r = (
    λ free.
        let (map', infos', e, m) =
          register_handler_free path h r.get_handlers r.path_parameters_info free in
        (
          record r { get_handlers = map'; path_parameters_info = infos' },
          rw (e, add_get),
          λ k. rw m (lookup_free (route_key path) k h r.get_handlers free),
          refl,
        ),
    λ w. elim (Option-cases (lookup (route_key path) r.get_handlers)) [
      | inl free ↦ free
      | inr (g, taken) ↦ ground (
        arith,
        taken,
        register_handler_taken path h r.get_handlers r.path_parameters_info (λ z. cc),
        w.1,
      )
    ],
  )

  -- A POST registration succeeds exactly when no POST route has its key. Then the key leads to the
  -- handler, every other key leads where it did, and the GET routes are as they were.
  pub add_post_lem :
      (path : Bytes) (h : HttpHandlerFn W) (r : HttpRouter W)
      → (lookup (route_key path) r.post_handlers ≡ none) ↔ (
          (r' : HttpRouter W) × (add_post path h r ≡ ok r')
          × ((k : Bytes)
              → lookup k r'.post_handlers
                ≡ (if bytes_eq (route_key path) k then some h else lookup k r.post_handlers))
          × (r'.get_handlers ≡ r.get_handlers))
  unfolding add_post
  add_post_lem path h r = (
    λ free.
        let (map', infos', e, m) =
          register_handler_free path h r.post_handlers r.path_parameters_info free in
        (
          record r { post_handlers = map'; path_parameters_info = infos' },
          rw (e, add_post),
          λ k. rw m (lookup_free (route_key path) k h r.post_handlers free),
          refl,
        ),
    λ w. elim (Option-cases (lookup (route_key path) r.post_handlers)) [
      | inl free ↦ free
      | inr (g, taken) ↦ ground (
        arith,
        taken,
        register_handler_taken path h r.post_handlers r.path_parameters_info (λ z. cc),
        w.1,
      )
    ],
  )
