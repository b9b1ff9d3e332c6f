-- ===== src/Router/Build.antt =====
-- What the builder builds, in whatever order its maps are walked.
use ctask.Common.{
  Bytes, bytes_eq, bytes_eq_iff, ◌≡◌, ◌∙◌, refl, [], ◌∷◌, Option, none, some, arith, if◌then◌else◌,
}
use ctask.Common.Assoc.{lookup}
use ctask.Common.Result.{ok}
use ctask.Router.Registration.{route_key, add_get_lem, add_post_lem}
use ctask.Router.{
  HttpHandlerFn, PathHandlerMap, HttpRouter, new_router, RouterBuilder, add_gets, add_posts, build,
}

module _ {W : Type 0} where
  -- The handler of the first registration under a key.
  unfoldable pub lookup_route : Bytes → PathHandlerMap W → Option (HttpHandlerFn W)
  lookup_route k [] = none
  lookup_route k ((path, h) ∷ rest) =
      if bytes_eq (route_key path) k then some h else lookup_route k rest

  -- No two registrations share a key.
  abbrev pub HaveDistinctKeys : PathHandlerMap W → Type 0
  HaveDistinctKeys [] = Unit
  HaveDistinctKeys ((path, h) ∷ rest) =
      (lookup_route (route_key path) rest ≡ none) × HaveDistinctKeys rest

  abbrev or_else_route :
      Option (HttpHandlerFn W) → Option (HttpHandlerFn W) → Option (HttpHandlerFn W)
  or_else_route none later = later
  or_else_route (some h) later = some h

  -- The keys of the registrations are free.
  abbrev AreFree : PathHandlerMap W → PathHandlerMap W → Type 0
  AreFree map [] = Unit
  AreFree map ((path, h) ∷ rest) = (lookup (route_key path) map ≡ none) × AreFree map rest

  AreFree-add :
      (key : Bytes) (h : HttpHandlerFn W) (map map' es : PathHandlerMap W)
      → ((k : Bytes) → lookup k map' ≡ (if bytes_eq key k then some h else lookup k map))
      → lookup_route key es ≡ none
      → AreFree map es
      → AreFree map' es
  unfolding lookup_route
  AreFree-add key h map map' [] e new free = tt
  AreFree-add key h map map' ((path, g) ∷ es) e new free = (
    ground (
      arith,
      e (route_key path),
      bytes_eq_iff key (route_key path),
      bytes_eq_iff (route_key path) key,
      free.0,
    ),
    AreFree-add key h map map' es e (ground arith) free.1,
  )

  AreFree-empty : (es : PathHandlerMap W) → AreFree [] es
  unfolding lookup
  AreFree-empty [] = tt
  AreFree-empty ((path, h) ∷ es) = (refl, AreFree-empty es)

  add_gets_lem :
      (es : PathHandlerMap W) (r : HttpRouter W)
      → HaveDistinctKeys es
      → AreFree r.get_handlers es
      → (r' : HttpRouter W) × (add_gets es r ≡ ok r')
        × ((k : Bytes)
            → lookup k r'.get_handlers
              ≡ or_else_route (lookup k r.get_handlers) (lookup_route k es))
        × (r'.post_handlers ≡ r.post_handlers)
  unfolding add_gets lookup_route
  add_gets_lem [] r d free = (r, refl, λ k. ground arith, refl)
  add_gets_lem ((path, h) ∷ es) r d free =
      let (r1, e1, at1, post1) = (add_get_lem path h r).0 free.0 in
      let (r2, e2, at2, post2) =
        add_gets_lem es r1 d.1
          (AreFree-add (route_key path) h r.get_handlers r1.get_handlers es at1 d.0 free.1) in
      (
        r2,
        rw (e1, add_gets) e2,
        λ k. ground (arith, at1 k, at2 k, free.0, bytes_eq_iff (route_key path) k),
        post2 ∙ post1,
      )

  add_posts_lem :
      (es : PathHandlerMap W) (r : HttpRouter W)
      → HaveDistinctKeys es
      → AreFree r.post_handlers es
      → (r' : HttpRouter W) × (add_posts es r ≡ ok r')
        × ((k : Bytes)
            → lookup k r'.post_handlers
              ≡ or_else_route (lookup k r.post_handlers) (lookup_route k es))
        × (r'.get_handlers ≡ r.get_handlers)
  unfolding add_posts lookup_route
  add_posts_lem [] r d free = (r, refl, λ k. ground arith, refl)
  add_posts_lem ((path, h) ∷ es) r d free =
      let (r1, e1, at1, get1) = (add_post_lem path h r).0 free.0 in
      let (r2, e2, at2, get2) =
        add_posts_lem es r1 d.1
          (AreFree-add (route_key path) h r.post_handlers r1.post_handlers es at1 d.0 free.1) in
      (
        r2,
        rw (e1, add_posts) e2,
        λ k. ground (arith, at1 k, at2 k, free.0, bytes_eq_iff (route_key path) k),
        get2 ∙ get1,
      )

  -- Whatever the order in which the builder's maps are walked, if no two GET registrations and no
  -- two POST registrations share a key then a router is built, and each key leads to the handler
  -- that was registered under it, by its method, and to none otherwise.
  pub build_lem :
      (walk : PathHandlerMap W → PathHandlerMap W) (b : RouterBuilder W)
      → HaveDistinctKeys (walk b.get_handlers)
      → HaveDistinctKeys (walk b.post_handlers)
      → (r : HttpRouter W) × (build walk b ≡ ok r)
        × ((k : Bytes) → lookup k r.get_handlers ≡ lookup_route k (walk b.get_handlers))
        × ((k : Bytes) → lookup k r.post_handlers ≡ lookup_route k (walk b.post_handlers))
  unfolding build lookup
  build_lem walk b gets posts =
      let (r1, e1, at1, post1) =
        add_gets_lem (walk b.get_handlers) new_router gets (AreFree-empty (walk b.get_handlers)) in
      let (r2, e2, at2, get2) =
        add_posts_lem (walk b.post_handlers) r1 posts
          (rw post1 (AreFree-empty (walk b.post_handlers))) in
      (r2, rw (e1, build) e2, λ k. rw get2 (at1 k), λ k. at2 k ∙ rw post1 refl)
