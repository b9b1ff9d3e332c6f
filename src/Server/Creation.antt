-- ===== src/Server/Creation.antt =====
-- How many servers `createService` makes.
use ctask.Common.{
  ℕ, ◌+◌, ◌≡◌, refl, ◌∙◌, Bool, true, false, List, [], ◌∷◌, Option, none, some, arith, ◌==◌,
  if◌then◌else◌,
}
use ctask.Common.Result.{Result, ok, thrown, undefined}
use ctask.Utils.{HttpServerArgs}
use ctask.Server.{IRouter, HttpServer, construct, create_service}

-- A call of `createService`: what making a thread pool gives then, and its arguments.
abbrev pub Call : Type 0 → Type 0
Call W = (ℕ → Result (Unit {0})) × HttpServerArgs × Option (IRouter W)

abbrev is_ok : Result (Unit {0}) → Bool
is_ok (ok done) = true
is_ok (thrown e) = false
is_ok undefined = false

module _ {W : Type 0} where
  -- One for a call that gives a server.
  abbrev pub server_count : Result (Option (HttpServer W)) → ℕ
  server_count (ok (some server)) = 1
  server_count (ok none) = 0
  server_count (thrown e) = 0
  server_count undefined = 0

  -- The servers that calls in turn give, from a flag on.
  unfoldable pub servers : Bool → List (Call W) → ℕ
  servers flag [] = 0
  servers flag ((make_pool, args, router) ∷ calls) =
      let (server, flag') = create_service make_pool flag args router in
      server_count server + servers flag' calls

  servers_set : (calls : List (Call W)) → servers true calls ≡ 0
  unfolding servers create_service
  servers_set [] = refl
  servers_set ((make_pool, args, router) ∷ calls) = omega (arith, servers_set calls)

  -- Some call comes with threads that can be made, a router and a keep-alive time above zero.
  unfoldable pub some_valid : List (Call W) → Bool
  some_valid [] = false
  some_valid ((make_pool, args, none) ∷ calls) = some_valid calls
  some_valid ((make_pool, args, some router) ∷ calls) =
      let rest = some_valid calls in
      if args.keep_alive_sec == 0
      then rest
      else if is_ok (make_pool args.threads)
      then true
      else rest

  -- What a call with a router gives, for what its thread pool gives.
  servers-cons :
      (make_pool : ℕ → Result (Unit {0})) (args : HttpServerArgs) (router : IRouter W)
      (calls : List (Call W))
      → servers false calls ≡ (if some_valid calls then 1 else 0)
      → servers false ((make_pool, args, some router) ∷ calls)
        ≡ (if some_valid ((make_pool, args, some router) ∷ calls) then 1 else 0)
  unfolding servers create_service construct some_valid
  servers-cons make_pool args router calls later = by_pool (make_pool args.threads) refl
    where
      by_pool :
          (pool : Result (Unit {0}))
          → make_pool args.threads ≡ pool
          → servers false ((make_pool, args, some router) ∷ calls)
            ≡ (if some_valid ((make_pool, args, some router) ∷ calls) then 1 else 0)
      by_pool (ok done) e = rw e (ground (arith, later, servers_set calls))
      by_pool (thrown x) e = rw e (ground (arith, later))
      by_pool undefined e = rw e (ground (arith, later))

  servers_without_router :
      (make_pool : ℕ → Result (Unit {0})) (args : HttpServerArgs) (calls : List (Call W))
      → servers false ((make_pool, args, none) ∷ calls) ≡ servers false calls
  unfolding servers create_service construct
  servers_without_router make_pool args calls = by_pool (make_pool args.threads) refl
    where
      by_pool :
          (pool : Result (Unit {0}))
          → make_pool args.threads ≡ pool
          → servers false ((make_pool, args, none) ∷ calls) ≡ servers false calls
      by_pool (ok done) e = rw (e, servers, create_service, construct) (omega arith)
      by_pool (thrown x) e = rw (e, servers, create_service, construct) (omega arith)
      by_pool undefined e = rw (e, servers, create_service, construct) (omega arith)

  -- However often the service is created, and with whatever arguments, one call gives a server if
  -- some call comes with a thread pool that can be made, a router and a keep-alive time above zero,
  -- and none does otherwise.
  pub servers_lem :
      (calls : List (Call W)) → servers false calls ≡ (if some_valid calls then 1 else 0)
  unfolding servers some_valid
  servers_lem [] = refl
  servers_lem ((make_pool, args, none) ∷ calls) =
      servers_without_router make_pool args calls ∙ servers_lem calls
  servers_lem ((make_pool, args, some router) ∷ calls) =
      servers-cons make_pool args router calls (servers_lem calls)
