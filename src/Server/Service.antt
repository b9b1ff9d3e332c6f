-- ===== src/Server/Service.antt =====
-- The server with the router of custom/router.cpp and the routes of the telemetry.
use ctask.Common.{Bytes, ◌≡◌, refl, List, inl, inr}
use ctask.Common.Assoc.{lookup_one}
use ctask.Utils.{HttpRequest}
use ctask.Router.{HttpRouter, route}
use ctask.Router.Dispatch.{route-ne-thrown}
use ctask.Router.Invariant.{route_keeps}
use ctask.Parser.Stoll.{Platform}
use ctask.Parser.{Llhttp, parse_request}
use ctask.Telemetry.Storage.{TelemetryStorage}
use ctask.Telemetry.Storage.Laws.{IsValid, store_event-IsValid}
use ctask.Telemetry.Mean.{Doubles}
use ctask.Telemetry.Api.{Json, handle_mean_length, handle_store}
use ctask.Telemetry.Api.Handlers.{handle_store-Outcome, event}
use ctask.Telemetry.Api.Routing.{telemetry_router}
use ctask.Server.{IRouter, Turn, client_session}
use ctask.Server.Session.{client_session_keeps}

-- The router of custom/router.cpp, once set up, as the router of a server.
abbrev pub custom_router : {W : Type 0} → HttpRouter W → IRouter W
custom_router r = record {
  route = route r;
  route_noexcept = route-ne-thrown r;
  route_headers = λ q w.
      route_keeps (λ x v. x.headers ≡ q.headers) r q w (record { ignore = λ x v ps p. p })
        (record { keep = λ k h e x v p. p }) (record { keep = λ k h e x v p. p }) refl;
  route_version = λ q w.
      route_keeps (λ x v. x.version ≡ q.version) r q w (record { ignore = λ x v ps p. p })
        (record { keep = λ k h e x v p. p }) (record { keep = λ k h e x v p. p }) refl;
}

module _ (d : Doubles) (json : Json d) where
  handle_store-IsValid :
      (q : HttpRequest) (s : TelemetryStorage) → IsValid s → IsValid (handle_store d json q s).1
  handle_store-IsValid q s v = elim (handle_store-Outcome d json q s) [
    | inl (refused, same) ↦ rw same v
    | inr (a, done, stored) ↦ rw stored (store_event-IsValid a.name (event d json a) s v)
  ]

  -- What the POST handler keeps of the storage, routing keeps.
  pub telemetry_keeps :
      (P : TelemetryStorage → Type 0)
      → ((q : HttpRequest) (s : TelemetryStorage) → P s → P (handle_store d json q s).1)
      → (q : HttpRequest) (s : TelemetryStorage) → P s
      → P (route (telemetry_router d json) q s).2
  unfolding handle_mean_length
  telemetry_keeps P keeps q s p =
      route_keeps (λ x v. P v) (telemetry_router d json) q s (record { ignore = λ x v ps p. p })
        (record {
          keep = λ k h e.
              lookup_one (λ h. (q : HttpRequest) (s : TelemetryStorage) → P s → P (h q s).1) k _ h _
                (λ q s p. p) e;
        })
        (record {
          keep = λ k h e.
              lookup_one (λ h. (q : HttpRequest) (s : TelemetryStorage) → P s → P (h q s).1) k _ h _
                keeps e;
        })
        p

  -- Whatever a client sends and however its reads and writes end, a session over the routes of the
  -- telemetry leaves the entries of each name in the order of their timestamps.
  pub client_session-IsValid :
      (platform : Platform) (llhttp : Llhttp) (empty_object : Bytes) (ts : List Turn)
      (s : TelemetryStorage)
      → IsValid s
      → IsValid
          (client_session
            (parse_request platform llhttp)
            empty_object
            (custom_router (telemetry_router d json))
            ts
            s).world
  client_session-IsValid platform llhttp empty_object ts s v =
      client_session_keeps (parse_request platform llhttp) empty_object
        (custom_router (telemetry_router d json)) IsValid
        (telemetry_keeps IsValid handle_store-IsValid) ts s v
