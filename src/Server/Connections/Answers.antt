-- ===== src/Server/Connections/Answers.antt =====
-- What the routes of the telemetry answer while any number of connections are served.
use mathlib.Core.Path.{subst}
use ctask.Common.{
  All-append, is_empty, false, codes, take, ◌≢◌, suc, ◌-◌, ◌≤◌, ◌≡◌, refl, ap, ◌∙◌, sym, Bytes, [],
  ◌∷◌, ◌++◌, All, inl, inr,
}
use ctask.Utils.{HttpRequest, HttpResponse, get_method}
use ctask.Common.Result.{Result, ok, thrown, undefined}
use ctask.Router.{Routed, call, caught}
use ctask.Parser.Stoll.{Platform}
use ctask.Parser.{Llhttp, parse_request}
use ctask.Telemetry.Types.{InteractionTimesEventModel}
use ctask.Telemetry.Events.Range.{values_from}
use ctask.Telemetry.Storage.{TelemetryStorage, new_storage, store_event}
use ctask.Telemetry.Storage.History.{History, store_all, store_all-append, first_values}
use ctask.Telemetry.Mean.{Doubles}
use ctask.Telemetry.Api.{Json, handle_mean_length, handle_store}
use ctask.Telemetry.Api.Handlers.{Accepts, event, handle_store-Outcome, Queries, start, end}
use ctask.Telemetry.Api.Flow.{answer_of, handle_mean_length_history}
use ctask.Telemetry.Api.Routing.{
  telemetry_router, IsTemplate, handed, telemetry_outcome, telemetry_route_lem,
}
use ctask.Server.Service.{custom_router, telemetry_keeps}
use ctask.Telemetry.Api.Effects.{caught_world}
use ctask.Server.{IRouter, received, Turn, read_buffer_size, client_session}
use ctask.Server.Connections.Effects.{texts_of, client_session_one}
use ctask.Server.Connections.{Connections, SessionReach}
use ctask.Server.Connections.Turns.{SessionReach_keeps}

module _ (d : Doubles) (json : Json d) where
  -- An event under a name that some request gives which the POST handler accepts.
  pub record IsPosted (x : Bytes × InteractionTimesEventModel) : Type 0 where
    pub request : HttpRequest
    pub accepts : Accepts d json request
    pub gives : (accepts.name, event d json accepts) ≡ x

  -- What some history of posted events leaves of a new storage.
  pub record IsHistory (s : TelemetryStorage) : Type 0 where
    pub history : History
    pub posted : All IsPosted history
    pub stored : s ≡ store_all history new_storage

  handle_store-IsHistory :
      (q : HttpRequest) (s : TelemetryStorage) → IsHistory s → IsHistory (handle_store d json q s).1
  handle_store-IsHistory q s i = elim (handle_store-Outcome d json q s) [
    | inl (refused, same) ↦ subst IsHistory (sym same) i
    | inr (a, done, stored) ↦ record {
      history = i.history ++ (a.name, event d json a) ∷ [];
      posted =
          All-append IsPosted i.history _ i.posted
            (record { request = q; accepts = a; gives = refl }, tt);
      stored =
          stored
          ∙ ap (store_event a.name (event d json a)) i.stored
          ∙ (unfold store_all in
              sym (store_all-append i.history ((a.name, event d json a) ∷ []) new_storage));
    }
  ]

  -- While any number of connections are served from a new storage on, in every order of their turns
  -- and whatever they send, the storage is what some sequence of accepted events leaves; and a query
  -- with its bounds in order is answered by the mean over the values, timestamp by timestamp, of the
  -- first of these events with its name and that timestamp.
  pub answer_of_reachable :
      (platform : Platform) (llhttp : Llhttp) (empty_object : Bytes)
      (σ τ : Connections TelemetryStorage) (request : HttpRequest) (q : Queries d json request)
      → σ.world ≡ new_storage
      → SessionReach
          (parse_request platform llhttp)
          empty_object
          (custom_router (telemetry_router d json))
          σ
          τ
      → start d json q ≤ end d json q
      → (h : History) × All IsPosted h
        × (τ.world ≡ store_all h new_storage)
        × ((handle_mean_length d json request τ.world).0
            ≡ answer_of d json q.unit (
                values_from
                  (λ date. first_values q.name date h)
                  (start d json q)
                  (suc (end d json q) - start d json q)))
  answer_of_reachable platform llhttp empty_object σ τ request q new reach ordered =
      let i = reached in
      (
        i.history,
        i.posted,
        i.stored,
        ap (λ s. (handle_mean_length d json request s).0) i.stored
            ∙ handle_mean_length_history d json i.history request q ordered,
      )
    where
      reached : IsHistory τ.world
      reached =
          SessionReach_keeps (parse_request platform llhttp) empty_object
            (custom_router (telemetry_router d json)) IsHistory
            (telemetry_keeps d json IsHistory handle_store-IsHistory) reach
            (record { history = []; posted = tt; stored = new ∙ (unfold store_all in refl) })

  caught-handle_mean_length :
      (q : HttpRequest) (s : TelemetryStorage) (r : Result HttpResponse)
      → (handle_mean_length d json q s).0 ≡ r
      → caught (call (handle_mean_length d json) q s) ≡ caught (r, q, s)
  unfolding handle_mean_length
  caught-handle_mean_length q s r e = ap (λ r. caught (r, q, s)) e

  texts_of-caught :
      (parse : Bytes → Result HttpRequest) (empty_object : Bytes)
      (router : IRouter TelemetryStorage) (t : Turn) (r : Result HttpResponse) (q : HttpRequest)
      (s : TelemetryStorage)
      → texts_of parse empty_object router t
          (caught (r, handed d json q, s)).0
          (caught (r, handed d json q, s)).1
        ≡ texts_of parse empty_object router t (caught (r, handed d json q, s)).0 q
  texts_of-caught parse empty_object router t (ok r) q s = refl
  texts_of-caught parse empty_object router t (thrown e) q s = refl
  texts_of-caught parse empty_object router t undefined q s = refl

  -- While any number of connections are served from a new storage on, in every order of their turns
  -- and whatever they send, the storage is what some sequence of accepted events leaves; and a turn
  -- that reads a GET request, not for the template itself, whose query has its bounds in order leaves
  -- it so and sends the answer, as far as it is written, with the mean over the values, timestamp by
  -- timestamp, of the first of these events with the name that the path gives and that timestamp.
  pub sent_of_reachable :
      (platform : Platform) (llhttp : Llhttp) (empty_object : Bytes)
      (σ τ : Connections TelemetryStorage) (t : Turn) (raw : Bytes) (get : HttpRequest)
      (q : Queries d json (handed d json get))
      → σ.world ≡ new_storage
      → SessionReach
          (parse_request platform llhttp)
          empty_object
          (custom_router (telemetry_router d json))
          σ
          τ
      → t.read ≡ received raw
      → is_empty (take read_buffer_size raw) ≡ false
      → parse_request platform llhttp (take read_buffer_size raw) ≡ ok get
      → get.method ≡ get_method
      → get.path ≢ codes "/paths/{}/meanLength"
      → start d json q ≤ end d json q
      → (h : History) × All IsPosted h
        × (τ.world ≡ store_all h new_storage)
        × ((client_session
              (parse_request platform llhttp)
              empty_object
              (custom_router (telemetry_router d json))
              (t ∷ [])
              τ.world).world
            ≡ τ.world)
        × ((client_session
              (parse_request platform llhttp)
              empty_object
              (custom_router (telemetry_router d json))
              (t ∷ [])
              τ.world).sent
            ≡ texts_of
                (parse_request platform llhttp)
                empty_object
                (custom_router (telemetry_router d json))
                t
                (caught (
                  answer_of d json q.unit (
                      values_from
                        (λ date. first_values q.name date h)
                        (start d json q)
                        (suc (end d json q) - start d json q)),
                  handed d json get,
                  τ.world,
                )).0
                get)
  sent_of_reachable platform llhttp empty_object σ τ t raw get q new reach at_read filled parses
        is_get path ordered =
      let (h, posted, stored, answers) =
        answer_of_reachable platform llhttp empty_object σ τ (handed d json get) q new reach
          ordered in
      let (world, sent) =
        client_session_one (parse_request platform llhttp) empty_object
          (custom_router (telemetry_router d json)) t τ.world raw get at_read filled parses in
      let routes =
        telemetry_route_lem d json get τ.world
          (λ m. path (subst (λ m. IsTemplate d json m get.path) is_get m))
        ∙ ap (λ m. telemetry_outcome d json m get τ.world) is_get
        ∙ caught-handle_mean_length (handed d json get) τ.world _ answers in
      (
        h,
        posted,
        stored,
        world ∙ ap (λ x. x.2) routes ∙ caught_world _,
        sent
            ∙ ap
                (λ (x : Routed TelemetryStorage (Result HttpResponse)).
                  texts_of (parse_request platform llhttp) empty_object
                    (custom_router (telemetry_router d json)) t x.0 x.1)
                routes
            ∙ texts_of-caught (parse_request platform llhttp) empty_object
                (custom_router (telemetry_router d json)) t _ get τ.world,
      )
