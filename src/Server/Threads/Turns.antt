-- ===== src/Server/Threads/Turns.antt =====
-- The plan of one turn of a session, from those of the handlers of its router.
use ctask.Common.{
  codes, ◌++◌, ◌≡◌, refl, Bytes, false, is_empty, take, Bool-cases, List, [], ◌∷◌, some,
  Option-cases, inl, inr, if◌then◌else◌,
}
use ctask.Common.Assoc.{lookup, lookup_one}
use ctask.Common.Result.{Result, ok, thrown, undefined, what}
use ctask.Utils.{
  HttpRequest, HttpResponse, HttpMethod, get_method, post_method, unknown_method, response,
  http_status_internal_server_error, http_status_not_found, http_status_not_implemented,
}
use ctask.Router.Paths.{build_parameterized_path_template, parse_parameters}
use ctask.Router.{
  HttpHandlerFn, PathHandlerMap, RouteParameterInfo, HttpRouter, Routed, route_parameterized,
  process_routing, caught, call, route_method, route,
}
use ctask.Serializer.{serialize}
use ctask.Telemetry.Storage.{TelemetryStorage}
use ctask.Telemetry.Mean.{Doubles}
use ctask.Telemetry.Api.{Json}
use ctask.Telemetry.Api.Routing.{telemetry_router}
use ctask.Server.{
  IRouter, ReadOutcome, eof, read_error, received, Turn, Transcript, Ending, waiting, send_failed,
  closed_by_peer, read_failed, nothing_read, refused, lost, not_kept_alive, keeps_alive,
  read_buffer_size, bad_request_meta, ended, answer, handle_read, client_session,
}
use ctask.Server.Service.{custom_router}
use ctask.Server.Threads.Plans.{answers, Planned, Planned-same, Planned-map}
use ctask.Server.Threads.Routes.{handle_mean_length-Planned, handle_store-Planned}

-- What a routed request and a transcript hold beside the world.
abbrev grouped : {W A : Type 0} → Routed W A → (A × HttpRequest) × W
grouped (a, q, w) = ((a, q), w)

abbrev pub Reply : Type 0
Reply = List Bytes × Ending

abbrev pub replied : {W : Type 0} → Transcript W → Reply × W
replied x = ((x.sent, x.ending), x.world)

-- The `try` block of the router, on what it holds beside the world.
abbrev caught_result : Result HttpResponse × HttpRequest → Result HttpResponse × HttpRequest
caught_result (ok a, q) = (ok a, q)
caught_result (thrown e, q) = (ok (response http_status_internal_server_error (what e)), q)
caught_result (undefined, q) = (undefined, q)

grouped-caught :
    {W : Type 0} (x : Routed W (Result HttpResponse))
    → grouped (caught x) ≡ (caught_result (grouped x).0, (grouped x).1)
grouped-caught (ok a, q, w) = refl
grouped-caught (thrown e, q, w) = refl
grouped-caught (undefined, q, w) = refl

-- Every handler of a map has a plan for every request.
record PlannedHandlers (map : PathHandlerMap TelemetryStorage) : Type 0 where
  planned :
      (k : Bytes) (h : HttpHandlerFn TelemetryStorage)
      → lookup k map ≡ some h
      → (q : HttpRequest) → Planned (h q)

call-Planned :
    (h : HttpHandlerFn TelemetryStorage) (q : HttpRequest)
    → Planned (h q)
    → Planned (λ s. grouped (call h q s))
call-Planned h q p = Planned-map (λ a. (a, q)) p

route_parameterized-Planned :
    (infos : List RouteParameterInfo) (map : PathHandlerMap TelemetryStorage) (q : HttpRequest)
    → PlannedHandlers map
    → Planned (λ s. grouped (route_parameterized infos map q s))
unfolding route_parameterized
route_parameterized-Planned [] map q p = record {
  plan = answers (ok (response http_status_not_found (codes "Path is not found : " ++ q.path)), q);
  runs = λ s. refl;
}
route_parameterized-Planned (info ∷ infos) map q p =
    elim (Option-cases (lookup (build_parameterized_path_template info.parameterized_path) map)) [
      | inl e ↦
          Planned-same (λ s. rw (e, route_parameterized) refl)
            (route_parameterized-Planned infos map q p)
      | inr (h, e) ↦
          Planned-same (λ s. rw (e, route_parameterized) refl)
            (let handed = record q { parameters = parse_parameters q.path info.parameters_meta } in
              call-Planned h handed (p.planned _ h e handed))
    ]

process_routing-Planned :
    (r : HttpRouter TelemetryStorage) (map : PathHandlerMap TelemetryStorage) (q : HttpRequest)
    → PlannedHandlers map
    → Planned (λ s. grouped (process_routing r map q s))
unfolding process_routing
process_routing-Planned r map q p = elim (Option-cases (lookup q.path map)) [
  | inl e ↦
      Planned-same (λ s. rw (e, process_routing) refl)
        (route_parameterized-Planned r.path_parameters_info map q p)
  | inr (h, e) ↦
      Planned-same (λ s. rw (e, process_routing) refl) (call-Planned h q (p.planned _ h e q))
]

route-Planned :
    (r : HttpRouter TelemetryStorage) (q : HttpRequest)
    → PlannedHandlers r.get_handlers
    → PlannedHandlers r.post_handlers
    → Planned (λ s. grouped (route r q s))
unfolding route
route-Planned r q gets posts =
    Planned-same (λ s. grouped-caught (route_method q.method r q s))
      (Planned-map caught_result (by_method q.method))
  where
    by_method : (m : HttpMethod) → Planned (λ s. grouped (route_method m r q s))
    by_method get_method = process_routing-Planned r r.get_handlers q gets
    by_method post_method = process_routing-Planned r r.post_handlers q posts
    by_method unknown_method = record {
      plan =
          answers
            (ok (response http_status_not_implemented (codes "Method is not implemented")), q);
      runs = λ s. refl;
    }

module _ (parse : Bytes → Result HttpRequest) (empty_object : Bytes)
    (router : IRouter TelemetryStorage) where
  -- What is sent for a routed request, and how the turn ends, where nothing more is read.
  abbrev reply_of : Turn → Result HttpResponse × HttpRequest → Reply
  reply_of t (ok response, request) = (
    take t.written (
          serialize empty_object
            (record { payload = response; protocol_version = request.version }))
        ∷ [],
    if t.write_error then send_failed else if keeps_alive request then waiting else not_kept_alive,
  )
  reply_of t (thrown e, request) = ([], lost)
  reply_of t (undefined, request) = ([], lost)

  replied-answer :
      (t : Turn) (x : Routed TelemetryStorage (Result HttpResponse))
      → replied (answer parse empty_object router t x (λ w. ended w waiting))
        ≡ (reply_of t (grouped x).0, (grouped x).1)
  unfolding answer
  replied-answer t (ok r, q, w) = elim (Bool-cases t.write_error) [
    | inl failed ↦ rw failed refl
    | inr fine ↦ elim (Bool-cases (keeps_alive q)) [
      | inl kept ↦ rw (fine, kept) refl
      | inr closed ↦ rw (fine, closed) refl
    ]
  ]
  replied-answer t (thrown e, q, w) = refl
  replied-answer t (undefined, q, w) = refl

  -- Where the router has a plan for every request, a turn of a session has one.
  turn-Planned :
      ((q : HttpRequest) → Planned (λ s. grouped (router.route q s)))
      → (t : Turn) → Planned (λ s. replied (client_session parse empty_object router (t ∷ []) s))
  unfolding client_session handle_read
  turn-Planned routes t = by_read t.read refl
    where
      fixed :
          (sent : List Bytes) (ending : Ending)
          → ((s : TelemetryStorage)
              → replied (client_session parse empty_object router (t ∷ []) s) ≡ ((sent, ending), s))
          → Planned (λ s. replied (client_session parse empty_object router (t ∷ []) s))
      fixed sent ending same = record { plan = answers (sent, ending); runs = same }

      by_parse :
          (raw : Bytes) (r : Result HttpRequest)
          → t.read ≡ received raw
          → is_empty (take read_buffer_size raw) ≡ false
          → parse (take read_buffer_size raw) ≡ r
          → Planned (λ s. replied (client_session parse empty_object router (t ∷ []) s))
      by_parse raw (ok q) e filled parses =
          Planned-same (λ s. rw (e, filled, parses) (replied-answer t (router.route q s)))
            (Planned-map (reply_of t) (routes q))
      by_parse raw (thrown x) e filled parses =
          fixed (take t.written (serialize empty_object (bad_request_meta (what x))) ∷ []) refused
            (λ s. rw (e, filled, parses) refl)
      by_parse raw undefined e filled parses = fixed [] lost (λ s. rw (e, filled, parses) refl)

      by_read :
          (r : ReadOutcome)
          → t.read ≡ r
          → Planned (λ s. replied (client_session parse empty_object router (t ∷ []) s))
      by_read eof e = fixed [] closed_by_peer (λ s. rw e refl)
      by_read read_error e = fixed [] read_failed (λ s. rw e refl)
      by_read (received raw) e = elim (Bool-cases (is_empty (take read_buffer_size raw))) [
        | inl empty ↦ fixed [] nothing_read (λ s. rw (e, empty) refl)
        | inr filled ↦ by_parse raw (parse (take read_buffer_size raw)) e filled refl
      ]

-- A turn over the routes of the telemetry calls the storage at most once: it answers by itself, or
-- stores one event and answers, or makes one query and answers by its result alone, on every storage
-- in the same way.
pub client_session-Planned :
    (d : Doubles) (json : Json d) (parse : Bytes → Result HttpRequest) (empty_object : Bytes)
    (t : Turn)
    → Planned (λ s.
      replied
        (client_session parse empty_object (custom_router (telemetry_router d json)) (t ∷ []) s))
client_session-Planned d json parse empty_object t =
    turn-Planned parse empty_object (custom_router (telemetry_router d json))
      (λ q. route-Planned (telemetry_router d json) q gets posts) t
  where
    gets : PlannedHandlers (telemetry_router d json).get_handlers
    gets = record {
      planned = λ k h e.
          lookup_one (λ h. (q : HttpRequest) → Planned (h q)) k _ h _
            (handle_mean_length-Planned d json) e;
    }

    posts : PlannedHandlers (telemetry_router d json).post_handlers
    posts = record {
      planned = λ k h e.
          lookup_one (λ h. (q : HttpRequest) → Planned (h q)) k _ h _ (handle_store-Planned d json)
            e;
    }
