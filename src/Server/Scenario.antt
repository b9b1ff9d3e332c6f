-- ===== src/Server/Scenario.antt =====
-- A client that stores an event and then asks for its mean over one connection: the parser, the
-- session, the router, the handlers, the storage and the serializer together.
pub mod Messages
pub mod Tests
use mathlib.Core.Path.{subst}
use ctask.Common.{
  ℕ, ◌≤◌, ◌≡◌, ◌≢◌, refl, ap, sym, ◌∙◌, Bytes, codes, is_empty, true, false, List, [], ◌∷◌, All,
  take, length,
}
use ctask.Common.Result.{Result, ok}
use ctask.Utils.{HttpRequest, HttpResponse, response, get_method, post_method, http_status_ok}
use ctask.Router.{HttpHandlerFn, Routed, route, call, caught}
use ctask.Parser.Stoll.{Platform}
use ctask.Parser.{Llhttp, parse_request}
use ctask.Telemetry.Storage.{TelemetryStorage, new_storage, store_event}
use ctask.Telemetry.Mean.{Doubles, in_unit}
use ctask.Telemetry.Mean.Bounds.{gains, losses, IsSmall}
use ctask.Telemetry.Api.{Json, handle_mean_length, handle_store, caught_bad_request}
use ctask.Telemetry.Api.Handlers.{Accepts, event, handle_store_accepted, Queries, start, end}
use ctask.Telemetry.Api.Flow.{mean_answer, store_then_mean}
use ctask.Telemetry.Api.Routing.{
  telemetry_router, event_parameter, IsTemplate, handed, telemetry_outcome, telemetry_route_lem,
}
use ctask.Server.{
  received, Turn, Transcript, waiting, read_buffer_size, keeps_alive, client_session,
}
use ctask.Server.Session.{Serves, ServesAll, none_left, turn, answer_text, client_session-ServesAll}
use ctask.Server.Service.{custom_router}

module _ (platform : Platform) (llhttp : Llhttp) (empty_object : Bytes) (d : Doubles)
    (json : Json d) where
  -- The turn of a client that sends a request to be kept alive, and takes the whole of an answer.
  pub record Sends (t : Turn) (q : HttpRequest) (text : Bytes) : Type 0 where
    pub raw : Bytes
    pub read : t.read ≡ received raw
    pub filled : is_empty (take read_buffer_size raw) ≡ false
    pub parses : parse_request platform llhttp (take read_buffer_size raw) ≡ ok q
    pub kept : keeps_alive q ≡ true
    pub whole : take t.written text ≡ text
    pub no_error : t.write_error ≡ false

  -- The answer 200 with a message.
  abbrev pub ok_text : HttpRequest → Bytes → Bytes
  ok_text q message =
      answer_text (parse_request platform llhttp) empty_object
        (custom_router (telemetry_router d json)) (response http_status_ok message) q

  caught_ok :
      (handler : HttpHandlerFn TelemetryStorage) (q : HttpRequest) (s s' : TelemetryStorage)
      (r : HttpResponse)
      → handler q s ≡ (ok r, s')
      → caught (call handler q s) ≡ (ok r, q, s')
  caught_ok handler q s s' r e = rw e refl

  Sends-Serves :
      (t : Turn) (q : HttpRequest) (message : Bytes) (s s' : TelemetryStorage)
      → Sends t q (ok_text q message)
      → route (telemetry_router d json) q s
        ≡ (ok (response http_status_ok message), handed d json q, s')
      → Serves
          (parse_request platform llhttp)
          empty_object
          (custom_router (telemetry_router d json))
          t
          s
          s'
          (ok_text q message)
  Sends-Serves t q message s s' sends routes = record {
    raw = sends.raw;
    request = q;
    routed = handed d json q;
    response = response http_status_ok message;
    read = sends.read;
    filled = sends.filled;
    parses = sends.parses;
    routes = routes;
    kept = sends.kept;
    whole = sends.whole;
    no_error = sends.no_error;
    answers = refl;
  }

  mean_handled :
      (q : HttpRequest) (s : TelemetryStorage) (r : HttpResponse)
      → (handle_mean_length d json q s).0 ≡ ok r
      → handle_mean_length d json q s ≡ (ok r, s)
  unfolding handle_mean_length
  mean_handled q s r e = ap (λ x. (x, s)) e

  -- A POST that the handler accepts, by a path that is not the template, on any storage.
  post_routes :
      (post : HttpRequest) (a : Accepts d json (handed d json post)) (s : TelemetryStorage)
      → post.method ≡ post_method
      → post.path ≢ codes "/paths/{}"
      → route (telemetry_router d json) post s ≡ (
        ok (response http_status_ok []),
        handed d json post,
        store_event a.name (event d json a) s,
      )
  post_routes post a s is_post path =
      telemetry_route_lem d json post s
        (λ t. path (subst (λ m. IsTemplate d json m post.path) is_post t))
      ∙ ap (λ m. telemetry_outcome d json m post s) is_post
      ∙ caught_ok (handle_store d json) (handed d json post) s _ _
          (handle_store_accepted d json (handed d json post) s a)

  -- The turn of such a POST, on any storage.
  pub post_turn_lem :
      (t : Turn) (post : HttpRequest) (a : Accepts d json (handed d json post))
      (s : TelemetryStorage)
      → Sends t post (ok_text post [])
      → post.method ≡ post_method
      → post.path ≢ codes "/paths/{}"
      → client_session
          (parse_request platform llhttp)
          empty_object
          (custom_router (telemetry_router d json))
          (t ∷ [])
          s
        ≡ record {
          sent = ok_text post [] ∷ [];
          world = store_event a.name (event d json a) s;
          ending = waiting;
        }
  post_turn_lem t post a s sends is_post path =
      client_session-ServesAll (parse_request platform llhttp) empty_object
        (custom_router (telemetry_router d json)) []
        (turn (Sends-Serves t post [] s _ sends (post_routes post a s is_post path)) none_left)
      ∙ (unfold client_session in refl)

  -- A client sends a POST of ten values, none negative or above 214748364, as the first request to a
  -- new storage, and then a GET for the event of that name with bounds around its timestamp, each in
  -- one read, to be kept alive, and by a path that is not the template. It is sent 200, and then 200
  -- with the sum of the values, divided by one, in the unit that it asked for; and the storage holds
  -- the event.
  pub store_and_ask :
      (t1 t2 : Turn) (post get : HttpRequest) (message : Bytes)
      → Sends t1 post (ok_text post [])
      → Sends t2 get (ok_text get message)
      → post.method ≡ post_method
      → post.path ≢ codes "/paths/{}"
      → get.method ≡ get_method
      → get.path ≢ codes "/paths/{}/meanLength"
      → (a : Accepts d json (handed d json post)) (q : Queries d json (handed d json get))
      → q.name ≡ a.name
      → start d json q ≤ a.dto.date
      → a.dto.date ≤ end d json q
      → All IsSmall a.dto.values
      → losses a.dto.values ≡ 0
      → json.dump_mean (in_unit d q.unit (d.divide (d.of_u64 (gains a.dto.values)) (d.of_u64 1)))
        ≡ ok message
      → client_session
          (parse_request platform llhttp)
          empty_object
          (custom_router (telemetry_router d json))
          (t1 ∷ t2 ∷ [])
          new_storage
        ≡ record {
          sent = ok_text post [] ∷ ok_text get message ∷ [];
          world = store_event a.name (event d json a) new_storage;
          ending = waiting;
        }
  store_and_ask t1 t2 post get message sends1 sends2 is_post path1 is_get path2 a q same low high
        small nonneg dumped =
      let s' = store_event a.name (event d json a) new_storage in
      let stored = handle_store_accepted d json (handed d json post) new_storage a in
      let routed1 = post_routes post a new_storage is_post path1 in
      let mean : (handle_mean_length d json (handed d json get) s').0
          ≡ ok (response http_status_ok message) =
        ap (λ x. (handle_mean_length d json (handed d json get) x.1).0) (sym stored)
        ∙ store_then_mean d json (handed d json post) (handed d json get) a q same low high small
            nonneg
        ∙ (unfold caught_bad_request in rw dumped refl) in
      let routed2 : route (telemetry_router d json) get s'
          ≡ (ok (response http_status_ok message), handed d json get, s') =
        telemetry_route_lem d json get s'
          (λ t. path2 (subst (λ m. IsTemplate d json m get.path) is_get t))
        ∙ ap (λ m. telemetry_outcome d json m get s') is_get
        ∙ caught_ok (handle_mean_length d json) (handed d json get) s' s' _
            (mean_handled (handed d json get) s' _ mean) in
      client_session-ServesAll (parse_request platform llhttp) empty_object
        (custom_router (telemetry_router d json)) []
        (turn (Sends-Serves t1 post [] new_storage s' sends1 routed1)
          (turn (Sends-Serves t2 get message s' s' sends2 routed2) none_left))
      ∙ (unfold client_session in refl)
