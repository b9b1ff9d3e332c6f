-- ===== src/Server/Connections/Effects.antt =====
-- What one turn of a session does to the storage, and what it sends.
use ctask.Common.{
  ◌≡◌, refl, ap, ◌∙◌, Bytes, is_empty, Bool, true, false, List, [], ◌∷◌, take, if◌then◌else◌,
  Bool-cases, inl, inr,
}
use ctask.Common.Result.{Result, ok, thrown, undefined}
use ctask.Utils.{HttpRequest, HttpResponse, post_method, response, http_status_ok}
use ctask.Router.{Routed, route}
use ctask.Parser.Stoll.{Platform}
use ctask.Parser.{Llhttp, parse_request}
use ctask.Telemetry.Storage.{TelemetryStorage, store_event}
use ctask.Telemetry.Mean.{Doubles}
use ctask.Telemetry.Api.{Json}
use ctask.Telemetry.Api.Handlers.{Accepts, event}
use ctask.Telemetry.Api.Effects.{Effect, kept, acknowledged, route-Effect}
use ctask.Telemetry.Api.Routing.{telemetry_router}
use ctask.Server.{
  IRouter, ReadOutcome, eof, read_error, received, Turn, Transcript, Ending, waiting, send_failed,
  not_kept_alive, keeps_alive, ended, read_buffer_size, answer, handle_read, client_session,
}
use ctask.Server.Session.{answer_text}
use ctask.Server.Service.{custom_router}

module _ {W : Type 0} (parse : Bytes → Result HttpRequest) (empty_object : Bytes)
    (router : IRouter W) where
  -- The texts that follow a routed request.
  abbrev pub texts_of : Turn → Result HttpResponse → HttpRequest → List Bytes
  texts_of t (ok r) q = take t.written (answer_text parse empty_object router r q) ∷ []
  texts_of t _ q = []

  -- Where nothing more is read, the flags decide the ending alone.
  ended_by :
      (failed alive : Bool) (w : W) (a b c : Ending)
      → (if failed then ended w a else if alive then ended w b else ended w c)
        ≡ ended w (if failed then a else if alive then b else c)
  ended_by true alive w a b c = refl
  ended_by false true w a b c = refl
  ended_by false false w a b c = refl

  answer_one :
      (t : Turn) (x : Routed W (Result HttpResponse))
      → ((answer parse empty_object router t x (λ w. ended w waiting)).world ≡ x.2)
        × ((answer parse empty_object router t x (λ w. ended w waiting)).sent ≡ texts_of t x.0 x.1)
  unfolding answer
  answer_one t (ok r, q, w) =
      let same = ended_by t.write_error (keeps_alive q) w send_failed waiting not_kept_alive in
      (
        ap (λ (x : Transcript W). x.world) same,
        ap
            (λ (x : Transcript W).
              take t.written (answer_text parse empty_object router r q) ∷ x.sent)
            same,
      )
  answer_one t (thrown e, q, w) = (refl, refl)
  answer_one t (undefined, q, w) = (refl, refl)

  -- A turn of which a request is parsed and routed.
  pub client_session_one :
      (t : Turn) (w : W) (raw : Bytes) (q : HttpRequest)
      → t.read ≡ received raw
      → is_empty (take read_buffer_size raw) ≡ false
      → parse (take read_buffer_size raw) ≡ ok q
      → ((client_session parse empty_object router (t ∷ []) w).world ≡ (router.route q w).2)
        × ((client_session parse empty_object router (t ∷ []) w).sent
            ≡ texts_of t (router.route q w).0 (router.route q w).1)
  unfolding client_session handle_read
  client_session_one t w raw q at_read filled parses =
      rw (at_read, filled, parses) (answer_one t (router.route q w))

  -- Either a turn leaves the world, or a request is parsed of what it reads and routed.
  pub data Routes (t : Turn) (w : W) (x : Transcript W) : Type 0 where
    unrouted : x.world ≡ w → Routes t w x
    routed :
        (raw : Bytes) (q : HttpRequest)
        → t.read ≡ received raw
        → parse (take read_buffer_size raw) ≡ ok q
        → x.world ≡ (router.route q w).2
        → x.sent ≡ texts_of t (router.route q w).0 (router.route q w).1
        → Routes t w x

  pub client_session-Routes :
      (t : Turn) (w : W) → Routes t w (client_session parse empty_object router (t ∷ []) w)
  unfolding client_session
  client_session-Routes t w = by_read t.read refl
    where
      by_parse :
          (raw : Bytes) (r : Result HttpRequest)
          → t.read ≡ received raw
          → is_empty (take read_buffer_size raw) ≡ false
          → parse (take read_buffer_size raw) ≡ r
          → Routes t w (client_session parse empty_object router (t ∷ []) w)
      by_parse raw (ok q) e filled parses =
          let (world, sent) = client_session_one t w raw q e filled parses in
          routed raw q e parses world sent
      by_parse raw (thrown x) e filled parses =
          unrouted (unfold client_session handle_read in rw (e, filled, parses) refl)
      by_parse raw undefined e filled parses =
          unrouted (unfold client_session handle_read in rw (e, filled, parses) refl)

      by_read :
          (r : ReadOutcome)
          → t.read ≡ r
          → Routes t w (client_session parse empty_object router (t ∷ []) w)
      by_read eof e = unrouted (rw e refl)
      by_read read_error e = unrouted (rw e refl)
      by_read (received raw) e = elim (Bool-cases (is_empty (take read_buffer_size raw))) [
        | inl empty ↦ unrouted (unfold handle_read in rw (e, empty) refl)
        | inr filled ↦ by_parse raw _ e filled refl
      ]

module _ (d : Doubles) (json : Json d) (platform : Platform) (llhttp : Llhttp)
    (empty_object : Bytes) where
  -- The storage stays as it is; or what is read parses to a POST request that the handler accepts
  -- with some parameters, its event is stored, and what is sent is the answer 200, as far as it is
  -- written.
  pub data TurnEffect (t : Turn) (s : TelemetryStorage) (x : Transcript TelemetryStorage)
      : Type 0 where
    unchanged : x.world ≡ s → TurnEffect t s x
    stored_one :
        (raw : Bytes) (q : HttpRequest) (parameters : List (Bytes × Bytes))
        (a : Accepts d json (record q { parameters = parameters }))
        → t.read ≡ received raw
        → parse_request platform llhttp (take read_buffer_size raw) ≡ ok q
        → q.method ≡ post_method
        → x.world ≡ store_event a.name (event d json a) s
        → x.sent
          ≡ take t.written (
              answer_text
                (parse_request platform llhttp)
                empty_object
                (custom_router (telemetry_router d json))
                (response http_status_ok [])
                q)
            ∷ []
        → TurnEffect t s x

  -- Each turn of a session leaves the storage as it is; or it reads the text of a POST request that
  -- the handler accepts, stores its event, and answers that with 200: nothing else is ever stored.
  pub client_session-TurnEffect :
      (t : Turn) (s : TelemetryStorage)
      → TurnEffect t s (
          client_session
            (parse_request platform llhttp)
            empty_object
            (custom_router (telemetry_router d json))
            (t ∷ [])
            s)
  client_session-TurnEffect t s = by_routes _ (
      client_session-Routes (parse_request platform llhttp) empty_object
        (custom_router (telemetry_router d json)) t s)
    where
      by_routes :
          (x : Transcript TelemetryStorage)
          → Routes
              (parse_request platform llhttp)
              empty_object
              (custom_router (telemetry_router d json))
              t
              s
              x
          → TurnEffect t s x
      by_routes x (unrouted same) = unchanged same
      by_routes x (routed raw q at_read parses world sent) = by_effect (route-Effect d json q s)
        where
          by_effect : Effect d json q s (route (telemetry_router d json) q s) → TurnEffect t s x
          by_effect (kept same) = unchanged (world ∙ same)
          by_effect (acknowledged ps a post done) =
              stored_one raw q ps a at_read parses post (world ∙ ap (λ x. x.2) done) (
                sent
                ∙ ap
                    (λ (x : Routed TelemetryStorage (Result HttpResponse)).
                      texts_of (parse_request platform llhttp) empty_object
                        (custom_router (telemetry_router d json)) t x.0 x.1)
                    done)
