-- ===== src/Server.antt =====
-- ctask_lib/service/http_server/http_server.cpp: the constructor, `createService`, and the loop of
-- `clientSession_`. The socket is a parameter: what each read and each write of a session gives. The
-- keep-alive timer, which closes the socket, is in KeepAlive; a read or a write here sees an error.
pub mod Creation
pub mod Session
pub mod Service
pub mod Connections
pub mod Scenario
pub mod Listening
pub mod Replies
pub mod KeepAlive
pub mod Lifecycle
pub mod Threads
pub mod Tests
use ctask.Common.{
  ℕ, Bytes, codes, bytes_eq, is_empty, Bool, true, false, ◌==◌, List, [], ◌∷◌, Option, none, some,
  take, if◌then◌else◌, ◌≡◌, ◌≢◌,
}
use ctask.Common.Assoc.{lookup}
use ctask.Common.Result.{
  Result, ok, thrown, undefined, Exception, what, invalid_argument, ◌>>=◌, ◌>>◌,
}
use ctask.Utils.{
  HttpServerArgs, HttpRequest, HttpResponse, response, HttpResponseMeta, http_status_bad_request,
  connection_header, keep_alive_connection,
}
use ctask.Router.{Routed}
use ctask.Serializer.{serialize}

-- ctask_lib/network/http/router/i_router.h, for a router that is set up. `route` is `noexcept`, and
-- it may set the parameters of a request, but neither its headers nor its version.
pub record IRouter (W : Type 0) : Type 0 where
  pub route : HttpRequest → W → Routed W (Result HttpResponse)
  pub route_noexcept : (r : HttpRequest) (w : W) (e : Exception) → (route r w).0 ≢ thrown e
  pub route_headers : (r : HttpRequest) (w : W) → (route r w).1.headers ≡ r.headers
  pub route_version : (r : HttpRequest) (w : W) → (route r w).1.version ≡ r.version

pub record HttpServer (W : Type 0) : Type 0 where
  pub address : Bytes
  pub port : ℕ
  pub threads : ℕ
  pub keep_alive_sec : ℕ
  pub router : IRouter W

-- What a read gives: the end of the stream, an error, or bytes.
pub data ReadOutcome : Type 0 where
  eof read_error : ReadOutcome
  received : Bytes → ReadOutcome

-- A read and the write that may follow it: how many bytes it takes, and whether it ends in an error.
pub record Turn : Type 0 where
  pub read : ReadOutcome
  pub written : ℕ
  pub write_error : Bool

-- Why a session has ended. `waiting` is the end of the given turns, in front of another read.
pub data Ending : Type 0 where
  waiting closed_by_peer read_failed nothing_read refused send_failed not_kept_alive lost : Ending

pub record Transcript (W : Type 0) : Type 0 where
  pub sent : List Bytes
  pub world : W
  pub ending : Ending

abbrev pub read_buffer_size : ℕ
read_buffer_size = 2048

-- The answer to a request that does not parse.
abbrev pub bad_request_meta : Bytes → HttpResponseMeta
bad_request_meta message = record {
  payload = response http_status_bad_request message;
  protocol_version = codes "1.1";
}

unfoldable pub keeps_alive : HttpRequest → Bool
unfolding bytes_eq
keeps_alive request = elim (lookup connection_header request.headers) [
  | none ↦ false
  | some value ↦ bytes_eq value keep_alive_connection
]

module _ {W : Type 0} where
  -- The members are made before the body of the constructor checks anything; the thread pool is a
  -- parameter: what making one of so many threads gives.
  unfoldable pub construct :
      (ℕ → Result (Unit {0})) → HttpServerArgs → Option (IRouter W) → Result (HttpServer W)
  construct make_pool args router = do
    make_pool args.threads
    elim router [
      | none ↦ thrown (invalid_argument (codes "Router is nullptr"))
      | some given ↦
          if args.keep_alive_sec == 0
          then thrown (invalid_argument (codes "Keep-Alive must be greater than zero"))
          else ok (record {
            address = args.address;
            port = args.port;
            threads = args.threads;
            keep_alive_sec = args.keep_alive_sec;
            router = given;
          })
    ]

  -- The flag of `std::call_once` stays unset where the constructor throws. A call with the flag set
  -- returns a null pointer.
  unfoldable pub create_service :
      (ℕ → Result (Unit {0}))
      → Bool
      → HttpServerArgs
      → Option (IRouter W)
      → Result (Option (HttpServer W)) × Bool
  create_service make_pool true args router = (ok none, true)
  create_service make_pool false args router = elim (construct make_pool args router) [
    | ok server ↦ (ok (some server), true)
    | thrown e ↦ (thrown e, false)
    | undefined ↦ (undefined, false)
  ]

  abbrev pub ended : W → Ending → Transcript W
  ended world ending = record { sent = []; world = world; ending = ending }

  abbrev pub send : Bytes → Transcript W → Transcript W
  send text t = record t { sent = text ∷ t.sent }

module _ {W : Type 0} (parse : Bytes → Result HttpRequest) (empty_object : Bytes)
    (router : IRouter W) where
  -- What follows a routed request, where `rest` is the session from the next turn on.
  unfoldable pub answer : Turn → Routed W (Result HttpResponse) → (W → Transcript W) → Transcript W
  unfolding keeps_alive
  answer t (ok response, request, world) rest =
      send
        (take t.written (
          serialize empty_object
            (record { payload = response; protocol_version = request.version })))
        (if t.write_error
          then ended world send_failed
          else if keeps_alive request
          then rest world
          else ended world not_kept_alive)
  answer t (thrown e, request, world) rest = ended world lost
  answer t (undefined, request, world) rest = ended world lost

  -- What follows the bytes of a read.
  unfoldable pub handle_read : Turn → Bytes → W → (W → Transcript W) → Transcript W
  unfolding answer
  handle_read t text world rest =
      if is_empty text then ended world nothing_read else elim (parse text) [
        | ok request ↦ answer t (router.route request world) rest
        | thrown e ↦
            send (take t.written (serialize empty_object (bad_request_meta (what e))))
              (ended world refused)
        | undefined ↦ ended world lost
      ]

  unfoldable pub client_session : List Turn → W → Transcript W
  unfolding handle_read
  client_session [] world = ended world waiting
  client_session (t ∷ ts) world = elim t.read [
    | eof ↦ ended world closed_by_peer
    | read_error ↦ ended world read_failed
    | received bytes ↦
        handle_read t (take read_buffer_size bytes) world (λ world'. client_session ts world')
  ]
