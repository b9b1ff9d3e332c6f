-- ===== src/Server/Connections/Turns.antt =====
-- A session turn by turn.
use ctask.Common.{◌≡◌, refl, Bytes, is_empty, Bool, true, false, List, [], ◌∷◌, take, if◌then◌else◌}
use ctask.Common.Result.{Result, ok, thrown, undefined, what}
use ctask.Utils.{HttpRequest, HttpResponse}
use ctask.Router.{Routed}
use ctask.Serializer.{serialize}
use ctask.Server.{
  IRouter, ReadOutcome, eof, read_error, received, Turn, Transcript, Ending, waiting, nothing_read,
  refused, send_failed, not_kept_alive, lost, read_buffer_size, keeps_alive, ended, send, answer,
  bad_request_meta, handle_read, client_session,
}
use ctask.Server.Session.{after, client_session_keeps}
use ctask.Server.Connections.{Connections, SessionStep, next_turn, SessionReach, begin, then_step}

module _ {W : Type 0} (parse : Bytes → Result HttpRequest) (empty_object : Bytes)
    (router : IRouter W) where
  -- A session that waits goes on with the turns that follow; one that has ended does not.
  abbrev pub resumed : Transcript W → List Turn → Transcript W
  resumed x ts = on_ending x.ending
    where
      on_ending : Ending → Transcript W
      on_ending waiting =
          after parse empty_object router x.sent
            (client_session parse empty_object router ts x.world)
      on_ending _ = x

  answer-resumed :
      (t : Turn) (x : Routed W (Result HttpResponse)) (ts : List Turn)
      → answer parse empty_object router t x (λ w. client_session parse empty_object router ts w)
        ≡ resumed
            (answer parse empty_object router t x
              (λ w. client_session parse empty_object router [] w))
            ts
  unfolding answer client_session
  answer-resumed t (ok response, request, w) ts = by_flags t.write_error (keeps_alive request)
    where
      text : Bytes
      text = take t.written (
          serialize empty_object
            (record { payload = response; protocol_version = request.version }))

      by_flags :
          (failed kept : Bool)
          → send text (
              if failed
              then ended w send_failed
              else if kept
              then client_session parse empty_object router ts w
              else ended w not_kept_alive)
            ≡ resumed
                (send text (
                  if failed
                  then ended w send_failed
                  else if kept
                  then client_session parse empty_object router [] w
                  else ended w not_kept_alive))
                ts
      by_flags true kept = refl
      by_flags false true = refl
      by_flags false false = refl
  answer-resumed t (thrown e, request, w) ts = refl
  answer-resumed t (undefined, request, w) ts = refl

  handle_read-resumed :
      (t : Turn) (text : Bytes) (w : W) (ts : List Turn)
      → handle_read parse empty_object router t text w
          (λ w. client_session parse empty_object router ts w)
        ≡ resumed
            (handle_read parse empty_object router t text w
              (λ w. client_session parse empty_object router [] w))
            ts
  unfolding handle_read
  handle_read-resumed t text w ts = by_text (is_empty text) (parse text)
    where
      read_with : (W → Transcript W) → Bool → Result HttpRequest → Transcript W
      read_with rest empty parsed = if empty then ended w nothing_read else elim parsed [
        | ok request ↦ answer parse empty_object router t (router.route request w) rest
        | thrown e ↦
            send (take t.written (serialize empty_object (bad_request_meta (what e))))
              (ended w refused)
        | undefined ↦ ended w lost
      ]

      by_text :
          (empty : Bool) (parsed : Result HttpRequest)
          → read_with (λ w. client_session parse empty_object router ts w) empty parsed
            ≡ resumed
                (read_with (λ w. client_session parse empty_object router [] w) empty parsed)
                ts
      by_text true parsed = refl
      by_text false (ok q) = answer-resumed t (router.route q w) ts
      by_text false (thrown e) = refl
      by_text false undefined = refl

  -- A session is its first turn by itself, whatever that turn reads and writes; and after it, if it
  -- then waits for a read, the session over the turns that follow with the world that the turn has
  -- left.
  pub client_session-resumed :
      (t : Turn) (ts : List Turn) (w : W)
      → client_session parse empty_object router (t ∷ ts) w
        ≡ resumed (client_session parse empty_object router (t ∷ []) w) ts
  unfolding client_session
  client_session-resumed t ts w = by_read t.read refl
    where
      by_read :
          (r : ReadOutcome)
          → t.read ≡ r
          → client_session parse empty_object router (t ∷ ts) w
            ≡ resumed (client_session parse empty_object router (t ∷ []) w) ts
      by_read eof e = rw e refl
      by_read read_error e = rw e refl
      by_read (received raw) e = rw e (handle_read-resumed t (take read_buffer_size raw) w ts)

  -- What the router keeps of the world, the sessions of any number of connections keep, in every
  -- order of their turns.
  pub SessionReach_keeps :
      (P : W → Type 0)
      → ((q : HttpRequest) (w : W) → P w → P (router.route q w).2)
      → {σ τ : Connections W} → SessionReach parse empty_object router σ τ
      → P σ.world
      → P τ.world
  SessionReach_keeps P keeps begin h = h
  SessionReach_keeps P keeps (then_step prior step) h =
      step_keeps step (SessionReach_keeps P keeps prior h)
    where
      step_keeps :
          {τ υ : Connections W} → SessionStep parse empty_object router τ υ → P τ.world → P υ.world
      step_keeps {τ} (next_turn {t = t} i is_next) h =
          client_session_keeps parse empty_object router P keeps (t ∷ []) τ.world h
