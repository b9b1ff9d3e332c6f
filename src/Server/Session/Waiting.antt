-- ===== src/Server/Session/Waiting.antt =====
-- What holds of a turn after which a session reads again.
use ctask.Common.{
  ◌≡◌, ◌≢◌, ◌↔◌, refl, ap, Bytes, bytes_eq_iff, is_empty, Bool, true, false, List, [], ◌∷◌, Option,
  none, some, take,
}
use ctask.Common.Assoc.{lookup}
use ctask.Common.Result.{Result, ok, thrown, undefined}
use ctask.Utils.{HttpRequest, HttpResponse, connection_header, keep_alive_connection}
use ctask.Router.{Routed}
use ctask.Server.{
  IRouter, ReadOutcome, eof, read_error, received, Turn, Transcript, waiting, read_buffer_size,
  keeps_alive, answer, handle_read, client_session,
}

pub keeps_alive_iff :
    (q : HttpRequest)
    → (keeps_alive q ≡ true) ↔ (lookup connection_header q.headers ≡ some keep_alive_connection)
unfolding keeps_alive
keeps_alive_iff q = by_header (lookup connection_header q.headers) refl
  where
    by_header :
        (o : Option Bytes)
        → lookup connection_header q.headers ≡ o
        → (keeps_alive q ≡ true) ↔ (lookup connection_header q.headers ≡ some keep_alive_connection)
    by_header none e = rw (e, keeps_alive) (λ h. cc, λ h. cc)
    by_header (some value) e =
        rw (e, keeps_alive)
          (
            λ h. ap some ((bytes_eq_iff value keep_alive_connection).0 h),
            λ h. (bytes_eq_iff value keep_alive_connection).1 (cc),
          )

pub is_empty_iff : (text : Bytes) → (is_empty text ≡ false) ↔ (text ≢ [])
unfolding is_empty
is_empty_iff [] = (λ e. cc, λ n. absurd (n refl))
is_empty_iff (b ∷ text) = (λ e f. cc, λ n. refl)

module _ {W : Type 0} (parse : Bytes → Result HttpRequest) (empty_object : Bytes)
    (router : IRouter W) where
  -- The world from which the session goes on after a routed request.
  pub record GoesOn (failed : Bool) (x : Routed W (Result HttpResponse)) (rest : W → Transcript W)
      : Type 0 where
    pub response : HttpResponse
    pub routed : HttpRequest
    pub world : W
    pub gives : x ≡ (ok response, routed, world)
    pub no_error : failed ≡ false
    pub kept : keeps_alive routed ≡ true
    pub later : (rest world).ending ≡ waiting

  answer-waiting :
      (t : Turn) (x : Routed W (Result HttpResponse)) (rest : W → Transcript W)
      → (answer parse empty_object router t x rest).ending ≡ waiting
      → GoesOn t.write_error x rest
  unfolding answer
  answer-waiting t (ok response, q, w) rest = by_flags t.write_error (keeps_alive q) refl refl
    where
      by_flags :
          (failed keeps : Bool)
          → t.write_error ≡ failed
          → keeps_alive q ≡ keeps
          → (answer parse empty_object router t (ok response, q, w) rest).ending ≡ waiting
          → GoesOn t.write_error (ok response, q, w) rest
      by_flags true keeps f k = rw f (λ h. cc)
      by_flags false false f k = rw (f, k) (λ h. cc)
      by_flags false true f k =
          rw (f, k)
            (λ h. record {
              response = response;
              routed = q;
              world = w;
              gives = refl;
              no_error = refl;
              kept = k;
              later = h;
            })
  answer-waiting t (thrown e, q, w) rest = λ h. cc
  answer-waiting t (undefined, q, w) rest = λ h. cc

  -- The same after the bytes of a read.
  pub record ReadsOn (failed : Bool) (text : Bytes) (w : W) (rest : W → Transcript W) : Type 0 where
    pub request : HttpRequest
    pub filled : text ≢ []
    pub parses : parse text ≡ ok request
    pub on : GoesOn failed (router.route request w) rest

  handle_read-waiting :
      (t : Turn) (text : Bytes) (w : W) (rest : W → Transcript W)
      → (handle_read parse empty_object router t text w rest).ending ≡ waiting
      → ReadsOn t.write_error text w rest
  unfolding handle_read
  handle_read-waiting t text w rest = by_text (is_empty text) (parse text) refl refl
    where
      by_text :
          (none_read : Bool) (parsed : Result HttpRequest)
          → is_empty text ≡ none_read
          → parse text ≡ parsed
          → (handle_read parse empty_object router t text w rest).ending ≡ waiting
          → ReadsOn t.write_error text w rest
      by_text true parsed f p = rw f (λ h. cc)
      by_text false (thrown x) f p = rw (f, p) (λ h. cc)
      by_text false undefined f p = rw (f, p) (λ h. cc)
      by_text false (ok request) f p =
          rw (f, p)
            (λ h. record {
              request = request;
              filled = (is_empty_iff text).0 f;
              parses = p;
              on = answer-waiting t (router.route request w) rest h;
            })

  -- The same after a read.
  pub record TurnsOn (read : ReadOutcome) (failed : Bool) (w : W) (rest : W → Transcript W)
      : Type 0 where
    pub raw : Bytes
    pub reads : read ≡ received raw
    pub on : ReadsOn failed (take read_buffer_size raw) w rest

  pub client_session-waiting :
      (t : Turn) (ts : List Turn) (w : W)
      → (client_session parse empty_object router (t ∷ ts) w).ending ≡ waiting
      → TurnsOn t.read t.write_error w (λ w'. client_session parse empty_object router ts w')
  unfolding client_session
  client_session-waiting t ts w = by_read t.read refl
    where
      by_read :
          (r : ReadOutcome)
          → t.read ≡ r
          → (client_session parse empty_object router (t ∷ ts) w).ending ≡ waiting
          → TurnsOn t.read t.write_error w (λ w'. client_session parse empty_object router ts w')
      by_read eof e = rw e (λ h. cc)
      by_read read_error e = rw e (λ h. cc)
      by_read (received raw) e = rw e (λ h. record {
        raw = raw;
        reads = refl;
        on =
            handle_read-waiting t (take read_buffer_size raw) w
              (λ w'. client_session parse empty_object router ts w') h;
      })
