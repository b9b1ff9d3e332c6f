-- ===== src/Server/Session.antt =====
-- What a session sends, and what it leaves of the world.
pub mod Waiting
pub mod Staying
use ctask.Common.{
  ◌≡◌, refl, sym, ap, ◌∙◌, Bytes, is_empty, Bool, true, false, List, [], ◌∷◌, ◌++◌, take,
  if◌then◌else◌,
}
use ctask.Common.Result.{Result, ok, thrown, undefined, what}
use ctask.Utils.{HttpRequest, HttpResponse}
use ctask.Router.{Routed}
use ctask.Serializer.{serialize}
use ctask.Server.{
  IRouter, ReadOutcome, eof, read_error, received, Turn, Transcript, read_buffer_size, keeps_alive,
  ended, send, answer, bad_request_meta, refused, lost, handle_read, client_session,
}

module _ {W : Type 0} (parse : Bytes → Result HttpRequest) (empty_object : Bytes)
    (router : IRouter W) where
  -- The whole answer to a request.
  abbrev pub answer_text : HttpResponse → HttpRequest → Bytes
  answer_text response request =
      serialize empty_object (record { payload = response; protocol_version = request.version })

  -- A turn that ends well: the bytes that are read parse into a request to keep the connection, the
  -- router answers it, and the whole answer is written.
  pub record Serves (t : Turn) (w w' : W) (text : Bytes) : Type 0 where
    pub raw : Bytes
    pub request : HttpRequest
    pub routed : HttpRequest
    pub response : HttpResponse
    pub read : t.read ≡ received raw
    pub filled : is_empty (take read_buffer_size raw) ≡ false
    pub parses : parse (take read_buffer_size raw) ≡ ok request
    pub routes : router.route request w ≡ (ok response, routed, w')
    pub kept : keeps_alive request ≡ true
    pub whole : take t.written text ≡ text
    pub no_error : t.write_error ≡ false
    pub answers : text ≡ answer_text response request

  -- Turns that all end well, one after the other.
  pub data ServesAll : List Turn → W → W → List Bytes → Type 0 where
    none_left : {w : W} → ServesAll [] w w []
    turn :
        {t : Turn} {ts : List Turn} {w w' w'' : W} {text : Bytes} {texts : List Bytes}
        → Serves t w w' text
        → ServesAll ts w' w'' texts
        → ServesAll (t ∷ ts) w w'' (text ∷ texts)

  -- The transcript of a session with texts sent before it.
  abbrev pub after : List Bytes → Transcript W → Transcript W
  after texts t = record t { sent = texts ++ t.sent }

  keeps_alive_congr : (q r : HttpRequest) → q.headers ≡ r.headers → keeps_alive q ≡ keeps_alive r
  unfolding keeps_alive
  keeps_alive_congr q r e = rw e refl

  routed_version :
      {t : Turn} {w w' : W} {text : Bytes} (s : Serves t w w' text)
      → s.routed.version ≡ s.request.version
  routed_version {w = w} s = ap (λ x. x.1.version) (sym s.routes) ∙ router.route_version s.request w

  routed_alive :
      {t : Turn} {w w' : W} {text : Bytes} (s : Serves t w w' text) → keeps_alive s.routed ≡ true
  routed_alive {w = w} s =
      keeps_alive_congr s.routed s.request
        (ap (λ x. x.1.headers) (sym s.routes) ∙ router.route_headers s.request w)
      ∙ s.kept

  sent_text :
      {t : Turn} {w w' : W} {text : Bytes} (s : Serves t w w' text)
      → take t.written (answer_text s.response s.routed) ≡ text
  sent_text {t = t} s =
      ap
        (λ v.
          take t.written
            (serialize empty_object (record { payload = s.response; protocol_version = v })))
        (routed_version s)
      ∙ ap (take t.written) (sym s.answers)
      ∙ s.whole

  client_session_turn :
      (t : Turn) (ts : List Turn) (w w' : W) (text : Bytes)
      → Serves t w w' text
      → client_session parse empty_object router (t ∷ ts) w
        ≡ send text (client_session parse empty_object router ts w')
  unfolding client_session handle_read answer
  client_session_turn t ts w w' text s =
      rw (s.read, s.filled, s.parses, s.routes, s.no_error, routed_alive s, sent_text s) refl

  -- While each turn ends well, the session sends the whole answer of each request in turn, each with
  -- the world that the one before has left, and then goes on with the turns that follow.
  pub client_session-ServesAll :
      {ts : List Turn} {w w' : W} {texts : List Bytes} (rest : List Turn)
      → ServesAll ts w w' texts
      → client_session parse empty_object router (ts ++ rest) w
        ≡ after texts (client_session parse empty_object router rest w')
  client_session-ServesAll rest none_left = refl
  client_session-ServesAll rest (turn {t} {ts} {w} {w'} {w''} {text} {texts} s more) =
      client_session_turn t (ts ++ rest) w w' text s
      ∙ ap (send text) (client_session-ServesAll rest more)

  if_keeps :
      (P : W → Type 0) (b : Bool) (t u : Transcript W)
      → P t.world
      → P u.world
      → P (if b then t else u).world
  if_keeps P true t u p q = p
  if_keeps P false t u p q = q

  answer_keeps :
      (P : W → Type 0) (t : Turn) (x : Routed W (Result HttpResponse)) (rest : W → Transcript W)
      → P x.2
      → ((w : W) → P w → P (rest w).world)
      → P (answer parse empty_object router t x rest).world
  unfolding answer
  answer_keeps P t (ok response, q, w) rest p more =
      if_keeps P t.write_error _ _ p (if_keeps P (keeps_alive q) _ _ (more w p) p)
  answer_keeps P t (thrown e, q, w) rest p more = p
  answer_keeps P t (undefined, q, w) rest p more = p

  handle_read_keeps :
      (P : W → Type 0) (t : Turn) (text : Bytes) (w : W) (rest : W → Transcript W)
      → P w
      → ((q : HttpRequest) (w : W) → P w → P (router.route q w).2)
      → ((w : W) → P w → P (rest w).world)
      → P (handle_read parse empty_object router t text w rest).world
  unfolding handle_read
  handle_read_keeps P t text w rest p keeps more =
      if_keeps P (is_empty text) _ _ p (by_parse (parse text) refl)
    where
      by_parse :
          (r : Result HttpRequest)
          → parse text ≡ r
          → P
              (elim (parse text) as (λ _. Transcript W) [
                | ok request ↦ answer parse empty_object router t (router.route request w) rest
                | thrown e ↦
                    send
                      (take t.written (serialize empty_object (bad_request_meta (what e))))
                      (ended w refused)
                | undefined ↦ ended w lost
              ]).world
      by_parse (ok q) e = rw e (answer_keeps P t (router.route q w) rest (keeps q w p) more)
      by_parse (thrown x) e = rw e p
      by_parse undefined e = rw e p

  -- What the router keeps of the world, a whole session keeps, whatever is read and written.
  pub client_session_keeps :
      (P : W → Type 0)
      → ((q : HttpRequest) (w : W) → P w → P (router.route q w).2)
      → (ts : List Turn) (w : W) → P w
      → P (client_session parse empty_object router ts w).world
  unfolding client_session
  client_session_keeps P keeps [] w h = h
  client_session_keeps P keeps (t ∷ ts) w h = by_read (client_session_keeps P keeps ts) t.read refl
    where
      by_read :
          ((w : W) → P w → P (client_session parse empty_object router ts w).world)
          → (r : ReadOutcome) → t.read ≡ r
          → P (client_session parse empty_object router (t ∷ ts) w).world
      by_read more eof e = rw e h
      by_read more read_error e = rw e h
      by_read more (received raw) e =
          rw e (handle_read_keeps P t (take read_buffer_size raw) w _ h keeps more)
