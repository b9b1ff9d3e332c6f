-- ===== src/Server/Session/Staying.antt =====
-- When a session reads again: what holds of all its turns, in both directions.
use mathlib.Core.Path.{subst}
use ctask.Common.{◌≡◌, ◌≢◌, ◌↔◌, refl, sym, ap, ◌∙◌, Bytes, false, List, [], ◌∷◌, some, take}
use ctask.Common.Assoc.{lookup}
use ctask.Common.Result.{Result, ok}
use ctask.Utils.{HttpRequest, HttpResponse, connection_header, keep_alive_connection}
use ctask.Serializer.{serialize}
use ctask.Server.{
  IRouter, received, Turn, Transcript, waiting, read_buffer_size, send, answer, handle_read,
  client_session,
}
use ctask.Server.Session.Waiting.{keeps_alive_iff, is_empty_iff, TurnsOn, client_session-waiting}

module _ {W : Type 0} (parse : Bytes → Result HttpRequest) (empty_object : Bytes)
    (router : IRouter W) where
  -- A turn after which the session reads again, with the text that it sends: as much of the answer as
  -- the write takes.
  pub record StaysOpen (t : Turn) (w w' : W) (text : Bytes) : Type 0 where
    pub raw : Bytes
    pub request : HttpRequest
    pub routed : HttpRequest
    pub response : HttpResponse
    pub read : t.read ≡ received raw
    pub filled : take read_buffer_size raw ≢ []
    pub parses : parse (take read_buffer_size raw) ≡ ok request
    pub routes : router.route request w ≡ (ok response, routed, w')
    pub kept : lookup connection_header request.headers ≡ some keep_alive_connection
    pub no_error : t.write_error ≡ false
    pub answers :
        text
        ≡ take t.written (
            serialize empty_object
              (record { payload = response; protocol_version = request.version }))

  -- Turns after each of which the session reads again, with what they send and leave.
  pub data StayOpen : List Turn → W → W → List Bytes → Type 0 where
    no_turn : {w : W} → StayOpen [] w w []
    one_more :
        {t : Turn} {ts : List Turn} {w w' w'' : W} {text : Bytes} {texts : List Bytes}
        → StaysOpen t w w' text
        → StayOpen ts w' w'' texts
        → StayOpen (t ∷ ts) w w'' (text ∷ texts)

  -- What a session that reads again does in a turn.
  staying :
      (t : Turn) (w : W) (rest : W → Transcript W)
      → (x : TurnsOn parse empty_object router t.read t.write_error w rest)
      → StaysOpen t w x.on.on.world (
          take t.written (
            serialize empty_object
              (record { payload = x.on.on.response; protocol_version = x.on.request.version })))
  staying t w rest x = record {
    raw = x.raw;
    request = x.on.request;
    routed = x.on.on.routed;
    response = x.on.on.response;
    read = x.reads;
    filled = x.on.filled;
    parses = x.on.parses;
    routes = x.on.on.gives;
    kept =
        ap (lookup connection_header)
          (sym (router.route_headers x.on.request w) ∙ ap (λ y. y.1.headers) x.on.on.gives)
        ∙ (keeps_alive_iff x.on.on.routed).0 x.on.on.kept;
    no_error = x.on.on.no_error;
    answers = refl;
  }

  waits-StayOpen :
      (ts : List Turn) (w : W)
      → (client_session parse empty_object router ts w).ending ≡ waiting
      → (w' : W) × (texts : List Bytes) × StayOpen ts w w' texts
  waits-StayOpen [] w h = (w, [], no_turn)
  waits-StayOpen (t ∷ ts) w h =
      let x = client_session-waiting parse empty_object router t ts w h in
      let (w', texts, more) = waits-StayOpen ts x.on.on.world x.on.on.later in
      (w', _, one_more (staying t w _ x) more)

  client_session_turn :
      {t : Turn} (ts : List Turn) {w w' : W} {text : Bytes}
      → StaysOpen t w w' text
      → client_session parse empty_object router (t ∷ ts) w
        ≡ send text (client_session parse empty_object router ts w')
  unfolding client_session handle_read answer
  client_session_turn {t} ts {w} {w'} {text} s =
      let version : s.routed.version ≡ s.request.version =
        ap (λ x. x.1.version) (sym s.routes) ∙ router.route_version s.request w in
      let headers : s.routed.headers ≡ s.request.headers =
        ap (λ x. x.1.headers) (sym s.routes) ∙ router.route_headers s.request w in
      let alive = (keeps_alive_iff s.routed).1 (ap (lookup connection_header) headers ∙ s.kept) in
      let nonempty = (is_empty_iff (take read_buffer_size s.raw)).1 s.filled in
      rw (s.read, nonempty, s.parses, s.routes, s.no_error, alive, version, sym s.answers) refl

  StayOpen-waits :
      {ts : List Turn} {w w' : W} {texts : List Bytes}
      → StayOpen ts w w' texts
      → client_session parse empty_object router ts w
        ≡ record { sent = texts; world = w'; ending = waiting }
  unfolding client_session
  StayOpen-waits no_turn = refl
  StayOpen-waits (one_more {t} {ts} {text = text} s more) =
      client_session_turn ts s ∙ ap (send text) (StayOpen-waits more)

  -- A session reads again after some turns, having sent some texts and left a world, exactly when
  -- in each turn some bytes were read without an error, what of them fits into the buffer is a
  -- request that parses and asks by its Connection header to be kept alive, the router answers it,
  -- and the write ends without an error; and the texts are the answers of the turns in order, each
  -- as far as its write takes it and in the version of its request, each from the world that the
  -- turn before has left, and the world is that of the last.
  pub client_session-eq-waiting_iff :
      (ts : List Turn) (w w' : W) (texts : List Bytes)
      → (client_session parse empty_object router ts w
          ≡ record { sent = texts; world = w'; ending = waiting })
        ↔ StayOpen ts w w' texts
  client_session-eq-waiting_iff ts w w' texts = (
    λ e.
        let (w1, texts1, stay) = waits-StayOpen ts w (ap (λ x. x.ending) e) in
        let same = sym (StayOpen-waits stay) ∙ e in
        subst (λ v. StayOpen ts w v texts) (ap (λ x. x.world) same)
          (subst (λ u. StayOpen ts w w1 u) (ap (λ x. x.sent) same) stay),
    λ stay. StayOpen-waits stay,
  )
