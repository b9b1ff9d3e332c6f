-- ===== src/Server/Replies.antt =====
-- What a client reads of a whole session, by the lengths that its answers announce.
use mathlib.Core.List.{append-nil}
use ctask.Common.{
  ℕ, ◌+◌, ◌≡◌, refl, ap, sym, ◌∙◌, Bytes, List, [], ◌∷◌, ◌++◌, map, length, All, some,
}
use ctask.Common.Result.{Result}
use ctask.Utils.{HttpRequest, HttpResponseMeta}
use ctask.Serializer.{serialize}
use ctask.Serializer.Stream.{read_stream, read_of, IsPlain, stream, read_stream-stream}
use ctask.Server.{IRouter, Turn, client_session}
use ctask.Server.Session.{ServesAll, none_left, turn, after, client_session-ServesAll}

-- The bytes of texts that are sent one after the other.
unfoldable pub joined : List Bytes → Bytes
joined [] = []
joined (text ∷ texts) = text ++ joined texts

module _ {W : Type 0} (parse : Bytes → Result HttpRequest) (empty_object : Bytes)
    (router : IRouter W) where
  -- The answers of turns that all end well.
  unfoldable pub answers_of :
      {ts : List Turn} {w w' : W} {texts : List Bytes}
      → ServesAll parse empty_object router ts w w' texts
      → List HttpResponseMeta
  answers_of none_left = []
  answers_of (turn s more) =
      record { payload = s.response; protocol_version = s.request.version } ∷ answers_of more

  joined-eq-stream :
      {ts : List Turn} {w w' : W} {texts : List Bytes}
      (served : ServesAll parse empty_object router ts w w' texts)
      → joined texts ≡ stream empty_object (answers_of served)
  unfolding joined stream answers_of
  joined-eq-stream none_left = refl
  joined-eq-stream (turn {texts = texts} s more) =
      ap (λ text. text ++ joined texts) s.answers
      ∙ ap
          (λ rest.
            serialize empty_object
              (record { payload = s.response; protocol_version = s.request.version })
            ++ rest)
          (joined-eq-stream more)

  -- From all the bytes that a session sends while each turn ends well, and while the answers hold no
  -- carriage return in their versions and headers and have at most `most` headers each, a reader that
  -- goes by Content-Length gets back the lines and the body of the answer of each turn, in order.
  pub read_session :
      (most : ℕ) {ts : List Turn} {w w' : W} {texts : List Bytes}
      (served : ServesAll parse empty_object router ts w w' texts)
      → All (IsPlain most) (answers_of served)
      → read_stream
          (length (answers_of served))
          (most + 4)
          (joined (client_session parse empty_object router ts w).sent)
        ≡ some (map (read_of empty_object) (answers_of served))
  read_session most {ts} {w} {w'} {texts} served plain =
      let session : client_session parse empty_object router ts w
          ≡ after parse empty_object router texts (client_session parse empty_object router [] w') =
        ap (λ ts. client_session parse empty_object router ts w) (sym (append-nil ts))
        ∙ client_session-ServesAll parse empty_object router [] served in
      rw session (
        unfold client_session in
        ap (λ texts. read_stream (length (answers_of served)) (most + 4) (joined texts))
          (append-nil texts)
        ∙ ap (read_stream (length (answers_of served)) (most + 4)) (joined-eq-stream served)
        ∙ read_stream-stream empty_object most (answers_of served) plain)
