-- ===== src/Parser/Reuse.antt =====
-- ctask_lib/network/http/parser/json/http_parser.cpp: the object around llhttp. Its constructor
-- initializes it, and the `Defer` of `parseRequest` initializes it again on every way out.
use ctask.Common.{ℕ, Bytes, is_empty, ◌≡◌, ◌≢◌, refl, ap, List, [], ◌∷◌, map, some, if◌then◌else◌}
use ctask.Common.Result.{Result, ok}
use ctask.Utils.{HttpRequest}
use ctask.Utils.Defer.{Deferred, scoped}
use ctask.Parser.Stoll.{Platform}
use ctask.Parser.{ParserEvent, Llhttp, new_state, llhttp_execute, parsed, parse_request}

-- llhttp with the parser that it keeps: the callbacks and the code of a run depend on the parser, and
-- a run leaves another. `llhttp_init` clears whatever the parser was.
pub record LlhttpObject : Type 1 where
  pub Parser : Type 0
  pub init : Parser → Parser
  pub reset : Parser → Parser
  pub events : Parser → Bytes → List ParserEvent
  pub errno : Parser → Bytes → ℕ
  pub executed : Parser → Bytes → Parser
  pub errno_name : ℕ → Bytes
  pub hpe_invalid_header_token : ℕ
  pub callback_error : ℕ
  pub hpe_invalid_header_token-ne-ok : hpe_invalid_header_token ≢ 0
  pub callback_error-ne-ok : callback_error ≢ 0
  pub init_clears : (p q : Parser) → init p ≡ init q

module _ (platform : Platform) (object : LlhttpObject) where
  open object use {Parser, init, reset, executed}

  -- What llhttp does with a parser.
  abbrev pub llhttp_of : Parser → Llhttp
  llhttp_of p = record {
    events = object.events p;
    errno = object.errno p;
    errno_name = object.errno_name;
    hpe_invalid_header_token = object.hpe_invalid_header_token;
    callback_error = object.callback_error;
    hpe_invalid_header_token-ne-ok = object.hpe_invalid_header_token-ne-ok;
    callback_error-ne-ok = object.callback_error-ne-ok;
  }

  -- The constructor, on memory that holds anything.
  abbrev pub new_parser : Parser → Parser
  new_parser memory = init memory

  abbrev pub recharge : Deferred Parser
  recharge = some (λ p. (ok tt, init (reset p)))

  -- The body of `parseRequest`, on the parser as it is.
  unfoldable pub parse_body : Bytes → Parser → Result HttpRequest × Parser
  unfolding is_empty
  parse_body raw p = (
    parsed platform (llhttp_of p) raw (llhttp_execute platform (llhttp_of p) raw new_state),
    if is_empty raw then p else executed p raw,
  )

  unfoldable pub parse_with : Bytes → Parser → Result HttpRequest × Parser
  unfolding parse_body scoped
  parse_with raw p = scoped recharge (parse_body raw) p

  -- One parser for many texts, in turn.
  unfoldable pub parse_each : List Bytes → Parser → List (Result HttpRequest)
  parse_each [] p = []
  parse_each (raw ∷ raws) p = let (result, p') = parse_with raw p in result ∷ parse_each raws p'

  parse_with_lem :
      (raw : Bytes) (memory : Parser)
      → parse_with raw (new_parser memory)
        ≡ (parse_request platform (llhttp_of (new_parser memory)) raw, new_parser memory)
  unfolding parse_with parse_request
  parse_with_lem raw memory =
      ap (λ p. ((parse_body raw (new_parser memory)).0, p)) (object.init_clears _ memory)

  -- A parser that is used again parses each text as a new one does, whatever came before, texts that
  -- were refused included.
  pub parse_each-eq-map :
      (raws : List Bytes) (memory : Parser)
      → parse_each raws (new_parser memory)
        ≡ map (parse_request platform (llhttp_of (new_parser memory))) raws
  unfolding parse_each
  parse_each-eq-map [] memory = refl
  parse_each-eq-map (raw ∷ raws) memory = rw (parse_with_lem raw memory) (
      ap (λ r. parse_request platform (llhttp_of (new_parser memory)) raw ∷ r)
        (parse_each-eq-map raws memory))
