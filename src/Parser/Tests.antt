-- ===== src/Parser/Tests.antt =====
-- Runs of the parser on concrete input.
use ctask.Common.{
  ◌≡◌, ◌≢◌, ◌↔◌, refl, Bytes, codes, is_empty, List, [], ◌∷◌, map, All, arith, Bool, true, false,
  if◌then◌else◌,
}
use ctask.Common.Assoc.{lookup}
use ctask.Common.Result.{ok}
use ctask.Utils.{
  HttpRequest, post_method, http_method_from_string, content_length_header, content_type_header,
  json_content_type,
}
use ctask.Parser.Stoll.{Platform}
use ctask.Parser.{
  ParserEvent, on_method, on_url, on_version, on_header_field, on_header_value,
  on_header_value_complete, on_body, Llhttp, hpe_ok, new_state, llhttp_execute, parse_request,
}
use ctask.Parser.Validation.{IsValidRequest}
use ctask.Parser.Requests.{parse_request-eq-ok_iff}
use ctask.Parser.Reuse.{LlhttpObject, llhttp_of, new_parser, parse_each, parse_each-eq-map}
use ctask.Parser.Callbacks.{IsFilled, first_header, header_events, llhttp_execute_message}

abbrev pub platform : Platform
platform = record {
  moved_from = λ s. [];
  stoll_invalid = codes "stoll";
  stoll_out_of_range = codes "stoll";
}

abbrev content_headers : List (Bytes × Bytes)
content_headers = (content_length_header, codes "3") ∷ (content_type_header, json_content_type) ∷ []

-- The callbacks of one message, whatever the text.
abbrev message : List ParserEvent
message =
    on_method (codes "POST")
    ∷ on_url (codes "/paths/login")
    ∷ on_version (codes "1.1")
    ∷ on_header_field content_length_header
    ∷ on_header_value (codes "3")
    ∷ on_header_value_complete
    ∷ on_header_field content_type_header
    ∷ on_header_value json_content_type
    ∷ on_header_value_complete
    ∷ on_body (codes "[1]")
    ∷ []

abbrev pub llhttp : Llhttp
llhttp = record {
  events = λ raw. message;
  errno = λ raw. 0;
  errno_name = λ code. codes "HPE_USER";
  hpe_invalid_header_token = 10;
  callback_error = 28;
  hpe_invalid_header_token-ne-ok = λ e. omega arith;
  callback_error-ne-ok = λ e. omega arith;
}

abbrev posted : HttpRequest
posted = record {
  method = post_method;
  path = codes "/paths/login";
  version = codes "1.1";
  headers = content_headers;
  parameters = [];
  body = codes "[1]";
}

parse_request-eq-ok_iff_example : (parse_request platform llhttp (codes "POST") ≡ ok posted) ↔ (
    (codes "POST" ≢ [])
    × ((llhttp_execute platform llhttp (codes "POST") new_state).0 ≡ hpe_ok)
    × ((llhttp_execute platform llhttp (codes "POST") new_state).1.request ≡ posted)
    × IsValidRequest platform posted)
parse_request-eq-ok_iff_example = parse_request-eq-ok_iff platform llhttp (codes "POST") posted

headers-IsFilled : All IsFilled content_headers
unfolding is_empty
headers-IsFilled = ((refl, refl), ((refl, refl), tt))

llhttp_execute_message_example :
    (m : List (Bytes × Bytes)) × ((llhttp_execute platform llhttp (codes "POST") new_state).0
      ≡ hpe_ok)
    × ((llhttp_execute platform llhttp (codes "POST") new_state).1.request ≡ record {
      method = http_method_from_string (codes "POST");
      path = codes "/paths/login";
      version = codes "1.1";
      headers = m;
      parameters = [];
      body = codes "[1]";
    })
    × ((k : Bytes) → lookup k m ≡ first_header k content_headers)
unfolding header_events
llhttp_execute_message_example =
    llhttp_execute_message platform llhttp (codes "POST") (codes "POST") (codes "/paths/login")
      (codes "1.1") (codes "[1]") content_headers refl refl headers-IsFilled

-- A parser that is spoilt after one text: it has nothing to say of a second one until it is
-- initialized again.
abbrev events_once : Bool → Bytes → List ParserEvent
events_once true raw = message
events_once false raw = []

abbrev object : LlhttpObject
object = record {
  Parser = Bool;
  init = λ p. true;
  reset = λ p. p;
  events = events_once;
  errno = λ p raw. if p then 0 else 1;
  executed = λ p raw. false;
  errno_name = λ code. codes "HPE_USER";
  hpe_invalid_header_token = 10;
  callback_error = 28;
  hpe_invalid_header_token-ne-ok = λ e. omega arith;
  callback_error-ne-ok = λ e. omega arith;
  init_clears = λ p q. refl;
}

abbrev texts : List Bytes
texts = codes "POST" ∷ [] ∷ codes "POST" ∷ []

parse_each-eq-map_example :
    parse_each platform object texts (new_parser platform object false)
    ≡ map
        (parse_request platform (llhttp_of platform object (new_parser platform object false)))
        texts
parse_each-eq-map_example = parse_each-eq-map platform object texts false
