-- ===== src/Parser/Callbacks.antt =====
-- What the callbacks build from the parts of a message.
use ctask.Common.{
  ℕ, Bytes, bytes_eq, is_empty, ◌≡◌, refl, ap, ◌∙◌, false, List, [], ◌∷◌, ◌++◌, All, Option, none,
  some, arith, if◌then◌else◌,
}
use ctask.Common.Assoc.{lookup, emplace, lookup-emplace}
use ctask.Utils.{HttpRequest, empty_request, http_method_from_string}
use ctask.Parser.Stoll.{Platform}
use ctask.Parser.{
  ParserEvent, on_method, on_url, on_version, on_header_field, on_header_value,
  on_header_value_complete, on_body, Llhttp, HttpRequestParsingState, new_state, run_callbacks,
  llhttp_execute, hpe_ok,
}

-- The callbacks for a list of headers.
unfoldable pub header_events : List (Bytes × Bytes) → List ParserEvent
header_events [] = []
header_events ((field, value) ∷ hs) =
    on_header_field field ∷ on_header_value value ∷ on_header_value_complete ∷ header_events hs

unfoldable pub add_headers : List (Bytes × Bytes) → List (Bytes × Bytes) → List (Bytes × Bytes)
add_headers [] m = m
add_headers ((field, value) ∷ hs) m = add_headers hs (emplace field value m)

-- The callbacks for a whole message.
abbrev pub message_events : Bytes → Bytes → Bytes → List (Bytes × Bytes) → Bytes → List ParserEvent
message_events method path version hs body =
    on_method method ∷ on_url path ∷ on_version version ∷ (header_events hs ++ on_body body ∷ [])

abbrev pub IsFilled : Bytes × Bytes → Type 0
IsFilled (field, value) = (is_empty field ≡ false) × (is_empty value ≡ false)

-- The value of the first header with a name.
unfoldable pub first_header : Bytes → List (Bytes × Bytes) → Option Bytes
first_header k [] = none
first_header k ((field, value) ∷ hs) = if bytes_eq field k then some value else first_header k hs

abbrev or_first : Option Bytes → Option Bytes → Option Bytes
or_first none later = later
or_first (some v) later = some v

lookup-add_headers :
    (k : Bytes) (hs m : List (Bytes × Bytes))
    → lookup k (add_headers hs m) ≡ or_first (lookup k m) (first_header k hs)
unfolding add_headers first_header
lookup-add_headers k [] m = ground arith
lookup-add_headers k ((field, value) ∷ hs) m =
    ground (arith, lookup-add_headers k hs (emplace field value m), lookup-emplace field k value m)

module _ (platform : Platform) (llhttp : Llhttp) where
  run_headers :
      (hs : List (Bytes × Bytes)) (es : List ParserEvent) (final : ℕ) (s : HttpRequestParsingState)
      → All IsFilled hs
      → (s' : HttpRequestParsingState) × (run_callbacks platform llhttp
            (header_events hs ++ es)
            final
            s
          ≡ run_callbacks platform llhttp es final s')
        × (s'.request ≡ record s.request { headers = add_headers hs s.request.headers })
  unfolding run_callbacks header_events add_headers
  run_headers [] es final s filled = (s, refl, refl)
  run_headers ((field, value) ∷ hs) es final s filled =
      let (s', e, same) =
        run_headers hs es final
          (record {
            request = record s.request { headers = emplace field value s.request.headers };
            current_header_field = platform.moved_from field;
            current_header_value = platform.moved_from value;
          })
          filled.1 in
      (s', rw (filled.0.0, filled.0.1) e, same)

  -- When llhttp calls back for a method, a path, a version, filled headers and a body, and ends
  -- without an error, the request has these, and under each header's name the value of the first
  -- header with the name.
  pub llhttp_execute_message :
      (raw method path version body : Bytes) (hs : List (Bytes × Bytes))
      → llhttp.events raw ≡ message_events method path version hs body
      → llhttp.errno raw ≡ hpe_ok
      → All IsFilled hs
      → (m : List (Bytes × Bytes)) × ((llhttp_execute platform llhttp raw new_state).0 ≡ hpe_ok)
        × ((llhttp_execute platform llhttp raw new_state).1.request ≡ record {
          method = http_method_from_string method;
          path = path;
          version = version;
          headers = m;
          parameters = [];
          body = body;
        })
        × ((k : Bytes) → lookup k m ≡ first_header k hs)
  unfolding llhttp_execute lookup
  llhttp_execute_message raw method path version body hs events errno filled =
      let s : HttpRequestParsingState = record {
        request = record empty_request {
          method = http_method_from_string method;
          path = path;
          version = version;
        };
        current_header_field = [];
        current_header_value = [];
      } in
      let (s', e, same) = run_headers hs (on_body body ∷ []) hpe_ok s filled in
      let whole : llhttp_execute platform llhttp raw new_state
          ≡ (hpe_ok, record s' { request = record s'.request { body = body } }) =
        rw (events, errno) e in
      (
        add_headers hs [],
        ap (λ (p : ℕ × HttpRequestParsingState). p.0) whole,
        ap (λ (p : ℕ × HttpRequestParsingState). p.1.request) whole
            ∙ ap (λ (q : HttpRequest). record q { body = body }) same,
        λ k. lookup-add_headers k hs [],
      )
