-- ===== src/Parser.antt =====
-- ctask_lib/network/http/parser/json: the callbacks that llhttp makes, the validators and
-- `parseRequest`. llhttp itself is a parameter: the callbacks that it makes for a text while they
-- succeed, and the code with which it ends.
pub mod Stoll
pub mod Validation
pub mod Requests
pub mod Reuse
pub mod Callbacks
pub mod Tests
use ctask.Common.{
  ℕ, ◌^◌, ◌%◌, Bytes, codes, bytes_eq, is_empty, Bool, true, false, not, ◌&&◌, ◌||◌, ◌==◌, List, [],
  ◌∷◌, ◌++◌, Option, none, some, length, if◌then◌else◌, ◌≡◌, ◌≢◌,
}
use ctask.Common.Assoc.{lookup, emplace}
use ctask.Common.Int.{to_u64}
use ctask.Common.Result.{Result, ok, thrown, invalid_argument, runtime_error, ◌>>=◌, ◌>>◌}
use ctask.Utils.{
  HttpRequest, empty_request, HttpMethod, get_method, post_method, unknown_method,
  http_method_from_string, content_length_header, content_type_header, json_content_type,
}
use Stoll.{Platform, stoll}

pub data ParserEvent : Type 0 where
  on_method on_url on_version on_header_field on_header_value on_body : Bytes → ParserEvent
  on_header_value_complete : ParserEvent

-- What the program relies on of llhttp. `llhttp_execute` calls back until a callback returns an
-- error, and then ends with `callback_error`.
pub record Llhttp : Type 0 where
  pub events : Bytes → List ParserEvent
  pub errno : Bytes → ℕ
  pub errno_name : ℕ → Bytes
  pub hpe_invalid_header_token : ℕ
  pub callback_error : ℕ
  pub hpe_invalid_header_token-ne-ok : hpe_invalid_header_token ≢ 0
  pub callback_error-ne-ok : callback_error ≢ 0

abbrev pub hpe_ok : ℕ
hpe_ok = 0

pub record HttpRequestParsingState : Type 0 where
  pub request : HttpRequest
  pub current_header_field : Bytes
  pub current_header_value : Bytes

abbrev pub new_state : HttpRequestParsingState
new_state = record { request = empty_request; current_header_field = []; current_header_value = [] }

-- `throwIf`: an exception unless the test fails.
abbrev pub throw_if : Bool → Bytes → Result (Unit {0})
throw_if true message = thrown (runtime_error message)
throw_if false message = ok tt

abbrev pub is_get : HttpMethod → Bool
is_get get_method = true
is_get _ = false

-- The validators of a length and of a type pass these methods over.
abbrev pub is_get_or_unknown : HttpMethod → Bool
is_get_or_unknown post_method = false
is_get_or_unknown _ = true

unfoldable pub validate_path : HttpRequest → Result (Unit {0})
validate_path r = throw_if (is_empty r.path) (codes "Empty path")

unfoldable pub validate_version : HttpRequest → Result (Unit {0})
validate_version r = throw_if (is_empty r.version) (codes "Empty version")

unfoldable pub validate_headers : HttpRequest → Result (Unit {0})
validate_headers r = throw_if (is_empty r.headers) (codes "Empty headers")

unfoldable pub validate_body : HttpRequest → Result (Unit {0})
validate_body r = throw_if (not (is_get r.method) && is_empty r.body) (codes "Empty body")

module _ (platform : Platform) where
  unfoldable pub validate_content_length : HttpRequest → Result (Unit {0})
  validate_content_length r =
      if is_get_or_unknown r.method then ok tt else elim (lookup content_length_header r.headers) [
        | none ↦ thrown (runtime_error (codes "Empty content length"))
        | some text ↦ do
          value ← stoll platform text
          throw_if (not (to_u64 value == length r.body)) (codes "Content length mismatch")
      ]

  unfoldable pub validate_content_type : HttpRequest → Result (Unit {0})
  validate_content_type r =
      if is_get_or_unknown r.method then ok tt else elim (lookup content_type_header r.headers) [
        | none ↦ thrown (runtime_error (codes "Empty content type"))
        | some text ↦
            throw_if (not (bytes_eq text json_content_type))
              (codes "Invalid content type, application/json is expected")
      ]

  unfoldable pub validate : HttpRequest → Result (Unit {0})
  validate r = do
    validate_path r
    validate_version r
    validate_headers r
    validate_body r
    validate_content_length r
    validate_content_type r

module _ (platform : Platform) (llhttp : Llhttp) where
  -- One callback: the code that it returns, and the state that it leaves.
  unfoldable pub callback : ParserEvent → HttpRequestParsingState → ℕ × HttpRequestParsingState
  unfolding is_empty emplace http_method_from_string
  callback (on_method at) s =
      (hpe_ok, record s { request = record s.request { method = http_method_from_string at } })
  callback (on_url at) s = (hpe_ok, record s { request = record s.request { path = at } })
  callback (on_version at) s = (hpe_ok, record s { request = record s.request { version = at } })
  callback (on_header_field at) s = (hpe_ok, record s { current_header_field = at })
  callback (on_header_value at) s = (hpe_ok, record s { current_header_value = at })
  callback on_header_value_complete s =
      if is_empty s.current_header_field || is_empty s.current_header_value
      then (llhttp.hpe_invalid_header_token, s)
      else (
        hpe_ok,
        record {
          request = record s.request {
            headers = emplace s.current_header_field s.current_header_value s.request.headers;
          };
          current_header_field = platform.moved_from s.current_header_field;
          current_header_value = platform.moved_from s.current_header_value;
        },
      )
  callback (on_body at) s = (hpe_ok, record s { request = record s.request { body = at } })

  -- The callbacks in turn, up to one that fails; then the code of the whole run.
  unfoldable pub run_callbacks :
      List ParserEvent → ℕ → HttpRequestParsingState → ℕ × HttpRequestParsingState
  unfolding callback
  run_callbacks [] final s = (final, s)
  run_callbacks (e ∷ es) final s =
      let (code, s') = callback e s in
      let rest = run_callbacks es final s' in
      if code == hpe_ok then rest else (llhttp.callback_error, s')

  unfoldable pub llhttp_execute : Bytes → HttpRequestParsingState → ℕ × HttpRequestParsingState
  unfolding run_callbacks
  llhttp_execute raw s = run_callbacks (llhttp.events raw) (llhttp.errno raw) s

  -- The text of `std::format`, in which byte 34 is the quotation mark.
  abbrev pub invalid_request : Bytes → ℕ → Bytes
  invalid_request raw code =
      codes "Invalid request string : "
      ++ 34 ∷ raw
      ++ 34 ∷ codes ", err : "
      ++ 34 ∷ llhttp.errno_name code
      ++ 34 ∷ []

  -- What follows a run of llhttp with its code and the state that it leaves; an empty text is not
  -- run at all.
  unfoldable pub parsed : Bytes → ℕ × HttpRequestParsingState → Result HttpRequest
  unfolding validate is_empty
  parsed raw (code, helper) =
      if is_empty raw
      then thrown (invalid_argument (codes "Empty request string"))
      else if code == hpe_ok
      then (do validate platform helper.request; ok helper.request)
      else thrown (runtime_error (invalid_request raw code))

  unfoldable pub parse_request : Bytes → Result HttpRequest
  unfolding llhttp_execute parsed
  parse_request raw = parsed raw (llhttp_execute raw new_state)
