-- ===== src/Utils.antt =====
-- ctask_lib/utils/types/types.h, ctask_lib/utils/types/constants.h and the conversions of
-- ctask_lib/utils/misc/misc.h.

pub mod Names
pub mod Defer
use ctask.Common.{ℕ, Bytes, codes, bytes_eq, List, [], ◌∷◌, Option, none, some, ◌==◌, if◌then◌else◌}
use ctask.Common.Assoc.{lookup, or_else}

pub record HttpServerArgs : Type 0 where
  pub address : Bytes
  pub port : ℕ
  pub threads : ℕ
  pub keep_alive_sec : ℕ

pub record LoggerArgs : Type 0 where
  pub level : Bytes

pub record CliArgs : Type 0 where
  pub server_args : HttpServerArgs
  pub logger_args : LoggerArgs

pub data HttpMethod : Type 0 where
  unknown_method get_method post_method : HttpMethod

pub record HttpRequest : Type 0 where
  pub method : HttpMethod
  pub path : Bytes
  pub version : Bytes
  pub headers : List (Bytes × Bytes)
  pub parameters : List (Bytes × Bytes)
  pub body : Bytes

abbrev pub empty_request : HttpRequest
empty_request = record {
  method = unknown_method;
  path = [];
  version = [];
  headers = [];
  parameters = [];
  body = [];
}

pub data HttpStatusCode : Type 0 where
  http_status_ok http_status_bad_request http_status_not_found : HttpStatusCode
  http_status_internal_server_error http_status_not_implemented : HttpStatusCode

-- The value of the enumerator.
unfoldable pub status_value : HttpStatusCode → ℕ
status_value http_status_ok = 200
status_value http_status_bad_request = 400
status_value http_status_not_found = 404
status_value http_status_internal_server_error = 500
status_value http_status_not_implemented = 501

pub record HttpResponse : Type 0 where
  pub code : HttpStatusCode
  pub message : Bytes
  pub headers : List (Bytes × Bytes)

-- `HttpResponse{code, message}`, with no headers.
abbrev pub response : HttpStatusCode → Bytes → HttpResponse
response code message = record { code = code; message = message; headers = [] }

pub record HttpResponseMeta : Type 0 where
  pub payload : HttpResponse
  pub protocol_version : Bytes

abbrev pub json_content_type : Bytes
json_content_type = codes "application/json"

abbrev pub content_length_header : Bytes
content_length_header = codes "Content-Length"

abbrev pub content_type_header : Bytes
content_type_header = codes "Content-Type"

abbrev pub connection_header : Bytes
connection_header = codes "Connection"

abbrev pub keep_alive_connection : Bytes
keep_alive_connection = codes "Keep-Alive"

unfoldable pub http_method_from_string : Bytes → HttpMethod
unfolding lookup bytes_eq
http_method_from_string method =
    or_else (lookup method ((codes "GET", get_method) ∷ (codes "POST", post_method) ∷ []))
      unknown_method

-- The find of a map whose keys are status codes.
unfoldable pub find_code : HttpStatusCode → List (HttpStatusCode × Bytes) → Option Bytes
unfolding status_value
find_code c [] = none
find_code c ((d, text) ∷ m) = if status_value d == status_value c then some text else find_code c m

unfoldable pub http_status_name : HttpStatusCode → Bytes
unfolding find_code
http_status_name code =
    or_else
      (find_code code (
        (http_status_ok, codes "OK")
        ∷ (http_status_bad_request, codes "BAD_REQUEST")
        ∷ (http_status_not_found, codes "NOT_FOUND")
        ∷ (http_status_internal_server_error, codes "INTERNAL_SERVER_ERROR")
        ∷ (http_status_not_implemented, codes "NOT_IMPLEMENTED")
        ∷ []))
      (codes "UNKNOWN_CODE_NAME")

unfoldable pub http_status_code_to_string : HttpStatusCode → Bytes
unfolding find_code
http_status_code_to_string code =
    or_else
      (find_code code (
        (http_status_ok, codes "200")
        ∷ (http_status_bad_request, codes "400")
        ∷ (http_status_not_found, codes "404")
        ∷ (http_status_internal_server_error, codes "500")
        ∷ (http_status_not_implemented, codes "501")
        ∷ []))
      (codes "UNKNOWN_CODE")
