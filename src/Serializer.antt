-- ===== src/Serializer.antt =====
-- ctask_lib/network/http/response_serializer/json/response_serializer.cpp. What the JSON library
-- prints for an empty object is a parameter.
pub mod Reader
pub mod Stream
pub mod Tests
use ctask.Common.{Bytes, codes, is_empty, List, [], ◌∷◌, ◌++◌, length, if◌then◌else◌}
use ctask.Common.Decimal.{decimal}
use ctask.Utils.{HttpResponseMeta, http_status_name, http_status_code_to_string}

-- "\r\n"
abbrev pub crlf : Bytes
crlf = 13 ∷ 10 ∷ []

-- The loop over the headers of the response.
unfoldable pub header_lines : List (Bytes × Bytes) → Bytes
header_lines [] = []
header_lines ((field, value) ∷ hs) = field ++ codes ": " ++ value ++ crlf ++ header_lines hs

-- The body that is sent.
unfoldable pub message_of : Bytes → HttpResponseMeta → Bytes
message_of empty_object r = if is_empty r.payload.message then empty_object else r.payload.message

unfoldable pub serialize : Bytes → HttpResponseMeta → Bytes
unfolding header_lines message_of
serialize empty_object r =
    codes "HTTP/"
    ++ r.protocol_version
    ++ codes " "
    ++ http_status_code_to_string r.payload.code
    ++ codes " "
    ++ http_status_name r.payload.code
    ++ crlf
    ++ codes "Content-Type: application/json"
    ++ crlf
    ++ codes "Content-Length: "
    ++ decimal (length (message_of empty_object r))
    ++ crlf
    ++ header_lines r.payload.headers
    ++ crlf
    ++ message_of empty_object r
