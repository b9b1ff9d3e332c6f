-- ===== src/Serializer/Tests.antt =====
-- A serialized response on concrete input.
use ctask.Common.{◌≡◌, ◌+◌, Bytes, codes, [], ◌∷◌, All, length, map, some, arith}
use ctask.Utils.{HttpResponseMeta, http_status_ok}
use ctask.Serializer.Reader.{HasNoCr, IsPlainHeader}
use ctask.Serializer.Stream.{read_stream, read_of, IsPlain, stream, read_stream-stream}

abbrev empty_object : Bytes
empty_object = codes "{}"

abbrev answer : HttpResponseMeta
answer = record {
  payload = record {
    code = http_status_ok;
    message = codes "[1]";
    headers = (codes "A", codes "b") ∷ [];
  };
  protocol_version = codes "1.1";
}

version_plain : HasNoCr (codes "1.1")
version_plain = ground arith

headers_plain : All IsPlainHeader answer.payload.headers
headers_plain = ground arith

plain : All (IsPlain 1) (answer ∷ answer ∷ [])
plain =
    ((version_plain, headers_plain, omega arith), ((version_plain, headers_plain, omega arith), tt))

read_stream-stream_example :
    read_stream (length (answer ∷ answer ∷ [])) (1 + 4) (stream empty_object (answer ∷ answer ∷ []))
    ≡ some (map (read_of empty_object) (answer ∷ answer ∷ []))
read_stream-stream_example = read_stream-stream empty_object 1 (answer ∷ answer ∷ []) plain
