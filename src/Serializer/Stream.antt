-- ===== src/Serializer/Stream.antt =====
-- A reader of a stream of responses, as the client of a connection that is kept alive reads them: the
-- Content-Length of each response tells where the next one begins.
use mathlib.Core.Option
use ctask.Common.{
  ℕ, zero, suc, ◌+◌, ◌-◌, ◌≤◌, ◌≡◌, refl, ap, Bytes, codes, is_empty, ◌==◌, true, leb, List, [],
  ◌∷◌, ◌++◌, map, length, take, drop, length-append, All, Option, none, some, arith, if◌then◌else◌,
}
use ctask.Common.Decimal.{read_decimal, read_decimal-decimal}
use ctask.Utils.{HttpResponseMeta}
use ctask.Serializer.{message_of, serialize}
use ctask.Serializer.Reader.{
  read_response, read_response-append, HasNoCr, IsPlainHeader, status_line, length_line,
  header_line,
}

-- What stands behind a prefix.
unfoldable pub strip_prefix : Bytes → Bytes → Option Bytes
strip_prefix [] s = some s
strip_prefix (p ∷ ps) [] = none
strip_prefix (p ∷ ps) (c ∷ s) = if p == c then strip_prefix ps s else none

-- The number of the first Content-Length line.
unfoldable pub content_length : List Bytes → Option ℕ
unfolding strip_prefix
content_length [] = none
content_length (line ∷ lines) = elim (strip_prefix (codes "Content-Length: ") line) [
  | some digits ↦ some (read_decimal 0 digits)
  | none ↦ content_length lines
]

-- The lines of a response, its body, and the bytes behind it; `most` bounds the number of lines.
unfoldable pub read_message : ℕ → Bytes → Option (List Bytes × Bytes × Bytes)
read_message most s = elim (read_response most s) [
  | none ↦ none
  | some (lines, rest) ↦ elim (content_length lines) [
    | none ↦ none
    | some n ↦ if leb n (length rest) then some (lines, take n rest, drop n rest) else none
  ]
]

-- All responses of a stream, at most as many as the first number.
unfoldable pub read_stream : ℕ → ℕ → Bytes → Option (List (List Bytes × Bytes))
unfolding is_empty
read_stream zero most s = if is_empty s then some [] else none
read_stream (suc count) most s = elim (read_message most s) [
  | none ↦ none
  | some (lines, body, rest) ↦
      Option.map (λ (ms : List (List Bytes × Bytes)). (lines, body) ∷ ms)
        (read_stream count most rest)
]

strip_prefix-append : (p s : Bytes) → strip_prefix p (p ++ s) ≡ some s
unfolding strip_prefix
strip_prefix-append [] s = refl
strip_prefix-append (c ∷ p) s = ground (arith, strip_prefix-append p s)

take-append : (xs ys : Bytes) → take (length xs) (xs ++ ys) ≡ xs
take-append [] ys = refl
take-append (x ∷ xs) ys = ap (λ r. x ∷ r) (take-append xs ys)

drop-append : (xs ys : Bytes) → drop (length xs) (xs ++ ys) ≡ ys
drop-append [] ys = refl
drop-append (x ∷ xs) ys = drop-append xs ys

-- What a reader finds in one response.
abbrev pub read_of : Bytes → HttpResponseMeta → List Bytes × Bytes
read_of empty_object r = (
  status_line r
      ∷ codes "Content-Type: application/json"
      ∷ length_line (message_of empty_object r)
      ∷ map header_line r.payload.headers,
  message_of empty_object r,
)

content_length-read_of :
    (empty_object : Bytes) (r : HttpResponseMeta)
    → content_length (read_of empty_object r).0 ≡ some (length (message_of empty_object r))
unfolding content_length
content_length-read_of empty_object r =
    ap some (read_decimal-decimal (length (message_of empty_object r)))

-- A response whose parts hold no carriage return and which has at most so many headers.
abbrev pub IsPlain : ℕ → HttpResponseMeta → Type 0
IsPlain most r =
    HasNoCr r.protocol_version
    × All IsPlainHeader r.payload.headers
    × (length r.payload.headers ≤ most)

read_message-serialize :
    (empty_object : Bytes) (r : HttpResponseMeta) (more : Bytes) (most : ℕ)
    → IsPlain most r
    → read_message (most + 4) (serialize empty_object r ++ more)
      ≡ some ((read_of empty_object r).0, message_of empty_object r, more)
unfolding read_message
read_message-serialize empty_object r more most (version, headers, few) =
    let body = message_of empty_object r in
    let fuel : most + 4 ≡ length r.payload.headers + 4 + (most - length r.payload.headers) =
      omega arith in
    let enough : leb (length body) (length (body ++ more)) ≡ true =
      ground (arith, length-append body more) in
    rw
      (
        fuel,
        read_response-append empty_object r more (most - length r.payload.headers) version headers,
        read_message,
        content_length-read_of empty_object r,
        enough,
        take-append body more,
        drop-append body more,
      )
      refl

-- The bytes of responses that are sent one after the other.
unfoldable pub stream : Bytes → List HttpResponseMeta → Bytes
stream empty_object [] = []
stream empty_object (r ∷ rs) = serialize empty_object r ++ stream empty_object rs

-- From the bytes of any number of responses that hold no carriage return in their versions and
-- headers, and have at most `most` headers each, a reader that goes by Content-Length gets back the
-- lines and the body of each response, in order.
pub read_stream-stream :
    (empty_object : Bytes) (most : ℕ) (rs : List HttpResponseMeta)
    → All (IsPlain most) rs
    → read_stream (length rs) (most + 4) (stream empty_object rs)
      ≡ some (map (read_of empty_object) rs)
unfolding read_stream stream
read_stream-stream empty_object most [] h = refl
read_stream-stream empty_object most (r ∷ rs) h =
    rw
      (
        read_message-serialize empty_object r (stream empty_object rs) most h.0,
        read_stream,
        read_stream-stream empty_object most rs h.1,
      )
      refl
