-- ===== src/Serializer/Reader.antt =====
-- A reader of responses, and what it reads from a serialized one.
use mathlib.Core.List.{append_assoc, append-nil}
use ctask.Common.{
  ℕ, zero, suc, ◌+◌, ◌≡◌, ◌≢◌, refl, sym, Bytes, codes, is_empty, true, false, ◌&&◌, ◌==◌, List, [],
  ◌∷◌, ◌++◌, map, length, All, All-append, Option, none, some, arith, if◌then◌else◌,
}
use mathlib.Core.Option
use mathlib.Core.Path.{subst}
use ctask.Common.Decimal.{decimal, decimal-digits, is_digit}
use ctask.Utils.{
  HttpResponseMeta, HttpStatusCode, http_status_ok, http_status_name, http_status_code_to_string,
}
use ctask.Serializer.{crlf, header_lines, message_of, serialize}

-- The text up to the first "\r\n", and the text behind it.
unfoldable pub read_line : Bytes → Bytes × Bytes
read_line [] = ([], [])
read_line (c ∷ []) = (c ∷ [], [])
read_line (c ∷ d ∷ s) =
    let (line, rest) = read_line (d ∷ s) in
    if (c == 13) && (d == 10) then ([], s) else (c ∷ line, rest)

-- The lines up to the first empty one, of at most as many as the first number, and the body.
unfoldable pub read_response : ℕ → Bytes → Option (List Bytes × Bytes)
unfolding read_line is_empty
read_response zero s = none
read_response (suc most) s =
    let (line, rest) = read_line s in
    let more =
      Option.map (λ (p : List Bytes × Bytes). (line ∷ p.0, p.1)) (read_response most rest) in
    if is_empty line then some ([], rest) else more

abbrev pub HasNoCr : Bytes → Type 0
HasNoCr s = All (λ c. c ≢ 13) s

read_line_lem :
    (line rest : Bytes) → HasNoCr line → read_line (line ++ 13 ∷ 10 ∷ rest) ≡ (line, rest)
unfolding read_line
read_line_lem [] rest h = refl
read_line_lem (c ∷ []) rest h = ground arith
read_line_lem (c ∷ d ∷ line) rest h = ground (arith, read_line_lem (d ∷ line) rest h.1)

-- The lines of a serialized response.
abbrev pub status_line : HttpResponseMeta → Bytes
status_line r =
    codes "HTTP/"
    ++ r.protocol_version
    ++ codes " "
    ++ http_status_code_to_string r.payload.code
    ++ codes " "
    ++ http_status_name r.payload.code

abbrev pub length_line : Bytes → Bytes
length_line message = codes "Content-Length: " ++ decimal (length message)

abbrev pub header_line : Bytes × Bytes → Bytes
header_line (field, value) = field ++ codes ": " ++ value

abbrev add_line : Bytes → List Bytes × Bytes → List Bytes × Bytes
add_line line (lines, body) = (line ∷ lines, body)

step_line :
    (most : ℕ) (line rest : Bytes) {r : List Bytes × Bytes}
    → is_empty line ≡ false
    → HasNoCr line
    → read_response most rest ≡ some r
    → read_response (suc most) (line ++ 13 ∷ 10 ∷ rest) ≡ some (add_line line r)
unfolding read_response
step_line most line rest filled h e = rw (read_line_lem line rest h, filled, e) refl

last_line : (most : ℕ) (body : Bytes) → read_response (suc most) (13 ∷ 10 ∷ body) ≡ some ([], body)
unfolding read_response
last_line most body = refl

abbrev pub IsPlainHeader : Bytes × Bytes → Type 0
IsPlainHeader (field, value) = HasNoCr field × HasNoCr value

header_line-HasNoCr : (h : Bytes × Bytes) → IsPlainHeader h → HasNoCr (header_line h)
header_line-HasNoCr (field, value) p =
    All-append (λ c. c ≢ 13) (field ++ codes ": ") value
      (All-append (λ c. c ≢ 13) field (codes ": ") p.0 (omega arith)) p.1

is_empty-append : (xs : Bytes) (y : ℕ) (ys zs : Bytes) → is_empty (xs ++ y ∷ ys ++ zs) ≡ false
unfolding is_empty
is_empty-append [] y ys zs = refl
is_empty-append (x ∷ xs) y ys zs = refl

read_headers :
    (hs : List (Bytes × Bytes)) (most : ℕ) (body : Bytes)
    → All IsPlainHeader hs
    → read_response (length hs + suc most) (header_lines hs ++ 13 ∷ 10 ∷ body)
      ≡ some (map header_line hs, body)
unfolding header_lines
read_headers [] most body h =
    let same : 0 + suc most ≡ suc most = omega arith in rw same (last_line most body)
read_headers ((field, value) ∷ hs) most body h =
    let same : suc (length hs) + suc most ≡ suc (length hs + suc most) = omega arith in
    let regroup : (field ++ codes ": " ++ value ++ crlf ++ header_lines hs) ++ 13 ∷ 10 ∷ body
        ≡ header_line (field, value) ++ 13 ∷ 10 ∷ (header_lines hs ++ 13 ∷ 10 ∷ body) =
      simp append_assoc in
    rw (same, regroup)
      (step_line (length hs + suc most) (header_line (field, value))
        (header_lines hs ++ 13 ∷ 10 ∷ body) (is_empty-append field b':' (32 ∷ []) value)
        (header_line-HasNoCr (field, value) h.0) (read_headers hs most body h.1))

digits-HasNoCr : (s : Bytes) → All (λ c. is_digit c ≡ true) s → HasNoCr s
unfolding is_digit
digits-HasNoCr [] h = tt
digits-HasNoCr (c ∷ s) h = (ground arith, digits-HasNoCr s h.1)

code-HasNoCr :
    (code : HttpStatusCode)
    → HasNoCr (codes " " ++ http_status_code_to_string code ++ codes " " ++ http_status_name code)
unfolding http_status_code_to_string http_status_name
code-HasNoCr http_status_ok = omega arith
code-HasNoCr _ = omega arith

status_line-HasNoCr : (r : HttpResponseMeta) → HasNoCr r.protocol_version → HasNoCr (status_line r)
status_line-HasNoCr r version =
    let tail =
      codes " "
      ++ http_status_code_to_string r.payload.code
      ++ codes " "
      ++ http_status_name r.payload.code in
    let regroup : status_line r ≡ (codes "HTTP/" ++ r.protocol_version) ++ tail =
      simp append_assoc in
    subst HasNoCr (sym regroup) (
      All-append (λ c. c ≢ 13) (codes "HTTP/" ++ r.protocol_version) tail
        (All-append (λ c. c ≢ 13) (codes "HTTP/") r.protocol_version (omega arith) version)
        (code-HasNoCr r.payload.code))

-- The same with bytes behind the response, and with a larger bound on the number of lines.
pub read_response-append :
    (empty_object : Bytes) (r : HttpResponseMeta) (more : Bytes) (extra : ℕ)
    → HasNoCr r.protocol_version
    → All IsPlainHeader r.payload.headers
    → read_response (length r.payload.headers + 4 + extra) (serialize empty_object r ++ more)
      ≡ some (
        status_line r
            ∷ codes "Content-Type: application/json"
            ∷ length_line (message_of empty_object r)
            ∷ map header_line r.payload.headers,
        message_of empty_object r ++ more,
      )
unfolding serialize
read_response-append empty_object r more extra version headers =
    let body = message_of empty_object r in
    let most = length r.payload.headers + suc extra in
    let tail = header_lines r.payload.headers ++ 13 ∷ 10 ∷ (body ++ more) in
    let fuel : length r.payload.headers + 4 + extra ≡ suc (suc (suc most)) = omega arith in
    let regroup : serialize empty_object r ++ more
        ≡ status_line r
          ++ 13
            ∷ 10
            ∷ (codes "Content-Type: application/json"
                ++ 13 ∷ 10 ∷ (length_line body ++ 13 ∷ 10 ∷ tail)) =
      simp append_assoc in
    rw (fuel, regroup)
      (step_line (suc (suc most)) (status_line r) _ (unfold is_empty in refl)
        (status_line-HasNoCr r version)
        (step_line (suc most) (codes "Content-Type: application/json") _ (unfold is_empty in refl)
          (omega arith)
          (step_line most (length_line body) tail (unfold is_empty in refl)
            (All-append (λ c. c ≢ 13) (codes "Content-Length: ") (decimal (length body))
              (omega arith) (digits-HasNoCr (decimal (length body)) (decimal-digits (length body))))
            (read_headers r.payload.headers extra (body ++ more) headers))))

-- If neither the protocol version nor a header holds a carriage return, a reader finds in the
-- serialized response the status line, the two lines that are always sent, the line of each header
-- in order, and then exactly the body, whose length the Content-Length line states. An empty body is
-- sent as the empty object.
pub read_response-serialize :
    (empty_object : Bytes) (r : HttpResponseMeta)
    → HasNoCr r.protocol_version
    → All IsPlainHeader r.payload.headers
    → read_response (length r.payload.headers + 4) (serialize empty_object r)
      ≡ some (
        status_line r
            ∷ codes "Content-Type: application/json"
            ∷ length_line (message_of empty_object r)
            ∷ map header_line r.payload.headers,
        message_of empty_object r,
      )
read_response-serialize empty_object r version headers =
    let fuel : length r.payload.headers + 4 + 0 ≡ length r.payload.headers + 4 = omega arith in
    rw (fuel, append-nil (serialize empty_object r), append-nil (message_of empty_object r)) at
      (read_response-append empty_object r [] 0 version headers)
