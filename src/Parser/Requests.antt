-- ===== src/Parser/Requests.antt =====
-- Which texts are parsed into a request, and a request that is always let through.
use ctask.Common.{
  ℕ, ◌<◌, ◌^◌, Bytes, is_empty, ◌≡◌, ◌≢◌, ◌↔◌, refl, ap, sym, ◌==◌, [], ◌∷◌, length, some,
  Bool-cases, inl, inr, arith,
}
use mathlib.Core.Path.{subst}
use mathlib.Core.Bool.{false≢true}
use ctask.Common.Assoc.{lookup, lookup-ne_nil}
use ctask.Common.Int.{pos, to_u64}
use ctask.Common.Decimal.{decimal}
use ctask.Common.Result.{Result, ok, thrown, undefined, ◌>>◌}
use ctask.Utils.{
  HttpRequest, post_method, content_length_header, content_type_header, json_content_type,
}
use ctask.Parser.Stoll.{Platform, stoll-decimal}
use ctask.Parser.{
  Llhttp, HttpRequestParsingState, new_state, llhttp_execute, validate, parsed, parse_request,
  hpe_ok,
}
use ctask.Parser.Validation.{IsValidRequest, validate-eq-ok_iff}

seq_return_iff :
    (m : Result (Unit {0})) (q r : HttpRequest) → ((m >> ok q) ≡ ok r) ↔ ((m ≡ ok tt) × (q ≡ r))
seq_return_iff (ok _) q r = (λ h. (refl, cc), λ w. ap ok (w.1))
seq_return_iff (thrown x) q r = (λ h. cc, λ w. cc)
seq_return_iff undefined q r = (λ h. cc, λ w. cc)

parsed_iff :
    (platform : Platform) (llhttp : Llhttp) (raw : Bytes) (run : ℕ × HttpRequestParsingState)
    (r : HttpRequest)
    → (parsed platform llhttp raw run ≡ ok r)
      ↔ ((raw ≢ []) × (run.0 ≡ hpe_ok) × (run.1.request ≡ r) × IsValidRequest platform r)
unfolding parsed is_empty
parsed_iff platform llhttp [] run r = (λ h. cc, λ w. absurd (w.0 refl))
parsed_iff platform llhttp (c ∷ raw) (code, s) r = elim (Bool-cases (code == hpe_ok)) [
  | inr bad ↦ rw bad (λ h. cc, λ w. absurd (false≢true (ground arith)))
  | inl good ↦ rw good (
    λ h.
        let (valid, same) = (seq_return_iff (validate platform s.request) s.request r).0 h in
        (
          λ e. cc,
          ground arith,
          same,
          subst (IsValidRequest platform) same ((validate-eq-ok_iff platform s.request).0 valid),
        ),
    λ w. (seq_return_iff (validate platform s.request) s.request r).1 (
      (validate-eq-ok_iff platform s.request).1 (subst (IsValidRequest platform) (sym (w.2)) (w.3)),
      w.2,
    ),
  )
]

-- A text is parsed into a request exactly when it is not empty, llhttp ends without an error, the
-- request is what the callbacks have built, and the request is valid.
pub parse_request-eq-ok_iff :
    (platform : Platform) (llhttp : Llhttp) (raw : Bytes) (r : HttpRequest)
    → (parse_request platform llhttp raw ≡ ok r) ↔ (
        (raw ≢ [])
        × ((llhttp_execute platform llhttp raw new_state).0 ≡ hpe_ok)
        × ((llhttp_execute platform llhttp raw new_state).1.request ≡ r)
        × IsValidRequest platform r)
unfolding parse_request
parse_request-eq-ok_iff platform llhttp raw r =
    parsed_iff platform llhttp raw (llhttp_execute platform llhttp raw new_state) r

-- A POST request whose Content-Length is the decimal text of the length of its body, below 2 ^ 63,
-- and whose Content-Type is that of JSON is valid, if it has a path, a version and a body.
pub validate-decimal :
    (platform : Platform) (r : HttpRequest)
    → r.method ≡ post_method
    → r.path ≢ []
    → r.version ≢ []
    → r.body ≢ []
    → length r.body < 2 ^ 63
    → lookup content_length_header r.headers ≡ some (decimal (length r.body))
    → lookup content_type_header r.headers ≡ some json_content_type
    → validate platform r ≡ ok tt
validate-decimal platform r post path version body bound long type =
    (validate-eq-ok_iff platform r).1 (record {
      has_path = path;
      has_version = version;
      has_headers = lookup-ne_nil content_length_header r.headers long;
      has_body = inr body;
      has_content = inr (record {
        length_text = decimal (length r.body);
        length_header = long;
        value = pos (length r.body);
        parsed = stoll-decimal platform (length r.body) bound;
        matches = unfold to_u64 in omega arith;
        type_header = type;
      });
    })
