-- ===== src/Parser/Validation.antt =====
-- Which requests the validators let through.
use ctask.Common.{
  ℕ, Bytes, bytes_eq_iff, is_empty, ◌≡◌, ◌≢◌, ◌↔◌, ◌⊎◌, refl, ap, ◌∙◌, not, true, false, ◌==◌, List,
  [], ◌∷◌, length, some, Option-cases, inl, inr, arith,
}
use ctask.Common.Assoc.{lookup}
use ctask.Common.Int.{ℤ, to_u64}
use ctask.Common.Result.{Result, ok, thrown, undefined, ◌>>=◌, ◌>>◌}
use ctask.Utils.{
  HttpRequest, HttpMethod, get_method, post_method, unknown_method, content_length_header,
  content_type_header, json_content_type,
}
use ctask.Parser.Stoll.{Platform, stoll}
use ctask.Parser.{
  throw_if, is_get_or_unknown, validate_path, validate_version, validate_headers, validate_body,
  validate_content_length, validate_content_type, validate, parsed,
}

seq-eq-ok_iff : (m k : Result (Unit {0})) → ((m >> k) ≡ ok tt) ↔ ((m ≡ ok tt) × (k ≡ ok tt))
seq-eq-ok_iff (ok u) k = (λ e. (refl, e), λ e. e.1)
seq-eq-ok_iff (thrown x) k = (λ e. cc, λ e. cc)
seq-eq-ok_iff undefined k = (λ e. cc, λ e. cc)

nonempty_iff {ℓ} :
    {A : Type ℓ} (xs : List A) (m : Bytes) → (throw_if (is_empty xs) m ≡ ok tt) ↔ (xs ≢ [])
unfolding is_empty
nonempty_iff [] m = (λ e. cc, λ h. absurd (h refl))
nonempty_iff (x ∷ xs) m = (λ e p. cc, λ h. refl)

validate_body_iff :
    (r : HttpRequest) → (validate_body r ≡ ok tt) ↔ ((r.method ≡ get_method) ⊎ (r.body ≢ []))
unfolding validate_body is_empty
validate_body_iff r = (λ e. ground arith, λ h. ground arith)

all_ok_iff :
    (a b c d e f : Result (Unit {0}))
    → ((a >> (b >> (c >> (d >> (e >> f))))) ≡ ok tt)
      ↔ ((a ≡ ok tt) × (b ≡ ok tt) × (c ≡ ok tt) × (d ≡ ok tt) × ((e ≡ ok tt) × (f ≡ ok tt)))
all_ok_iff (ok _) (ok _) (ok _) (ok _) e f =
    (λ h. (refl, refl, refl, refl, (seq-eq-ok_iff e f).0 h), λ h. (seq-eq-ok_iff e f).1 h.4)
all_ok_iff (thrown x) b c d e f = (λ h. cc, λ h. cc)
all_ok_iff (ok _) (thrown x) c d e f = (λ h. cc, λ h. cc)
all_ok_iff (ok _) (ok _) (thrown x) d e f = (λ h. cc, λ h. cc)
all_ok_iff (ok _) (ok _) (ok _) (thrown x) e f = (λ h. cc, λ h. cc)
all_ok_iff undefined b c d e f = (λ h. cc, λ h. cc)
all_ok_iff (ok _) undefined c d e f = (λ h. cc, λ h. cc)
all_ok_iff (ok _) (ok _) undefined d e f = (λ h. cc, λ h. cc)
all_ok_iff (ok _) (ok _) (ok _) undefined e f = (λ h. cc, λ h. cc)

same_length_iff :
    (parsed : Result ℤ) (n : ℕ) (m : Bytes)
    → ((parsed >>= λ value. throw_if (not (to_u64 value == n)) m) ≡ ok tt)
      ↔ ((value : ℤ) × (parsed ≡ ok value) × (to_u64 value ≡ n))
same_length_iff (ok value) n m = (λ h. (value, refl, ground arith), λ w. ground (arith, w.1, w.2))
same_length_iff (thrown x) n m = (λ h. cc, λ w. cc (w.1))
same_length_iff undefined n m = (λ h. cc, λ w. cc (w.1))

module _ (platform : Platform) where
  -- The headers of a request with a body: the length of the body and the type of JSON.
  pub record HasContentHeaders (r : HttpRequest) : Type 0 where
    pub length_text : Bytes
    pub length_header : lookup content_length_header r.headers ≡ some length_text
    pub value : ℤ
    pub parsed : stoll platform length_text ≡ ok value
    pub matches : to_u64 value ≡ length r.body
    pub type_header : lookup content_type_header r.headers ≡ some json_content_type

  -- A request that the rest of the program may see.
  pub record IsValidRequest (r : HttpRequest) : Type 0 where
    pub has_path : r.path ≢ []
    pub has_version : r.version ≢ []
    pub has_headers : r.headers ≢ []
    pub has_body : (r.method ≡ get_method) ⊎ (r.body ≢ [])
    pub has_content : (r.method ≢ post_method) ⊎ HasContentHeaders r

  content_length_iff :
      (r : HttpRequest)
      → r.method ≡ post_method
      → (validate_content_length platform r ≡ ok tt) ↔ (
          (text : Bytes) × (value : ℤ) × (lookup content_length_header r.headers ≡ some text)
          × (stoll platform text ≡ ok value)
          × (to_u64 value ≡ length r.body))
  unfolding validate_content_length
  content_length_iff r post =
      let is_post : is_get_or_unknown r.method ≡ false = ap is_get_or_unknown post in
      rw (is_post, validate_content_length)
        (elim (Option-cases (lookup content_length_header r.headers)) [
          | inl missing ↦ rw missing (λ h. cc, λ w. cc (w.2))
          | inr (text, found) ↦ rw found (
            λ h.
                let (value, e, same) =
                  (same_length_iff (stoll platform text) (length r.body) _).0 h in
                (text, value, refl, e, same),
            λ w.
                (same_length_iff (stoll platform text) (length r.body) _).1
                  (w.1, ap (stoll platform) (cc (w.2)) ∙ w.3, w.4),
          )
        ])

  content_type_iff :
      (r : HttpRequest)
      → r.method ≡ post_method
      → (validate_content_type platform r ≡ ok tt)
        ↔ (lookup content_type_header r.headers ≡ some json_content_type)
  unfolding validate_content_type
  content_type_iff r post =
      let is_post : is_get_or_unknown r.method ≡ false = ap is_get_or_unknown post in
      rw (is_post, validate_content_type)
        (elim (Option-cases (lookup content_type_header r.headers)) [
          | inl missing ↦ rw missing (λ h. cc, λ w. cc)
          | inr (text, found) ↦ rw found (
            λ h. ground (arith, bytes_eq_iff text json_content_type),
            λ w. ground (arith, bytes_eq_iff text json_content_type),
          )
        ])

  content_skipped :
      (r : HttpRequest)
      → is_get_or_unknown r.method ≡ true
      → (validate_content_length platform r ≡ ok tt) × (validate_content_type platform r ≡ ok tt)
  unfolding validate_content_length validate_content_type
  content_skipped r other = rw other (refl, refl)

  method_cases :
      (m : HttpMethod) → (m ≡ post_method) ⊎ ((is_get_or_unknown m ≡ true) × (m ≢ post_method))
  method_cases post_method = inl refl
  method_cases get_method = inr (refl, λ e. cc)
  method_cases unknown_method = inr (refl, λ e. cc)

  content_iff :
      (r : HttpRequest)
      → ((validate_content_length platform r ≡ ok tt) × (validate_content_type platform r ≡ ok tt))
        ↔ ((r.method ≢ post_method) ⊎ HasContentHeaders r)
  content_iff r = elim (method_cases r.method) [
    | inr (other, ne) ↦ (λ _. inl ne, λ _. content_skipped r other)
    | inl post ↦ (
      λ (long, typed).
          let (text, value, found, parsed, same) = (content_length_iff r post).0 long in
          inr (record {
            length_text = text;
            length_header = found;
            value = value;
            parsed = parsed;
            matches = same;
            type_header = (content_type_iff r post).0 typed;
          }),
      λ w. elim w [
        | inl ne ↦ absurd (ne post)
        | inr h ↦ (
          (content_length_iff r post).1
              (h.length_text, h.value, h.length_header, h.parsed, h.matches),
          (content_type_iff r post).1 h.type_header,
        )
      ],
    )
  ]

  -- The validators let a request through exactly when it has a path, a version, headers, and, unless
  -- its method is GET, a body; and, if its method is POST, a Content-Length that reads as the length
  -- of the body and the Content-Type of JSON.
  pub validate-eq-ok_iff : (r : HttpRequest) → (validate platform r ≡ ok tt) ↔ IsValidRequest r
  unfolding validate validate_path validate_version validate_headers
  validate-eq-ok_iff r =
      let parts =
        all_ok_iff (validate_path r) (validate_version r) (validate_headers r) (validate_body r)
          (validate_content_length platform r) (validate_content_type platform r) in
      (
        λ h.
            let (path, version, headers, body, content) = parts.0 h in
            record {
              has_path = (nonempty_iff r.path _).0 path;
              has_version = (nonempty_iff r.version _).0 version;
              has_headers = (nonempty_iff r.headers _).0 headers;
              has_body = (validate_body_iff r).0 body;
              has_content = (content_iff r).0 content;
            },
        λ v. parts.1 (
          (nonempty_iff r.path _).1 v.has_path,
          (nonempty_iff r.version _).1 v.has_version,
          (nonempty_iff r.headers _).1 v.has_headers,
          (validate_body_iff r).1 v.has_body,
          (content_iff r).1 v.has_content,
        ),
      )
