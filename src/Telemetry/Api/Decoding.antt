-- ===== src/Telemetry/Api/Decoding.antt =====
-- Which POST requests are accepted, down to the JSON of their bodies.
pub mod Query
use mathlib.Core.Path.{subst}
use ctask.Common.{◌≡◌, ◌↔◌, refl, ap, Bytes, codes, [], length, some, inl, inr}
use ctask.Common.Assoc.{lookup}
use ctask.Common.Result.{Result, ok, ◌>>=◌, bind_iff}
use ctask.Utils.{HttpRequest, response, http_status_ok}
use ctask.Telemetry.Types.{interaction_times_len}
use ctask.Telemetry.Storage.{TelemetryStorage}
use ctask.Telemetry.Mean.{Doubles}
use ctask.Telemetry.Api.{Json, InteractionTimesEventDto, event_of_json, decode_event, handle_store}
use ctask.Telemetry.Api.Handlers.{Accepts, IsRefusal, handle_store-Outcome, handle_store_accepted}

module _ (d : Doubles) (json : Json d) where
  open json use {Value, parse, at_key, get_u64, get_ints}

  -- A JSON object has a value under a key, and the value reads as `x`.
  pub record Holds (object : Value) (key : Bytes) {A : Type 0} (get : Value → Result A) (x : A)
      : Type 0 where
    pub value : Value
    pub has_key : at_key object key ≡ ok value
    pub reads : get value ≡ ok x

  pub at_key_iff :
      {A B : Type 0} (object : Value) (key : Bytes) (get : Value → Result A) (rest : A → Result B)
      (out : B)
      → ((at_key object key >>= λ v. get v >>= rest) ≡ ok out)
        ↔ ((x : A) × Holds object key get x × (rest x ≡ ok out))
  at_key_iff object key get rest out = (
    λ e.
        let (v, has, e1) = (bind_iff (at_key object key) _ out).0 e in
        let (x, got, e2) = (bind_iff (get v) rest out).0 e1 in
        (x, record { value = v; has_key = has; reads = got }, e2),
    λ (x, h, e). rw (h.has_key, h.reads) e,
  )

  -- The body of a request is the JSON of an event.
  pub record IsEventBody (body : Bytes) (dto : InteractionTimesEventDto) : Type 0 where
    pub object : Value
    pub parsed : parse body ≡ ok object
    pub date : Holds object (codes "date") get_u64 dto.date
    pub values : Holds object (codes "values") get_ints dto.values

  pub decode_event_iff :
      (request : HttpRequest) (dto : InteractionTimesEventDto)
      → (decode_event d json request ≡ ok dto) ↔ IsEventBody request.body dto
  unfolding decode_event event_of_json
  decode_event_iff request dto = (
    λ e.
        let (object, parsed, e1) = (bind_iff (parse request.body) _ dto).0 e in
        let (date, has_date, e2) = (at_key_iff object _ get_u64 _ dto).0 e1 in
        let (values, has_values, e3) = (at_key_iff object _ get_ints _ dto).0 e2 in
        let same : record { date = date; values = values } ≡ dto = cc e3 in
        subst (IsEventBody request.body) same
          (record { object = object; parsed = parsed; date = has_date; values = has_values }),
    λ b. (bind_iff (parse request.body) _ dto).1 (
      b.object,
      b.parsed,
      (at_key_iff b.object _ get_u64 _ dto).1
          (dto.date, b.date, (at_key_iff b.object _ get_ints _ dto).1 (dto.values, b.values, refl)),
    ),
  )

  -- A request names an event, and its body is the JSON of one with ten values.
  pub record Posts (request : HttpRequest) : Type 0 where
    pub dto : InteractionTimesEventDto
    pub name : Bytes
    pub body : IsEventBody request.body dto
    pub ten : length dto.values ≡ interaction_times_len
    pub named : lookup (codes "event") request.parameters ≡ some name

  -- A POST request is answered by 200 exactly when its body parses to JSON with a date that reads as
  -- an unsigned number and ten values that read as integers, and its parameter `event` is there.
  pub handle_store-eq-ok_iff :
      (request : HttpRequest) (s : TelemetryStorage)
      → ((handle_store d json request s).0 ≡ ok (response http_status_ok [])) ↔ Posts request
  handle_store-eq-ok_iff request s = (
    λ e. elim (handle_store-Outcome d json request s) [
      | inl (refused, same) ↦
          let wrong : IsRefusal (ok (response http_status_ok [])) = subst IsRefusal e refused in
          cc wrong
      | inr (a, done, stored) ↦ record {
        dto = a.dto;
        name = a.name;
        body = (decode_event_iff request a.dto).0 a.decoded;
        ten = a.ten;
        named = a.named;
      }
    ],
    λ p.
        let a : Accepts d json request = record {
          dto = p.dto;
          name = p.name;
          decoded = (decode_event_iff request p.dto).1 p.body;
          ten = p.ten;
          named = p.named;
        } in
        ap (λ x. x.0) (handle_store_accepted d json request s a),
  )
