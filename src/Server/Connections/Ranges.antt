-- ===== src/Server/Connections/Ranges.antt =====
-- The C++ types of what the storage holds, which are ranges of the numbers here.
use mathlib.Core.Path.{subst}
use ctask.Common.{
  ℕ, ◌<◌, ◌≤◌, ◌^◌, ◌≡◌, sym, ◌==◌, ◌&&◌, Bytes, bytes_eq, length, All, List, some, Bool-cases,
  Option-cases, inl, inr, arith,
}
use ctask.Common.Int.{ℤ, pos_part, neg_part}
use ctask.Common.Result.{ok}
use ctask.Utils.{HttpRequest}
use ctask.Parser.Stoll.{Platform}
use ctask.Parser.{Llhttp, parse_request}
use ctask.Telemetry.Types.{
  InteractionTimesCollection, InteractionTimesEventModel, interaction_times_len,
}
use ctask.Telemetry.Storage.{TelemetryStorage, new_storage, store_event}
use ctask.Telemetry.Storage.Laws.{
  recorded, IsValid, new_storage-IsValid, store_event-IsValid, recorded-store_event,
}
use ctask.Telemetry.Storage.History.{recorded_new}
use ctask.Telemetry.Mean.{Doubles}
use ctask.Telemetry.Api.{Json, handle_store}
use ctask.Telemetry.Api.Handlers.{event, handle_store-Outcome}
use ctask.Telemetry.Api.Decoding.{decode_event_iff}
use ctask.Telemetry.Api.Routing.{telemetry_router}
use ctask.Server.Service.{custom_router, telemetry_keeps}
use ctask.Server.Connections.{Connections, SessionReach}
use ctask.Server.Connections.Turns.{SessionReach_keeps}

-- `int32_t`
abbrev pub IsInt32 : ℤ → Type 0
IsInt32 z = (pos_part z < 2 ^ 31) × (neg_part z ≤ 2 ^ 31)

-- `std::array<int32_t, INTERACTION_TIMES_LEN>`
abbrev pub IsArray : InteractionTimesCollection → Type 0
IsArray values = (length values ≡ interaction_times_len) × All IsInt32 values

-- The entries of each name are in order, and a value stands under a `uint64_t` and is an array.
pub record IsTyped (s : TelemetryStorage) : Type 0 where
  pub valid : IsValid s
  pub typed :
      (name : Bytes) (date : ℕ) (values : InteractionTimesCollection)
      → recorded name date s ≡ some values
      → (date < 2 ^ 64) × IsArray values

new_storage-IsTyped : IsTyped new_storage
new_storage-IsTyped = record {
  valid = new_storage-IsValid;
  typed = λ name date values e. let none_there = recorded_new name date in cc;
}

store_event-IsTyped :
    (n : Bytes) (e : InteractionTimesEventModel) (s : TelemetryStorage)
    → e.date < 2 ^ 64
    → IsArray e.values
    → IsTyped s
    → IsTyped (store_event n e s)
store_event-IsTyped n e s small array v = record {
  valid = store_event-IsValid n e s v.valid;
  typed = λ k date values there.
      let after = recorded-store_event n k e date s v.valid in
      elim (Bool-cases (bytes_eq n k && (e.date == date))) [
        | inr other ↦ v.typed k date values (ground (arith, after, other, there))
        | inl hit ↦ elim (Option-cases (recorded k date s)) [
          | inr (old, held) ↦ v.typed k date values (ground (arith, after, hit, held, there))
          | inl new ↦
              let at_date : e.date ≡ date = ground (arith, hit) in
              let stored : e.values ≡ values = ground (arith, after, hit, new, there) in
              (subst (λ date. date < 2 ^ 64) at_date small, subst IsArray stored array)
        ]
      ];
}

module _ (d : Doubles) (json : Json d) where
  -- The numbers that the JSON library gives for a `uint64_t` and a vector of `int32_t` are of these
  -- types.
  pub record IsRanged : Type 0 where
    pub u64 : (v : json.Value) (n : ℕ) → json.get_u64 v ≡ ok n → n < 2 ^ 64
    pub ints : (v : json.Value) (values : List ℤ) → json.get_ints v ≡ ok values → All IsInt32 values

  handle_store-IsTyped :
      IsRanged
      → (q : HttpRequest) (s : TelemetryStorage) → IsTyped s
      → IsTyped (handle_store d json q s).1
  handle_store-IsTyped ranged q s v = elim (handle_store-Outcome d json q s) [
    | inl (refused, same) ↦ rw same v
    | inr (a, done, stored) ↦
        let body = (decode_event_iff d json q a.dto).0 a.decoded in
        rw stored (
          store_event-IsTyped a.name (event d json a) s
            (ranged.u64 body.date.value a.dto.date body.date.reads)
            (a.ten, ranged.ints body.values.value a.dto.values body.values.reads) v)
  ]

  -- Where the JSON library gives numbers of the types that it is asked for, then whatever any
  -- number of connections send, and in every order of their turns, the storage holds the entries of
  -- each name in order, under timestamps that fit `uint64_t`, each of exactly ten values that fit
  -- `int32_t`.
  pub SessionReach-IsTyped :
      (platform : Platform) (llhttp : Llhttp) (empty_object : Bytes)
      {σ τ : Connections TelemetryStorage}
      → IsRanged
      → σ.world ≡ new_storage
      → SessionReach
          (parse_request platform llhttp)
          empty_object
          (custom_router (telemetry_router d json))
          σ
          τ
      → IsTyped τ.world
  SessionReach-IsTyped platform llhttp empty_object ranged new reach =
      SessionReach_keeps (parse_request platform llhttp) empty_object
        (custom_router (telemetry_router d json)) IsTyped
        (telemetry_keeps d json IsTyped (handle_store-IsTyped ranged)) reach
        (subst IsTyped (sym new) new_storage-IsTyped)
