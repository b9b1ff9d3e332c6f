-- ===== src/Server/Connections/Tests.antt =====
-- Connections on concrete input.
use mathlib.Core.Path.{subst}
use ctask.Common.Result.{Result, ok, thrown, undefined, external}
use ctask.Telemetry.Api.{Json}
use ctask.Server.Connections.Ranges.{IsInt32, IsRanged, IsTyped, SessionReach-IsTyped}
use ctask.Common.{
  ltb, ◌<◌, ◌^◌, codes, ℕ, suc, ◌-◌, ◌≡◌, refl, [], ◌∷◌, All, if◌then◌else◌, ◌==◌, arith,
}
use ctask.Parser.{parse_request}
use ctask.Parser.Tests.{platform}
use ctask.Telemetry.Events.Range.{values_from}
use ctask.Telemetry.Storage.{TelemetryStorage, new_storage}
use ctask.Telemetry.Storage.History.{History, store_all, first_values}
use ctask.Telemetry.Tests.{fractions}
use ctask.Telemetry.Api.Tests.{sample, ten_times}
use ctask.Telemetry.Api.Handlers.{start, end}
use ctask.Telemetry.Api.Flow.{answer_of}
use ctask.Telemetry.Api.Routing.{telemetry_router, handed}
use ctask.Server.{client_session}
use ctask.Server.Tests.{good, bad}
use ctask.Server.Service.{custom_router}
use ctask.Server.Scenario.Messages.{empty_object, llhttp, get, get_parses}
use ctask.Server.Scenario.Tests.{post_turn, get_turn, queried, filled}
use ctask.Server.Connections.{Connections, advance, SessionReach, next_turn, begin, then_step}
use ctask.Server.Connections.Answers.{IsPosted, sent_of_reachable}
use ctask.Server.Connections.Effects.{texts_of, TurnEffect, client_session-TurnEffect}
use ctask.Router.{caught}

-- Every connection is about to go through the same turns.
abbrev waiting_all : Connections ℕ
waiting_all = record { world = 0; pending = λ i. good ∷ good ∷ bad ∷ []; sent = λ i. [] }

-- One client that posts, and others that ask.
abbrev clients : Connections TelemetryStorage
clients = record {
  world = new_storage;
  pending = λ i. if i == 0 then post_turn ∷ [] else get_turn ∷ [];
  sent = λ i. [];
}

abbrev posted : Connections TelemetryStorage
posted =
    advance clients 0
      (client_session (parse_request platform llhttp) empty_object
        (custom_router (telemetry_router fractions sample)) (post_turn ∷ []) new_storage)
      []

posted_reach :
    SessionReach
      (parse_request platform llhttp)
      empty_object
      (custom_router (telemetry_router fractions sample))
      clients
      posted
posted_reach = then_step begin (next_turn 0 refl)

sent_of_reachable_example :
    (h : History) × All (IsPosted fractions sample) h
    × (posted.world ≡ store_all h new_storage)
    × ((client_session
          (parse_request platform llhttp)
          empty_object
          (custom_router (telemetry_router fractions sample))
          (get_turn ∷ [])
          posted.world).world
        ≡ posted.world)
    × ((client_session
          (parse_request platform llhttp)
          empty_object
          (custom_router (telemetry_router fractions sample))
          (get_turn ∷ [])
          posted.world).sent
        ≡ texts_of
            (parse_request platform llhttp)
            empty_object
            (custom_router (telemetry_router fractions sample))
            get_turn
            (caught (
              answer_of fractions sample queried.unit (
                  values_from
                    (λ date. first_values queried.name date h)
                    (start fractions sample queried)
                    (suc (end fractions sample queried) - start fractions sample queried)),
              handed fractions sample get,
              posted.world,
            )).0
            get)
sent_of_reachable_example =
    sent_of_reachable fractions sample platform llhttp empty_object clients posted get_turn
      (codes "GE") get queried refl posted_reach refl filled.1 get_parses refl (λ e. cc)
      (omega arith)

client_session-TurnEffect_example :
    TurnEffect fractions sample platform llhttp empty_object post_turn new_storage (
      client_session
        (parse_request platform llhttp)
        empty_object
        (custom_router (telemetry_router fractions sample))
        (post_turn ∷ [])
        new_storage)
client_session-TurnEffect_example =
    client_session-TurnEffect fractions sample platform llhttp empty_object post_turn new_storage

-- A JSON library that refuses what does not fit.
abbrev fit_u64 : Result ℕ → Result ℕ
fit_u64 (ok n) = if ltb n (2 ^ 64) then ok n else thrown (external (codes "out of range"))
fit_u64 other = other

abbrev strict : Json fractions
strict = record sample {
  get_u64 = λ v. fit_u64 (sample.get_u64 v);
  get_ints = λ v. ok (ten_times 3);
}

fit_u64-lt : (r : Result ℕ) (n : ℕ) → fit_u64 r ≡ ok n → n < 2 ^ 64
fit_u64-lt (ok m) n e = ground arith
fit_u64-lt (thrown x) n e = cc
fit_u64-lt undefined n e = cc

strict-IsRanged : IsRanged fractions strict
strict-IsRanged = record {
  u64 = λ v n e. fit_u64-lt (sample.get_u64 v) n e;
  ints =
      λ v values e. let same : ten_times 3 ≡ values = cc in subst (All IsInt32) same (omega arith);
}

abbrev strictly_posted : Connections TelemetryStorage
strictly_posted =
    advance clients 0
      (client_session (parse_request platform llhttp) empty_object
        (custom_router (telemetry_router fractions strict)) (post_turn ∷ []) new_storage)
      []

SessionReach-IsTyped_example : IsTyped strictly_posted.world
SessionReach-IsTyped_example =
    SessionReach-IsTyped fractions strict platform llhttp empty_object strict-IsRanged refl
      (then_step {σ = clients} begin (next_turn 0 refl))
