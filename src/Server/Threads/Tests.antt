-- ===== src/Server/Threads/Tests.antt =====
-- Two connections that post at the same time, on concrete input.
use ctask.Common.{◌≡◌, refl, ap, codes, none, [], ◌∷◌, arith}
use ctask.Common.Assoc.{lookup}
use ctask.Parser.{parse_request}
use ctask.Parser.Tests.{platform}
use ctask.Telemetry.Types.{InteractionTimesEventModel}
use ctask.Telemetry.Storage.{new_storage}
use ctask.Telemetry.Tests.{fractions}
use ctask.Telemetry.Api.Handlers.{event}
use ctask.Telemetry.Api.Tests.{sample}
use ctask.Telemetry.Api.Routing.{telemetry_router}
use ctask.Telemetry.Concurrency.{start, call_store, miss, lock_map, create}
use ctask.Server.{waiting}
use ctask.Server.Service.{custom_router}
use ctask.Server.Connections.{SessionReach}
use ctask.Server.Scenario.{ok_text, post_turn_lem}
use ctask.Server.Scenario.Messages.{empty_object, llhttp, post}
use ctask.Server.Scenario.Tests.{post_turn, post_sent, accepted}
use ctask.Server.Threads.{
  Threads, seen, IsPlan, calls_store, goes_on, ends_store, ThreadReach, begin, then_step,
}
use ctask.Server.Threads.Plans.{stores, Plan}
use ctask.Server.Threads.Turns.{Reply, replied}
use ctask.Server.Threads.Refines.{ThreadReach-SessionReach, client_session-IsPlan}

abbrev posted : Reply
posted = (ok_text platform llhttp empty_object fractions sample post [] ∷ [], waiting)

abbrev posted_event : InteractionTimesEventModel
posted_event = event fractions sample accepted

post_turn-IsPlan :
    IsPlan
      (parse_request platform llhttp)
      empty_object
      (custom_router (telemetry_router fractions sample))
      post_turn
      (stores (codes "login") posted_event posted)
post_turn-IsPlan = record {
  agrees = λ s. ap replied (
      post_turn_lem platform llhttp empty_object fractions sample post_turn post accepted s
        post_sent refl (λ e. cc));
}

-- Every connection is about to post.
abbrev all_post : Threads
all_post = record { system = start; pending = λ i. post_turn ∷ []; sent = λ i. [] }

absent : lookup (codes "login") new_storage.event_entries ≡ none
unfolding lookup
absent = refl

-- Two of them search the map, and find no entry; the first makes it and is at its end, and so does
-- the second, which nobody has found an entry before.
posts :
    (τ : Threads) × ThreadReach
      (parse_request platform llhttp)
      empty_object
      (custom_router (telemetry_router fractions sample))
      all_post
      τ
posts = (
  _,
  then_step
      (then_step
        (then_step
          (then_step
            (then_step
              (then_step
                (then_step
                  (then_step begin (
                    calls_store 0 refl post_turn-IsPlan
                      (call_store (codes "login") posted_event (λ j h. h))))
                  (calls_store 1 refl post_turn-IsPlan
                    (call_store (codes "login") posted_event (λ j h. ground arith))))
                (goes_on 0 (λ e. cc) (λ e. cc) (miss (codes "login") posted_event absent)))
              (goes_on 1 (λ e. cc) (λ e. cc) (miss (codes "login") posted_event absent)))
            (goes_on 0 (λ e. cc) (λ e. cc)
              (lock_map (codes "login") posted_event (λ j h. ground arith))))
          (ends_store 0 refl post_turn-IsPlan (create (codes "login") posted_event tt)))
        (goes_on 1 (λ e. cc) (λ e. cc)
          (lock_map (codes "login") posted_event (λ j h. ground arith))))
      (ends_store 1 refl post_turn-IsPlan (create (codes "login") posted_event tt)),
)

ThreadReach-SessionReach_example :
    SessionReach
      (parse_request platform llhttp)
      empty_object
      (custom_router (telemetry_router fractions sample))
      (seen all_post)
      (seen posts.0)
ThreadReach-SessionReach_example =
    ThreadReach-SessionReach (parse_request platform llhttp) empty_object
      (custom_router (telemetry_router fractions sample)) refl posts.1

client_session-IsPlan_example :
    (plan : Plan Reply) × IsPlan
      (parse_request platform llhttp)
      empty_object
      (custom_router (telemetry_router fractions sample))
      post_turn
      plan
client_session-IsPlan_example =
    client_session-IsPlan fractions sample (parse_request platform llhttp) empty_object post_turn
