-- ===== src/Server/Lifecycle/Results.antt =====
-- What `start` returns, and when.
use ctask.Common.{
  ℕ, ◌<◌, ◌≤◌, ◌≡◌, ◌≢◌, ◌⊎◌, refl, sym, ◌∙◌, true, false, none, some, inl, inr, arith, ◌==◌,
  Bool-cases, Option-cases,
}
use ctask.Common.Result.{Result, ok, thrown, Exception}
use ctask.Server.{HttpServer}
use ctask.Server.Listening.{Network, listen_on, start}
use ctask.Server.Lifecycle.{
  unstarted, joining, returned, HandlerState, spawned, accepting, threw, Service, rethrow, hear,
  fail, leave_run, join_returns, ServiceMove, call_start, call_stop, by_itself, ServiceRun,
  service_begins, service_moves,
}

-- What the fields of a service say of one another.
pub record IsCoherent (threads : ℕ) (listens : Result (Unit {0})) (s : Service) : Type 0 where
  pub fails : (e : Exception) → s.error ≡ some e → listens ≡ thrown e
  pub fails_stopped : (e : Exception) → s.error ≡ some e → s.stopped ≡ true
  pub hears : s.handler ≡ accepting → listens ≡ ok tt
  pub threw_error : s.handler ≡ threw → s.error ≢ none
  pub error_threw : (e : Exception) → s.error ≡ some e → s.handler ≡ threw
  pub stops : s.stopped ≡ true → s.error ≡ none → s.asked ≡ true
  pub full : s.progress ≡ joining → s.stopped ≡ false → s.running ≡ threads
  pub gone :
      (r : Result (Unit {0}))
      → s.progress ≡ returned r
      → (s.running ≡ 0) × ((s.stopped ≡ true) ⊎ (threads ≡ 0))
  pub result : (r : Result (Unit {0})) → s.progress ≡ returned r → r ≡ rethrow s.error
  pub within : s.running ≤ threads
  pub fails_running : (e : Exception) → s.error ≡ some e → 0 < threads
  pub idle : s.progress ≡ unstarted → s.running ≡ 0

ServiceMove-IsCoherent :
    (threads : ℕ) (listens : Result (Unit {0})) {s t : Service}
    → ServiceMove threads listens s t
    → IsCoherent threads listens s
    → IsCoherent threads listens t
ServiceMove-IsCoherent threads listens (call_start e) v = grind arith
ServiceMove-IsCoherent threads listens (by_itself (hear o r st h l)) v = grind arith
ServiceMove-IsCoherent threads listens (by_itself (fail o x r st h l)) v = grind arith
ServiceMove-IsCoherent threads listens call_stop v = grind arith
ServiceMove-IsCoherent threads listens (by_itself (leave_run o r st)) v = grind arith
ServiceMove-IsCoherent threads listens (by_itself (join_returns j r)) v = grind arith

pub ServiceRun-IsCoherent :
    {threads : ℕ} {listens : Result (Unit {0})} {s : Service}
    → ServiceRun threads listens s
    → IsCoherent threads listens s
ServiceRun-IsCoherent service_begins = grind arith
ServiceRun-IsCoherent {threads} {listens} (service_moves run move) =
    ServiceMove-IsCoherent threads listens move (ServiceRun-IsCoherent run)

-- What has become of the connection handler once `start` has returned: it accepts, or it was never
-- run, where `stop` was called or there is no thread, or it threw.
abbrev pub EndsWith : ℕ → Result (Unit {0}) → Service → Result (Unit {0}) → HandlerState → Type 0
EndsWith threads listens s r accepting = (listens ≡ ok tt) × (r ≡ ok tt)
EndsWith threads listens s r spawned = ((threads ≡ 0) ⊎ (s.asked ≡ true)) × (r ≡ ok tt)
EndsWith threads listens s r threw = (r ≡ listens) × (r ≢ ok tt)

pub start_ends :
    {threads : ℕ} {listens : Result (Unit {0})} {s : Service} (r : Result (Unit {0}))
    → ServiceRun threads listens s
    → s.progress ≡ returned r
    → EndsWith threads listens s r s.handler
start_ends {threads} {listens} {s} r run at_end =
    by_handler s.handler refl (ServiceRun-IsCoherent run)
  where
    by_handler :
        (h : HandlerState)
        → s.handler ≡ h
        → IsCoherent threads listens s
        → EndsWith threads listens s r h
    by_handler accepting here v = elim (Option-cases s.error) [
      | inl fine ↦ (v.hears here, v.result r at_end ∙ rw fine refl)
      | inr (e, failed) ↦ absurd (let t = v.error_threw e failed in cc)
    ]
    by_handler spawned here v = elim (Option-cases s.error) [
      | inl fine ↦ (
        elim (v.gone r at_end).1 [ inl stopped ↦ inr (v.stops stopped fine) | inr idle ↦ inl idle ],
        v.result r at_end ∙ rw fine refl,
      )
      | inr (e, failed) ↦ absurd (let t = v.error_threw e failed in cc)
    ]
    by_handler threw here v = elim (Option-cases s.error) [
      | inl fine ↦ absurd (v.threw_error here fine)
      | inr (e, failed) ↦
          let gives : r ≡ thrown e = v.result r at_end ∙ rw failed refl in
          (gives ∙ sym (v.fails e failed), λ fine. cc)
    ]

-- However the threads of the pool and the calls of `stop` come in turn, `start` returns only after a
-- stop of the context or where there is no thread; and what it returns is what the connection handler
-- makes of its set-up, or, where `stop` was called, nothing wrong.
pub start_returns :
    {W : Type 0} (network : Network) (server : HttpServer W) {s : Service} (r : Result (Unit {0}))
    → ServiceRun server.threads (listen_on network server.address server.port) s
    → s.progress ≡ returned r
    → ((s.stopped ≡ true) ⊎ (server.threads ≡ 0))
      × ((r ≡ start network server) ⊎ ((r ≡ ok tt) × (s.asked ≡ true)))
unfolding start
start_returns network server {s} r run at_end =
    let v = ServiceRun-IsCoherent run in
    let result = v.result r at_end in
    (
      (v.gone r at_end).1,
      elim (Option-cases s.error) [
        | inr (e, failed) ↦
            let threads : (server.threads == 0) ≡ false =
              ground (arith, v.fails_running e failed) in
            inl (rw threads (result ∙ rw failed (sym (v.fails e failed))))
        | inl fine ↦ elim (Bool-cases s.asked) [
          | inl asked ↦ inr (result ∙ rw fine refl, asked)
          | inr unasked ↦ elim (v.gone r at_end).1 [
            | inl stopped ↦ absurd (let asked = v.stops stopped fine in cc)
            | inr idle ↦ inl (rw idle (result ∙ rw fine refl))
          ]
        ]
      ],
    )
