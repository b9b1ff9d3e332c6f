-- ===== src/Server/KeepAlive/Ending.antt =====
-- That a session comes to its end without its client.
use ctask.Common.{
  ℕ, ◌+◌, ◌-◌, ◌*◌, ◌≤◌, ◌≡◌, ◌≢◌, ◌⊎◌, refl, false, arith, inl, inr, sym, ◌∙◌, Bool-cases, ◌==◌,
  leb,
}
use ctask.Server.KeepAlive.{
  Stage, awaiting_read, parsing, awaiting_refusal, routing, awaiting_answer, finished, Session,
  leave, SessionMove, read_ends, refuse, refused, respond, answer_ends, expire, fire, busy_of, tick,
  SessionRun,
}
use ctask.Server.KeepAlive.Bounds.{IsPrompt, IsBounded, SessionRun-bounded}
use ctask.Server.KeepAlive.Quiet.{
  QuietStep, quiet_move, quiet_time, QuietSteps, QuietSteps-rank, SessionRun-IsNear,
  session_rank-le,
}

-- A step that the server makes by itself: of its own work, of the timer, out of an await on a socket
-- that is closed, or time at an await where nothing else is to be done.
pub data OwnStep (alive : ℕ) (s : Session) : Session → Type 0 where
  works :
      {t : Session}
      → busy_of s.stage ≡ 1
      → SessionMove alive s t
      → t.stage ≢ parsing
      → OwnStep alive s t
  timer_runs : {t : Session} → SessionMove alive s t → t.stage ≡ s.stage → OwnStep alive s t
  gives_up : s.is_open ≡ false → SessionMove alive s (leave s) → OwnStep alive s (leave s)
  waits : IsPrompt s → busy_of s.stage ≡ 0 → s.stage ≢ finished → OwnStep alive s (tick s)

OwnStep-QuietStep : {alive : ℕ} {s t : Session} → OwnStep alive s t → QuietStep alive s t
OwnStep-QuietStep (works busy move left) = quiet_move move (λ e. absurd (left e))
OwnStep-QuietStep (timer_runs move same) = quiet_move move (λ e. sym same ∙ e)
OwnStep-QuietStep (gives_up closed move) = quiet_move move (λ e. cc)
OwnStep-QuietStep (waits p waiting going) = quiet_time p waiting going

-- At an await there is a step to make: out of it, of the timer, or time.
await_step :
    (alive : ℕ) (s : Session)
    → IsBounded alive s
    → busy_of s.stage ≡ 0
    → s.stage ≢ finished
    → SessionMove alive s (leave s)
    → (t : Session) × OwnStep alive s t
await_step alive s v waiting going leaves = elim (Bool-cases s.is_open) [
  | inr closed ↦ (_, gives_up closed leaves)
  | inl stands_open ↦ elim (Bool-cases (s.due == 0)) [
    | inr some_due ↦ (_, timer_runs (fire (s.due - 1) (ground (arith, some_due))) refl)
    | inl nothing_due ↦
        let none_due : s.due ≡ 0 = ground (arith, nothing_due) in
        elim (v.guarded stands_open) [
          | inr due ↦ absurd (omega (arith, none_due))
          | inl armed ↦ elim (Bool-cases (leb (s.last + alive) s.now)) [
            | inl expired ↦ (_, timer_runs (expire _ armed (ground (arith, expired))) refl)
            | inr soon ↦ (
              _,
              waits
                  (record {
                    no_expiry = λ d e. grind arith;
                    none_due = none_due;
                    no_await = λ e. stands_open;
                  })
                  waiting going,
            )
          ]
        ]
  ]
]

own_step :
    (alive : ℕ) (s : Session)
    → IsBounded alive s
    → (s.stage ≡ finished) ⊎ ((t : Session) × OwnStep alive s t)
own_step alive s v = by_stage s.stage refl
  where
    by_stage :
        (stage : Stage)
        → s.stage ≡ stage
        → (s.stage ≡ finished) ⊎ ((t : Session) × OwnStep alive s t)
    by_stage finished e = inl e
    by_stage parsing e = inr (_, works (rw e refl) (refuse e) (λ f. cc))
    by_stage routing e = inr (_, works (rw e refl) (respond e) (λ f. cc))
    by_stage awaiting_read e = inr (await_step alive s v (rw e refl) (λ f. cc) (read_ends e))
    by_stage awaiting_refusal e = inr (await_step alive s v (rw e refl) (λ f. cc) (refused e))
    by_stage awaiting_answer e = inr (await_step alive s v (rw e refl) (λ f. cc) (answer_ends e))

-- Where the timer is served in time, and whatever the client does but send a new text, a session
-- makes only so many steps, counting no time of its own work; and after any of them it is over, or
-- there is a next step, which the server makes by itself.
pub session_ends :
    {alive now n : ℕ} {s t : Session}
    → SessionRun alive IsPrompt now s
    → QuietSteps alive n s t
    → (n ≤ s.due + 6 * (alive + 3))
      × ((t.stage ≡ finished) ⊎ ((u : Session) × OwnStep alive t u × QuietStep alive t u))
session_ends {alive} {s = s} {t} run steps =
    let (there, total) = QuietSteps-rank run steps in
    let bound = session_rank-le alive s (SessionRun-IsNear run) in
    (
      omega (arith, total, bound),
      elim (SessionRun-bounded there) [
        | inl over ↦ inl over
        | inr v ↦ elim (own_step alive t v) [
          | inl over ↦ inl over
          | inr (u, step) ↦ inr (u, step, OwnStep-QuietStep step)
        ]
      ],
    )
