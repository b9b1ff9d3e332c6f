-- ===== src/Server/KeepAlive/Quiet.antt =====
-- How many steps a session makes without a new text of its client.
use ctask.Common.{
  ℕ, suc, ◌+◌, ◌-◌, ◌*◌, ◌<◌, ◌≤◌, ◌≡◌, ◌≢◌, refl, Bool, true, false, Option, none, some, arith,
  inl, inr, Option-cases,
}
use ctask.Server.KeepAlive.{
  Stage, awaiting_read, parsing, awaiting_refusal, routing, awaiting_answer, finished, Session,
  SessionMove, read_ends, read_bytes, refuse, refused, accept, respond, answer_ends, keep, expire,
  fire, run_posted, busy_of, tick, SessionRun, session_begins, session_moves, time_passes,
}
use ctask.Server.KeepAlive.Bounds.{IsPrompt, IsBounded, SessionRun-bounded}

-- A step without a new text of the client: a move that does not come to parse one, or time that
-- passes at an await.
pub data QuietStep (alive : ℕ) (s : Session) : Session → Type 0 where
  quiet_move :
      {t : Session}
      → SessionMove alive s t
      → (t.stage ≡ parsing → s.stage ≡ parsing)
      → QuietStep alive s t
  quiet_time : IsPrompt s → busy_of s.stage ≡ 0 → s.stage ≢ finished → QuietStep alive s (tick s)

pub data QuietSteps (alive : ℕ) : ℕ → Session → Session → Type 0 where
  quiet_settled : {s : Session} → QuietSteps alive 0 s s
  quiet_step :
      {n : ℕ} {s t u : Session}
      → QuietStep alive s t
      → QuietSteps alive n t u
      → QuietSteps alive (suc n) s u

-- The steps that are left, at most: of a stage with the resets that follow, of the posted function,
-- and of the wait that is armed.
abbrev stage_rank : ℕ → Stage → ℕ
stage_rank alive parsing = 4 * (alive + 3)
stage_rank alive routing = 3 * (alive + 3)
stage_rank alive awaiting_answer = 2 * (alive + 3)
stage_rank alive awaiting_read = alive + 3
stage_rank alive awaiting_refusal = alive + 3
stage_rank alive finished = 0

abbrev posted_rank : ℕ → Bool → ℕ
posted_rank alive true = alive + 3
posted_rank alive false = 0

abbrev wait_rank : ℕ → Option ℕ → ℕ
wait_rank now none = 0
wait_rank now (some expiry) = 2 + (expiry - now)

abbrev pub session_rank : ℕ → Session → ℕ
session_rank alive s =
    stage_rank alive s.stage + posted_rank alive s.posted + s.due + wait_rank s.now s.armed

SessionMove-rank :
    (alive : ℕ) {s t : Session}
    → SessionMove alive s t
    → (t.stage ≡ parsing → s.stage ≡ parsing)
    → session_rank alive t < session_rank alive s
SessionMove-rank alive (read_ends e) quiet = grind arith
SessionMove-rank alive (read_bytes e) quiet = absurd (let p = quiet refl in cc)
SessionMove-rank alive (refuse e) quiet = grind arith
SessionMove-rank alive (refused e) quiet = grind arith
SessionMove-rank alive (accept e) quiet = grind arith
SessionMove-rank alive (respond e) quiet = grind arith
SessionMove-rank alive (answer_ends e) quiet = grind arith
SessionMove-rank alive (keep e) quiet = grind arith
SessionMove-rank alive (expire d a l) quiet = grind arith
SessionMove-rank alive (fire n e) quiet = grind arith
SessionMove-rank alive (run_posted p) quiet = grind arith

-- Time at an await is time of the wait that is armed.
tick-rank :
    (alive : ℕ) (s : Session)
    → IsPrompt s
    → IsBounded alive s
    → busy_of s.stage ≡ 0
    → session_rank alive (tick s) < session_rank alive s
tick-rank alive s p v waiting = elim (v.guarded (p.no_await waiting)) [
  | inl armed ↦ let soon = p.no_expiry _ armed in rw armed (omega (arith, soon))
  | inr due ↦ absurd (omega (arith, p.none_due))
]

-- Where the session is not over, the bounds hold.
SessionRun-IsBounded :
    {alive now : ℕ} {s : Session}
    → SessionRun alive IsPrompt now s
    → s.stage ≢ finished
    → IsBounded alive s
SessionRun-IsBounded run going = elim (SessionRun-bounded run) [
  | inl over ↦ absurd (going over)
  | inr v ↦ v
]

QuietStep-rank :
    {alive now : ℕ} {s t : Session}
    → SessionRun alive IsPrompt now s
    → QuietStep alive s t
    → SessionRun alive IsPrompt now t × (session_rank alive t < session_rank alive s)
QuietStep-rank {alive} run (quiet_move move quiet) =
    (session_moves run move, SessionMove-rank alive move quiet)
QuietStep-rank {alive} {s = s} run (quiet_time p waiting going) =
    (time_passes run p, tick-rank alive s p (SessionRun-IsBounded run going) waiting)

pub QuietSteps-rank :
    {alive now n : ℕ} {s t : Session}
    → SessionRun alive IsPrompt now s
    → QuietSteps alive n s t
    → SessionRun alive IsPrompt now t × (n + session_rank alive t ≤ session_rank alive s)
QuietSteps-rank run quiet_settled = (run, omega arith)
QuietSteps-rank run (quiet_step step rest) =
    let (there, less) = QuietStep-rank run step in
    let (end, total) = QuietSteps-rank there rest in (end, omega (arith, less, total))

-- The wait that is armed expires within the keep-alive time.
abbrev pub IsNear : ℕ → Session → Type 0
IsNear alive s = (expiry : ℕ) → s.armed ≡ some expiry → expiry ≤ s.now + alive

SessionMove-IsNear :
    (alive : ℕ) {s t : Session} → SessionMove alive s t → IsNear alive s → IsNear alive t
SessionMove-IsNear alive (read_ends e) v = grind arith
SessionMove-IsNear alive (read_bytes e) v = v
SessionMove-IsNear alive (refuse e) v = v
SessionMove-IsNear alive (refused e) v = grind arith
SessionMove-IsNear alive (accept e) v = grind arith
SessionMove-IsNear alive (respond e) v = v
SessionMove-IsNear alive (answer_ends e) v = grind arith
SessionMove-IsNear alive (keep e) v = grind arith
SessionMove-IsNear alive (expire d a l) v = grind arith
SessionMove-IsNear alive (fire n e) v = v
SessionMove-IsNear alive (run_posted p) v = grind arith

pub SessionRun-IsNear :
    {alive now : ℕ} {MayWait : Session → Type 0} {s : Session}
    → SessionRun alive MayWait now s
    → IsNear alive s
SessionRun-IsNear session_begins = grind arith
SessionRun-IsNear {alive} (session_moves run move) =
    SessionMove-IsNear alive move (SessionRun-IsNear run)
SessionRun-IsNear (time_passes run may) =
    let v = SessionRun-IsNear run in λ expiry e. omega (arith, v expiry e)

stage_rank-le : (alive : ℕ) (stage : Stage) → stage_rank alive stage ≤ 4 * (alive + 3)
stage_rank-le alive parsing = omega arith
stage_rank-le alive routing = omega arith
stage_rank-le alive awaiting_answer = omega arith
stage_rank-le alive awaiting_read = omega arith
stage_rank-le alive awaiting_refusal = omega arith
stage_rank-le alive finished = omega arith

posted_rank-le : (alive : ℕ) (posted : Bool) → posted_rank alive posted ≤ alive + 3
posted_rank-le alive true = omega arith
posted_rank-le alive false = omega arith

pub session_rank-le :
    (alive : ℕ) (s : Session) → IsNear alive s → session_rank alive s ≤ s.due + 6 * (alive + 3)
session_rank-le alive s near =
    let by_stage = stage_rank-le alive s.stage in
    let by_posted = posted_rank-le alive s.posted in
    elim (Option-cases s.armed) [
      | inl none_armed ↦ rw none_armed (omega (arith, by_stage, by_posted))
      | inr (expiry, armed) ↦
          let soon = near expiry armed in rw armed (omega (arith, by_stage, by_posted, soon))
    ]
