-- ===== src/Server/KeepAlive/Tests.antt =====
-- Sessions with their timer on concrete input.
use ctask.Common.{false, true, ◌+◌, ◌*◌, ◌≤◌, ◌<◌, ◌≡◌, ◌≢◌, ◌⊎◌, refl, false, some, arith}
use ctask.Server.KeepAlive.{
  parsing, routing, finished, Session, opened, reset_timer, read_bytes, accept, respond,
  awaiting_answer, tick, SessionMove, SessionRun, session_begins, session_moves, time_passes,
}
use ctask.Server.KeepAlive.Closing.{IsQuick, IsServed, SessionRun-IsServed}
use ctask.Server.KeepAlive.Bounds.{IsPrompt, SessionRun-le}
use ctask.Server.KeepAlive.Quiet.{
  QuietStep, quiet_move, quiet_time, QuietSteps, quiet_settled, quiet_step,
}
use ctask.Server.KeepAlive.Ending.{OwnStep, session_ends}
use ctask.Server.KeepAlive.Late.{Always, late_close_reachable}

-- A session that has waited for a unit of time, read a request and parsed it, at a keep-alive time of
-- five units.
abbrev read_late : Session
read_late = record (tick (opened 5 100)) { stage = parsing }

abbrev accepted : Session
accepted = reset_timer 5 (record read_late { stage = routing; requests = 1 })

accepted-IsQuick : SessionRun 5 (IsQuick 5) 100 accepted
accepted-IsQuick =
    session_moves (session_moves (time_passes session_begins (omega arith)) (read_bytes refl))
      (accept refl)

five_above : 0 < 5
five_above = omega arith

SessionRun-IsServed_example : IsServed 5 accepted
SessionRun-IsServed_example = SessionRun-IsServed five_above accepted-IsQuick

opened-IsPrompt : IsPrompt (opened 5 100)
opened-IsPrompt = record { no_expiry = λ d e. ground arith; none_due = refl; no_await = λ e. refl }

accepted-IsPrompt : SessionRun 5 IsPrompt 100 accepted
accepted-IsPrompt =
    session_moves (session_moves (time_passes session_begins opened-IsPrompt) (read_bytes refl))
      (accept refl)

accepted_going : accepted.stage ≢ finished
accepted_going e = cc

SessionRun-le_example :
    accepted.now ≤ accepted.begun + 5 * (2 * accepted.requests + 2) + accepted.busy
SessionRun-le_example = SessionRun-le accepted-IsPrompt accepted_going

late_close_reachable_example :
    (s t : Session) × SessionRun 5 Always 100 s
    × ((s.stage ≡ routing) × (s.is_open ≡ true) × (s.armed ≡ some (s.now + 5)))
    × SessionMove 5 s t
    × ((t.stage ≡ routing) × (t.is_open ≡ false) × (t.armed ≡ some (t.now + 5)))
late_close_reachable_example = late_close_reachable 5 100

-- The accepted request is answered while the client falls silent, and one unit of time passes.
abbrev answering : Session
answering = record accepted { stage = awaiting_answer }

answering-IsPrompt : IsPrompt answering
answering-IsPrompt = record {
  no_expiry = λ d e. ground arith;
  none_due = refl;
  no_await = λ e. refl;
}

silence : QuietSteps 5 2 accepted (tick answering)
silence =
    quiet_step (quiet_move (respond refl) (λ e. cc))
      (quiet_step (quiet_time answering-IsPrompt refl (λ e. cc)) quiet_settled)

session_ends_example :
    (2 ≤ accepted.due + 6 * (5 + 3))
    × (((tick answering).stage ≡ finished)
        ⊎ ((u : Session) × OwnStep 5 (tick answering) u × QuietStep 5 (tick answering) u))
session_ends_example = session_ends accepted-IsPrompt silence
