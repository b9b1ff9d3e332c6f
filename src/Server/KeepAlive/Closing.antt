-- ===== src/Server/KeepAlive/Closing.antt =====
-- When the socket of a session is closed, and when it is not.
use ctask.Common.{ℕ, suc, ◌+◌, ◌<◌, ◌≡◌, ◌≢◌, true, false, none, some, arith}
use ctask.Server.KeepAlive.{
  finished, Session, SessionMove, read_ends, read_bytes, refuse, refused, accept, respond,
  answer_ends, keep, expire, fire, run_posted, SessionRun, session_begins, session_moves,
  time_passes,
}

-- A session that is over has closed its socket; and no wait is armed unless the posted function has
-- run.
pub record IsTidy (s : Session) : Type 0 where
  pub closed : s.stage ≡ finished → s.is_open ≡ false
  pub cancelled : s.stage ≡ finished → s.posted ≡ true → s.armed ≡ none

SessionMove-IsTidy : (alive : ℕ) {s t : Session} → SessionMove alive s t → IsTidy s → IsTidy t
SessionMove-IsTidy alive (read_ends e) v = ground arith
SessionMove-IsTidy alive (read_bytes e) v = ground arith
SessionMove-IsTidy alive (refuse e) v = ground arith
SessionMove-IsTidy alive (refused e) v = ground arith
SessionMove-IsTidy alive (accept e) v = ground arith
SessionMove-IsTidy alive (respond e) v = ground arith
SessionMove-IsTidy alive (answer_ends e) v = ground arith
SessionMove-IsTidy alive (keep e) v = ground arith
SessionMove-IsTidy alive (expire d a l) v = ground arith
SessionMove-IsTidy alive (fire n e) v = ground arith
SessionMove-IsTidy alive (run_posted p) v = ground arith

-- However its steps, its timer and time come in turn, a session that is over has closed its socket,
-- and has no wait armed unless the posted function has run.
pub SessionRun-IsTidy :
    {alive now : ℕ} {MayWait : Session → Type 0} {s : Session}
    → SessionRun alive MayWait now s
    → IsTidy s
SessionRun-IsTidy session_begins = ground arith
SessionRun-IsTidy {alive} (session_moves run move) =
    SessionMove-IsTidy alive move (SessionRun-IsTidy run)
SessionRun-IsTidy (time_passes run may) = let v = SessionRun-IsTidy run in ground arith

-- The next unit of time does not complete the keep-alive time since the last reset.
abbrev pub IsQuick : ℕ → Session → Type 0
IsQuick alive s = suc s.now < s.last + alive

-- What holds of a session that never lets the keep-alive time pass.
pub record IsServed (alive : ℕ) (s : Session) : Type 0 where
  pub in_time : s.now < s.last + alive
  pub none_due : s.due ≡ 0
  pub armed_last : (d : ℕ) → s.armed ≡ some d → d ≡ s.last + alive
  pub stays_open : s.stage ≢ finished → s.is_open ≡ true

SessionMove-IsServed :
    (alive : ℕ) {s t : Session}
    → 0 < alive
    → SessionMove alive s t
    → IsServed alive s
    → IsServed alive t
SessionMove-IsServed alive p (read_ends e) v = grind arith
SessionMove-IsServed alive p (read_bytes e) v = grind arith
SessionMove-IsServed alive p (refuse e) v = grind arith
SessionMove-IsServed alive p (refused e) v = grind arith
SessionMove-IsServed alive p (accept e) v = grind arith
SessionMove-IsServed alive p (respond e) v = grind arith
SessionMove-IsServed alive p (answer_ends e) v = grind arith
SessionMove-IsServed alive p (keep e) v = grind arith
SessionMove-IsServed alive p (expire d a l) v =
    let at_last = v.armed_last d a in absurd (omega (arith, v.in_time))
SessionMove-IsServed alive p (fire n e) v = absurd (omega (arith, v.none_due))
SessionMove-IsServed alive p (run_posted q) v = grind arith

-- As long as no keep-alive time passes without a reset, the timer closes nothing: until the session
-- is over its socket is open, and no handler of the timer is due.
pub SessionRun-IsServed :
    {alive now : ℕ} {s : Session}
    → 0 < alive
    → SessionRun alive (IsQuick alive) now s
    → IsServed alive s
SessionRun-IsServed p session_begins = grind arith
SessionRun-IsServed {alive} p (session_moves run move) =
    SessionMove-IsServed alive p move (SessionRun-IsServed p run)
SessionRun-IsServed p (time_passes run quick) =
    let v = SessionRun-IsServed p run in
    record {
      in_time = quick;
      none_due = v.none_due;
      armed_last = v.armed_last;
      stays_open = v.stays_open;
    }
