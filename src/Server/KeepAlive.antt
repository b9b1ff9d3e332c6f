-- ===== src/Server/KeepAlive.antt =====
-- ctask_lib/service/http_server/http_server.cpp: `clientSession_` with its timer. What is read and
-- routed is left open here; the timer is that of asio, whose wait, once it has expired, is not
-- aborted any more: its handler is due, and runs on whatever thread is free.
pub mod Closing
pub mod Bounds
pub mod Late
pub mod Quiet
pub mod Ending
pub mod Tests
use ctask.Common.{ℕ, suc, ◌+◌, ◌≤◌, ◌≡◌, Bool, true, false, Option, none, some}

-- Where a session stands: at one of its three awaits, in one of its two pieces of own work, or at
-- its end.
pub data Stage : Type 0 where
  awaiting_read parsing awaiting_refusal routing awaiting_answer finished : Stage

pub record Session : Type 0 where
  pub stage : Stage
  pub now : ℕ
  -- The expiry of the wait that is armed.
  pub armed : Option ℕ
  -- The handlers of waits that have expired and that have not run.
  pub due : ℕ
  pub is_open : Bool
  -- `resetTimer` is posted to the context and has not run there.
  pub posted : Bool
  -- For the statements: when the session has begun, when the timer was last reset and how often, how
  -- many requests were parsed, and how long the session has worked itself.
  pub begun : ℕ
  pub last : ℕ
  pub resets : ℕ
  pub requests : ℕ
  pub busy : ℕ

-- `resetTimer`: the wait that is armed is aborted, which its handler ignores, and a new one is armed.
abbrev pub reset_timer : ℕ → Session → Session
reset_timer alive s = record s { armed = some (s.now + alive); last = s.now; resets = suc s.resets }

-- The handler of a wait that has expired.
abbrev pub on_expired : Session → Session
on_expired s = record s { is_open = false }

-- The two `Defer` of the session, in the reverse of the order in which they stand.
abbrev pub leave : Session → Session
leave s = record s { stage = finished; armed = none; is_open = false }

-- A new session: `resetTimer` is posted, then called in front of the first read.
abbrev pub opened : ℕ → ℕ → Session
opened alive now = reset_timer alive (record {
  stage = awaiting_read;
  now = now;
  armed = none;
  due = 0;
  is_open = true;
  posted = true;
  begun = now;
  last = now;
  resets = 0;
  requests = 0;
  busy = 0;
})

-- One step of the session, of its timer, or of the posted function.
pub data SessionMove (alive : ℕ) (s : Session) : Session → Type 0 where
  -- The end of the stream, an error, or nothing read.
  read_ends : s.stage ≡ awaiting_read → SessionMove alive s (leave s)
  read_bytes : s.stage ≡ awaiting_read → SessionMove alive s (record s { stage = parsing })
  refuse : s.stage ≡ parsing → SessionMove alive s (record s { stage = awaiting_refusal })
  refused : s.stage ≡ awaiting_refusal → SessionMove alive s (leave s)
  accept :
      s.stage ≡ parsing
      → SessionMove alive s
          (reset_timer alive (record s { stage = routing; requests = suc s.requests }))
  respond : s.stage ≡ routing → SessionMove alive s (record s { stage = awaiting_answer })
  -- An error of the write, or a connection that is not to be kept.
  answer_ends : s.stage ≡ awaiting_answer → SessionMove alive s (leave s)
  keep :
      s.stage ≡ awaiting_answer
      → SessionMove alive s (reset_timer alive (record s { stage = awaiting_read }))
  expire :
      (expiry : ℕ)
      → s.armed ≡ some expiry
      → expiry ≤ s.now
      → SessionMove alive s (record s { armed = none; due = suc s.due })
  fire :
      (others : ℕ)
      → s.due ≡ suc others
      → SessionMove alive s (on_expired (record s { due = others }))
  run_posted :
      s.posted ≡ true → SessionMove alive s (reset_timer alive (record s { posted = false }))

-- One unit of time, which is the session's own work between its awaits.
abbrev pub busy_of : Stage → ℕ
busy_of parsing = 1
busy_of routing = 1
busy_of _ = 0

abbrev pub tick : Session → Session
tick s = record s { now = suc s.now; busy = busy_of s.stage + s.busy }

-- What a session reaches, where time passes only in the states that `MayWait` allows.
pub data SessionRun (alive : ℕ) (MayWait : Session → Type 0) (now : ℕ) : Session → Type 0 where
  session_begins : SessionRun alive MayWait now (opened alive now)
  session_moves :
      {s t : Session}
      → SessionRun alive MayWait now s
      → SessionMove alive s t
      → SessionRun alive MayWait now t
  time_passes :
      {s : Session}
      → SessionRun alive MayWait now s
      → MayWait s
      → SessionRun alive MayWait now (tick s)
