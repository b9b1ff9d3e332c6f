-- ===== src/Server/KeepAlive/Late.antt =====
-- A timer that closes a session which has just been served.
use ctask.Common.{ℕ, zero, suc, ◌+◌, ◌≡◌, refl, ap, true, false, some, arith}
use ctask.Server.KeepAlive.{
  awaiting_read, routing, Session, opened, reset_timer, read_bytes, accept, expire, fire,
  run_posted, tick, SessionMove, SessionRun, session_begins, session_moves, time_passes,
}

-- Any time may pass.
abbrev pub Always : Session → Type 0
Always s = Unit

-- A new session whose posted function has run, after so many units of time.
abbrev waited : ℕ → ℕ → ℕ → Session
waited alive now zero = reset_timer alive (record (opened alive now) { posted = false })
waited alive now (suc n) = tick (waited alive now n)

waited_run : (alive now n : ℕ) → SessionRun alive Always now (waited alive now n)
waited_run alive now zero = session_moves session_begins (run_posted refl)
waited_run alive now (suc n) = time_passes (waited_run alive now n) tt

waited_state :
    (alive now n : ℕ)
    → ((waited alive now n).stage ≡ awaiting_read)
      × ((waited alive now n).now ≡ now + n)
      × ((waited alive now n).armed ≡ some (now + alive))
      × ((waited alive now n).due ≡ 0)
      × ((waited alive now n).is_open ≡ true)
waited_state alive now zero = (refl, omega arith, refl, refl, refl)
waited_state alive now (suc n) =
    let w = waited_state alive now n in (w.0, omega (arith, w.1), w.2, w.3, w.4)

-- Where a request comes in as the wait expires, a session is reached that has parsed and routes it,
-- has reset the timer for it and has its socket open, while the handler of the wait that has
-- expired is due; and the handler, which runs on any thread that is free, closes the socket under
-- the session, with the whole keep-alive time left.
pub late_close_reachable :
    (alive now : ℕ)
    → (s t : Session) × SessionRun alive Always now s
      × ((s.stage ≡ routing) × (s.is_open ≡ true) × (s.armed ≡ some (s.now + alive)))
      × SessionMove alive s t
      × ((t.stage ≡ routing) × (t.is_open ≡ false) × (t.armed ≡ some (t.now + alive)))
late_close_reachable alive now =
    let (reads, at, armed, due, open_still) = waited_state alive now alive in
    let expired =
      session_moves (waited_run alive now alive) (expire (now + alive) armed (omega (arith, at))) in
    let parses = session_moves expired (read_bytes reads) in
    let routes = session_moves parses (accept refl) in
    (_, _, routes, (refl, open_still, refl), fire 0 (ap suc due), (refl, refl, refl))
