-- ===== src/Server/KeepAlive/Bounds.antt =====
-- How long a session lasts, where the timer is served in time.
use native.Mathlib.Nat.{mul-le-mul_left}
use ctask.Common.{
  ℕ, suc, ◌+◌, ◌*◌, ◌<◌, ◌≤◌, ◌≡◌, ◌≢◌, ◌⊎◌, refl, Bool, true, false, some, arith, inl, inr,
}
use ctask.Server.KeepAlive.{
  Stage, awaiting_read, parsing, awaiting_refusal, routing, awaiting_answer, finished, Session,
  reset_timer, SessionMove, read_ends, read_bytes, refuse, refused, accept, respond, answer_ends,
  keep, expire, fire, run_posted, busy_of, tick, SessionRun, session_begins, session_moves,
  time_passes,
}

-- Time waits for the timer: an expired wait, a handler that is due, and an await on a closed socket,
-- which then ends in an error, go first.
pub record IsPrompt (s : Session) : Type 0 where
  pub no_expiry : (d : ℕ) → s.armed ≡ some d → s.now < d
  pub none_due : s.due ≡ 0
  pub no_await : busy_of s.stage ≡ 0 → s.is_open ≡ true

-- The resets that belong to the parsed requests so far: one, and a second one where the next read has
-- begun.
abbrev pub answered_resets : Stage → ℕ → ℕ
answered_resets routing n = n + n
answered_resets awaiting_answer n = n + n
answered_resets _ n = suc (n + n)

abbrev pub posted_resets : Bool → ℕ
posted_resets true = 0
posted_resets false = 1

-- The bounds on the time, on the last reset, and on the number of resets.
pub record IsBounded (alive : ℕ) (s : Session) : Type 0 where
  pub time : s.now ≤ s.begun + alive * s.resets + s.busy
  pub last_reset : s.last + alive ≤ s.begun + alive * s.resets + s.busy
  pub counted : s.resets ≡ answered_resets s.stage s.requests + posted_resets s.posted
  pub guarded : s.is_open ≡ true → (s.armed ≡ some (s.last + alive)) ⊎ (0 < s.due)

-- It holds until the session is over.
abbrev pub HoldsUntilOver : ℕ → Session → Type 0
HoldsUntilOver alive s = (s.stage ≡ finished) ⊎ IsBounded alive s

reset-IsBounded :
    (alive : ℕ) (s : Session) (stage : Stage) (requests : ℕ) (posted : Bool)
    → IsBounded alive s
    → suc s.resets ≡ answered_resets stage requests + posted_resets posted
    → IsBounded alive
        (reset_timer alive (record s { stage = stage; requests = requests; posted = posted }))
reset-IsBounded alive s stage requests posted v count = record {
  time = grind (arith, v.time);
  last_reset = grind (arith, v.time);
  counted = count;
  guarded = λ e. inl refl;
}

SessionMove-bounded :
    (alive : ℕ) {s t : Session} → SessionMove alive s t → IsBounded alive s → HoldsUntilOver alive t
SessionMove-bounded alive (read_ends e) v = inl refl
SessionMove-bounded alive (read_bytes e) v = inr (ground arith)
SessionMove-bounded alive (refuse e) v = inr (ground arith)
SessionMove-bounded alive (refused e) v = inl refl
SessionMove-bounded alive {s} (accept e) v =
    inr (reset-IsBounded alive s routing (suc s.requests) s.posted v (ground arith))
SessionMove-bounded alive (respond e) v = inr (ground arith)
SessionMove-bounded alive (answer_ends e) v = inl refl
SessionMove-bounded alive {s} (keep e) v =
    inr (reset-IsBounded alive s awaiting_read s.requests s.posted v (ground arith))
SessionMove-bounded alive (expire d a l) v = inr (ground arith)
SessionMove-bounded alive (fire n e) v = inr (ground arith)
SessionMove-bounded alive {s} (run_posted q) v =
    inr (reset-IsBounded alive s s.stage s.requests false v (ground arith))

stays_finished :
    (alive : ℕ) {s t : Session} → SessionMove alive s t → s.stage ≡ finished → t.stage ≡ finished
stays_finished alive (read_ends e) f = refl
stays_finished alive (read_bytes e) f = ground arith
stays_finished alive (refuse e) f = ground arith
stays_finished alive (refused e) f = refl
stays_finished alive (accept e) f = ground arith
stays_finished alive (respond e) f = ground arith
stays_finished alive (answer_ends e) f = refl
stays_finished alive (keep e) f = ground arith
stays_finished alive (expire d a l) f = f
stays_finished alive (fire n e) f = f
stays_finished alive (run_posted q) f = f

busy_of-cases : (stage : Stage) → (busy_of stage ≡ 0) ⊎ (busy_of stage ≡ 1)
busy_of-cases parsing = inr refl
busy_of-cases routing = inr refl
busy_of-cases awaiting_read = inl refl
busy_of-cases awaiting_refusal = inl refl
busy_of-cases awaiting_answer = inl refl
busy_of-cases finished = inl refl

-- The time that may pass at an await ends with the wait that is armed.
awaits_below :
    (alive : ℕ) (s : Session)
    → IsPrompt s
    → IsBounded alive s
    → busy_of s.stage ≡ 0
    → s.now < s.last + alive
awaits_below alive s p v waits = elim (v.guarded (p.no_await waits)) [
  | inl armed ↦ p.no_expiry _ armed
  | inr due ↦ absurd (omega (arith, p.none_due))
]

tick-IsBounded :
    (alive : ℕ) (s : Session) → IsPrompt s → IsBounded alive s → IsBounded alive (tick s)
tick-IsBounded alive s p v = record {
  time = elim (busy_of-cases s.stage) [
    | inl waits ↦ omega (arith, v.last_reset, awaits_below alive s p v waits)
    | inr works ↦ omega (arith, v.time)
  ];
  last_reset = ground (arith, v.last_reset);
  counted = v.counted;
  guarded = v.guarded;
}

pub SessionRun-bounded :
    {alive now : ℕ} {s : Session} → SessionRun alive IsPrompt now s → HoldsUntilOver alive s
SessionRun-bounded session_begins = inr (grind arith)
SessionRun-bounded {alive} (session_moves run move) = elim (SessionRun-bounded run) [
  | inl over ↦ inl (stays_finished alive move over)
  | inr v ↦ SessionMove-bounded alive move v
]
SessionRun-bounded {alive} (time_passes {s} run prompt) = elim (SessionRun-bounded run) [
  | inl over ↦ inl over
  | inr v ↦ inr (tick-IsBounded alive s prompt v)
]

-- Where the timer is served in time, a session that is not over has lasted at most the keep-alive
-- time for each of two resets and of two more for each request that it has parsed, and as long as it
-- has worked itself.
pub SessionRun-le :
    {alive now : ℕ} {s : Session}
    → SessionRun alive IsPrompt now s
    → s.stage ≢ finished
    → s.now ≤ s.begun + alive * (2 * s.requests + 2) + s.busy
SessionRun-le {alive} {s = s} run going = elim (SessionRun-bounded run) [
  | inl over ↦ absurd (going over)
  | inr v ↦
      let few : s.resets ≤ 2 * s.requests + 2 = ground (arith, v.counted) in
      omega (arith, v.time, mul-le-mul_left alive few)
]
