-- ===== src/Server/Lifecycle/Stopping.antt =====
-- That a stopped service comes to its end.
use ctask.Common.{ℕ, zero, suc, ◌+◌, ◌≤◌, ◌≡◌, ◌≢◌, refl, sym, true, inl, inr, arith, Option-cases}
use ctask.Common.Result.{Result, ok}
use ctask.Server.Lifecycle.{
  joining, returned, HandlerState, spawned, accepting, threw, Service, rethrow, stop, OwnMove, hear,
  fail, leave_run, join_returns, ServiceRun, service_moves, by_itself,
}
use ctask.Server.Lifecycle.Results.{IsCoherent, ServiceRun-IsCoherent}

-- A run of so many moves that the service makes by itself.
pub data OwnMoves (listens : Result (Unit {0})) : ℕ → Service → Service → Type 0 where
  settled : {s : Service} → OwnMoves listens 0 s s
  moving :
      {n : ℕ} {s t u : Service}
      → OwnMove listens s t
      → OwnMoves listens n t u
      → OwnMoves listens (suc n) s u

-- What is left to do after some moves: so many more, to a service whose `start` has returned.
pub record Returns (listens : Result (Unit {0})) (t : Service) (left : ℕ) (r : Result (Unit {0}))
    : Type 0 where
  pub final : Service
  pub moves : OwnMoves listens left t final
  pub at_end : final.progress ≡ returned r

leave_all :
    (listens : Result (Unit {0})) (n : ℕ) (s : Service)
    → s.running ≡ n
    → s.stopped ≡ true
    → s.progress ≡ joining
    → Returns listens s (suc n) (rethrow s.error)
leave_all listens zero s r st j = record {
  final = _;
  moves = moving (join_returns j r) settled;
  at_end = refl;
}
leave_all listens (suc n) s r st j =
    let rest = leave_all listens n (record s { running = n }) refl st j in
    record {
      final = rest.final;
      moves = moving (leave_run n r st) rest.moves;
      at_end = rest.at_end;
    }

nothing_left :
    (listens : Result (Unit {0})) (n : ℕ) {s t : Service} (r : Result (Unit {0}))
    → OwnMoves listens n s t
    → s.running ≡ 0
    → s.progress ≡ returned r
    → (n ≡ 0) × (t.progress ≡ returned r)
nothing_left listens _ r settled idle over = (refl, over)
nothing_left listens _ r (moving (hear o run st h l) rest) idle over =
    absurd (omega (arith, idle, run))
nothing_left listens _ r (moving (fail o e run st h l) rest) idle over =
    absurd (omega (arith, idle, run))
nothing_left listens _ r (moving (leave_run o run st) rest) idle over =
    absurd (omega (arith, idle, run))
nothing_left listens _ r (moving (join_returns j run) rest) idle over = ground arith

stopped_completes :
    {listens : Result (Unit {0})} {n : ℕ} {s t : Service}
    → OwnMoves listens n s t
    → s.stopped ≡ true
    → s.progress ≡ joining
    → (left : ℕ) × (n + left ≡ suc s.running) × Returns listens t left (rethrow s.error)
stopped_completes {listens} {s = s} settled st j =
    (suc s.running, omega arith, leave_all listens s.running s refl st j)
stopped_completes (moving (hear o run off h l) rest) st j = ground arith
stopped_completes (moving (fail o e run off h l) rest) st j = ground arith
stopped_completes (moving (leave_run o run on) rest) st j =
    let (left, count, returns) = stopped_completes rest st j in
    (left, omega (arith, count, run), returns)
stopped_completes {listens} {s = s} (moving {n} (join_returns joins run) rest) st j =
    let (none_left, over) = nothing_left listens n (rethrow s.error) rest run refl in
    (0, omega (arith, none_left, run), record { final = _; moves = settled; at_end = over })

-- What `start` is to return, for what has become of the connection handler.
abbrev pub Promised : HandlerState → Result (Unit {0}) → Result (Unit {0}) → Type 0
Promised threw listens r = (r ≡ listens) × (r ≢ ok tt)
Promised _ listens r = r ≡ ok tt

rethrow-Promised :
    {threads : ℕ} {listens : Result (Unit {0})} {s : Service}
    → ServiceRun threads listens s
    → Promised s.handler listens (rethrow s.error)
rethrow-Promised {threads} {listens} {s} run = by_handler s.handler refl (ServiceRun-IsCoherent run)
  where
    by_handler :
        (h : HandlerState)
        → s.handler ≡ h
        → IsCoherent threads listens s
        → Promised h listens (rethrow s.error)
    by_handler spawned here v = elim (Option-cases s.error) [
      | inl fine ↦ rw fine refl
      | inr (e, failed) ↦ absurd (let t = v.error_threw e failed in cc)
    ]
    by_handler accepting here v = elim (Option-cases s.error) [
      | inl fine ↦ rw fine refl
      | inr (e, failed) ↦ absurd (let t = v.error_threw e failed in cc)
    ]
    by_handler threw here v = elim (Option-cases s.error) [
      | inl fine ↦ absurd (v.threw_error here fine)
      | inr (e, failed) ↦ rw failed (sym (v.fails e failed), λ fine. cc)
    ]

-- Whenever `stop` is called while `start` joins the threads, whatever the service then does by
-- itself, it does no more moves than one for each thread inside `run` and one more, and there are
-- no more of these threads than the server has; after any of the moves, those that are left lead to
-- the return of `start`. It then throws what the connection handler has thrown, if it had before
-- the stop, and returns without an exception otherwise.
pub stop_completes :
    {threads : ℕ} {listens : Result (Unit {0})} {n : ℕ} {s t : Service}
    → ServiceRun threads listens s
    → s.progress ≡ joining
    → OwnMoves listens n (stop s) t
    → (left : ℕ) × (r : Result (Unit {0})) × (n + left ≡ suc s.running)
      × (s.running ≤ threads)
      × Returns listens t left r
      × Promised s.handler listens r
stop_completes {s = s} run joins moves =
    let (left, count, returns) = stopped_completes moves refl joins in
    (
      left,
      rethrow s.error,
      count,
      (ServiceRun-IsCoherent run).within,
      returns,
      rethrow-Promised run,
    )

-- The moves that a service makes by itself, at the end of a run.
pub OwnMoves-ServiceRun :
    {threads : ℕ} {listens : Result (Unit {0})} {n : ℕ} {s t : Service}
    → ServiceRun threads listens s
    → OwnMoves listens n s t
    → ServiceRun threads listens t
OwnMoves-ServiceRun run settled = run
OwnMoves-ServiceRun run (moving move rest) =
    OwnMoves-ServiceRun (service_moves run (by_itself move)) rest
