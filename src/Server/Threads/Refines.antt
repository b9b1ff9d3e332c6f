-- ===== src/Server/Threads/Refines.antt =====
-- The threads against the sessions whose turns are one step each.
use mathlib.Core.Path.{subst}
use ctask.Common.{ℕ, ◌≡◌, refl, ap, sym, ◌∙◌, Bytes, List, [], ◌∷◌, ◌++◌, Option}
use ctask.Common.Result.{Result}
use ctask.Utils.{HttpRequest}
use ctask.Telemetry.Types.{InteractionTimesEventModel}
use ctask.Telemetry.Storage.{TelemetryStorage, new_storage, store_event, get_event_interactions}
use ctask.Telemetry.Storage.History.{History, store_all, store_all-append}
use ctask.Telemetry.Mean.{Doubles}
use ctask.Telemetry.Api.{Json}
use ctask.Telemetry.Api.Routing.{telemetry_router}
use ctask.Telemetry.Concurrency.{
  Phase, System, start, idle, Move, call_store, hit, miss, lock_entry, write, lock_map, create,
  call_get, get_hit, get_miss, lock_read, read, pick, Reach, begin, next,
}
use ctask.Telemetry.Concurrency.Linear.{HasEntry, Reach-HasEntry, Reach-store_all}
use ctask.Telemetry.Concurrency.Replay.{found_query, missed_query, moves}
use ctask.Server.{IRouter, Turn}
use ctask.Server.Service.{custom_router}
use ctask.Server.Connections.{Connections, left_after, update, SessionStep, next_turn, SessionReach}
use ctask.Server.Connections
use ctask.Server.Threads.Plans.{Plan, asks, run}
use ctask.Server.Threads.Turns.{Reply, client_session-Planned}
use ctask.Server.Threads.{
  Threads, seen, enter, reply, ThreadStep, serves, calls_store, calls_query, goes_on, ends_store,
  ends_query, ends_unknown, ThreadReach, IsPlan, then_step,
}
use ctask.Server.Threads

-- A move that stores no event leaves the storage.
Move-keeps :
    {σ : System} {s : TelemetryStorage} {p q : Phase} {h : History}
    → Move σ p q s h
    → h ≡ []
    → s ≡ σ.storage
Move-keeps (call_store n e free) none_stored = refl
Move-keeps (hit n e there) none_stored = refl
Move-keeps (miss n e absent) none_stored = refl
Move-keeps (lock_entry n e free) none_stored = refl
Move-keeps (write n e) none_stored = absurd (cc)
Move-keeps (lock_map n e free) none_stored = refl
Move-keeps (create n e unknown) none_stored = absurd (cc)
Move-keeps (call_get n free) none_stored = refl
Move-keeps (get_hit n there) none_stored = refl
Move-keeps (get_miss n absent) none_stored = refl
Move-keeps (lock_read n free) none_stored = refl
Move-keeps (read n) none_stored = refl

-- In what is reached, a move that stores an event does what `storeEvent` by itself does.
Move-stores :
    {σ : System} {h : History} {s : TelemetryStorage} {p : Phase} {n : Bytes}
    {e : InteractionTimesEventModel} (i : ℕ)
    → Reach σ h
    → Move σ (σ.phase i) p s ((n, e) ∷ [])
    → s ≡ store_event n e σ.storage
Move-stores {σ} {h} {n = n} {e} i reach move =
    Reach-store_all (next reach (pick i move))
    ∙ store_all-append h ((n, e) ∷ []) new_storage
    ∙ (unfold store_all in ap (store_event n e) (sym (Reach-store_all reach)))

module _ (parse : Bytes → Result HttpRequest) (empty_object : Bytes)
    (router : IRouter TelemetryStorage) where
  -- The connections after a turn, from its reply and the world that it leaves.
  abbrev after_turn :
      Connections TelemetryStorage
      → ℕ
      → List Turn
      → Reply × TelemetryStorage
      → Connections TelemetryStorage
  after_turn σ i ts ((texts, ending), s) = record {
    world = s;
    pending = update σ.pending i (left_after ending ts);
    sent = update σ.sent i (σ.sent i ++ texts);
  }

  planned_step :
      {σ : Connections TelemetryStorage} {t : Turn} {ts : List Turn} {p : Plan Reply} (i : ℕ)
      → σ.pending i ≡ t ∷ ts
      → IsPlan parse empty_object router t p
      → SessionStep parse empty_object router σ (after_turn σ i ts (run p σ.world))
  planned_step {σ} {ts = ts} i pending planned =
      subst (SessionStep parse empty_object router σ)
        (ap (after_turn σ i ts) (planned.agrees σ.world)) (next_turn i pending)

  -- What is reached by the storage, and by the connections that are seen.
  pub record Refines (σ τ : Threads) : Type 0 where
    pub history : History
    pub reach : Reach τ.system history
    pub sessions : SessionReach parse empty_object router (seen σ) (seen τ)

  -- A move inside a call: nothing is seen of it.
  inside :
      {σ τ : Threads} {p : Phase} {s : TelemetryStorage} (i : ℕ)
      → Refines σ τ
      → Move τ.system (τ.system.phase i) p s []
      → Refines σ (enter τ i p s)
  inside {σ} {τ} i r move = record {
    history = r.history ++ [];
    reach = next r.reach (pick i move);
    sessions =
        subst (λ w. SessionReach parse empty_object router (seen σ) (record (seen τ) { world = w }))
          (sym (Move-keeps move refl)) r.sessions;
  }

  -- The end of a query that returns what one thread would get.
  query_ends :
      {σ τ : Threads} {t : Turn} {ts : List Turn} {n : Bytes} {from to : ℕ}
      {after : Option (List _) → Reply} (i : ℕ) (found : Option (List _))
      → Refines σ τ
      → τ.pending i ≡ t ∷ ts
      → IsPlan parse empty_object router t (asks n from to after)
      → found ≡ get_event_interactions n from to τ.system.storage
      → Move τ.system (τ.system.phase i) idle τ.system.storage []
      → Refines σ (reply (enter τ i idle τ.system.storage) i (after found) ts)
  query_ends {τ = τ} {ts = ts} {after = after} i found r pending planned same move = record {
    history = r.history ++ [];
    reach = next r.reach (pick i move);
    sessions = Connections.then_step r.sessions (
        subst
          (λ o.
            SessionStep parse empty_object router (seen τ)
              (after_turn (seen τ) i ts (after o, τ.system.storage)))
          (sym same) (planned_step i pending planned));
  }

  Refines-step :
      {σ τ υ : Threads} → Refines σ τ → ThreadStep parse empty_object router τ υ → Refines σ υ
  Refines-step r (serves i pending planned rests) = record {
    history = r.history;
    reach = r.reach;
    sessions = Connections.then_step r.sessions (planned_step i pending planned);
  }
  Refines-step r (calls_store i pending planned move) = inside i r move
  Refines-step r (calls_query i pending planned move) = inside i r move
  Refines-step r (goes_on i busy still move) = inside i r move
  Refines-step {τ = τ} r (ends_store {ts = ts} {n} {e} {r = out} i pending planned move) = record {
    history = r.history ++ (n, e) ∷ [];
    reach = next r.reach (pick i move);
    sessions = Connections.then_step r.sessions (
        subst
          (λ w. SessionStep parse empty_object router (seen τ) (after_turn (seen τ) i ts (out, w)))
          (sym (Move-stores i r.reach move)) (planned_step i pending planned));
  }
  Refines-step {τ = τ} r (ends_query {n = n} {from} {to} i pending planned at_read) =
      let there = subst (HasEntry τ.system.storage) at_read (Reach-HasEntry r.reach i) in
      query_ends i _ r pending planned (found_query τ.system.storage n from to there)
        (moves τ.system i (sym at_read) (read n))
  Refines-step {τ = τ} r (ends_unknown {n = n} {from} {to} i pending planned at_query absent) =
      query_ends i _ r pending planned (missed_query τ.system.storage n from to absent)
        (moves τ.system i (sym at_query) (get_miss n absent))

  pub ThreadReach-Refines :
      {σ τ : Threads} → σ.system ≡ start → ThreadReach parse empty_object router σ τ → Refines σ τ
  ThreadReach-Refines new Threads.begin = record {
    history = [];
    reach = subst (λ s. Reach s []) (sym new) begin;
    sessions = Connections.begin;
  }
  ThreadReach-Refines new (then_step prior step) = Refines-step (ThreadReach-Refines new prior) step

  -- However the threads that serve the connections come in turn, at the locks of the storage and
  -- between them, as long as no thread makes an entry that a thread has found by then, what every
  -- connection has been sent, what it has still to go through, and the storage are those that the
  -- sessions reach when each turn, once it has ended, counts as one step.
  pub ThreadReach-SessionReach :
      {σ τ : Threads}
      → σ.system ≡ start
      → ThreadReach parse empty_object router σ τ
      → SessionReach parse empty_object router (seen σ) (seen τ)
  ThreadReach-SessionReach new reach = (ThreadReach-Refines new reach).sessions

-- Over the routes of the telemetry every turn has a plan: it calls the storage at most once, and
-- either answers by itself, or stores one event and answers, or makes one query and answers by its
-- result alone.
pub client_session-IsPlan :
    (d : Doubles) (json : Json d) (parse : Bytes → Result HttpRequest) (empty_object : Bytes)
    (t : Turn)
    → (plan : Plan Reply) × IsPlan parse empty_object
        (custom_router (telemetry_router d json))
        t
        plan
client_session-IsPlan d json parse empty_object t =
    let planned = client_session-Planned d json parse empty_object t in
    (planned.plan, record { agrees = planned.runs })
