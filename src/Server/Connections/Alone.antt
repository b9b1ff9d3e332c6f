-- ===== src/Server/Connections/Alone.antt =====
-- One connection that is served by itself.
use mathlib.Core.List.{append-nil, append_assoc}
use ctask.Common.{ℕ, ◌≡◌, refl, ap, sym, ◌∙◌, Bytes, List, [], ◌∷◌, ◌++◌, arith}
use ctask.Common.Result.{Result}
use ctask.Utils.{HttpRequest}
use ctask.Server.{
  IRouter, Turn, Transcript, Ending, waiting, closed_by_peer, read_failed, nothing_read, refused,
  send_failed, not_kept_alive, lost, client_session,
}
use ctask.Server.Connections.{
  Connections, update, advance, SessionStep, next_turn, SessionReach, begin, then_step,
}
use ctask.Server.Connections.Turns.{resumed, client_session-resumed}

module _ {W : Type 0} (parse : Bytes → Result HttpRequest) (empty_object : Bytes)
    (router : IRouter W) where
  -- A step in front of others.
  step_then :
      {σ τ υ : Connections W}
      → SessionStep parse empty_object router σ τ
      → SessionReach parse empty_object router τ υ
      → SessionReach parse empty_object router σ υ
  step_then step begin = then_step begin step
  step_then step (then_step prior last) = then_step (step_then step prior) last

  -- What a connection is after a session that nothing has interrupted.
  pub record Served (σ τ : Connections W) (i : ℕ) (x : Transcript W) : Type 0 where
    pub reach : SessionReach parse empty_object router σ τ
    pub world : τ.world ≡ x.world
    pub sent : τ.sent i ≡ σ.sent i ++ x.sent
    pub done : τ.pending i ≡ []

  update_same : {A : Type 0} (f : ℕ → A) (i : ℕ) (x : A) → update f i x i ≡ x
  update_same f i x = ground arith

  -- A connection after a turn that ends its session.
  abbrev last_turn : Connections W → ℕ → Transcript W → Connections W
  last_turn σ i x = record {
    world = x.world;
    pending = update σ.pending i [];
    sent = update σ.sent i (σ.sent i ++ x.sent);
  }

  ended_Served :
      (σ : Connections W) (i : ℕ) (x : Transcript W)
      → SessionStep parse empty_object router σ (last_turn σ i x)
      → (τ : Connections W) × Served σ τ i x
  ended_Served σ i x step = (
    last_turn σ i x,
    record {
      reach = then_step begin step;
      world = refl;
      sent = update_same σ.sent i _;
      done = update_same σ.pending i [];
    },
  )

  -- A turn, and what follows it by its ending.
  turn_Served :
      (ts : List Turn) (σ : Connections W) (i : ℕ) (sent : List Bytes) (world : W) (ending : Ending)
      → ((τ : Connections W)
          → τ.pending i ≡ ts
          → (υ : Connections W) × Served τ υ i
              (client_session parse empty_object router ts τ.world))
      → SessionStep parse empty_object router σ
          (advance σ i (record { sent = sent; world = world; ending = ending }) ts)
      → (τ : Connections W) × Served σ τ i (
          resumed parse empty_object router
            (record { sent = sent; world = world; ending = ending })
            ts)
  turn_Served ts σ i sent world waiting rest step =
      let τ = advance σ i (record { sent = sent; world = world; ending = waiting }) ts in
      let (υ, served) = rest τ (update_same σ.pending i ts) in
      (
        υ,
        record {
          reach = step_then step served.reach;
          world = served.world;
          sent =
              served.sent
              ∙ ap (λ texts. texts ++ (client_session parse empty_object router ts world).sent)
                  (update_same σ.sent i (σ.sent i ++ sent))
              ∙ append_assoc (σ.sent i) sent _;
          done = served.done;
        },
      )
  turn_Served ts σ i sent world closed_by_peer rest step = ended_Served σ i _ step
  turn_Served ts σ i sent world read_failed rest step = ended_Served σ i _ step
  turn_Served ts σ i sent world nothing_read rest step = ended_Served σ i _ step
  turn_Served ts σ i sent world refused rest step = ended_Served σ i _ step
  turn_Served ts σ i sent world send_failed rest step = ended_Served σ i _ step
  turn_Served ts σ i sent world not_kept_alive rest step = ended_Served σ i _ step
  turn_Served ts σ i sent world lost rest step = ended_Served σ i _ step

  -- A connection whose turns are taken one after the other, no other coming in between, is sent what
  -- `clientSession_` sends over these turns, and leaves the world that it leaves.
  pub SessionReach_alone :
      (ts : List Turn) (σ : Connections W) (i : ℕ)
      → σ.pending i ≡ ts
      → (τ : Connections W) × Served σ τ i (client_session parse empty_object router ts σ.world)
  SessionReach_alone [] σ i e = (
    σ,
    unfold client_session in
        record { reach = begin; world = refl; sent = sym (append-nil (σ.sent i)); done = e },
  )
  SessionReach_alone (t ∷ ts) σ i e =
      let first = client_session parse empty_object router (t ∷ []) σ.world in
      rw (client_session-resumed parse empty_object router t ts σ.world) (
        turn_Served ts σ i first.sent first.world first.ending
          (λ τ e1. SessionReach_alone ts τ i e1) (next_turn i e))
