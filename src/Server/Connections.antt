-- ===== src/Server/Connections.antt =====
-- ctask_lib/service/http_server/http_server.cpp: many sessions of `clientSession_` over one router
-- and one world. A session runs from one read to the next; the steps of different sessions come in
-- any order.
pub mod Turns
pub mod Alone
pub mod Effects
pub mod Answers
pub mod Ranges
pub mod Tests
use ctask.Common.{ℕ, Bytes, ◌≡◌, ◌==◌, List, [], ◌∷◌, ◌++◌, if◌then◌else◌}
use ctask.Common.Result.{Result}
use ctask.Utils.{HttpRequest}
use ctask.Server.{IRouter, Turn, Transcript, Ending, waiting, client_session}

-- What each connection has still to go through, and what it has been sent so far.
pub record Connections (W : Type 0) : Type 0 where
  pub world : W
  pub pending : ℕ → List Turn
  pub sent : ℕ → List Bytes

-- The turns of a session that are left when it has ended, or waits for the next one.
abbrev pub left_after : Ending → List Turn → List Turn
left_after waiting ts = ts
left_after _ ts = []

abbrev pub update : {A : Type 0} → (ℕ → A) → ℕ → A → ℕ → A
update f i x j = if i == j then x else f j

-- The connections after a turn of one of them.
abbrev pub advance : {W : Type 0} → Connections W → ℕ → Transcript W → List Turn → Connections W
advance σ i x ts = record {
  world = x.world;
  pending = update σ.pending i (left_after x.ending ts);
  sent = update σ.sent i (σ.sent i ++ x.sent);
}

module _ {W : Type 0} (parse : Bytes → Result HttpRequest) (empty_object : Bytes)
    (router : IRouter W) where
  pub data SessionStep : Connections W → Connections W → Type 0 where
    next_turn :
        {σ : Connections W} {t : Turn} {ts : List Turn} (i : ℕ)
        → σ.pending i ≡ t ∷ ts
        → SessionStep σ (advance σ i (client_session parse empty_object router (t ∷ []) σ.world) ts)

  pub data SessionReach : Connections W → Connections W → Type 0 where
    begin : {σ : Connections W} → SessionReach σ σ
    then_step : {σ τ υ : Connections W} → SessionReach σ τ → SessionStep τ υ → SessionReach σ υ
