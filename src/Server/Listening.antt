-- ===== src/Server/Listening.antt =====
-- ctask_lib/service/http_server/http_server.cpp: `connectionHandler_` and `start`. The network is a
-- parameter: whether each step of setting up the acceptor succeeds, and what each accept gives.
use ctask.Common.{ℕ, Bytes, ◌==◌, List, [], ◌∷◌, if◌then◌else◌}
use ctask.Common.Result.{Result, ok, Exception, ◌>>=◌, ◌>>◌}
use ctask.Server.{HttpServer, Turn}

-- What the program uses of asio before it accepts.
pub record Network : Type 1 where
  pub Address : Type 0
  pub from_string : Bytes → Result Address
  pub open_acceptor : Address → Result (Unit {0})
  pub set_reuse_address : Result (Unit {0})
  pub bind : Address → ℕ → Result (Unit {0})
  pub listen : Result (Unit {0})

-- What an accept gives: a socket, here the turns of its session, or an exception.
pub data AcceptOutcome : Type 0 where
  accepted : List Turn → AcceptOutcome
  accept_failed : Exception → AcceptOutcome

-- The loop of the handler over the accepts: a session is spawned for each socket, and an exception
-- is logged.
unfoldable pub accept_loop : List AcceptOutcome → List (List Turn)
accept_loop [] = []
accept_loop (accepted turns ∷ rest) = turns ∷ accept_loop rest
accept_loop (accept_failed e ∷ rest) = accept_loop rest

module _ (network : Network) where
  open network use {from_string, open_acceptor, set_reuse_address, bind, listen}

  -- The handler in front of its loop.
  unfoldable pub listen_on : Bytes → ℕ → Result (Unit {0})
  listen_on address port = do
    endpoint ← from_string address
    open_acceptor endpoint
    set_reuse_address
    bind endpoint port
    listen

  -- What `start` gives in the end where no stop comes before the set-up of the handler: it throws
  -- what the handler has thrown. The context runs on as many threads as the server has: on none,
  -- nothing of the handler is run. Lifecycle has every run.
  unfoldable pub start : {W : Type 0} → HttpServer W → Result (Unit {0})
  unfolding listen_on
  start server = if server.threads == 0 then ok tt else listen_on server.address server.port
