-- ===== src/Bridge/Lifecycle.antt =====
-- internal/bridge/bridge.go: the start and the stop of the bridge, any number of times.
use erssi_lith_bridge.Base.{
  ℕ, zero, suc, ◌+◌, Bool, true, false, List, [], ◌∷◌, Option, none, some, Result, ok, err, panic,
  if◌then◌else◌,
}
use erssi_lith_bridge.Erssi.Client.{Client, ClientError, connect, close, read_loop_ends}
use erssi_lith_bridge.Weechat.Listening.{Server, ServerError, start_server, close_server}

-- `read_loops` is how many goroutines run the client's `readLoop`.
pub record Life (L W : Type 0) : Type 0 where
  pub running : Bool
  pub client : Client W
  pub server : Server L
  pub read_loops : ℕ

pub data StartError : Type 0 where
  already_running server_failed connect_failed : StartError

-- What closing gives: an error or none.
pub record Closing (E L W : Type 0) : Type 0 where
  pub write_close : W → Option E × W
  pub close_conn : W → Option E
  pub close_listener : L → Option E

module _ {E L W : Type 0} (closing : Closing E L W) where
  -- The server is closed again where the connection fails; an error of closing is ignored.
  unfoldable pub after_failure :
      Result E (Unit {0}) × Server L → Life L W → Result StartError (Unit {0}) × Life L W
  after_failure (ok _, server) s = (err connect_failed, record s { server = server })
  after_failure (err _, server) s = (err connect_failed, record s { server = server })
  after_failure (panic, server) s = (panic, record s { server = server })

  unfoldable pub after_connect :
      Result (ClientError E) (Unit {0}) × Client W
      → Life L W
      → Result StartError (Unit {0}) × Life L W
  unfolding after_failure
  after_connect (ok _, c) s =
      (ok tt, record s { client = c; running = true; read_loops = s.read_loops + 1 })
  after_connect (err _, c) s =
      after_failure (close_server closing.close_listener s.server) (record s { client = c })
  after_connect (panic, c) s = (panic, s)

  unfoldable pub after_listen :
      Option W
      → Result ServerError (Unit {0}) × Server L
      → Life L W
      → Result StartError (Unit {0}) × Life L W
  unfolding after_connect
  after_listen dialed (ok _, server) s =
      after_connect (connect (λ url. dialed) s.client) (record s { server = server })
  after_listen dialed (err _, server) s = (err server_failed, s)
  after_listen dialed (panic, server) s = (panic, s)

  -- `Start`, given what net.Listen and the dialer give.
  unfoldable pub start : Option L → Option W → Life L W → Result StartError (Unit {0}) × Life L W
  unfolding after_listen
  start listened dialed s =
      if s.running
      then (err already_running, s)
      else after_listen dialed (start_server listened s.server) s

  unfoldable pub after_close : Result E (Unit {0}) × Server L → Life L W → Bool × Life L W
  after_close (ok _, server) s = (false, record s { server = server; running = false })
  after_close (err _, server) s = (false, record s { server = server; running = false })
  after_close (panic, server) s = (true, record s { server = server })

  -- `Stop`, which logs the errors of closing and returns none. The flag is whether it panicked.
  unfoldable pub stop : Life L W → Bool × Life L W
  unfolding after_close
  stop s =
      if s.running
      then after_close (close_server closing.close_listener s.server)
          (record s { client = (close closing.write_close closing.close_conn s.client).1 })
      else (false, s)

-- What can happen: calls of `Start` and `Stop`, and the end of one of the read loops, by an error of
-- ReadMessage or because there is no connection any more.
pub data Call (L W : Type 0) : Type 0 where
  starts : Option L → Option W → Call L W
  stops loop_ends : Call L W

abbrev started : {L W : Type 0} → Result StartError (Unit {0}) × Life L W → Option (Life L W)
started (ok _, s) = some s
started (err _, s) = some s
started (panic, s) = none

abbrev stopped : {L W : Type 0} → Bool × Life L W → Option (Life L W)
stopped (false, s) = some s
stopped (true, s) = none

abbrev ended :
    {L W : Type 0} → Result StartError (Unit {0}) × Client W → Life L W → Option (Life L W)
ended (ok _, c) s = some (record s { client = c })
ended (err _, c) s = some (record s { client = c })
ended (panic, c) s = none

-- One loop ends, if there is one.
unfoldable pub end_loop : {L W : Type 0} → ℕ → Life L W → Option (Life L W)
end_loop zero s = some s
end_loop (suc n) s = ended (read_loop_ends s.client) (record s { read_loops = n })

-- A run has no result where the process ended by a panic.
module _ {E L W : Type 0} (closing : Closing E L W) where
  unfoldable pub step : Call L W → Life L W → Option (Life L W)
  unfolding end_loop
  step (starts listened dialed) s = started (start closing listened dialed s)
  step stops s = stopped (stop closing s)
  step loop_ends s = end_loop s.read_loops s

  unfoldable pub live : List (Call L W) → Life L W → Option (Life L W)
  unfolding step
  live [] s = some s
  live (c ∷ cs) s = elim (step c s) [ none ↦ none | some s' ↦ live cs s' ]
