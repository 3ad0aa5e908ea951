-- ===== src/Server/Child.antt =====
-- Server.cpp, `Child`: the state machine of a child process and its exit status.
pub mod Ends
pub mod Serves
pub mod Refines
pub mod Rounds
pub mod Completes
pub mod Hears
pub mod Recovers
use cpe464_fileserver.Base.{
  ℕ, zero, suc, ◌+◌, ◌*◌, Bool, true, false, ◌&&◌, if◌then◌else◌, ltb, ◌==◌, Outcome, defined,
  ◌>>=◌, undefined, unfinished, length,
}
use cpe464_fileserver.Platform.{Platform}
use cpe464_fileserver.Packet.{pkt_trnsmax}
use cpe464_fileserver.Server.{Server, State, init, error, done, fill_window, send_window, wait_rr}
use cpe464_fileserver.Server.Init.{server_init}
use cpe464_fileserver.Server.Window.{fill_round, send_round, wait_round}

-- `mvState != DONE && mvState != ERROR`
unfoldable pub running : State → Bool
running error = false
running done = false
running init = true
running fill_window = true
running send_window = true
running wait_rr = true

-- `mvState = …`
unfoldable pub store_state : State × Server → Outcome Server
store_state (st, s) = defined (record s { state = st })

module _ (os : Platform) where
  -- The `switch` on the state.
  unfoldable pub dispatch : State → Server → Outcome Server
  unfolding store_state
  dispatch init s = server_init os s >>= store_state
  dispatch fill_window s = fill_round os s >>= store_state
  dispatch send_window s = store_state (send_round s)
  dispatch wait_rr s = wait_round os s >>= store_state
  dispatch error s = defined s
  dispatch done s = defined s

  unfoldable pub child_step : Server → Outcome Server
  unfolding dispatch
  child_step s = dispatch s.state s

  -- The main loop, on fuel.
  unfoldable pub child_loop : ℕ → Server → Outcome Server
  unfolding running
  child_loop zero s = unfinished
  child_loop (suc fuel) s = elim (running s.state && ltb 0 s.retries) [
    | false ↦ defined s
    | true ↦ child_step s >>= child_loop fuel
  ]

-- The status that the process exits with.
unfoldable pub exit_by : State → ℕ → ℕ
exit_by error retries = 1
exit_by _ retries = if retries == 0 then 1 else 0

unfoldable pub child_exit : Server → ℕ
unfolding exit_by
child_exit s = exit_by s.state s.retries

-- At most four states are passed for each arrival or retry: see `Server.Child.Ends`.
abbrev pub child_fuel : Server → ℕ
child_fuel s = 4 * (s.retries + pkt_trnsmax + 11 * length s.net.arrivals) + 8

-- `Child`: the state at the exit, and the exit status.
unfoldable pub child : Platform → Server → Outcome (Server × ℕ)
child os s = child_loop os (child_fuel s) s >>= λ s'. defined (s', child_exit s')
