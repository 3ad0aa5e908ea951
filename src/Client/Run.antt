-- ===== src/Client/Run.antt =====
-- Client.cpp, `Run`: the state machine and its exit status.
pub mod Delivery
pub mod Rounds
pub mod Recovers
pub mod Completes
pub mod Ends
use cpe464_fileserver.Base.{
  ℕ, zero, suc, ◌+◌, Bool, true, false, ◌&&◌, if◌then◌else◌, ltb, ◌==◌, Outcome, defined, ◌>>=◌,
  unfinished,
}
use cpe464_fileserver.Platform.{Platform}
use cpe464_fileserver.Packet.{pkt_trnsmax}
use cpe464_fileserver.Client.{Client, State, init, error, done, recv_packets}
use cpe464_fileserver.Client.Recv.{recv_round}
use cpe464_fileserver.Client.Init.{client_init, fuel_of}

-- `mvState != DONE && mvState != ERROR`
unfoldable pub running : State → Bool
running init = true
running error = false
running done = false
running recv_packets = true

-- `mvState = …`
unfoldable pub store_state : State × Client → Outcome Client
store_state (s, c) = defined (record c { state = s })

module _ (os : Platform) where
  -- The `switch` on the state.
  dispatch : State → Client → Outcome Client
  unfolding store_state
  dispatch init c = client_init os c >>= store_state
  dispatch recv_packets c = recv_round os c >>= store_state
  dispatch error c = defined c
  dispatch done c = defined c

  unfoldable pub client_step : Client → Outcome Client
  unfolding dispatch
  client_step c = dispatch c.state c

  -- The loop of `Run`, on fuel.
  unfoldable pub client_loop : ℕ → Client → Outcome Client
  unfolding running
  client_loop zero c = unfinished
  client_loop (suc fuel) c = elim (running c.state && ltb 0 c.retries) [
    | false ↦ defined c
    | true ↦ client_step c >>= client_loop fuel
  ]

-- What `Run` returns after the loop.
pub exit_by : State → ℕ → ℕ
exit_by error retries = 1
exit_by _ retries = if retries == 0 then 1 else 0

unfoldable pub client_exit : Client → ℕ
unfolding exit_by
client_exit c = exit_by c.state c.retries

-- The final state, and the result of `Run`.
unfoldable pub run : Platform → Client → Outcome (Client × ℕ)
run os c = client_loop os (fuel_of c + pkt_trnsmax + 1) c >>= λ c'. defined (c', client_exit c')
