-- ===== src/StopAndWait/Main.antt =====
-- Stop and Wait (TCP)/server.c, `main`: the connections, one after the other. The call of `fork` is
-- commented out: `client_comm` runs in the process that accepts.
pub mod Sequential
use cpe464_fileserver.Base.{
  ℕ, ◌⊎◌, inl, inr, Bool, not, List, [], ◌∷◌, ◌++◌, Option, none, some, if◌then◌else◌, ◌==◌,
  Outcome, defined, ◌>>=◌,
}
use cpe464_fileserver.Platform.{Platform}
use cpe464_fileserver.Packet.{Packet}
use cpe464_fileserver.StopAndWait.Socket.{Attempt, connect_to_client}
use cpe464_fileserver.StopAndWait.Comm.{
  Missing, Comm, Turn, below, again, waiting, leave, exit_failure, comm_start, comm_loop,
}

-- A connection: the results of `recv` and of `sendErr` in its session, and whether `fstat` succeeds.
pub record Connection : Type 0 where
  pub inbox : List (Option Packet)
  pub send_results : List Bool
  pub fstat_ok : Bool

-- Where the server waits, with how the sessions before ended: in `accept`, or in `recv` for the
-- client of the current session.
pub data Serving : Type 0 where
  accepting : List Turn → Serving
  blocked : List Turn → Comm → Serving

-- After `client_comm`, whose result is not looked at.
unfoldable pub after_session : (List Turn → Outcome Serving) → List Turn → Turn → Outcome Serving
after_session loop before (below c) = loop (before ++ (below c ∷ []))
after_session loop before (again c) = loop (before ++ (again c ∷ []))
after_session loop before (leave status c) = loop (before ++ (leave status c ∷ []))
after_session loop before (waiting c) = defined (blocked before c)

module _ (os : Platform) (missing : Missing) (fuel : ℕ) where
  abbrev pub session : Connection → Outcome Turn
  session c = comm_loop os missing c.fstat_ok fuel (comm_start c.inbox c.send_results)

  -- The loop over the results of `accept`, of which `none` is -1.
  unfoldable pub accept_loop : List (Option Connection) → List Turn → Outcome Serving
  unfolding after_session
  accept_loop [] before = defined (accepting before)
  accept_loop (none ∷ more) before = accept_loop more before
  accept_loop (some c ∷ more) before = session c >>= after_session (accept_loop more) before

  -- `main` with `argc` arguments: its exit status, or where the server waits.
  unfoldable pub server_main :
      ℕ → Option (List Attempt) → Bool → Bool → List (Option Connection) → Outcome (ℕ ⊎ Serving)
  unfolding connect_to_client accept_loop
  server_main argc addresses listen_ok sigaction_ok connections =
      if not (argc == 2) then defined (inl exit_failure) else elim (connect_to_client addresses) [
        | none ↦ defined (inl exit_failure)
        | some fd ↦
            if not listen_ok
            then defined (inl exit_failure)
            else if not sigaction_ok
            then defined (inl exit_failure)
            else (accept_loop connections [] >>= λ s. defined (inr s))
      ]
