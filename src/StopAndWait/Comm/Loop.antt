-- ===== src/StopAndWait/Comm/Loop.antt =====
-- Stop and Wait (TCP)/server.c, `client_comm`: the whole loop.
use cpe464_fileserver.Base.{ℕ, zero, suc, Bool, Outcome, defined, unfinished, ◌>>=◌}
use cpe464_fileserver.Platform.{Platform}
use cpe464_fileserver.StopAndWait.Comm.State.{Missing, Comm, Turn, below, again, waiting, leave}
use cpe464_fileserver.StopAndWait.Comm.Iteration.{comm_turn}

-- Goes on with the next iteration, unless the function returns or waits in `recv`.
unfoldable pub continue_with : (Comm → Outcome Turn) → Turn → Outcome Turn
continue_with loop (below c) = loop c
continue_with loop (again c) = loop c
continue_with loop (waiting c) = defined (waiting c)
continue_with loop (leave status c) = defined (leave status c)

-- The loop, on fuel. `fstat_ok` says whether `fstat`, which is called once, succeeds.
unfoldable pub comm_loop : Platform → Missing → Bool → ℕ → Comm → Outcome Turn
unfolding continue_with
comm_loop os missing fstat_ok zero c = unfinished
comm_loop os missing fstat_ok (suc fuel) c =
    comm_turn os missing fstat_ok c >>= continue_with (comm_loop os missing fstat_ok fuel)
