-- ===== src/CommandLine/Rcserver.antt =====
-- Go Back N (UDP)/rcserver.cpp: the server's `main`.
use cpe464_fileserver.Base.{
  ℕ, ◌≤◌, ◌≡◌, refl, sym, subst, Bool, true, false, List, [], ◌∷◌, ◌++◌, Option, none, some, ltb,
  if_false, if◌then◌else◌, ◌&&◌, Outcome, defined, ◌>>=◌, Ends, Ends->>=, arith, length,
}
use cpe464_fileserver.Platform.{Platform}
use cpe464_fileserver.Packet.{Packet}
use cpe464_fileserver.Server.Parent.{Parent, Forked, Socket, take_socket, parent_run}
use cpe464_fileserver.Server.Parent.Construct.{run_start, construct_server}
use cpe464_fileserver.Server.Parent.Forks.{requests, parent_run-forks}

module _ (os : Platform) where
  -- The `try`, over the results of `recvfrom` before the first one that fails, with which `Run`
  -- returns 1 at the latest. A constructor that throws leads to the end of `main`.
  unfoldable pub run_server : List (Option Packet) → Option Parent → Outcome (ℕ × List Forked)
  run_server l none = defined (0, [])
  run_server l (some s) = parent_run os (l ++ (none ∷ [])) s >>= λ d. defined (1, d.forked)

  -- `main` with `argc` arguments: the exit status and the child processes that were forked.
  unfoldable pub rcserver_main :
      ℕ
      → List (Option Packet)
      → List Socket
      → List Bool
      → List Bool
      → Bool
      → Outcome (ℕ × List Forked)
  unfolding run_server
  rcserver_main argc l sockets sends forks handled =
      if ltb argc 2
      then defined (1, [])
      else run_server l (construct_server sockets sends forks handled)

  -- A failure of `recvfrom` is no request.
  requests-failed : (l : List (Option Packet)) → requests os (l ++ (none ∷ [])) ≡ requests os l
  unfolding requests
  requests-failed [] = refl
  requests-failed (none ∷ l) = requests-failed l
  requests-failed (some p ∷ l) = omega (arith, requests-failed l)

  -- 0 where the constructor throws.
  unfoldable pub status_of : Option Parent → ℕ
  status_of none = 0
  status_of (some s) = 1

  abbrev pub Served : List (Option Packet) → Option Parent → ℕ × List Forked → Type 0
  Served l o r = (r.0 ≡ status_of o) × (length r.1 ≤ requests os l)

  -- A server that has its socket and its handler, or not.
  run_server-Served :
      (l : List (Option Packet)) (b : Bool) (sockets : List Socket) (sends forks : List Bool)
      → let o = if b then some (run_start sockets sends forks) else none in
        Ends (Served l o) (run_server l o)
  unfolding run_server run_start status_of
  run_server-Served l false sockets sends forks = (refl, omega arith)
  run_server-Served l true sockets sends forks =
      Ends->>= {A = Parent} {B = ℕ × List Forked} _
        (Served l (some (run_start sockets sends forks))) (λ d. defined (1, d.forked))
        (λ d h. (refl, omega (arith, h, requests-failed l)))
        (parent_run os (l ++ (none ∷ [])) (run_start sockets sends forks))
        (parent_run-forks os (l ++ (none ∷ [])) (run_start sockets sends forks))

  -- With an argument, whatever arrives and whichever calls fail: `main` ends at the first failure of
  -- `recvfrom` or before, unless `Run` meets undefined behaviour; its status is 0 if the constructor
  -- throws and 1 if not, and there are at most as many child processes as connection requests with a
  -- good checksum.
  pub rcserver_main_status :
      (argc : ℕ) (l : List (Option Packet)) (sockets : List Socket) (sends forks : List Bool)
      (handled : Bool)
      → 2 ≤ argc
      → Ends
          (Served l (construct_server sockets sends forks handled))
          (rcserver_main argc l sockets sends forks handled)
  unfolding rcserver_main construct_server
  rcserver_main_status argc l sockets sends forks handled h =
      let got = take_socket sockets (run_start sockets sends forks) in
      subst (Ends (Served l (construct_server sockets sends forks handled)))
        (sym (if_false (ltb argc 2) _ _ (ground (arith, h))))
        (run_server-Served l (got.has_socket && handled) got.sockets sends forks)
