-- ===== src/CommandLine.antt =====
-- Go Back N (UDP)/rcopy.cpp: the client's `main`.
pub mod Completes
pub mod Rcserver
pub mod Unanswered
use cpe464_fileserver.Base.{
  ℕ, ◌≡◌, ◌≢◌, refl, sym, subst, ◌∙◌, ap, Bool, true, false, List, Option, none, some, ◌==◌, arith,
  if_true, if_false, if◌then◌else◌, Outcome, defined, ◌>>=◌, Ends, Ends->>=, Returns, Returns->>=,
}
use cpe464_fileserver.Platform.{Platform}
use cpe464_fileserver.Net.{Channel}
use cpe464_fileserver.Client.{Client, construct}
use cpe464_fileserver.Client.Run.{run}
use cpe464_fileserver.Client.Run.Ends.{run-Ends}

abbrev pub num_args : ℕ
num_args = 8

-- `main` with the arguments in their C types and the outcomes of the calls: the exit status and, if
-- the target file was created and `Run` called, its content.
unfoldable pub rcopy_main :
    Platform
    → ℕ
    → List ℕ
    → ℕ
    → ℕ
    → ℕ
    → Bool
    → List Bool
    → List Bool
    → Channel
    → Outcome (ℕ × Option (List ℕ))
rcopy_main os argc from buffer_size window_size port created sockets writes net =
    if argc == num_args
    then elim (construct os from buffer_size window_size port created sockets writes net) [
      | none ↦ defined (1, none)
      | some c ↦ run os c >>= λ r. defined (0, some r.0.written)
    ]
    else defined (1, none)
