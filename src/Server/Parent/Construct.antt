-- ===== src/Server/Parent/Construct.antt =====
-- Server.cpp, the constructor: the socket of the parent process, and the handler of SIGCHLD.
use cpe464_fileserver.Base.{Bool, false, List, [], Option, none, some, ◌&&◌, if◌then◌else◌}
use cpe464_fileserver.Server.Parent.{Socket, Parent, take_socket}

-- The variables of `Run` before its first round, with the outcomes of the calls to come.
unfoldable pub run_start : List Socket → List Bool → List Bool → Parent
run_start sockets sends forks = record {
  out_packet = none;
  second_stage = false;
  has_socket = false;
  local_port = none;
  sockets = sockets;
  send_results = sends;
  fork_results = forks;
  sent = [];
  forked = [];
}

-- The constructor, which takes the first socket and sets the handler: `none` where it throws.
-- `handled` is the outcome of `sigaction`.
unfoldable pub construct_server : List Socket → List Bool → List Bool → Bool → Option Parent
unfolding run_start take_socket
construct_server sockets sends forks handled =
    let got = take_socket sockets (run_start sockets sends forks) in
    if got.has_socket && handled then some (run_start got.sockets sends forks) else none
