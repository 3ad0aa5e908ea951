-- ===== src/Server/Parent.antt =====
-- Server.cpp, `Run` and `GetSocket`: the parent process, which accepts connections in two stages.
pub mod Forks
pub mod Connects
pub mod Crossed
pub mod Construct
use cpe464_fileserver.Base.{
  ℕ, ◌+◌, Bool, true, false, ◌&&◌, List, [], ◌∷◌, ◌++◌, Option, none, some, if◌then◌else◌, ◌==◌,
  Outcome, defined, undefined, ◌>>=◌,
}
use cpe464_fileserver.Platform.{Platform}
use cpe464_fileserver.Packet.{
  Packet, verifies, seal, memset_packet, rrpkt, pkt_type_cxn, pkt_type_cxn2, pkt_type_rej,
  pkt_type_rr, pkt_trnsmax,
}
use cpe464_fileserver.Net.{Channel}
use cpe464_fileserver.Server
use cpe464_fileserver.Server.{Server}

-- What the calls in `GetSocket` give: no socket, a socket that cannot be bound or has no name, or
-- the port that the system chose, in network order.
pub data Socket : Type 0 where
  no_socket no_name : Socket
  on_port : ℕ → Socket

-- A child process that was forked: whether it has a socket, and `mvPort`.
pub record Forked : Type 0 where
  pub has_socket : Bool
  pub port : ℕ

-- The variables of `Run` that are kept from round to round. `local_port` is `local.sin_port`, and
-- `none` before it is set, like `out_packet`. `sockets`, `send_results` and `fork_results` hold the
-- outcomes of the calls to come; after their ends calls succeed, and sockets get port 1.
pub record Parent : Type 0 where
  pub out_packet : Option Packet
  pub second_stage : Bool
  pub has_socket : Bool
  pub local_port : Option ℕ
  pub sockets : List Socket
  pub send_results : List Bool
  pub fork_results : List Bool
  pub sent : List Packet
  pub forked : List Forked

-- The members that `Run` sets in the child before it calls `Child`.
unfoldable pub child_state : Channel → Server
child_state net = record {
  from = 0;
  position = 0;
  from_name = [];
  buffer_size = 0;
  window_size = 0;
  window = [];
  out_buf = [];
  sequence = 1;
  retries = pkt_trnsmax;
  state = Server.init;
  net = net;
}

-- `GetSocket`, which sets the port to 0 before it binds the socket.
unfoldable pub take_socket : List Socket → Parent → Parent
take_socket [] s = record s { has_socket = true; local_port = some 1 }
take_socket (no_socket ∷ more) s = record s { has_socket = false; sockets = more }
take_socket (no_name ∷ more) s = record s {
  has_socket = false;
  local_port = some 0;
  sockets = more;
}
take_socket (on_port n ∷ more) s = record s {
  has_socket = true;
  local_port = some n;
  sockets = more;
}

fork_child : ℕ → List Bool → Parent → Parent
fork_child port [] s = record s {
  forked = s.forked ++ (record { has_socket = s.has_socket; port = port } ∷ []);
}
fork_child port (true ∷ more) s = record s {
  forked = s.forked ++ (record { has_socket = s.has_socket; port = port } ∷ []);
  fork_results = more;
}
fork_child port (false ∷ more) s = record s { fork_results = more }

-- The `sendtoErr` of a round; `false` leads to the return of 1.
send_reply : List Bool → Packet → Parent → Bool × Parent
send_reply [] p s = (true, record s { sent = s.sent ++ (p ∷ []) })
send_reply (true ∷ more) p s = (true, record s { sent = s.sent ++ (p ∷ []); send_results = more })
send_reply (false ∷ more) p s = (false, record s { send_results = more })

-- Sends `out_packet`, which must have been set.
unfoldable pub answer_with : Option Packet → Parent → Outcome (Bool × Parent)
unfolding send_reply
answer_with none s = undefined
answer_with (some p) s = defined (send_reply s.send_results p s)

-- Goes on with the rounds, unless a send has failed.
unfoldable pub after_round : (Parent → Outcome Parent) → Bool × Parent → Outcome Parent
after_round loop (false, s) = defined s
after_round loop (true, s) = loop s

module _ (os : Platform) where
  -- The RR for a connection request, with the new socket's port.
  unfoldable pub request_packet : ℕ → ℕ → Packet
  request_packet sequence port =
      seal os (record (memset_packet pkt_type_rr) { sequence = sequence; size = os.htons port })

  request_reply : ℕ → Option ℕ → Parent → Outcome (Bool × Parent)
  unfolding answer_with
  request_reply sequence none s = undefined
  request_reply sequence (some port) s =
      answer_with (some (request_packet sequence port))
        (record s { out_packet = some (request_packet sequence port); second_stage = true })

  -- The second stage: a child process takes over.
  second_reply : ℕ → Option ℕ → Parent → Outcome (Bool × Parent)
  unfolding answer_with fork_child
  second_reply sequence none s = undefined
  second_reply sequence (some port) s = answer_with (some (rrpkt os sequence)) (
      fork_child port s.fork_results
        (record s { second_stage = false; out_packet = some (rrpkt os sequence) }))

  -- The `switch` on the type of a packet with a good checksum.
  unfoldable pub serve : Packet → Parent → Outcome (Bool × Parent)
  unfolding take_socket request_reply second_reply
  serve p s =
      if p.type == pkt_type_cxn
      then request_reply p.sequence (take_socket s.sockets s).local_port (take_socket s.sockets s)
      else if p.type == pkt_type_cxn2
      then (if s.second_stage then second_reply p.sequence s.local_port s else defined (true, s))
      else if p.type == pkt_type_rej
      then answer_with s.out_packet s
      else defined (true, s)

  -- `Run`, over the results of `recvfrom` (`none` is -1): the state in which it returns 1, or in
  -- which it waits after the last of them.
  unfoldable pub parent_run : List (Option Packet) → Parent → Outcome Parent
  unfolding serve after_round
  parent_run [] s = defined s
  parent_run (none ∷ more) s = defined s
  parent_run (some p ∷ more) s =
      let rest = serve p s >>= after_round (parent_run more) in
      let skipped = parent_run more s in if verifies os p then rest else skipped
