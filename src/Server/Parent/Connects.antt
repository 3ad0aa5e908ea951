-- ===== src/Server/Parent/Connects.antt =====
-- Server.cpp, `Run`: the two stages of a connection.
use cpe464_fileserver.Base.{
  ℕ, ◌≡◌, ◌∙◌, ap, true, false, List, [], ◌∷◌, ◌++◌, append_assoc, Option, some, if_true, defined,
  ◌>>=◌,
}
use cpe464_fileserver.Platform.{Platform}
use cpe464_fileserver.Packet.{Packet, seal, verifies, memset_packet, rrpkt}
use cpe464_fileserver.Packet.Seal.{verifies-seal}
use cpe464_fileserver.Client.Init.{connection_packet, stage_packet}
use cpe464_fileserver.Client.Init.Completes.{parent_replies}
use cpe464_fileserver.Server.Parent.{
  Parent, on_port, take_socket, fork_child, send_reply, answer_with, request_packet, request_reply,
  second_reply, serve, after_round, parent_run,
}

-- A parent process whose next socket has the port, and whose calls succeed.
abbrev pub parent_at : Parent → ℕ → List Packet → Parent
parent_at s port sent = record s {
  sockets = on_port port ∷ s.sockets;
  send_results = [];
  fork_results = [];
  sent = sent;
}

-- It has forked a child process with that port.
abbrev pub parent_after : Platform → Parent → ℕ → List Packet → Parent
parent_after os s port sent = record s {
  out_packet = some (rrpkt os 1);
  second_stage = false;
  has_socket = true;
  local_port = some port;
  send_results = [];
  fork_results = [];
  sent = sent ++ parent_replies os port;
  forked = s.forked ++ (record { has_socket = true; port = port } ∷ []);
}

module _ (os : Platform) where
  -- A packet with a good checksum is served.
  pub served :
      (p : Packet) (more : List (Option Packet)) (s : Parent)
      → verifies os p ≡ true
      → parent_run os (some p ∷ more) s ≡ serve os p s >>= after_round (parent_run os more)
  unfolding parent_run
  served p more s v = if_true (verifies os p) _ _ v

  -- If both stages of a connection request arrive, the next socket has a port, and the sends and the
  -- `fork` succeed, the parent process sends the port and an RR, and forks a child with that port.
  pub parent_connects :
      (s : Parent) (port : ℕ) (sent : List Packet)
      → parent_run os
          (some (connection_packet os) ∷ some (stage_packet os) ∷ [])
          (parent_at s port sent)
        ≡ defined (parent_after os s port sent)
  unfolding parent_run serve request_reply second_reply answer_with send_reply fork_child
      take_socket after_round connection_packet stage_packet seal memset_packet
  parent_connects s port sent =
      served (connection_packet os) (some (stage_packet os) ∷ []) (parent_at s port sent)
        (verifies-seal os _)
      ∙ served (stage_packet os) [] middle (verifies-seal os _)
      ∙ ap (λ l. defined (record (parent_after os s port []) { sent = l }))
          (append_assoc sent (request_packet os 0 port ∷ []) (rrpkt os 1 ∷ []))
    where
      middle : Parent
      middle = record s {
        out_packet = some (request_packet os 0 port);
        second_stage = true;
        has_socket = true;
        local_port = some port;
        send_results = [];
        fork_results = [];
        sent = sent ++ (request_packet os 0 port ∷ []);
      }
