-- ===== src/Server/Parent/Crossed.antt =====
-- Server.cpp, `Run`: connection requests that come before the second stage of an earlier one.
use cpe464_fileserver.Base.{
  ℕ, zero, suc, ◌≡◌, refl, ◌∙◌, ap, true, false, List, [], ◌∷◌, ◌++◌, append_assoc, Option, some,
  defined,
}
use cpe464_fileserver.Platform.{Platform}
use cpe464_fileserver.Packet.{Packet, seal, memset_packet, rrpkt}
use cpe464_fileserver.Packet.Seal.{verifies-seal}
use cpe464_fileserver.Client.Init.{connection_packet, stage_packet}
use cpe464_fileserver.Server.Parent.{
  Parent, Socket, on_port, take_socket, fork_child, send_reply, answer_with, request_packet,
  request_reply, second_reply, serve, after_round, parent_run,
}
use cpe464_fileserver.Server.Parent.Connects.{served}

-- The sockets that the system gives, by their ports.
abbrev pub on_ports : List ℕ → List Socket
on_ports [] = []
on_ports (n ∷ ports) = on_port n ∷ on_ports ports

-- The port of the last one.
abbrev pub last_port : ℕ → List ℕ → ℕ
last_port n [] = n
last_port n (m ∷ ports) = last_port m ports

-- A parent process that waits for connections, whose calls succeed.
abbrev pub awaiting : Parent → List ℕ → List Packet → Parent
awaiting s ports sent = record s {
  sockets = on_ports ports;
  send_results = [];
  fork_results = [];
  sent = sent;
}

module _ (os : Platform) where
  -- One connection request for each port, and then as many second stages as there are to come.
  abbrev pub first_stages : List ℕ → List (Option Packet) → List (Option Packet)
  first_stages [] l = l
  first_stages (n ∷ ports) l = some (connection_packet os) ∷ first_stages ports l

  abbrev pub second_stages : ℕ → List (Option Packet)
  second_stages zero = []
  second_stages (suc n) = some (stage_packet os) ∷ second_stages n

  -- The answers to the requests.
  abbrev pub port_replies : List ℕ → List Packet
  port_replies [] = []
  port_replies (n ∷ ports) = request_packet os 0 n ∷ port_replies ports

  -- After a request that was given the socket with the port.
  abbrev asked : Parent → ℕ → List ℕ → List Packet → Parent
  asked s port ports sent = record (awaiting s ports sent) {
    out_packet = some (request_packet os 0 port);
    second_stage = true;
    has_socket = true;
    local_port = some port;
  }

  -- After the second stage that was answered.
  abbrev pub answered : Parent → ℕ → List Packet → Parent
  answered s port sent = record (awaiting s [] sent) {
    out_packet = some (rrpkt os 1);
    second_stage = false;
    has_socket = true;
    local_port = some port;
    forked = s.forked ++ (record { has_socket = true; port = port } ∷ []);
  }

  one_request :
      (port : ℕ) (ports : List ℕ) (more : List (Option Packet)) (s : Parent) (sent : List Packet)
      → parent_run os (some (connection_packet os) ∷ more) (awaiting s (port ∷ ports) sent)
        ≡ parent_run os more (asked s port ports (sent ++ (request_packet os 0 port ∷ [])))
  unfolding serve request_reply answer_with send_reply take_socket after_round connection_packet
      seal memset_packet
  one_request port ports more s sent =
      served os (connection_packet os) more (awaiting s (port ∷ ports) sent) (verifies-seal os _)

  all_requests :
      (port : ℕ) (ports : List ℕ) (more : List (Option Packet)) (s : Parent) (sent : List Packet)
      → parent_run os (first_stages (port ∷ ports) more) (awaiting s (port ∷ ports) sent)
        ≡ parent_run os more
            (asked s (last_port port ports) [] (sent ++ port_replies (port ∷ ports)))
  all_requests port [] more s sent = one_request port [] more s sent
  all_requests port (n ∷ ports) more s sent =
      one_request port (n ∷ ports) (first_stages (n ∷ ports) more) s sent
      ∙ all_requests n ports more (asked s port (n ∷ ports) sent)
          (sent ++ (request_packet os 0 port ∷ []))
      ∙ ap (λ l. parent_run os more (asked s (last_port n ports) [] l))
          (append_assoc sent (request_packet os 0 port ∷ []) (port_replies (n ∷ ports)))

  one_stage :
      (port : ℕ) (more : List (Option Packet)) (s : Parent) (sent : List Packet)
      → parent_run os (some (stage_packet os) ∷ more) (asked s port [] sent)
        ≡ parent_run os more (answered s port (sent ++ (rrpkt os 1 ∷ [])))
  unfolding serve second_reply answer_with send_reply fork_child after_round stage_packet seal
      memset_packet
  one_stage port more s sent =
      served os (stage_packet os) more (asked s port [] sent) (verifies-seal os _)

  late_stages :
      (n port : ℕ) (s : Parent) (sent : List Packet)
      → parent_run os (second_stages n) (answered s port sent) ≡ defined (answered s port sent)
  unfolding parent_run serve after_round stage_packet seal memset_packet
  late_stages zero port s sent = refl
  late_stages (suc n) port s sent =
      served os (stage_packet os) (second_stages n) (answered s port sent) (verifies-seal os _)
      ∙ late_stages n port s sent

  -- Any number of clients ask for a connection before the second stage of one of them arrives, and
  -- then any number of second stages arrive; each request gets a socket, and no call fails. Then
  -- the parent process sends every request the port of a socket of its own, but it forks one child
  -- process only, on the socket of the last request, and answers the first of the second stages
  -- only.
  pub crossed_requests :
      (port : ℕ) (ports : List ℕ) (n : ℕ) (s : Parent) (sent : List Packet)
      → parent_run os
          (first_stages (port ∷ ports) (second_stages (suc n)))
          (awaiting s (port ∷ ports) sent)
        ≡ defined (
            answered s
              (last_port port ports)
              (sent ++ (port_replies (port ∷ ports) ++ (rrpkt os 1 ∷ []))))
  crossed_requests port ports n s sent =
      all_requests port ports (second_stages (suc n)) s sent
      ∙ one_stage (last_port port ports) (second_stages n) s _
      ∙ late_stages n (last_port port ports) s _
      ∙ ap (λ l. defined (answered s (last_port port ports) l))
          (append_assoc sent (port_replies (port ∷ ports)) (rrpkt os 1 ∷ []))
