-- ===== src/Tests/Programs.antt =====
-- The theorems on `main` of both clients and on the stop and wait client's socket, applied.
use cpe464_fileserver.Base.{
  zero, suc, ◌*◌, ◌≡◌, refl, [], ◌∷◌, arith, take, drop, replicate, some, true, false, defined,
  Returns, Ends,
}
use cpe464_fileserver.Packet.{
  Packet, zero_packet, seal, verifies, checksum_of, bytes_of, pkt_type_dat,
}
use cpe464_fileserver.StopAndWait.Comm.{Missing}
use cpe464_fileserver.StopAndWait.Connect.{
  client_socket, construct_client, connect_to_server, construct_client-last,
}
use cpe464_fileserver.StopAndWait.Rcopy.{
  Rcopy, start, next, rcopy_turn, again, transmit_part, on_recv, on_packet, on_piece, on_written,
  restore, write_bytes,
}
use cpe464_fileserver.StopAndWait.Rcopy.Pieces.{Brings}
use cpe464_fileserver.StopAndWait.Rcopy.Writes.{AfterTurn, Reached-writes}
use cpe464_fileserver.Client.Run.{run}
use cpe464_fileserver.CommandLine.{rcopy_main}
use cpe464_fileserver.CommandLine.Unanswered.{no_answer, alone, Failed, rcopy_main_unanswered}
use cpe464_fileserver.CommandLine.Rcserver.{rcserver_main, rcserver_main_status, Served}
use cpe464_fileserver.Client.Init.Completes.{to_parent}
use cpe464_fileserver.Handshake.{received}
use cpe464_fileserver.Server.Parent.{on_port}
use cpe464_fileserver.Server.Parent.Construct.{construct_server}
use cpe464_fileserver.Tests.World.{total, toy, five}

rcopy_main_unanswered_example :
    Returns (Failed toy) (run toy (alone toy (97 ∷ []) 2 2 7))
    × (rcopy_main toy 8 (97 ∷ []) 2 2 7 true [] [] no_answer ≡ defined (0, some []))
rcopy_main_unanswered_example = rcopy_main_unanswered toy (97 ∷ []) 2 2 7 (omega arith)

-- A connection is requested and set up, and then recvfrom fails.
rcserver_main_status_example :
    Ends
      (Served toy (received (to_parent toy)) (construct_server (on_port 80 ∷ []) [] [] true))
      (rcserver_main toy 2 (received (to_parent toy)) (on_port 80 ∷ []) [] [] true)
rcserver_main_status_example =
    rcserver_main_status toy 2 (received (to_parent toy)) (on_port 80 ∷ []) [] [] true (omega arith)

construct_client-last_example :
    client_socket (
      construct_client (
        some (
          record { text = 1; socket = some 3; connected = false }
          ∷ record { text = 2; socket = some 4; connected = true }
          ∷ [])))
    ≡ connect_to_server (some (record { text = 1; socket = some 3; connected = false } ∷ []))
construct_client-last_example =
    construct_client-last (record { text = 1; socket = some 3; connected = false } ∷ [])
      (record { text = 2; socket = some 4; connected = true })

abbrev named : Missing
named = record {
  pkt_type_ack = 1;
  pkt_type_ret = 2;
  ackpkt = λ p. record p { type = 1 };
  heap_tail = [];
}

-- The first piece of the file, from the server.
abbrev first : Packet
first = seal toy (record zero_packet { type = pkt_type_dat; size = 2; payload = 11 ∷ 12 ∷ [] })

-- The client waits for the first piece, and has got it.
abbrev waits : Rcopy
waits = record {
  buffer_size = 2;
  out_packet = zero_packet;
  saved_packet = zero_packet;
  status = record {
    quit = false;
    expect_ack = false;
    transmit = false;
    receive = true;
    at_end = false;
  };
  sequence = 0;
  retries = 0;
  written = [];
  inbox = some first ∷ [];
  send_results = [];
  write_results = [];
  sent = [];
}

abbrev got : Rcopy
got = record waits {
  out_packet = record first { checksum = 0; type = 1 };
  status = record (waits.status) { transmit = true };
  sequence = 1;
  written = 11 ∷ 12 ∷ [];
  inbox = [];
}

first-Brings : Brings toy five 2 (some first)
unfolding take drop seal zero_packet
first-Brings zero h v t e = (refl, refl)
first-Brings (suc q) h v t e = absurd (omega arith)

first_turn : rcopy_turn toy named waits ≡ defined (again got)
unfolding take drop seal verifies checksum_of bytes_of total replicate rcopy_turn transmit_part
    on_recv on_packet on_piece on_written restore write_bytes zero_packet
first_turn = refl

Reached-writes_example :
    (got.written ≡ take (2 * 1) five)
    × (false ≡ true → got.written ≡ five)
    × Returns (AfterTurn toy five 2) (rcopy_turn toy named got)
Reached-writes_example =
    Reached-writes toy five 2 named (omega arith) (next start first_turn) refl refl refl refl refl
      (omega arith) (first-Brings, tt)
