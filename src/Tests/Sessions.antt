-- ===== src/Tests/Sessions.antt =====
-- The theorems on the stop and wait server, applied.
use cpe464_fileserver.Base.{
  ℕ, ◌≡◌, ◌≤◌, ◌<◌, refl, List, [], ◌∷◌, Option, none, some, true, false, arith, take, drop,
  replicate, defined, ap, length, length-replicate,
}
use cpe464_fileserver.Packet.{
  Packet, seal, verifies, checksum_of, bytes_of, zero_packet, retransmitpkt, pkt_type_rr,
  pkt_type_rej, pkt_type_dat, pkt_trnsmax, pkt_dmax,
}
use cpe464_fileserver.Packet.Seal.{verifies-seal, retransmitpkt-verifies}
use cpe464_fileserver.StopAndWait.Socket.{
  Attempt, connect_to_client, connect_to_client-IsFirst, IsFirst, find_socket,
}
use cpe464_fileserver.StopAndWait.Comm.{
  Missing, Comm, start, next, comm_turn, comm_start, again, leave, same_bytes, transmit_part,
  receive_part, on_packet, on_retransmit, restore,
}
use cpe464_fileserver.StopAndWait.Comm.Piece.{Awaits, with_piece}
use cpe464_fileserver.StopAndWait.Comm.Retries.{Reached-retries}
use cpe464_fileserver.StopAndWait.Comm.Flags.{
  set_bit, clear_bit, transmit_bit, print_flags, with_flag, byte_of, bits_refine,
}
use cpe464_fileserver.StopAndWait.Comm.Resend.{resend_number}
use cpe464_fileserver.StopAndWait.Comm.Overwritten
use cpe464_fileserver.StopAndWait.Comm.Overwritten.{
  acknowledgment, IsStuck, acknowledgment_unaccepted,
}
use cpe464_fileserver.StopAndWait.Comm.Ack.{
  Acknowledged, done_with, ack_advances, last_packet_unsent,
}
use cpe464_fileserver.Tests.World.{toy, toy-IsFile, total, five}

abbrev offered : Option (List Attempt)
offered = some (
    record { socket = none; option_set = true; bound = true }
    ∷ record { socket = some 4; option_set = true; bound = false }
    ∷ record { socket = some 5; option_set = true; bound = true }
    ∷ [])

connect_to_client-IsFirst_example : (l : List Attempt) × ((offered ≡ some l) × IsFirst l 5)
unfolding connect_to_client find_socket
connect_to_client-IsFirst_example = connect_to_client-IsFirst offered 5 refl

-- The types that packet.h had under older names, and an `ackpkt` that copies the packet.
abbrev renamed : Missing
renamed = record {
  pkt_type_ack = pkt_type_rr;
  pkt_type_ret = pkt_type_rej;
  ackpkt = λ p. record p { type = pkt_type_rr };
  heap_tail = [];
}

asked_again :
    comm_turn toy renamed true (comm_start (some (retransmitpkt toy 0) ∷ []) [])
    ≡ defined (
        again (record (comm_start [] []) {
          retries = 1;
          status = record ((comm_start [] []).status) { transmit = true };
        }))
unfolding comm_turn comm_start transmit_part receive_part verifies checksum_of bytes_of total
    retransmitpkt zero_packet replicate seal on_packet on_retransmit restore
asked_again = refl

Reached-retries_example : 1 ≤ pkt_trnsmax
Reached-retries_example =
    Reached-retries toy renamed {inbox = some (retransmitpkt toy 0) ∷ []} {results = []}
      (next true start asked_again)

-- The first two bytes of the file were sent; `position` and `offset` say how much was read.
abbrev session : ℕ → List (Option Packet) → Comm
session position inbox = record {
  from = some 3;
  position = position;
  name = 97 ∷ [];
  buffer_size = 2;
  out_packet = record zero_packet { type = pkt_type_dat; payload = 11 ∷ 12 ∷ [] };
  saved_packet = zero_packet;
  status = record {
    quit = false;
    expect_ack = true;
    expect_info = false;
    info_init = false;
    transmit = false;
    receive = true;
    next_data = false;
    retransmit = false;
  };
  sequence = 1;
  retries = 0;
  offset = position;
  inbox = inbox;
  send_results = [];
  sent = [];
}

session-Awaits :
    (position : ℕ) (inbox : List (Option Packet)) → Awaits renamed (session position inbox)
session-Awaits position inbox = record {
  quit = refl;
  info = refl;
  opened = refl;
  sent = refl;
  receives = refl;
  retries = omega arith;
  answer = λ e. omega arith;
}

resend_number_example :
    comm_turn toy renamed true (session 4 (some (retransmitpkt toy 0) ∷ []))
    ≡ defined (
        again (record (session 4 []) {
          retries = 1;
          position = 2;
          out_packet = seal toy (record zero_packet {
            type = pkt_type_dat;
            sequence = 1;
            size = 2;
            payload = 11 ∷ 12 ∷ [];
          });
          status = record ((session 4 []).status) {
            transmit = true;
            receive = false;
            retransmit = true;
          };
        }))
unfolding take drop retransmitpkt seal zero_packet
resend_number_example =
    resend_number toy renamed true 3 0 five (retransmitpkt toy 0) []
      (session 4 (some (retransmitpkt toy 0) ∷ [])) (session-Awaits 4 _) (λ e. omega arith)
      toy-IsFile refl refl (retransmitpkt-verifies toy 0) refl refl (λ e. omega arith) (omega arith)

abbrev confirmed : Packet
confirmed = seal toy (record zero_packet { type = pkt_type_rr; payload = 11 ∷ 12 ∷ [] })

session-Acknowledged :
    (position : ℕ) → Acknowledged toy renamed confirmed [] (session position (some confirmed ∷ []))
unfolding seal same_bytes
session-Acknowledged position = record {
  awaits = session-Awaits position _;
  expected = refl;
  steady = refl;
  inbox = refl;
  good = verifies-seal toy _;
  type = refl;
  sends_data = refl;
  same = refl;
}

ack_advances_example :
    let e = done_with toy renamed [] (session 2 (some confirmed ∷ [])) in
    comm_turn toy renamed true (session 2 (some confirmed ∷ []))
    ≡ defined (again (with_piece toy renamed (13 ∷ 14 ∷ []) e (record e { offset = 4 })))
unfolding take drop
ack_advances_example =
    ack_advances toy renamed true 3 five confirmed [] (session 2 (some confirmed ∷ []))
      (session-Acknowledged 2) toy-IsFile refl (omega arith)

last_packet_unsent_example :
    (d : Comm) × (comm_turn toy renamed true (session 5 (some confirmed ∷ [])) ≡ defined (again d))
    × (comm_turn toy renamed true d ≡ defined (leave 0 d))
    × (d.status.transmit ≡ true)
    × (d.out_packet.size ≡ 0)
    × (d.sent ≡ [])
last_packet_unsent_example =
    last_packet_unsent toy renamed true true 3 five confirmed [] (session 5 (some confirmed ∷ []))
      (session-Acknowledged 5) toy-IsFile refl (omega arith) (unfold take drop in refl)

bits_refine_example :
    (print_flags (set_bit transmit_bit 36) ≡ with_flag transmit_bit true (print_flags 36))
    × (print_flags (clear_bit transmit_bit 36) ≡ with_flag transmit_bit false (print_flags 36))
    × (set_bit transmit_bit 36 < 256)
    × (clear_bit transmit_bit 36 < 256)
    × (byte_of (print_flags 36) ≡ 36)
bits_refine_example = bits_refine transmit_bit 36 (omega arith) (omega arith)

-- The packet that the server sent last, and the client's acknowledgment of it.
abbrev unaccepted : Comm
unaccepted = session 2 (
    some
      (acknowledgment toy [] (record zero_packet { type = pkt_type_dat; payload = 11 ∷ 12 ∷ [] }))
    ∷ [])

unaccepted-Awaits : Awaits (Overwritten.renamed toy []) unaccepted
unaccepted-Awaits = record {
  quit = refl;
  info = refl;
  opened = refl;
  sent = refl;
  receives = refl;
  retries = omega arith;
  answer = λ e. omega arith;
}

acknowledgment_unaccepted_example :
    (d : Comm) × (comm_turn toy (Overwritten.renamed toy []) true unaccepted ≡ defined (again d))
    × IsStuck toy [] unaccepted d []
acknowledgment_unaccepted_example =
    acknowledgment_unaccepted toy [] true [] unaccepted unaccepted-Awaits refl refl refl
      (λ e. absurd (omega (arith, ap (length {A = ℕ}) e, length-replicate pkt_dmax pkt_type_rr)))
