-- ===== src/Tests/Servers.antt =====
-- The theorems on the server and on the whole system, applied.
use cpe464_fileserver.Base.{
  [], ◌≤◌, ◌∷◌, length, Option, none, false, ℕ, ◌+◌, ◌≡◌, ◌≢◌, refl, subst, sym, List, arith, take,
  drop, replicate, All, inl, inr, some, Outcome, defined, undefined, Returns, Ends,
}
use cpe464_fileserver.Packet.{
  Packet, zero_packet, pkt_type_cxn, pkt_type_cxn2, rrpkt, memset_packet, seal, verifies,
  checksum_of, bytes_of,
}
use cpe464_fileserver.Platform.{Platform}
use cpe464_fileserver.File.{IsStart}
use cpe464_fileserver.Net.{select_call, next_arrival, send}
use cpe464_fileserver.Client.Run.{run}
use cpe464_fileserver.Client.RecvPacket.{Delivers}
use cpe464_fileserver.Server
use cpe464_fileserver.Server.{Server, recv_packet}
use cpe464_fileserver.Server.Init.{server_init}
use cpe464_fileserver.Server.Init.Ends.{server_init-Ends, InitDone}
use cpe464_fileserver.Server.Window.{
  slide, fill_loop, fill_round, fill_one, push_piece, data_packet, send_round, send_all, wait_round,
}
use cpe464_fileserver.Server.Window.Pieces.{piece_packet, pieces, IsServed}
use cpe464_fileserver.Server.Window.Oversize.{oversize_overflows}
use cpe464_fileserver.Server.Child.{child, child_loop, child_step, child_exit}
use cpe464_fileserver.Server.Child.Serves.{child_serves}
use cpe464_fileserver.Server.Child.Ends.{child_never_succeeds}
use cpe464_fileserver.Server.Parent.{Parent, on_port, parent_run}
use cpe464_fileserver.Server.Parent.Forks.{pending, requests, parent_run-forks}
use cpe464_fileserver.System.{Among, IsFrom, system-Delivers}
use cpe464_fileserver.Tests.World.{
  total, toy, five, piece_at, shuffled, receiver, sender, sender-Sending,
}

child_serves_example : Returns (λ r. All (IsServed toy five 2) r.0.net.sent) (child toy sender)
child_serves_example =
    child_serves toy five 2 300 (omega arith) (omega arith) sender refl sender-Sending (omega arith)
      (omega arith)

child_never_succeeds_example : Ends (λ r. (r.0.state ≢ Server.done) × (r.1 ≡ 1)) (child toy sender)
child_never_succeeds_example = child_never_succeeds toy sender (λ e. cc)

server_init-Ends_example : Ends (InitDone toy 21) (server_init toy sender)
server_init-Ends_example = server_init-Ends toy sender

abbrev listening : Parent
listening = record {
  out_packet = none;
  second_stage = false;
  has_socket = false;
  local_port = none;
  sockets = on_port 80 ∷ [];
  send_results = [];
  fork_results = [];
  sent = [];
  forked = [];
}

abbrev handshakes : List (Option Packet)
handshakes =
    some (seal toy (record zero_packet { type = pkt_type_cxn }))
    ∷ some (seal toy (record zero_packet { type = pkt_type_cxn2; sequence = 1 }))
    ∷ []

parent_run-forks_example :
    Ends
      (λ r. length r.forked ≤ 0 + pending false + requests toy handshakes)
      (parent_run toy handshakes listening)
parent_run-forks_example = parent_run-forks toy handshakes listening

-- A file of 1500 bytes, and a client that asks for 1500 at a time.
abbrev long_file : List ℕ
long_file = replicate 1500 7

abbrev wide : Platform
wide = record toy { read_at = λ fd at n. some (take n (drop at long_file)) }

oversize_overflows_example : fill_round wide (record sender { buffer_size = 1500 }) ≡ undefined
unfolding drop replicate
oversize_overflows_example =
    oversize_overflows wide long_file (record sender { buffer_size = 1500 })
      (record { reads = λ at n. refl; seeks = λ at. refl }) (omega arith) (omega arith)
      (omega arith)

ending : Outcome (Server × ℕ) → Server × ℕ
ending (defined r) = r
ending _ = (sender, 0)

abbrev finished : Server
finished = (ending (child toy sender)).0

sender-finishes : child toy sender ≡ defined (finished, 1)
unfolding ending child total take drop replicate child_loop child_step child_exit fill_round
    fill_loop fill_one push_piece data_packet send_round send_all wait_round recv_packet select_call
    next_arrival verifies checksum_of bytes_of seal send rrpkt memset_packet slide
sender-finishes = refl

sent_pieces : finished.net.sent ≡ pieces toy five 2 0 4
unfolding ending pieces piece_packet child total take drop replicate child_loop child_step
    child_exit fill_round fill_loop fill_one push_piece data_packet send_round send_all wait_round
    recv_packet select_call next_arrival verifies checksum_of bytes_of seal send rrpkt memset_packet
    slide
sent_pieces = refl

piece_at-IsFrom :
    (q : ℕ)
    → Among (piece_packet toy five 2 q) (pieces toy five 2 0 4)
    → Delivers toy (IsFrom finished.net.sent) (piece_at q)
unfolding data_packet seal
piece_at-IsFrom q a p e v =
    let same : piece_packet toy five 2 q ≡ p = cc in
    subst (IsFrom finished.net.sent) same
      (unfold piece_packet in refl, subst (Among (piece_packet toy five 2 q)) (sym sent_pieces) a)

arrivals-IsFrom : All (Delivers toy (IsFrom finished.net.sent)) shuffled.arrivals
unfolding pieces
arrivals-IsFrom =
    let two = piece_at-IsFrom 2 (inr (inr (inl refl))) in
    (
      piece_at-IsFrom 0 (inl refl),
      (piece_at-IsFrom 0 (inl refl), (two, (piece_at-IsFrom 1 (inr (inl refl)), (two, tt)))),
    )

system-Delivers_example :
    Returns (λ r. IsStart five r.0.written × (r.1 ≡ 0 → r.0.written ≡ five)) (run toy receiver)
system-Delivers_example =
    system-Delivers toy five 2 300 sender finished 1 receiver (omega arith) (omega arith) refl
      sender-Sending (omega arith) (omega arith) sender-finishes (omega arith) refl refl refl refl
      arrivals-IsFrom
