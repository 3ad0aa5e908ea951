-- ===== src/Tests/Transfers.antt =====
-- The theorems on the handshake and on whole sessions, applied.
use cpe464_fileserver.Base.{
  ℕ, ◌≡◌, refl, subst, sym, List, [], ◌∷◌, ◌++◌, arith, take, drop, replicate, All, inl, inr, none,
  false, Outcome, defined, Returns,
}
use cpe464_fileserver.Packet.{
  rrpkt, rejpkt, memset_packet, seal, verifies, checksum_of, bytes_of, pkt_trnsmax,
}
use cpe464_fileserver.File.{IsStart}
use cpe464_fileserver.Net.{Arrival, arrive, brings, select_call, next_arrival, send}
use cpe464_fileserver.Client.{recv_packets}
use cpe464_fileserver.Client.Init.{
  client_init, buffer_packet, window_packet, name_packet, stage_packet,
}
use cpe464_fileserver.Client.Init.Completes.{client_at, to_parent, parent_replies}
use cpe464_fileserver.Client.Run.{run}
use cpe464_fileserver.Client.Run.Completes.{acknowledgments, Completed}
use cpe464_fileserver.Client.RecvPacket.{Delivers}
use cpe464_fileserver.Server.{Server, recv_packet, fill_window}
use cpe464_fileserver.Server.Init.{
  server_init, init_loop, take_setting, apply_setting, c_string, transmit, wanting, follow,
  finish_init,
}
use cpe464_fileserver.Server.Init.Completes.{server_at, to_child, child_replies}
use cpe464_fileserver.Server.Window.{
  slide, fill_loop, fill_round, fill_one, push_piece, data_packet, send_round, send_all, wait_round,
}
use cpe464_fileserver.Server.Window.Pieces.{piece_packet, pieces}
use cpe464_fileserver.Server.Parent.{Parent, parent_run, child_state}
use cpe464_fileserver.Server.Parent.Connects.{parent_at, parent_after}
use cpe464_fileserver.Server.Parent.Crossed.{
  first_stages, second_stages, port_replies, awaiting as parents, answered as replied,
  crossed_requests,
}
use cpe464_fileserver.Server.Child.{child, child_loop, child_step, child_exit}
use cpe464_fileserver.Server.Child.Refines.{Follows, child_refines}
use cpe464_fileserver.System.{Among, IsFrom}
use cpe464_fileserver.Handshake.{received, talking, serves_for, handshake_completes}
use cpe464_fileserver.Session.Begins.{forked, starting}
use cpe464_fileserver.Session.Delivers.{session-Delivers}
use cpe464_fileserver.Session.Recovers.{empty_target}
use cpe464_fileserver.Session.Lossless.{HasSent, session_lossless}
use cpe464_fileserver.Tests.World.{
  total, toy, toy-IsFile, five, piece_at, shuffled, receiver, sender, sender-Sending,
}

child_refines_example : Returns (λ r. Follows toy five 2 2 0 sender r.0) (child toy sender)
child_refines_example =
    child_refines toy five 2 300 (omega arith) (omega arith) sender refl sender-Sending
      (omega arith) (omega arith) refl

abbrev awaiting : Parent
awaiting = record {
  out_packet = none;
  second_stage = false;
  has_socket = false;
  local_port = none;
  sockets = [];
  send_results = [];
  fork_results = [];
  sent = [];
  forked = [];
}

handshake_completes_example :
    (parent_run toy (received (to_parent toy)) (parent_at awaiting 80 [])
      ≡ defined (parent_after toy awaiting 80 []))
    × (client_init toy (
          client_at receiver pkt_trnsmax
            (arrive (parent_replies toy 80 ++ child_replies toy) [])
            [])
        ≡ defined (recv_packets, talking toy receiver 80 []))
    × (server_init toy (server_at sender 1 pkt_trnsmax (arrive (to_child toy 2 2 (97 ∷ [])) []) [])
        ≡ defined (fill_window, serves_for toy sender receiver 3 []))
handshake_completes_example =
    handshake_completes toy awaiting sender receiver 80 3 [] [] (λ n h. omega arith) (omega arith)
      (omega arith) (omega arith) (omega arith) ((λ e. omega arith), tt) refl

-- The child receives one RR after the handshake.
abbrev later : List Arrival
later = brings (rrpkt toy 1) ∷ []

ending : Outcome (Server × ℕ) → Server × ℕ
ending (defined r) = r
ending _ = (sender, 0)

abbrev finished : Server
finished = (ending (child toy (forked toy 2 2 (97 ∷ []) later))).0

child-finishes : child toy (forked toy 2 2 (97 ∷ []) later) ≡ defined (finished, 1)
unfolding ending total take drop replicate child child_loop child_step child_exit fill_round
    fill_loop fill_one push_piece data_packet send_round send_all wait_round recv_packet select_call
    next_arrival verifies checksum_of bytes_of seal send rrpkt rejpkt memset_packet slide
    server_init init_loop take_setting apply_setting c_string transmit wanting follow finish_init
    child_state buffer_packet window_packet name_packet stage_packet pieces piece_packet
child-finishes = refl

sent_pieces : finished.net.sent ≡ child_replies toy ++ pieces toy five 2 0 4
unfolding ending total take drop replicate child child_loop child_step child_exit fill_round
    fill_loop fill_one push_piece data_packet send_round send_all wait_round recv_packet select_call
    next_arrival verifies checksum_of bytes_of seal send rrpkt rejpkt memset_packet slide
    server_init init_loop take_setting apply_setting c_string transmit wanting follow finish_init
    child_state buffer_packet window_packet name_packet stage_packet pieces piece_packet
sent_pieces = refl

piece_at-IsFrom :
    (q : ℕ)
    → Among (piece_packet toy five 2 q) (child_replies toy ++ pieces toy five 2 0 4)
    → Delivers toy (IsFrom finished.net.sent) (piece_at q)
unfolding data_packet seal
piece_at-IsFrom q a p e v =
    let same : piece_packet toy five 2 q ≡ p = cc in
    subst (IsFrom finished.net.sent) same
      (unfold piece_packet in refl, subst (Among (piece_packet toy five 2 q)) (sym sent_pieces) a)

arrivals-IsFrom : All (Delivers toy (IsFrom finished.net.sent)) shuffled.arrivals
unfolding pieces
arrivals-IsFrom =
    let two = piece_at-IsFrom 2 (inr (inr (inr (inr (inr (inr (inr (inl refl)))))))) in
    (
      piece_at-IsFrom 0 (inr (inr (inr (inr (inr (inl refl)))))),
      (
        piece_at-IsFrom 0 (inr (inr (inr (inr (inr (inl refl)))))),
        (two, (piece_at-IsFrom 1 (inr (inr (inr (inr (inr (inr (inl refl))))))), (two, tt))),
      ),
    )

session-Delivers_example :
    Returns
      (λ r. IsStart five r.0.written × (r.1 ≡ 0 → r.0.written ≡ five))
      (run toy (starting toy receiver 80 shuffled.arrivals))
unfolding child_state
session-Delivers_example =
    session-Delivers toy five 80 3 800 receiver shuffled.arrivals later finished 1 (omega arith)
      (omega arith) (omega arith) (omega arith) (omega arith) ((λ e. omega arith), tt) refl
      toy-IsFile (omega arith) (omega arith) (omega arith) child-finishes arrivals-IsFrom refl

session_lossless_example :
    Returns
      (Completed toy five 2 (omega arith) 2 (to_parent toy ++ to_child toy 2 2 (97 ∷ [])))
      (run toy (starting toy (empty_target receiver) 80 (arrive (pieces toy five 2 0 3) [])))
    × Returns (HasSent (child_replies toy ++ (pieces toy five 2 0 3 ++ pieces toy five 2 3 1))) (
        child toy
          (forked toy 2 2 (97 ∷ []) (arrive (acknowledgments toy five 2 (omega arith) 0 2) [])))
session_lossless_example =
    session_lossless toy five receiver 80 3 2 (omega arith) (omega arith) (omega arith)
      (omega arith) (omega arith) ((λ e. omega arith), tt) refl toy-IsFile (omega arith)
      (omega arith)

crossed_requests_example :
    parent_run toy
      (first_stages toy (80 ∷ 81 ∷ []) (second_stages toy 2))
      (parents awaiting (80 ∷ 81 ∷ []) [])
    ≡ defined
        (replied toy awaiting 81 ([] ++ (port_replies toy (80 ∷ 81 ∷ []) ++ (rrpkt toy 1 ∷ []))))
crossed_requests_example = crossed_requests toy 80 (81 ∷ []) 1 awaiting []
