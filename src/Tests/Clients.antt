-- ===== src/Tests/Clients.antt =====
-- The theorems on the client, applied.
use cpe464_fileserver.Base.{◌≡◌, refl, [], ◌∷◌, ◌++◌, arith, take, All, undefined, Returns, Ends}
use cpe464_fileserver.Packet.{Packet, pkt_type_buf, rrpkt}
use cpe464_fileserver.File.{IsPiece, IsStart}
use cpe464_fileserver.Client
use cpe464_fileserver.Client.{Client}
use cpe464_fileserver.Client.RecvPacket.{Delivers}
use cpe464_fileserver.Client.Init.{client_init}
use cpe464_fileserver.Client.Init.Ends.{InitDone, client_init-Ends}
use cpe464_fileserver.Client.Recv.{accept, recv_round}
use cpe464_fileserver.Client.Recv.Transfer.{InTransfer}
use cpe464_fileserver.Client.Recv.Grows.{Advances, recv_round-Advances}
use cpe464_fileserver.Client.Recv.Stray.{late_rr_overreads, stray_is_written}
use cpe464_fileserver.Client.Run.{run}
use cpe464_fileserver.Client.Run.Delivery.{run_delivers, fresh_client}
use cpe464_fileserver.Client.Run.Ends.{run-Ends}
use cpe464_fileserver.Tests.World.{toy, five, shuffled, receiver, piece_at-Delivers}

shuffled-Delivers : All (Delivers toy (IsPiece five 2)) shuffled.arrivals
shuffled-Delivers = (
  piece_at-Delivers 0,
  (piece_at-Delivers 0, (piece_at-Delivers 2, (piece_at-Delivers 1, (piece_at-Delivers 2, tt)))),
)

receiver-InTransfer : InTransfer toy five 2 receiver
receiver-InTransfer = fresh_client toy five 2 receiver refl refl refl shuffled-Delivers

run_delivers_example :
    Returns (λ r. IsStart five r.0.written × (r.1 ≡ 0 → r.0.written ≡ five)) (run toy receiver)
run_delivers_example =
    run_delivers toy five 2 (omega arith) (omega arith) (omega arith) receiver refl
      receiver-InTransfer

run-Ends_example : Ends (λ r. r.1 ≡ 0 → r.0.state ≡ Client.done) (run toy receiver)
run-Ends_example = run-Ends toy receiver

recv_round-Advances_example : Returns (Advances toy five 2 receiver) (recv_round toy receiver)
recv_round-Advances_example =
    recv_round-Advances toy five 2 (omega arith) (omega arith) (omega arith) receiver (omega arith)
      receiver-InTransfer

abbrev beginner : Client
beginner = record receiver { state = Client.init }

client_init-Ends_example : Ends (InitDone toy (IsPiece five 2) beginner) (client_init toy beginner)
client_init-Ends_example = client_init-Ends toy (IsPiece five 2) beginner shuffled-Delivers

late_rr_overreads_example : accept toy (rrpkt toy 0) receiver ≡ undefined
late_rr_overreads_example = late_rr_overreads toy receiver

abbrev stray : Packet
stray = record {
  type = pkt_type_buf;
  sequence = 0;
  checksum = 0;
  size = 2;
  payload = 8 ∷ 9 ∷ 10 ∷ [];
}

stray_is_written_example :
    Returns
      (λ r. r.1.written ≡ receiver.written ++ take stray.size stray.payload)
      (accept toy stray (record receiver { write_results = [] }))
stray_is_written_example = stray_is_written toy stray receiver (λ e. omega arith) refl (omega arith)
