-- ===== src/Tests/Runs.antt =====
-- The programs run on the small world.
use cpe464_fileserver.Base.{ℕ, ◌≡◌, refl, List, [], ◌∷◌, Outcome, defined, take, drop, replicate}
use cpe464_fileserver.Packet.{seal, rrpkt, memset_packet, verifies, checksum_of, bytes_of}
use cpe464_fileserver.Net.{select_call, next_arrival, send}
use cpe464_fileserver.Client.{Client, recv_packet, write_to}
use cpe464_fileserver.Client.Recv.{recv_round, reply}
use cpe464_fileserver.Client.Run.{run, client_loop, client_step, client_exit}
use cpe464_fileserver.Server
use cpe464_fileserver.Server.{Server}
use cpe464_fileserver.Server.Child.{child, child_loop, child_step, child_exit}
use cpe464_fileserver.Server.Window.{
  data_packet, fill_round, fill_loop, fill_one, push_piece, send_round, send_all, wait_round, slide,
}
use cpe464_fileserver.Server.Window.Pieces.{piece_packet}
use cpe464_fileserver.Tests.World.{total, toy, receiver, sender}

what : Outcome (Client × ℕ) → List ℕ × ℕ
what (defined (c, k)) = (c.written, k)
what _ = ([], 77)

-- The client puts the pieces in order and returns 0.
client_runs : what (run toy receiver) ≡ (11 ∷ 12 ∷ 13 ∷ 14 ∷ 15 ∷ [], 0)
unfolding what run total take drop replicate piece_packet client_loop client_step recv_round
    recv_packet select_call next_arrival verifies checksum_of bytes_of data_packet seal write_to
    reply send client_exit
client_runs = refl

served : Outcome (Server × ℕ) → ℕ × ℕ
served (defined (s, k)) = (s.sequence, k)
served _ = (77, 77)

-- The server sends two pieces, two more when they are acknowledged, and gives up then.
server_runs : served (child toy sender) ≡ (4, 1)
unfolding served child total take drop replicate child_loop child_step child_exit fill_round
    fill_loop fill_one push_piece data_packet send_round send_all wait_round recv_packet select_call
    next_arrival verifies checksum_of bytes_of seal send Server.recv_packet rrpkt memset_packet
    slide
server_runs = refl
