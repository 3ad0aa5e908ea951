-- ===== src/Server/Receive.antt =====
-- `recvPacket` of the server and of the client.
use cpe464_fileserver.Base.{ℕ, ◌≡◌, refl, Option, none, some, arith}
use cpe464_fileserver.Platform.{Platform}
use cpe464_fileserver.Packet.{Packet, pkt_trnsmax}
use cpe464_fileserver.Net.{Channel, next_arrival}
use cpe464_fileserver.Client
use cpe464_fileserver.Server.{recv_packet, receive}

module _ (os : Platform) where
  receive-same :
      (d : Option Packet) (retries : ℕ) (net : Channel)
      → receive os d retries net ≡ Client.receive os d retries net
  unfolding receive Client.receive
  receive-same none retries net = refl
  receive-same (some p) retries net = refl

  -- The server and the client receive alike, though one tests the result of `select_call` by `<= 0`
  -- and the other by `== 0`.
  pub recv_packet-same :
      (retries : ℕ) (net : Channel) → recv_packet os retries net ≡ Client.recv_packet os retries net
  unfolding recv_packet Client.recv_packet
  recv_packet-same retries net =
      ground (arith, receive-same (next_arrival net).0.datagram pkt_trnsmax (next_arrival net).1)
