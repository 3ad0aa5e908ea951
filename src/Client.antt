-- ===== src/Client.antt =====
-- Go Back N (UDP)/Client.h and Client.cpp: the client's state, its socket and its target file.
pub mod Init
pub mod Recv
pub mod Run
pub mod RecvPacket
use cpe464_fileserver.Base.{
  ℕ, ◌+◌, ◌-◌, ◌%◌, ◌^◌, Bool, true, false, List, [], ◌∷◌, ◌++◌, Option, none, some, if◌then◌else◌,
  ltb, ◌==◌, Outcome, defined, undefined, take,
}
use cpe464_fileserver.Platform.{Platform}
use cpe464_fileserver.Packet.{Packet, verifies, pkt_trnsmax, pkt_dmax}
use cpe464_fileserver.Net.{
  Channel, Arrival, next_arrival, select_call, Received, failed, rejected, accepted,
}

pub data State : Type 0 where
  init error done recv_packets : State

-- `peer` is the port that the client itself last stored in `mvAddr`, in network order; that
-- `recvfrom` stores the sender of a datagram there too is left out. `written` is the content of the file `mvTo`.
-- `socket_results` and `write_results` say whether the next calls of `socket` and `write` succeed;
-- all calls after the end of these lists do. `retries` is an `int` in the source: no method counts
-- it down at 0, so it is never negative.
pub record Client : Type 0 where
  pub from_name : List ℕ
  pub buffer_size : ℕ
  pub window_size : ℕ
  pub remote_port : ℕ
  pub peer : ℕ
  pub retries : ℕ
  pub sequence : ℕ
  pub state : State
  pub written : List ℕ
  pub socket_results : List Bool
  pub write_results : List Bool
  pub net : Channel

module _ (os : Platform) where
  socket_by : List Bool → Client → Option ℕ × Client
  socket_by [] c = (some (os.htons c.remote_port), c)
  socket_by (true ∷ more) c = (some (os.htons c.remote_port), record c { socket_results = more })
  socket_by (false ∷ more) c = (none, record c { socket_results = more })

  -- `GetSocket`: the port that it puts into the address, or `none` if there is no socket.
  unfoldable pub get_socket : Client → Option ℕ × Client
  unfolding socket_by
  get_socket c = socket_by c.socket_results c

  -- The constructor, with the arguments in their C types. `none` is the exception that it throws;
  -- `created` says whether `creat` succeeds.
  unfoldable pub construct :
      List ℕ → ℕ → ℕ → ℕ → Bool → List Bool → List Bool → Channel → Option Client
  unfolding get_socket
  construct from buffer_size window_size port created sockets writes net =
      elim (get_socket blank).0 [
        | none ↦ none
        | some address ↦
            if created then some (record (get_socket blank).1 { peer = address }) else none
      ]
    where
      blank : Client
      blank = record {
        from_name = from;
        buffer_size = buffer_size % 2 ^ 32;
        window_size = window_size % 2 ^ 32;
        remote_port = port % 2 ^ 16;
        peer = 0;
        retries = pkt_trnsmax;
        sequence = 0;
        state = init;
        written = [];
        socket_results = sockets;
        write_results = writes;
        net = net;
      }

  unfoldable pub receive : Option Packet → ℕ → Channel → Received × ℕ × Channel
  receive none retries net = (failed, retries, net)
  receive (some p) retries net =
      if verifies os p then (accepted p, retries, net) else (rejected, retries - 1, net)

  -- `recvPacket`, over the members that it changes: `mvRetries` and the socket.
  unfoldable pub recv_packet : ℕ → Channel → Received × ℕ × Channel
  unfolding receive
  recv_packet retries net =
      let (a, net') = next_arrival net in
      if select_call a.select == 0
      then (rejected, retries - 1, net')
      else receive a.datagram pkt_trnsmax net'

pub write_by : List Bool → List ℕ → Client → Bool × Client
write_by [] bytes c = (true, record c { written = c.written ++ bytes })
write_by (true ∷ more) bytes c =
    (true, record c { written = c.written ++ bytes; write_results = more })
write_by (false ∷ more) bytes c = (false, record c { write_results = more })

-- `writeTo`: whether `write` succeeds. With `size` above the length of `data` it reads outside the
-- packet.
unfoldable pub write_to : Packet → Client → Outcome (Bool × Client)
unfolding write_by
write_to p c =
    if ltb pkt_dmax p.size
    then undefined
    else defined (write_by c.write_results (take p.size p.payload) c)
