-- ===== src/Server.antt =====
-- Go Back N (UDP)/Server.h and Server.cpp: the state of a child process, and how it receives.
pub mod Init
pub mod Window
pub mod Child
pub mod Receive
pub mod Parent
use cpe464_fileserver.Base.{ℕ, ◌-◌, List, Option, none, some, if◌then◌else◌, leb}
use cpe464_fileserver.Platform.{Platform}
use cpe464_fileserver.Packet.{Packet, verifies, pkt_trnsmax}
use cpe464_fileserver.Net.{Channel, next_arrival, select_call, Received, failed, rejected, accepted}

pub data State : Type 0 where
  init error done fill_window send_window wait_rr : State

-- `from` is the descriptor `mvFrom`, and `position` the place in the file at which it reads next.
-- `retries` is an `int` in the source: no method counts it down at 0, so it is never negative.
-- The peer's address, `mvInitialized` and `mvErrorPercent` play no part in the transfer.
pub record Server : Type 0 where
  pub from : ℕ
  pub position : ℕ
  pub from_name : List ℕ
  pub buffer_size : ℕ
  pub window_size : ℕ
  pub window : List Packet
  pub out_buf : List Packet
  pub sequence : ℕ
  pub retries : ℕ
  pub state : State
  pub net : Channel

module _ (os : Platform) where
  unfoldable pub receive : Option Packet → ℕ → Channel → Received × ℕ × Channel
  receive none retries net = (failed, retries, net)
  receive (some p) retries net =
      if verifies os p then (accepted p, retries, net) else (rejected, retries - 1, net)

  -- `recvPacket`, over the members that it changes: `mvRetries` and the socket.
  unfoldable pub recv_packet : ℕ → Channel → Received × ℕ × Channel
  unfolding receive
  recv_packet retries net =
      let (a, net') = next_arrival net in
      if leb (select_call a.select) 0
      then (rejected, retries - 1, net')
      else receive a.datagram pkt_trnsmax net'
