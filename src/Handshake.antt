-- ===== src/Handshake.antt =====
-- Go Back N (UDP): the handshake of a client with the parent process and a child process.
use cpe464_fileserver.Base.{
  ℕ, ◌+◌, ◌^◌, ◌≤◌, ◌<◌, ◌≡◌, ◌∙◌, ap, ap₂, arith, ◌≢◌, List, [], ◌∷◌, ◌++◌, Option, some, All,
  length, defined,
}
use cpe464_fileserver.Platform.{Platform}
use cpe464_fileserver.Packet.{Packet, pkt_trnsmax, pkt_dmax}
use cpe464_fileserver.Net.{Arrival, arrive}
use cpe464_fileserver.Client.{Client, recv_packets}
use cpe464_fileserver.Client.Init.{client_init}
use cpe464_fileserver.Client.Init.Completes.{
  client_at, to_parent, parent_replies, connected, client_init_completes,
}
use cpe464_fileserver.Server.{Server, fill_window}
use cpe464_fileserver.Server.Init.{server_init}
use cpe464_fileserver.Server.Init.Completes.{
  server_at, to_child, child_replies, served_at, server_init_completes,
}
use cpe464_fileserver.Server.Parent.{Parent, parent_run}
use cpe464_fileserver.Server.Parent.Connects.{parent_at, parent_after, parent_connects}

-- The packets as the results of `recvfrom`.
abbrev pub received : List Packet → List (Option Packet)
received [] = []
received (p ∷ more) = some p ∷ received more

module _ (os : Platform) where
  -- The client after the handshake: it talks to the new port.
  abbrev pub talking : Client → ℕ → List Arrival → Client
  talking c port l =
      record (connected os c port l
        (to_parent os ++ to_child os c.buffer_size c.window_size c.from_name)) { peer = port }

  -- The child process after the handshake: it has the settings of the client.
  abbrev pub serves_for : Server → Client → ℕ → List Arrival → Server
  serves_for child c fd m = record (served_at os child fd 0 0 c.from_name m (child_replies os)) {
    buffer_size = c.buffer_size;
    window_size = c.window_size;
  }

  -- A handshake in which each process receives what the others send it, in order, and no call fails:
  -- the client sends `to_parent` and then `to_child`, the parent process answers the first with
  -- `parent_replies`, and a child that waits with number 1 answers the second with `child_replies`.
  -- Let `htons` be its own inverse on 16 bits, let the buffer size, the window size and the port of
  -- the parent's next socket have 16 bits, and let the file name have no 0 byte, fit into a packet
  -- and be one that can be opened. Then the parent has forked a child with that port, the client ends
  -- `init` in RECV_PACKETS and talks to that port, and the child ends `init` in FILL_WINDOW with the
  -- client's buffer size, window size and file name.
  pub handshake_completes :
      (s : Parent) (child : Server) (c : Client) (port fd : ℕ) (l m : List Arrival)
      → ((n : ℕ) → n < 2 ^ 16 → os.htons (os.htons n) ≡ n)
      → port < 2 ^ 16
      → c.buffer_size < 2 ^ 16
      → c.window_size < 2 ^ 16
      → length c.from_name + 1 ≤ pkt_dmax
      → All (λ byte. byte ≢ 0) c.from_name
      → os.open_rdonly c.from_name ≡ some fd
      → (parent_run os (received (to_parent os)) (parent_at s port [])
          ≡ defined (parent_after os s port []))
        × (client_init os
              (client_at c pkt_trnsmax (arrive (parent_replies os port ++ child_replies os) l) [])
            ≡ defined (recv_packets, talking c port l))
        × (server_init os (
              server_at child 1 pkt_trnsmax
                (arrive (to_child os c.buffer_size c.window_size c.from_name) m)
                [])
            ≡ defined (fill_window, serves_for child c fd m))
  handshake_completes s child c port fd l m swaps short b w fits name e = (
    parent_connects os s port [],
    client_init_completes os c port l [] fits
        ∙ ap (λ k. defined (recv_packets, record (talking c port l) { peer = k }))
            (swaps port short),
    server_init_completes os child c.buffer_size c.window_size fd c.from_name m [] name e
        ∙ ap₂
            (λ x y.
              defined (
                fill_window,
                record (serves_for child c fd m) { buffer_size = x; window_size = y },
              ))
            (omega (arith, b)) (omega (arith, w)),
  )
