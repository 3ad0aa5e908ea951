-- ===== src/Client/Init/Completes.antt =====
-- Client.cpp, `init`: a handshake in which nothing is lost.
use cpe464_fileserver.Base.{
  ℕ, suc, ◌+◌, ◌*◌, ◌≤◌, ◌<◌, ◌≡◌, refl, ap, ◌∙◌, true, false, List, [], ◌∷◌, ◌++◌, append_assoc,
  Option, none, some, arith, length, get_elem?, lt→ltb, ltb, ◌==◌, if_false, Outcome, defined,
  ◌>>=◌,
}
use cpe464_fileserver.Platform.{Platform}
use cpe464_fileserver.Packet.{
  Packet, seal, verifies, memset_packet, pkt_trnsmax, pkt_dmax, rrpkt, rejpkt, pkt_type_cxn,
  pkt_type_cxn2,
}
use cpe464_fileserver.Packet.Seal.{verifies-seal}
use cpe464_fileserver.Net.{Arrival, send, next_arrival, select_call, brings, arrive}
use cpe464_fileserver.Client.{Client, State, recv_packets, recv_packet, receive, get_socket}
use cpe464_fileserver.Client.Init.{
  connect, switch_peer, on_reply, after_send, send_step, finish_init, follow, init_loop, fuel_of,
  client_init, handshake, connection_packet, stage_packet, buffer_packet, window_packet,
  name_packet,
}
use cpe464_fileserver.Server.Parent.{request_packet}
use cpe464_fileserver.Server.Init.Completes.{child_replies, to_child}

-- A client of which every call of `sendtoErr` and of `socket` succeeds.
abbrev pub client_at : Client → ℕ → List Arrival → List Packet → Client
client_at c retries l sent = record c {
  retries = retries;
  socket_results = [];
  net = record { arrivals = l; send_results = []; sent = sent };
}

module _ (os : Platform) where
  -- A round of the loop in which the reply `p` arrives.
  round_good :
      (fuel i : ℕ) (pkts : List Packet) (address : Option ℕ) (c : Client) (retries : ℕ)
      (l : List Arrival) (sent : List Packet) (pkt p : Packet)
      → ltb i 5 ≡ true
      → get_elem? pkts i ≡ some pkt
      → 0 < retries
      → verifies os p ≡ true
      → init_loop os (suc fuel) pkts i address (client_at c retries (brings p ∷ l) sent)
        ≡ follow
            (init_loop os fuel pkts)
            (on_reply os i pkt address p (client_at c pkt_trnsmax l (sent ++ (pkt ∷ []))))
  unfolding init_loop send_step recv_packet receive next_arrival select_call after_send send
  round_good fuel i pkts address c retries l sent pkt p small e r v =
      rw (small, lt→ltb 0 retries r, init_loop, e, v) refl

  -- What the client sends to the parent process, and the replies.
  abbrev pub to_parent : List Packet
  to_parent = connection_packet os ∷ stage_packet os ∷ []

  abbrev pub parent_replies : ℕ → List Packet
  parent_replies port = request_packet os 0 port ∷ rrpkt os 1 ∷ []

  -- The client after the handshake, which talks to the new port.
  abbrev pub connected : Client → ℕ → List Arrival → List Packet → Client
  connected c port l sent = record c {
    remote_port = os.htons port;
    peer = os.htons (os.htons port);
    sequence = 0;
    retries = pkt_trnsmax;
    socket_results = [];
    net = record { arrivals = l; send_results = []; sent = sent };
  }

  request_round :
      (fuel port : ℕ) (c : Client) (pkts : List Packet) (l : List Arrival) (sent : List Packet)
      → get_elem? pkts 0 ≡ some (connection_packet os)
      → init_loop os
          (suc fuel)
          pkts
          0
          none
          (client_at c pkt_trnsmax (brings (request_packet os 0 port) ∷ l) sent)
        ≡ init_loop os fuel pkts 1 (some (os.htons (os.htons port))) (
            client_at
              (record c { remote_port = os.htons port })
              pkt_trnsmax
              l
              (sent ++ (connection_packet os ∷ [])))
  unfolding on_reply connect follow get_socket request_packet connection_packet seal memset_packet
  request_round fuel port c pkts l sent e =
      round_good fuel 0 pkts none c pkt_trnsmax l sent (connection_packet os)
        (request_packet os 0 port) refl e (omega arith) (verifies-seal os _)

  stage_round :
      (fuel address : ℕ) (c : Client) (pkts : List Packet) (l : List Arrival) (sent : List Packet)
      → get_elem? pkts 1 ≡ some (stage_packet os)
      → init_loop os
          (suc fuel)
          pkts
          1
          (some address)
          (client_at c pkt_trnsmax (brings (rrpkt os 1) ∷ l) sent)
        ≡ init_loop os fuel pkts 2
            (some address)
            (client_at (record c { peer = address }) pkt_trnsmax l (sent ++ (stage_packet os ∷ [])))
  unfolding on_reply switch_peer follow rrpkt stage_packet seal memset_packet
  stage_round fuel address c pkts l sent e =
      round_good fuel 1 pkts (some address) c pkt_trnsmax l sent (stage_packet os) (rrpkt os 1) refl
        e (omega arith) (verifies-seal os _)

  -- The child process asks for number 1 again.
  rejected_round :
      (fuel address b : ℕ) (c : Client) (pkts : List Packet) (l : List Arrival) (sent : List Packet)
      → get_elem? pkts 2 ≡ some (buffer_packet os b)
      → init_loop os
          (suc fuel)
          pkts
          2
          (some address)
          (client_at c pkt_trnsmax (brings (rejpkt os 1) ∷ l) sent)
        ≡ init_loop os fuel pkts 1
            (some address)
            (client_at c pkt_trnsmax l (sent ++ (buffer_packet os b ∷ [])))
  unfolding on_reply follow rejpkt seal memset_packet
  rejected_round fuel address b c pkts l sent e =
      round_good fuel 2 pkts (some address) c pkt_trnsmax l sent (buffer_packet os b) (rejpkt os 1)
        refl e (omega arith) (verifies-seal os _)

  -- A setting is acknowledged.
  setting_round :
      (fuel i address : ℕ) (pkt : Packet) (c : Client) (pkts : List Packet) (l : List Arrival)
      (sent : List Packet)
      → ltb i 5 ≡ true
      → get_elem? pkts i ≡ some pkt
      → (pkt.type == pkt_type_cxn) ≡ false
      → (pkt.type == pkt_type_cxn2) ≡ false
      → init_loop os
          (suc fuel)
          pkts
          i
          (some address)
          (client_at c pkt_trnsmax (brings (rrpkt os i) ∷ l) sent)
        ≡ init_loop os fuel pkts
            (i + 1)
            (some address)
            (client_at c pkt_trnsmax l (sent ++ (pkt ∷ [])))
  unfolding on_reply follow rrpkt seal memset_packet
  setting_round fuel i address pkt c pkts l sent small e no_cxn no_cxn2 =
      round_good fuel i pkts (some address) c pkt_trnsmax l sent pkt (rrpkt os i) small e
        (omega arith) (verifies-seal os _)
      ∙ rw (same, no_cxn, no_cxn2) refl
    where
      same : (i == i) ≡ true
      same = ground arith

  -- If the replies of the parent process, with the port of a new socket, and those of a child process
  -- arrive in order, and calls of `sendtoErr` and `socket` succeed, then `init` of a client with all
  -- retries, whose file name fits into a packet, returns RECV_PACKETS, the client talks to the new
  -- port, and it has sent seven packets.
  pub client_init_completes :
      (c : Client) (port : ℕ) (l : List Arrival) (sent : List Packet)
      → length c.from_name + 1 ≤ pkt_dmax
      → client_init os
          (client_at c pkt_trnsmax (arrive (parent_replies port ++ child_replies os) l) sent)
        ≡ defined (
          recv_packets,
          connected c port l
              (sent ++ (to_parent ++ to_child os c.buffer_size c.window_size c.from_name)),
        )
  unfolding client_init handshake
  client_init_completes c port l sent fits =
      ap (λ o. o >>= loop) (if_false (ltb pkt_dmax (length c.from_name + 1)) _ _ (ground arith))
      ∙ ap
          (λ n.
            init_loop os n pkts 0 none
              (client_at c pkt_trnsmax (arrive (parent_replies port ++ child_replies os) l) sent))
          {y = suc (suc (suc (suc (suc (suc (suc (suc k)))))))} (omega arith)
      ∙ request_round (suc (suc (suc (suc (suc (suc (suc k))))))) port c pkts _ sent refl
      ∙ stage_round (suc (suc (suc (suc (suc (suc k)))))) at dialled pkts _ _ refl
      ∙ rejected_round (suc (suc (suc (suc (suc k))))) at c.buffer_size moved pkts _ _ refl
      ∙ stage_round (suc (suc (suc (suc k)))) at moved pkts _ _ refl
      ∙ setting_round (suc (suc (suc k))) 2 at _ moved pkts _ _ refl refl
          (unfold buffer_packet seal memset_packet in refl)
          (unfold buffer_packet seal memset_packet in refl)
      ∙ setting_round (suc (suc k)) 3 at _ moved pkts _ _ refl refl
          (unfold window_packet seal memset_packet in refl)
          (unfold window_packet seal memset_packet in refl)
      ∙ setting_round (suc k) 4 at _ moved pkts _ _ refl refl
          (unfold name_packet seal memset_packet in refl)
          (unfold name_packet seal memset_packet in refl)
      ∙ (unfold init_loop finish_init in refl)
      ∙ ap (λ r. defined (recv_packets, connected c port l r)) (simp (append_assoc))
    where
      at : ℕ
      at = os.htons (os.htons port)

      dialled : Client
      dialled = record c { remote_port = os.htons port }

      moved : Client
      moved = record c { remote_port = os.htons port; peer = at }

      k : ℕ
      k = 80 + 11 * length l

      pkts : List Packet
      pkts =
          connection_packet os
          ∷ stage_packet os
          ∷ buffer_packet os c.buffer_size
          ∷ window_packet os c.window_size
          ∷ name_packet os c.from_name
          ∷ []

      loop : List Packet → Outcome (State × Client)
      loop ps =
          init_loop os
            (fuel_of
              (client_at c pkt_trnsmax (arrive (parent_replies port ++ child_replies os) l) sent))
            ps 0 none
            (client_at c pkt_trnsmax (arrive (parent_replies port ++ child_replies os) l) sent)
