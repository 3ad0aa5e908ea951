-- ===== src/Server/Init/Completes.antt =====
-- Server.cpp, `init`: the packets of a client that has the right number of each.
use cpe464_fileserver.Base.{
  ℕ, suc, ◌+◌, ◌*◌, ◌%◌, ◌^◌, ◌<◌, ◌≡◌, refl, ap, ◌∙◌, true, false, List, [], ◌∷◌, ◌++◌,
  append_assoc, some, arith, length, All, ◌≢◌, lt→ltb, ◌==◌, Outcome, defined, ◌>>=◌,
}
use cpe464_fileserver.Platform.{Platform}
use cpe464_fileserver.Packet.{Packet, seal, verifies, memset_packet, pkt_trnsmax, rrpkt, rejpkt}
use cpe464_fileserver.Packet.Seal.{verifies-seal}
use cpe464_fileserver.Net.{Arrival, send, next_arrival, select_call, arrive, brings}
use cpe464_fileserver.Server.{Server, State, fill_window, recv_packet, receive}
use cpe464_fileserver.Server.Init.{
  Flags, c_string, apply_setting, transmit, follow, wanting, no_flags, take_setting, respond,
  finish_init, init_loop, server_init,
}
use cpe464_fileserver.Client.Init.{stage_packet, buffer_packet, window_packet, name_packet}

-- The string before the first 0 byte.
c_string-append :
    (s rest : List ℕ) → All (λ byte. byte ≢ 0) s → c_string (s ++ (0 ∷ rest)) ≡ defined s
unfolding c_string
c_string-append [] rest a = refl
c_string-append (x ∷ s) rest a =
    let h : (x == 0) ≡ false = ground (arith, a.0) in rw (h, c_string-append s rest a.1) refl

-- A server of which every call of `sendtoErr` succeeds.
abbrev pub server_at : Server → ℕ → ℕ → List Arrival → List Packet → Server
server_at s q retries l sent = record s {
  sequence = q;
  retries = retries;
  net = record { arrivals = l; send_results = []; sent = sent };
}

module _ (os : Platform) where
  -- A round of the loop in which a packet with a good checksum arrives.
  round_good :
      (fuel : ℕ) (f : Flags) (s : Server) (q retries : ℕ) (l : List Arrival) (sent : List Packet)
      (p : Packet)
      → wanting f ≡ true
      → 0 < retries
      → verifies os p ≡ true
      → init_loop os (suc fuel) f (server_at s q retries (brings p ∷ l) sent)
        ≡ follow (init_loop os fuel) (take_setting os p f (server_at s q pkt_trnsmax l sent))
  unfolding init_loop recv_packet receive next_arrival select_call respond
  round_good fuel f s q retries l sent p w r v = rw (w, lt→ltb 0 retries r, init_loop, v) refl

  -- The replies of a child process to a whole handshake.
  abbrev pub child_replies : List Packet
  child_replies = rejpkt os 1 ∷ rrpkt os 1 ∷ rrpkt os 2 ∷ rrpkt os 3 ∷ rrpkt os 4 ∷ []

  -- What the client sends to the child process: it is rejected once, as the child waits for number
  -- 1, and starts again there.
  abbrev pub to_child : ℕ → ℕ → List ℕ → List Packet
  to_child b w name =
      buffer_packet os b
      ∷ stage_packet os
      ∷ buffer_packet os b
      ∷ window_packet os w
      ∷ name_packet os name
      ∷ []

  rejected_round :
      (fuel : ℕ) (s : Server) (b : ℕ) (l : List Arrival) (sent : List Packet)
      → init_loop os
          (suc fuel)
          no_flags
          (server_at s 1 pkt_trnsmax (brings (buffer_packet os b) ∷ l) sent)
        ≡ init_loop os fuel no_flags (server_at s 1 9 l (sent ++ (rejpkt os 1 ∷ [])))
  unfolding take_setting follow transmit buffer_packet memset_packet seal send wanting
  rejected_round fuel s b l sent =
      round_good fuel no_flags s 1 pkt_trnsmax l sent (buffer_packet os b) refl (omega arith)
        (verifies-seal os _)

  stage_round :
      (fuel : ℕ) (s : Server) (l : List Arrival) (sent : List Packet)
      → init_loop os (suc fuel) no_flags (server_at s 1 9 (brings (stage_packet os) ∷ l) sent)
        ≡ init_loop os fuel no_flags (server_at s 2 pkt_trnsmax l (sent ++ (rrpkt os 1 ∷ [])))
  unfolding take_setting apply_setting follow transmit stage_packet memset_packet seal send wanting
  stage_round fuel s l sent =
      round_good fuel no_flags s 1 9 l sent (stage_packet os) refl (omega arith)
        (verifies-seal os _)

  buffer_round :
      (fuel : ℕ) (s : Server) (b : ℕ) (l : List Arrival) (sent : List Packet)
      → init_loop os
          (suc fuel)
          no_flags
          (server_at s 2 pkt_trnsmax (brings (buffer_packet os b) ∷ l) sent)
        ≡ init_loop os fuel
            (record no_flags { buffer_set = true })
            (server_at
              (record s { buffer_size = b % 2 ^ 16 })
              3
              pkt_trnsmax
              l
              (sent ++ (rrpkt os 2 ∷ [])))
  unfolding take_setting apply_setting follow transmit buffer_packet memset_packet seal send wanting
  buffer_round fuel s b l sent =
      round_good fuel no_flags s 2 pkt_trnsmax l sent (buffer_packet os b) refl (omega arith)
        (verifies-seal os _)

  window_round :
      (fuel : ℕ) (s : Server) (w : ℕ) (l : List Arrival) (sent : List Packet)
      → init_loop os
          (suc fuel)
          (record no_flags { buffer_set = true })
          (server_at s 3 pkt_trnsmax (brings (window_packet os w) ∷ l) sent)
        ≡ init_loop os fuel
            (record no_flags { buffer_set = true; window_set = true })
            (server_at
              (record s { window_size = w % 2 ^ 16 })
              4
              pkt_trnsmax
              l
              (sent ++ (rrpkt os 3 ∷ [])))
  unfolding take_setting apply_setting follow transmit window_packet memset_packet seal send wanting
  window_round fuel s w l sent =
      round_good fuel (record no_flags { buffer_set = true }) s 3 pkt_trnsmax l sent
        (window_packet os w) refl (omega arith) (verifies-seal os _)

  name_round :
      (fuel : ℕ) (s : Server) (name : List ℕ) (l : List Arrival) (sent : List Packet)
      → All (λ byte. byte ≢ 0) name
      → init_loop os
          (suc fuel)
          (record no_flags { buffer_set = true; window_set = true })
          (server_at s 4 pkt_trnsmax (brings (name_packet os name) ∷ l) sent)
        ≡ init_loop os fuel
            (record { buffer_set = true; window_set = true; name_set = true })
            (server_at (record s { from_name = name }) 5 pkt_trnsmax l (sent ++ (rrpkt os 4 ∷ [])))
  unfolding take_setting apply_setting follow transmit name_packet memset_packet seal send wanting
  name_round fuel s name l sent a =
      round_good fuel f s 4 pkt_trnsmax l sent (name_packet os name) refl (omega arith)
        (verifies-seal os _)
      ∙ ap taken (c_string-append name _ a)
    where
      f : Flags
      f = record no_flags { buffer_set = true; window_set = true }

      named : List ℕ → Outcome (Flags × Server)
      named n = defined (
        record f { name_set = true },
        record (server_at s 5 pkt_trnsmax l sent) { from_name = n },
      )

      taken : Outcome (List ℕ) → Outcome (State × Server)
      taken o =
          follow (init_loop os fuel) (o >>= named >>= λ r. defined (transmit (rrpkt os 4) r.0 r.1))

  -- The server after the handshake.
  abbrev pub served_at : Server → ℕ → ℕ → ℕ → List ℕ → List Arrival → List Packet → Server
  served_at s fd b w name l sent = record s {
    from = fd;
    position = 0;
    from_name = name;
    buffer_size = b % 2 ^ 16;
    window_size = w % 2 ^ 16;
    sequence = 0;
    retries = pkt_trnsmax;
    net = record { arrivals = l; send_results = []; sent = sent };
  }

  finished :
      (fuel : ℕ) (s : Server) (fd : ℕ) (l : List Arrival) (sent : List Packet)
      → os.open_rdonly s.from_name ≡ some fd
      → init_loop os
          (suc fuel)
          (record { buffer_set = true; window_set = true; name_set = true })
          (server_at s 5 pkt_trnsmax l sent)
        ≡ defined
            (fill_window, record (server_at s 0 pkt_trnsmax l sent) { from = fd; position = 0 })
  unfolding init_loop wanting finish_init
  finished fuel s fd l sent e = rw e refl

  -- Let a child process wait in `init` with sequence number 1 and all retries, and let its calls of
  -- `sendtoErr` succeed. If the packets of a client arrive in the order in which the client sends
  -- them, the buffer size coming once too early, and the file can be opened, then `init` returns
  -- FILL_WINDOW with the settings of the client, and has sent one REJ and four RRs.
  pub server_init_completes :
      (s : Server) (b w fd : ℕ) (name : List ℕ) (l : List Arrival) (sent : List Packet)
      → All (λ byte. byte ≢ 0) name
      → os.open_rdonly name ≡ some fd
      → server_init os (server_at s 1 pkt_trnsmax (arrive (to_child b w name) l) sent)
        ≡ defined (fill_window, served_at s fd b w name l (sent ++ child_replies))
  unfolding server_init
  server_init_completes s b w fd name l sent a e =
      ap
        (λ n.
          init_loop os n no_flags (server_at s 1 pkt_trnsmax (arrive (to_child b w name) l) sent))
        {y = suc (suc (suc (suc (suc (suc k)))))} (omega arith)
      ∙ rejected_round (suc (suc (suc (suc (suc k))))) s b _ sent
      ∙ stage_round (suc (suc (suc (suc k)))) s _ _
      ∙ buffer_round (suc (suc (suc k))) s b _ _
      ∙ window_round (suc (suc k)) (record s { buffer_size = b % 2 ^ 16 }) w _ _
      ∙ name_round (suc k) (record s { buffer_size = b % 2 ^ 16; window_size = w % 2 ^ 16 }) name l
          _ a
      ∙ finished k
          (record s { buffer_size = b % 2 ^ 16; window_size = w % 2 ^ 16; from_name = name }) fd l _
          e
      ∙ ap (λ r. defined (fill_window, served_at s fd b w name l r)) (simp (append_assoc))
    where
      k : ℕ
      k = 60 + 11 * length l
