-- ===== src/Server/Window/Answers.antt =====
-- Server.cpp, `waitRR`: each kind of answer, for a window of pieces.
use cpe464_fileserver.Base.{
  ℕ, suc, ◌+◌, ◌*◌, ◌-◌, ◌%◌, ◌^◌, ◌≤◌, ◌<◌, ◌≡◌, ap, ap₂, ◌∙◌, true, false, List, [], ◌∷◌, arith,
  length, leb, if_true, if_false, le→leb, defined,
}
use cpe464_fileserver.Platform.{Platform, IsFile}
use cpe464_fileserver.Packet.{Packet, pkt_trnsmax, rrpkt, rejpkt, seal, verifies, memset_packet}
use cpe464_fileserver.Packet.Seal.{verifies-seal}
use cpe464_fileserver.Net.{Arrival, brings, next_arrival, select_call}
use cpe464_fileserver.Server.{Server, State, fill_window, wait_rr, recv_packet, receive}
use cpe464_fileserver.Server.Window.{
  data_packet, rewind, on_packet, at_front, on_received, wait_round,
}
use cpe464_fileserver.Server.Window.Lossless.{serving_at, place}
use cpe464_fileserver.Server.Window.Pieces.{piece_packet, pieces, slide-pieces}

module _ (os : Platform) (content : List ℕ) (b w : ℕ) (s : Server)
    (file : IsFile os s.from content) where
  abbrev at : State → ℕ → ℕ → List Packet → List Arrival → List Packet → List Packet → Server
  at = serving_at os content b w s

  -- A packet with a good checksum gets to the `switch`, and the retries are set back.
  switched :
      (st : State) (q r base v : ℕ) (p : Packet) (l : List Arrival) (sent out : List Packet)
      → verifies os p ≡ true
      → wait_round os (at st q r (pieces os content b base (suc v)) (brings p ∷ l) sent out)
        ≡ defined (
            on_packet os p
              (piece_packet os content b base)
              (at st q pkt_trnsmax (pieces os content b base (suc v)) l sent out))
  unfolding wait_round on_received at_front recv_packet receive next_arrival select_call pieces
  switched st q r base v p l sent out good =
      ap
        (λ x.
          on_received os x (at st q r (pieces os content b base (suc v)) (brings p ∷ l) sent out))
        (if_true (verifies os p) _ _ good)

  rr_good : (k : ℕ) → verifies os (rrpkt os k) ≡ true
  unfolding rrpkt
  rr_good k = verifies-seal os _

  rej_good : (k : ℕ) → verifies os (rejpkt os k) ≡ true
  unfolding rejpkt
  rej_good k = verifies-seal os _

  pub wait_advance :
      (st : State) (q r base v k : ℕ) (l : List Arrival) (sent out : List Packet)
      → base ≤ k
      → k < base + suc v
      → base + suc v < 2 ^ 32
      → wait_round os
          (at st q r (pieces os content b base (suc v)) (brings (rrpkt os k) ∷ l) sent out)
        ≡ defined (
          fill_window,
          at st q pkt_trnsmax (pieces os content b (k + 1) (base + suc v - (k + 1))) l sent out,
        )
  unfolding on_packet rrpkt seal memset_packet piece_packet data_packet
  wait_advance st q r base v k l sent out h less small =
      switched st q r base v (rrpkt os k) l sent out (rr_good k)
      ∙ ap defined (if_true (leb base k) _ _ (le→leb base k h))
      ∙ ap (λ x. defined (fill_window, at st q pkt_trnsmax x l sent out))
          (slide-pieces os content b base (suc v) k small
            ∙ ap₂ (pieces os content b) (omega arith) (omega arith))

  pub wait_stale :
      (st : State) (q r base v k : ℕ) (l : List Arrival) (sent out : List Packet)
      → k < base
      → wait_round os
          (at st q r (pieces os content b base (suc v)) (brings (rrpkt os k) ∷ l) sent out)
        ≡ defined (wait_rr, at st q pkt_trnsmax (pieces os content b base (suc v)) l sent out)
  unfolding on_packet rrpkt seal memset_packet piece_packet data_packet
  wait_stale st q r base v k l sent out less =
      switched st q r base v (rrpkt os k) l sent out (rr_good k)
      ∙ ap defined (if_false (leb base k) _ _ (ground (arith, less)))

  pub wait_repeat :
      (st : State) (q r base v k : ℕ) (l : List Arrival) (sent out : List Packet)
      → base ≤ k
      → wait_round os
          (at st q r (pieces os content b base (suc v)) (brings (rejpkt os k) ∷ l) sent out)
        ≡ defined (
          fill_window,
          at st q pkt_trnsmax
              (pieces os content b base (suc v))
              l
              sent
              (pieces os content b base (suc v)),
        )
  unfolding on_packet rejpkt seal memset_packet piece_packet data_packet
  wait_repeat st q r base v k l sent out h =
      switched st q r base v (rejpkt os k) l sent out (rej_good k)
      ∙ ap defined (if_true (leb base k) _ _ (le→leb base k h))

  pub wait_back :
      (st : State) (q r base v k : ℕ) (l : List Arrival) (sent out : List Packet)
      → k < base
      → b * k ≤ length content
      → b * k < 2 ^ 32
      → wait_round os
          (at st q r (pieces os content b base (suc v)) (brings (rejpkt os k) ∷ l) sent out)
        ≡ defined (fill_window, at st k pkt_trnsmax [] l sent [])
  unfolding on_packet rejpkt seal memset_packet piece_packet data_packet rewind
  wait_back st q r base v k l sent out less within small =
      switched st q r base v (rejpkt os k) l sent out (rej_good k)
      ∙ ap defined (
          if_false (leb base k) _ _ (ground (arith, less))
          ∙ if_true (os.lseek_set s.from ((b * k) % 2 ^ 32)) _ _ (file.seeks _))
      ∙ ap (λ n. defined (fill_window, record (at st k pkt_trnsmax [] l sent []) { position = n }))
          {x = (b * k) % 2 ^ 32} {y = place os content b w k} (omega arith)

  pub wait_damaged :
      (st : State) (q r : ℕ) (p : Packet) (window : List Packet) (l : List Arrival)
      (sent out : List Packet)
      → verifies os p ≡ false
      → wait_round os (at st q r window (brings p ∷ l) sent out)
        ≡ defined (fill_window, at st q 9 window l sent out)
  unfolding wait_round on_received recv_packet receive next_arrival select_call
  wait_damaged st q r p window l sent out bad =
      ap (λ x. on_received os x (at st q r window (brings p ∷ l) sent out))
        (if_false (verifies os p) _ _ bad)

  pub wait_timeout :
      (st : State) (q r : ℕ) (a : Arrival) (window : List Packet) (l : List Arrival)
      (sent out : List Packet)
      → select_call a.select ≡ 0
      → wait_round os (at st q (suc r) window (a ∷ l) sent out)
        ≡ defined (fill_window, at st q r window l sent out)
  unfolding wait_round on_received recv_packet next_arrival
  wait_timeout st q r a window l sent out quiet =
      ap (λ x. on_received os x (at st q (suc r) window (a ∷ l) sent out))
        (if_true (leb (select_call a.select) 0) _ _ (ground (arith, quiet)))
      ∙ ap (λ k. defined (fill_window, at st q k window l sent out)) {x = suc r - 1} {y = r}
          (omega arith)
