-- ===== src/Client/Run/Recovers.antt =====
-- Client.cpp, `Run`: a transfer in which packets are lost, repeated, reordered and damaged.
use cpe464_fileserver.Base.{
  ℕ, zero, suc, ◌+◌, ◌-◌, ◌*◌, ◌^◌, ◌≤◌, ◌<◌, ◌≡◌, refl, sym, ap, subst, ◌∙◌, ◌⊎◌, inl, inr, true,
  false, List, [], ◌∷◌, ◌++◌, append-nil, append_assoc, arith, length, take, ltb, leb, ◌==◌, lt→ltb,
  defined, ◌>>=◌, Returns, Returns->>=,
}
use cpe464_fileserver.Platform.{Platform}
use cpe464_fileserver.Packet.{Packet, verifies, pkt_dmax, pkt_trnsmax, rrpkt, rejpkt}
use cpe464_fileserver.File.{piece, length-piece, last_piece, take-suc_pieces, take-zero}
use cpe464_fileserver.Net.{Arrival, brings, send, next_arrival, select_call}
use cpe464_fileserver.Server.Window.Serving.{mul_mono}
use cpe464_fileserver.Server.Window.Pieces.{piece_packet, sequence-piece_packet}
use cpe464_fileserver.Client.{Client, done, recv_packets, recv_packet, receive}
use cpe464_fileserver.Client.Recv.{recv_round, accept, reply}
use cpe464_fileserver.Client.Run.{
  running, store_state, dispatch, client_step, client_loop, client_exit, exit_by,
}
use cpe464_fileserver.Client.Run.Rounds.{transfer_at, round_piece, piece_packet-verifies, exit_done}

-- What may arrive while the client, with retries left, waits for piece number `q`, after which `n`
-- more follow, and the packets by which it answers: the pieces from `q` on, in this order, and among
-- them any number of earlier and later pieces and of packets with a bad checksum, and fewer timeouts
-- in a row than there are retries; after the last piece anything.
pub data Reaches (os : Platform) (content : List ℕ) (b : ℕ)
    : ℕ → ℕ → ℕ → List Arrival → List Packet → Type 0 where
  last :
      (q r : ℕ) (l : List Arrival)
      → Reaches os content b q 0 (suc r) (brings (piece_packet os content b q) ∷ l) []
  due :
      (q n r : ℕ) {l : List Arrival} {out : List Packet}
      → Reaches os content b (q + 1) n pkt_trnsmax l out
      → Reaches os content b q
          (suc n)
          (suc r)
          (brings (piece_packet os content b q) ∷ l)
          (rrpkt os q ∷ out)
  old :
      (q n r k : ℕ) {l : List Arrival} {out : List Packet}
      → k < q
      → Reaches os content b q n pkt_trnsmax l out
      → Reaches os content b q n
          (suc r)
          (brings (piece_packet os content b k) ∷ l)
          (rrpkt os k ∷ out)
  early :
      (q n r k : ℕ) {l : List Arrival} {out : List Packet}
      → q < k
      → Reaches os content b q n pkt_trnsmax l out
      → Reaches os content b q n
          (suc r)
          (brings (piece_packet os content b k) ∷ l)
          (rejpkt os q ∷ out)
  damaged :
      (q n r : ℕ) (p : Packet) {l : List Arrival} {out : List Packet}
      → verifies os p ≡ false
      → Reaches os content b q n 9 l out
      → Reaches os content b q n (suc r) (brings p ∷ l) (rejpkt os q ∷ out)
  timeout :
      (q n r : ℕ) (a : Arrival) {l : List Arrival} {out : List Packet}
      → select_call a.select ≡ 0
      → Reaches os content b q n r l out
      → Reaches os content b q n (suc r) (a ∷ l) (rejpkt os q ∷ out)

module _ (os : Platform) (content : List ℕ) (b : ℕ) (fits : b ≤ pkt_dmax) where
  round_other :
      (c : Client) (q r : ℕ) (p reply_packet : Packet) (w : List ℕ) (l : List Arrival)
      (sent : List Packet)
      → verifies os p ≡ true
      → ((p.sequence < q) × (reply_packet ≡ rrpkt os p.sequence))
        ⊎ ((q < p.sequence) × (reply_packet ≡ rejpkt os q))
      → recv_round os (transfer_at c b q r w (brings p ∷ l) sent)
        ≡ defined (recv_packets, transfer_at c b q pkt_trnsmax w l (sent ++ (reply_packet ∷ [])))
  unfolding recv_round recv_packet next_arrival select_call receive accept reply send
  round_other c q r p reply_packet w l sent v (inl (h, e)) =
      let due : leb p.sequence q ≡ true = ground arith in
      let now : (p.sequence == q) ≡ false = ground arith in rw (v, due, now, e) refl
  round_other c q r p reply_packet w l sent v (inr (h, e)) =
      let later : leb p.sequence q ≡ false = ground arith in rw (v, later, e) refl

  round_damaged :
      (c : Client) (q r : ℕ) (p : Packet) (w : List ℕ) (l : List Arrival) (sent : List Packet)
      → verifies os p ≡ false
      → recv_round os (transfer_at c b q r w (brings p ∷ l) sent)
        ≡ defined (recv_packets, transfer_at c b q 9 w l (sent ++ (rejpkt os q ∷ [])))
  unfolding recv_round recv_packet next_arrival select_call receive reply send
  round_damaged c q r p w l sent bad = rw bad refl

  round_timeout :
      (c : Client) (q r : ℕ) (a : Arrival) (w : List ℕ) (l : List Arrival) (sent : List Packet)
      → select_call a.select ≡ 0
      → recv_round os (transfer_at c b q (suc r) w (a ∷ l) sent)
        ≡ defined (recv_packets, transfer_at c b q r w l (sent ++ (rejpkt os q ∷ [])))
  unfolding recv_round recv_packet next_arrival reply send
  round_timeout c q r a w l sent quiet =
      let one : suc r - 1 ≡ r = omega arith in rw (quiet, one) refl

  -- The client has the whole file, and has answered by these packets.
  IsOver : List Packet → Client → Type 0
  IsOver sent d = (d.state ≡ done) × (0 < d.retries) × (d.written ≡ content) × (d.net.sent ≡ sent)

  -- One more round of the loop, in which `x` is sent.
  goes_on :
      (c : Client) (q q' r r' fuel : ℕ) (w w' : List ℕ) (l l' : List Arrival)
      (sent out : List Packet) (x : Packet)
      → recv_round os (transfer_at c b q (suc r) w l sent)
        ≡ defined (recv_packets, transfer_at c b q' r' w' l' (sent ++ (x ∷ [])))
      → Returns
          (IsOver ((sent ++ (x ∷ [])) ++ out))
          (client_loop os fuel (transfer_at c b q' r' w' l' (sent ++ (x ∷ []))))
      → Returns
          (IsOver (sent ++ (x ∷ out)))
          (client_loop os (suc fuel) (transfer_at c b q (suc r) w l sent))
  unfolding client_loop client_step dispatch store_state running
  goes_on c q q' r r' fuel w w' l l' sent out x e h =
      rw (lt→ltb 0 (suc r) (omega arith), client_loop, e)
        (subst
          (λ s.
            Returns (IsOver s)
              (client_loop os fuel (transfer_at c b q' r' w' l' (sent ++ (x ∷ [])))))
          (append_assoc sent (x ∷ []) out) h)

  -- The piece that is due, and not the last one.
  round_full :
      (c : Client) (q r : ℕ) (w : List ℕ) (l : List Arrival) (sent : List Packet)
      → q + 1 < 2 ^ 32
      → b * (q + 1) ≤ length content
      → w ≡ take (b * q) content
      → recv_round os (transfer_at c b q r w (brings (piece_packet os content b q) ∷ l) sent)
        ≡ defined (
          recv_packets,
          transfer_at c b
              (q + 1)
              pkt_trnsmax
              (take (b * (q + 1)) content)
              l
              (sent ++ (rrpkt os q ∷ [])),
        )
  round_full c q r w l sent h lo e =
      let full : ltb (length (piece content b q)) b ≡ false =
        ground (arith, length-piece content b q) in
      let longer : w ++ piece content b q ≡ take (b * (q + 1)) content =
        ap (λ x. x ++ piece content b q) e
        ∙ sym (take-suc_pieces content b q)
        ∙ ap (λ k. take (b * k) content) {x = suc q} {y = q + 1} (omega arith) in
      rw (round_piece os content b fits c q r w l sent h, full, longer) refl

  loop_recovers :
      (fuel : ℕ) (c : Client) {q n r : ℕ} {l : List Arrival} {out : List Packet} (w : List ℕ)
      (sent : List Packet)
      → Reaches os content b q n r l out
      → length l < fuel
      → q + n + 1 < 2 ^ 32
      → b * (q + n) ≤ length content
      → length content < b * (q + n + 1)
      → w ≡ take (b * q) content
      → Returns (IsOver (sent ++ out)) (client_loop os fuel (transfer_at c b q r w l sent))
  unfolding client_loop client_step dispatch store_state running IsOver
  loop_recovers zero c w sent s f h lo hi e = absurd (omega (arith, f))
  loop_recovers (suc zero) c w sent (last q r l) f h lo hi e = absurd (omega (arith, f))
  loop_recovers (suc fuel) c w sent (last q r l) f h lo hi e =
      let shorter : length (piece content b q) < b = omega (arith, length-piece content b q) in
      let short : ltb (length (piece content b q)) b ≡ true = lt→ltb _ _ shorter in
      rw
        (
          lt→ltb 0 (suc r) (omega arith),
          client_loop,
          round_piece os content b fits c q (suc r) w l sent (omega arith),
          short,
        )
        (
          refl,
          omega arith,
          ap (λ x. x ++ piece content b q) e ∙ last_piece content b q shorter,
          sym (append-nil sent),
        )
  loop_recovers (suc fuel) c w sent (due q n r {l} {out} s) f h lo hi e =
      goes_on c q (q + 1) r pkt_trnsmax fuel w _ _ l sent out (rrpkt os q)
        (round_full c q (suc r) w l sent (omega arith)
          (omega (arith, lo, mul_mono b (q + 1) (q + suc n) (omega arith))) e)
        (loop_recovers fuel c _ _ s (omega (arith, f)) (omega (arith, h)) (omega (arith, lo))
          (omega (arith, hi)) refl)
  loop_recovers (suc fuel) c w sent (old q n r k {l} {out} less s) f h lo hi e =
      goes_on c q q r pkt_trnsmax fuel w w _ l sent out (rrpkt os k)
        (round_other c q (suc r) (piece_packet os content b k) (rrpkt os k) w l sent
          (piece_packet-verifies os content b fits k)
          (inl (
            omega (arith, less, sequence-piece_packet os content b k),
            ap (rrpkt os) (sym (sequence-piece_packet os content b k)),
          )))
        (loop_recovers fuel c w _ s (omega (arith, f)) h lo hi e)
  loop_recovers (suc fuel) c w sent (early q n r k {l} {out} more s) f h lo hi e =
      goes_on c q q r pkt_trnsmax fuel w w _ l sent out (rejpkt os q)
        (round_other c q (suc r) (piece_packet os content b k) (rejpkt os q) w l sent
          (piece_packet-verifies os content b fits k)
          (inr (omega (arith, more, sequence-piece_packet os content b k), refl)))
        (loop_recovers fuel c w _ s (omega (arith, f)) h lo hi e)
  loop_recovers (suc fuel) c w sent (damaged q n r p {l} {out} bad s) f h lo hi e =
      goes_on c q q r 9 fuel w w _ l sent out (rejpkt os q)
        (round_damaged c q (suc r) p w l sent bad)
        (loop_recovers fuel c w _ s (omega (arith, f)) h lo hi e)
  loop_recovers (suc fuel) c w sent (timeout q n r a {l} {out} quiet s) f h lo hi e =
      goes_on c q q r r fuel w w _ l sent out (rejpkt os q) (round_timeout c q r a w l sent quiet)
        (loop_recovers fuel c w _ s (omega (arith, f)) h lo hi e)

  -- What the transfer ends with.
  abbrev pub Recovered : List Packet → Client × ℕ → Type 0
  Recovered sent r = (r.1 ≡ 0) × (r.0.written ≡ content) × (r.0.net.sent ≡ sent)

  -- The loop and the exit, from a fresh transfer on.
  pub transfer_recovers :
      (c : Client) (n fuel : ℕ) {l : List Arrival} {out : List Packet} (sent : List Packet)
      → Reaches os content b 0 n pkt_trnsmax l out
      → length l < fuel
      → n + 1 < 2 ^ 32
      → b * n ≤ length content
      → length content < b * (n + 1)
      → Returns (Recovered (sent ++ out)) (
          client_loop os fuel (transfer_at c b 0 pkt_trnsmax [] l sent) >>= λ d.
          defined (d, client_exit d))
  unfolding client_exit exit_by IsOver
  transfer_recovers c n fuel {l} {out} sent s f h lo hi =
      Returns->>= {B = Client × ℕ} (IsOver (sent ++ out)) (Recovered (sent ++ out))
        (λ d. defined (d, client_exit d))
        (λ d x. (exit_done os content b fits d.state d.retries x.0 x.1, x.2, x.3)) _
        (loop_recovers fuel c [] sent s f (omega (arith, h)) (omega (arith, lo)) (omega (arith, hi))
          (sym (take-zero content b {k = b * 0} (omega arith))))
