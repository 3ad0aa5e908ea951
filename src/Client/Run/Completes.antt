-- ===== src/Client/Run/Completes.antt =====
-- Client.cpp, `Run`: a transfer in which nothing is lost is completed.
use cpe464_fileserver.Base.{
  ◌>>=◌, [], ℕ, zero, suc, ◌+◌, ◌*◌, ◌^◌, ◌≤◌, ◌<◌, ◌≡◌, List, [], ◌∷◌, ◌++◌, arith, length,
  defined, Returns,
}
use cpe464_fileserver.Platform.{Platform}
use cpe464_fileserver.Packet.{Packet, pkt_dmax, pkt_trnsmax, rrpkt}
use cpe464_fileserver.Net.{brings, Arrival}
use cpe464_fileserver.Server.Window.Pieces.{piece_packet}
use cpe464_fileserver.Client.{Client}
use cpe464_fileserver.Client.Run.{client_loop, client_exit, run}
use cpe464_fileserver.Client.Run.Rounds.{transfer_at}
use cpe464_fileserver.Client.Run.Recovers.{Reaches, last, due, transfer_recovers}

module _ (os : Platform) (content : List ℕ) (b : ℕ) (fits : b ≤ pkt_dmax) where
  -- The pieces from number `q` on: `n` and one more.
  abbrev pub carry : ℕ → ℕ → List Arrival
  carry q zero = brings (piece_packet os content b q) ∷ []
  carry q (suc n) = brings (piece_packet os content b q) ∷ carry (q + 1) n

  -- The RRs for the pieces from number `q` on, `n` of them.
  unfoldable pub acknowledgments : ℕ → ℕ → List Packet
  acknowledgments q zero = []
  acknowledgments q (suc n) = rrpkt os q ∷ acknowledgments (q + 1) n

  -- They are a transfer that completes.
  pub carry-Reaches :
      (q n r : ℕ) → Reaches os content b q n (suc r) (carry q n) (acknowledgments q n)
  unfolding acknowledgments
  carry-Reaches q zero r = last q r []
  carry-Reaches q (suc n) r = due q n r (carry-Reaches (q + 1) n 9)

  pub length-carry : (q n : ℕ) → length (carry q n) ≡ n + 1
  length-carry q zero = omega arith
  length-carry q (suc n) = omega (arith, length-carry (q + 1) n)

  -- What a complete transfer ends with.
  abbrev pub Completed : ℕ → List Packet → Client × ℕ → Type 0
  Completed n sent r =
      (r.1 ≡ 0) × (r.0.written ≡ content) × (r.0.net.sent ≡ sent ++ acknowledgments 0 n)

  -- The loop and the exit, from a fresh transfer on.
  pub transfer_completes :
      (c : Client) (n fuel : ℕ) (sent : List Packet)
      → n + 1 < fuel
      → n + 1 < 2 ^ 32
      → b * n ≤ length content
      → length content < b * (n + 1)
      → Returns (Completed n sent) (
          client_loop os fuel (transfer_at c b 0 pkt_trnsmax [] (carry 0 n) sent) >>= λ d.
          defined (d, client_exit d))
  transfer_completes c n fuel sent f h lo hi =
      transfer_recovers os content b fits c n fuel sent (carry-Reaches 0 n 9)
        (omega (arith, length-carry 0 n)) h lo hi

  -- Let a file have `n` full pieces of `b` bytes, at most 1400, and one shorter piece, fewer than
  -- 2^32 in all. If their packets arrive in order and no call fails, `Run` of a client at the start
  -- of the transfer returns 0 with the whole file in the target, and has sent the RRs for the
  -- full pieces, in order.
  pub run_completes :
      (c : Client) (n : ℕ)
      → n + 1 < 2 ^ 32
      → b * n ≤ length content
      → length content < b * (n + 1)
      → Returns (Completed n []) (run os (transfer_at c b 0 pkt_trnsmax [] (carry 0 n) []))
  unfolding run
  run_completes c n h lo hi = transfer_completes c n _ [] (omega (arith, length-carry 0 n)) h lo hi
