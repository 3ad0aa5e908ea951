-- ===== src/Server/Child/Completes.antt =====
-- Server.cpp, `Child`: a client that receives every piece.
use cpe464_fileserver.Base.{
  ℕ, zero, suc, ◌+◌, ◌*◌, ◌-◌, ◌^◌, ◌≤◌, ◌<◌, ◌≡◌, refl, sym, ap, ap₂, ◌∙◌, List, [], ◌∷◌, ◌++◌,
  append_assoc, append-nil, arith, Outcome, defined,
}
use cpe464_fileserver.Platform.{Platform, IsFile}
use cpe464_fileserver.Packet.{Packet, pkt_dmax, pkt_trnsmax, rrpkt}
use cpe464_fileserver.Net.{Arrival, arrive, brings}
use cpe464_fileserver.Client.Run.Completes.{acknowledgments}
use cpe464_fileserver.Server.{Server, State, fill_window}
use cpe464_fileserver.Server.Window.Pieces.{pieces}
use cpe464_fileserver.Server.Child.{running, child_loop}
use cpe464_fileserver.Server.Window.Lossless.{serving_at, pieces-add}
use cpe464_fileserver.Server.Child.Rounds.{silent_round, acked_round}

module _ (os : Platform) (content : List ℕ) (b w : ℕ) (fits : b ≤ pkt_dmax) (s : Server)
    (file : IsFile os s.from content) where
  abbrev serving : State → ℕ → ℕ → List Packet → List Arrival → List Packet → List Packet → Server
  serving = serving_at os content b w s

  -- When nothing more arrives, nothing more is sent.
  pub idle :
      (f base r : ℕ) (sent : List Packet)
      → base + w < 2 ^ 32
      → 3 * r < f
      → child_loop os f (serving fill_window (base + w) r (pieces os content b base w) [] sent [])
        ≡ defined (serving fill_window (base + w) 0 (pieces os content b base w) [] sent [])
  unfolding child_loop running
  idle zero base r sent bound h = absurd (omega arith)
  idle (suc f) base zero sent bound h = refl
  idle (suc f) base (suc r) sent bound h =
      ap (λ n. child_loop os n (serving fill_window (base + w) (suc r) window [] sent []))
        {x = suc f} {y = suc (suc (suc (f - 2)))} (omega arith)
      ∙ silent_round os content b w fits s file (f - 2) base w r sent (omega arith) bound
      ∙ ap (λ x. child_loop os (f - 2) (serving fill_window (base + w) r window [] x [])) nothing
      ∙ idle (f - 2) base r sent bound (omega arith)
    where
      window : List Packet
      window = pieces os content b base w

      none_left : sent ++ pieces os content b (base + w) 0 ≡ sent
      none_left = unfold pieces in append-nil sent

      nothing : sent ++ pieces os content b (base + w) (w - w) ≡ sent
      nothing = ap (λ k. sent ++ pieces os content b (base + w) k) {y = 0} (omega arith) ∙ none_left

  -- The child process at the end, where `m` pieces were sent.
  abbrev ended : List Packet → ℕ → ℕ → ℕ → ℕ → Outcome Server
  ended sent q k j m =
      defined
        (serving fill_window q 0 (pieces os content b k w) [] (sent ++ pieces os content b j m) [])

  -- Every piece up to number `base + n` is acknowledged, and the window is sent up to its end.
  pub serves :
      (n base c r f : ℕ) (sent : List Packet)
      → c ≤ w
      → 0 < w
      → base + n + w < 2 ^ 32
      → 0 < r
      → r ≤ pkt_trnsmax
      → 3 * n + 33 < f
      → child_loop os f (
          serving fill_window
            (base + c)
            r
            (pieces os content b base c)
            (arrive (acknowledgments os content b fits base n) [])
            sent
            [])
        ≡ ended sent (base + n + w) (base + n) (base + c) (n + w - c)
  unfolding acknowledgments
  serves zero base c r f sent h wide bound pos few enough =
      ap₂
        (λ n k.
          child_loop os n
            (serving fill_window (base + c) k (pieces os content b base c) [] sent []))
        {y = suc (suc (suc (f - 3)))} {v = suc (r - 1)} (omega arith) (omega arith)
      ∙ silent_round os content b w fits s file (f - 3) base c (r - 1) sent h (omega arith)
      ∙ idle (f - 3) base (r - 1) _ (omega arith) (omega arith)
      ∙ ap₂ (λ q k. ended sent q k (base + c) (w - c)) (omega arith) (omega arith)
      ∙ ap (λ m. ended sent (base + 0 + w) (base + 0) (base + c) m) (omega arith)
  serves (suc n) base c r f sent h wide bound pos few enough =
      ap
        (λ k. child_loop os k (
          serving fill_window (base + c) r (pieces os content b base c)
            (brings (rrpkt os base) ∷ acks) sent []))
        {y = suc (suc (suc (f - 3)))} (omega arith)
      ∙ acked_round os content b w fits s file (f - 3) base c r acks sent h wide (omega arith) pos
      ∙ serves n (base + 1) (w - 1) pkt_trnsmax (f - 3) _ (omega arith) wide (omega arith)
          (omega arith) (omega arith) (omega arith)
      ∙ ap₂ (λ q k. defined (serving fill_window q 0 (pieces os content b k w) [] done []))
          (omega arith) (omega arith)
      ∙ ap
          (λ x. defined (
            serving fill_window (base + suc n + w) 0 (pieces os content b (base + suc n) w) [] x
              []))
          joined
    where
      acks : List Arrival
      acks = arrive (acknowledgments os content b fits (base + 1) n) []

      rest : ℕ
      rest = n + w - (w - 1)

      done : List Packet
      done =
          (sent ++ pieces os content b (base + c) (w - c))
          ++ pieces os content b (base + 1 + (w - 1)) rest

      joined : done ≡ sent ++ pieces os content b (base + c) (suc n + w - c)
      joined =
          append_assoc sent (pieces os content b (base + c) (w - c)) _
          ∙ ap (λ x. sent ++ x)
              (ap (λ k. pieces os content b (base + c) (w - c) ++ pieces os content b k rest)
                  (omega arith)
                ∙ sym (pieces-add os content b w (base + c) (w - c) rest)
                ∙ ap (pieces os content b (base + c)) (omega arith))
