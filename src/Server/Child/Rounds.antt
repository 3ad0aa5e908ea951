-- ===== src/Server/Child/Rounds.antt =====
-- Server.cpp, `Child`: a round in which the window is filled, sent and acknowledged.
use cpe464_fileserver.Base.{
  ℕ, suc, ◌+◌, ◌-◌, ◌^◌, ◌≤◌, ◌<◌, ◌≡◌, refl, sym, ap, ap₂, ◌∙◌, true, ◌&&◌, List, [], ◌∷◌, ◌++◌,
  arith, ltb, lt→ltb, defined, ◌>>=◌,
}
use cpe464_fileserver.Platform.{Platform, IsFile}
use cpe464_fileserver.Packet.{Packet, pkt_dmax, pkt_trnsmax, rrpkt}
use cpe464_fileserver.Net.{Arrival, brings}
use cpe464_fileserver.Server.{Server, State, fill_window, send_window, wait_rr}
use cpe464_fileserver.Server.Window.{fill_loop, fill_round, send_round, wait_round}
use cpe464_fileserver.Server.Window.Pieces.{pieces}
use cpe464_fileserver.Server.Window.Shows.{length-pieces}
use cpe464_fileserver.Server.Child.{running, store_state, dispatch, child_step, child_loop}
use cpe464_fileserver.Server.Window.Lossless.{
  serving_at, pieces-add, fill_loop-at, full-same, send_all-at, wait_ack, wait_silent,
}

module _ (os : Platform) (content : List ℕ) (b w : ℕ) (fits : b ≤ pkt_dmax) (s : Server)
    (file : IsFile os s.from content) where
  abbrev serving : State → ℕ → ℕ → List Packet → List Arrival → List Packet → List Packet → Server
  serving = serving_at os content b w s

  -- A step of the main loop.
  pub step :
      (f : ℕ) (c d : Server)
      → running c.state ≡ true
      → 0 < c.retries
      → dispatch os c.state c ≡ defined d
      → child_loop os (suc f) c ≡ child_loop os f d
  unfolding child_loop child_step
  step f c d g h e =
      let more : (running c.state && ltb 0 c.retries) ≡ true = rw (g, lt→ltb 0 c.retries h) refl in
      rw (more, child_loop, e) refl

  -- The window is filled up with what follows, and that is sent after what was to be sent.
  pub fill_and_send :
      (f base c r : ℕ) (l : List Arrival) (sent out : List Packet)
      → c ≤ w
      → base + w < 2 ^ 32
      → 0 < r
      → child_loop os
          (suc (suc f))
          (serving fill_window (base + c) r (pieces os content b base c) l sent out)
        ≡ child_loop os f (
            serving wait_rr
              (base + w)
              r
              (pieces os content b base w)
              l
              (sent ++ (out ++ pieces os content b (base + c) (w - c)))
              [])
  unfolding dispatch store_state running fill_round send_round
  fill_and_send f base c r l sent out h bound pos =
      step (suc f) _
        (serving send_window (base + w) r (pieces os content b base w) l sent (out ++ fresh)) refl
        pos
        (ap (λ o. o >>= store_state)
          (ap
              (λ k.
                fill_loop os k
                  (serving fill_window (base + c) r (pieces os content b base c) l sent out))
              {y = w - c} (omega (arith, length-pieces os content b base c))
            ∙ fill_loop-at os content b w fits s file (w - c) fill_window (base + c) r
                (pieces os content b base c) l sent out (omega arith)
            ∙ full-same os content b w fits s file fill_window r l sent (omega arith) whole refl))
      ∙ step f (serving send_window (base + w) r (pieces os content b base w) l sent (out ++ fresh))
          _ refl pos
          (ap store_state (
            send_all-at os content b w fits s file send_window (base + w) r
              (pieces os content b base w) l sent (out ++ fresh) (out ++ fresh)))
    where
      fresh : List Packet
      fresh = pieces os content b (base + c) (w - c)

      whole : pieces os content b base c ++ fresh ≡ pieces os content b base w
      whole =
          sym (pieces-add os content b w base c (w - c))
          ∙ ap (pieces os content b base) (omega arith)

  -- A wait after which the window is filled up again.
  pub wait_step :
      (f q r r' : ℕ) (window window' : List Packet) (l l' : List Arrival) (sent : List Packet)
      → 0 < r
      → wait_round os (serving wait_rr q r window l sent [])
        ≡ defined (fill_window, serving wait_rr q r' window' l' sent [])
      → child_loop os (suc f) (serving wait_rr q r window l sent [])
        ≡ child_loop os f (serving fill_window q r' window' l' sent [])
  unfolding dispatch store_state running
  wait_step f q r r' window window' l l' sent pos e =
      step f _ (serving fill_window q r' window' l' sent []) refl pos
        (ap (λ o. o >>= store_state) e)

  -- A round without an answer.
  pub silent_round :
      (f base c r : ℕ) (sent : List Packet)
      → c ≤ w
      → base + w < 2 ^ 32
      → child_loop os
          (suc (suc (suc f)))
          (serving fill_window (base + c) (suc r) (pieces os content b base c) [] sent [])
        ≡ child_loop os f (
            serving fill_window
              (base + w)
              r
              (pieces os content b base w)
              []
              (sent ++ pieces os content b (base + c) (w - c))
              [])
  silent_round f base c r sent h bound =
      fill_and_send (suc f) base c (suc r) [] sent [] h bound (omega arith)
      ∙ wait_step f (base + w) (suc r) r window window [] [] after (omega arith) (
          wait_silent os content b w fits s file wait_rr (base + w) (suc r) window after []
          ∙ ap (λ k. defined (fill_window, serving wait_rr (base + w) k window [] after []))
              (omega arith))
    where
      window : List Packet
      window = pieces os content b base w

      after : List Packet
      after = sent ++ pieces os content b (base + c) (w - c)

  -- A round with the RR for the front of the window.
  pub acked_round :
      (f base c r : ℕ) (l : List Arrival) (sent : List Packet)
      → c ≤ w
      → 0 < w
      → base + w < 2 ^ 32
      → 0 < r
      → child_loop os (suc (suc (suc f))) (
          serving fill_window
            (base + c)
            r
            (pieces os content b base c)
            (brings (rrpkt os base) ∷ l)
            sent
            [])
        ≡ child_loop os f (
            serving fill_window
              (base + 1 + (w - 1))
              pkt_trnsmax
              (pieces os content b (base + 1) (w - 1))
              l
              (sent ++ pieces os content b (base + c) (w - c))
              [])
  acked_round f base c r l sent h wide bound pos =
      fill_and_send (suc f) base c r (brings (rrpkt os base) ∷ l) sent [] h bound pos
      ∙ ap₂
          (λ q k. child_loop os (suc f) (
            serving wait_rr q r (pieces os content b base k) (brings (rrpkt os base) ∷ l) after []))
          {u = w} {v = suc (w - 1)} (omega arith) (omega arith)
      ∙ wait_step f (base + 1 + (w - 1)) r pkt_trnsmax _ _ _ l after pos (
          wait_ack os content b w fits s file wait_rr (base + 1 + (w - 1)) r base (w - 1) l after []
            (omega arith))
    where
      after : List Packet
      after = sent ++ pieces os content b (base + c) (w - c)
