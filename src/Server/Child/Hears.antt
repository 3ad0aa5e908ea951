-- ===== src/Server/Child/Hears.antt =====
-- Server.cpp, `Child`: what a client asks for again, and how the window is filled for it.
use cpe464_fileserver.Base.{
  ℕ, suc, ◌+◌, ◌*◌, ◌-◌, ◌^◌, ◌≤◌, ◌<◌, ◌≡◌, refl, sym, ap, ap₂, ◌∙◌, false, List, [], ◌∷◌, ◌++◌,
  append_assoc, append-nil, arith, length, Outcome, defined, ◌>>=◌,
}
use cpe464_fileserver.Platform.{Platform, IsFile}
use cpe464_fileserver.Packet.{Packet, verifies, pkt_dmax, pkt_trnsmax, rrpkt, rejpkt}
use cpe464_fileserver.Net.{Arrival, brings, select_call}
use cpe464_fileserver.Server.{Server, State, fill_window, wait_rr}
use cpe464_fileserver.Server.Window.Pieces.{pieces}
use cpe464_fileserver.Server.Window.{wait_round}
use cpe464_fileserver.Server.Window.Lossless.{serving_at}
use cpe464_fileserver.Server.Child.{running, store_state, dispatch, child_loop}
use cpe464_fileserver.Server.Child.Rounds.{step, fill_and_send}
use cpe464_fileserver.Server.Child.Completes.{idle}

-- What may arrive at a child process that waits with a window of `w` pieces from number `base` on
-- and with retries left, until nothing more arrives; the number of the window's front then, and the
-- packets that are sent in between: the next pieces for an RR within the window, the window again
-- for a REJ for its front or a later piece, a window from an earlier piece on for a REJ for that
-- piece, and nothing for an older RR, a packet with a bad checksum and a timeout.
pub data Hears (os : Platform) (content : List ℕ) (b w : ℕ)
    : ℕ → ℕ → List Arrival → ℕ → List Packet → Type 0 where
  over : (base r : ℕ) → Hears os content b w base r [] base []
  advance :
      (base r q : ℕ) {l : List Arrival} {last : ℕ} {out : List Packet}
      → base ≤ q
      → q < base + w
      → q + 1 + w < 2 ^ 32
      → Hears os content b w (q + 1) pkt_trnsmax l last out
      → Hears os content b w base
          (suc r)
          (brings (rrpkt os q) ∷ l)
          last
          (pieces os content b (base + w) (q + 1 - base) ++ out)
  stale :
      (base r q : ℕ) {l : List Arrival} {last : ℕ} {out : List Packet}
      → q < base
      → Hears os content b w base pkt_trnsmax l last out
      → Hears os content b w base (suc r) (brings (rrpkt os q) ∷ l) last out
  repeat :
      (base r q : ℕ) {l : List Arrival} {last : ℕ} {out : List Packet}
      → base ≤ q
      → Hears os content b w base pkt_trnsmax l last out
      → Hears os content b w base
          (suc r)
          (brings (rejpkt os q) ∷ l)
          last
          (pieces os content b base w ++ out)
  back :
      (base r q : ℕ) {l : List Arrival} {last : ℕ} {out : List Packet}
      → q < base
      → b * q ≤ length content
      → b * q < 2 ^ 32
      → Hears os content b w q pkt_trnsmax l last out
      → Hears os content b w base
          (suc r)
          (brings (rejpkt os q) ∷ l)
          last
          (pieces os content b q w ++ out)
  damaged :
      (base r : ℕ) (p : Packet) {l : List Arrival} {last : ℕ} {out : List Packet}
      → verifies os p ≡ false
      → Hears os content b w base 9 l last out
      → Hears os content b w base (suc r) (brings p ∷ l) last out
  timeout :
      (base r : ℕ) (a : Arrival) {l : List Arrival} {last : ℕ} {out : List Packet}
      → select_call a.select ≡ 0
      → Hears os content b w base r l last out
      → Hears os content b w base (suc r) (a ∷ l) last out

module _ (os : Platform) (content : List ℕ) (b v : ℕ) (fits : b ≤ pkt_dmax) (s : Server)
    (file : IsFile os s.from content) where
  abbrev serving : State → ℕ → ℕ → List Packet → List Arrival → List Packet → List Packet → Server
  serving = serving_at os content b (suc v) s

  -- The child process at the end.
  abbrev pub ended : ℕ → List Packet → Outcome Server
  ended last sent =
      defined (serving fill_window (last + suc v) 0 (pieces os content b last (suc v)) [] sent [])

  -- With no retry left nothing more is heard.
  pub Hears-nothing :
      {base last : ℕ} {l : List Arrival} {out : List Packet}
      → Hears os content b (suc v) base 0 l last out
      → (l ≡ []) × (base ≡ last) × (out ≡ [])
  Hears-nothing (over base r) = (refl, refl, refl)

  -- The window is filled up and sent, and what follows is heard.
  pub refill :
      (f base c r last : ℕ) (l : List Arrival) (sent pend out : List Packet)
      → c ≤ suc v
      → base + suc v < 2 ^ 32
      → child_loop os f (
          serving wait_rr
            (base + suc v)
            (suc r)
            (pieces os content b base (suc v))
            l
            (sent ++ (pend ++ pieces os content b (base + c) (suc v - c)))
            [])
        ≡ ended last ((sent ++ (pend ++ pieces os content b (base + c) (suc v - c))) ++ out)
      → child_loop os
          (suc (suc f))
          (serving fill_window (base + c) (suc r) (pieces os content b base c) l sent pend)
        ≡ ended last (sent ++ ((pend ++ pieces os content b (base + c) (suc v - c)) ++ out))
  refill f base c r last l sent pend out h bound e =
      fill_and_send os content b (suc v) fits s file f base c (suc r) l sent pend h bound
        (omega arith)
      ∙ e
      ∙ ap (ended last) (append_assoc sent (pend ++ pieces os content b (base + c) (suc v - c)) out)

  -- A full window, in front of which `pend` is to be sent again.
  pub refill_full :
      (f base r last : ℕ) (l : List Arrival) (sent pend out : List Packet)
      → base + suc v < 2 ^ 32
      → child_loop os f (
          serving wait_rr
            (base + suc v)
            (suc r)
            (pieces os content b base (suc v))
            l
            (sent ++ pend)
            [])
        ≡ ended last ((sent ++ pend) ++ out)
      → child_loop os (suc (suc f)) (
          serving fill_window (base + suc v) (suc r) (pieces os content b base (suc v)) l sent pend)
        ≡ ended last (sent ++ (pend ++ out))
  refill_full f base r last l sent pend out bound e =
      fill_and_send os content b (suc v) fits s file f base (suc v) (suc r) l sent pend
        (omega arith) bound (omega arith)
      ∙ ap
          (λ x. child_loop os f (
            serving wait_rr (base + suc v) (suc r) (pieces os content b base (suc v)) l (sent ++ x)
              []))
          nothing
      ∙ e
      ∙ ap (ended last) (append_assoc sent pend out)
    where
      none_left : pend ++ pieces os content b (base + suc v) 0 ≡ pend
      none_left = unfold pieces in append-nil pend

      nothing : pend ++ pieces os content b (base + suc v) (suc v - suc v) ≡ pend
      nothing =
          ap (λ k. pend ++ pieces os content b (base + suc v) k) {x = suc v - suc v} {y = 0}
            (omega arith)
          ∙ none_left

  -- A wait after which the window is filled up.
  pub waited :
      (f q q' r r' : ℕ) (window window' : List Packet) (l l' : List Arrival)
      (sent pend : List Packet)
      → wait_round os (serving wait_rr q (suc r) window l sent [])
        ≡ defined (fill_window, serving wait_rr q' r' window' l' sent pend)
      → child_loop os (suc f) (serving wait_rr q (suc r) window l sent [])
        ≡ child_loop os f (serving fill_window q' r' window' l' sent pend)
  unfolding dispatch store_state running
  waited f q q' r r' window window' l l' sent pend e =
      step os content b (suc v) fits s file f _ (serving fill_window q' r' window' l' sent pend)
        refl (omega arith) (ap (λ o. o >>= store_state) e)

  -- A wait after which the child process waits again.
  pub waits_on :
      (f q r r' : ℕ) (window : List Packet) (l l' : List Arrival) (sent : List Packet)
      → wait_round os (serving wait_rr q (suc r) window l sent [])
        ≡ defined (wait_rr, serving wait_rr q r' window l' sent [])
      → child_loop os (suc f) (serving wait_rr q (suc r) window l sent [])
        ≡ child_loop os f (serving wait_rr q r' window l' sent [])
  unfolding dispatch store_state running
  waits_on f q r r' window l l' sent e =
      step os content b (suc v) fits s file f _ (serving wait_rr q r' window l' sent []) refl
        (omega arith) (ap (λ o. o >>= store_state) e)

  -- Without retries and arrivals the child process ends.
  pub stopped :
      (f base last : ℕ) (l : List Arrival) (sent out : List Packet)
      → base + suc v < 2 ^ 32
      → 0 < f
      → (l ≡ []) × (base ≡ last) × (out ≡ [])
      → child_loop os f
          (serving fill_window (base + suc v) 0 (pieces os content b base (suc v)) l sent [])
        ≡ ended last (sent ++ out)
  stopped f base last l sent out bound enough (e, g, o) =
      ap
        (λ x.
          child_loop os f
            (serving fill_window (base + suc v) 0 (pieces os content b base (suc v)) x sent []))
        e
      ∙ idle os content b (suc v) fits s file f base 0 sent bound (omega (arith, enough))
      ∙ ap₂ ended g (sym (append-nil sent) ∙ ap (λ x. sent ++ x) (sym o))
