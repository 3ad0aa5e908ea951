-- ===== src/Server/Child/Recovers.antt =====
-- Server.cpp, `Child`: a client that asks for pieces again.
use cpe464_fileserver.Base.{
  ℕ, zero, suc, ◌+◌, ◌*◌, ◌-◌, ◌^◌, ◌≤◌, ◌<◌, ◌≡◌, refl, sym, ap, ap₂, ◌∙◌, List, [], ◌++◌,
  append-nil, arith, length, defined,
}
use cpe464_fileserver.Platform.{Platform, IsFile}
use cpe464_fileserver.Packet.{Packet, pkt_dmax, pkt_trnsmax}
use cpe464_fileserver.Net.{Arrival}
use cpe464_fileserver.Server.{Server, State, fill_window, wait_rr}
use cpe464_fileserver.Server.Window.Pieces.{pieces}
use cpe464_fileserver.Server.Window.Lossless.{serving_at, wait_silent}
use cpe464_fileserver.Server.Window.Answers.{
  wait_advance, wait_stale, wait_repeat, wait_back, wait_damaged, wait_timeout,
}
use cpe464_fileserver.Server.Child.{child_loop}
use cpe464_fileserver.Server.Child.Rounds.{wait_step}
use cpe464_fileserver.Server.Child.Completes.{idle}
use cpe464_fileserver.Server.Child.Hears.{
  Hears, over, advance, stale, repeat, back, damaged, timeout, Hears-nothing, refill, refill_full,
  stopped, waited, waits_on, ended,
}

module _ (os : Platform) (content : List ℕ) (b v : ℕ) (fits : b ≤ pkt_dmax) (s : Server)
    (file : IsFile os s.from content) where
  abbrev serving : State → ℕ → ℕ → List Packet → List Arrival → List Packet → List Packet → Server
  serving = serving_at os content b (suc v) s

  -- A child process that waits sends what the answers ask for, and ends.
  pub hears :
      (f : ℕ) {base r last : ℕ} {l : List Arrival} {out : List Packet} (sent : List Packet)
      → Hears os content b (suc v) base (suc r) l last out
      → suc r ≤ pkt_trnsmax
      → base + suc v < 2 ^ 32
      → 3 * length l + 33 < f
      → child_loop os f
          (serving wait_rr (base + suc v) (suc r) (pieces os content b base (suc v)) l sent [])
        ≡ ended os content b v fits s file last (sent ++ out)
  hears zero sent h few bound enough = absurd (omega (arith, enough))
  hears (suc zero) sent h few bound enough = absurd (omega (arith, enough))
  hears (suc (suc zero)) sent h few bound enough = absurd (omega (arith, enough))
  hears (suc (suc (suc f))) sent (over base (suc r)) few bound enough =
      wait_step os content b (suc v) fits s file (suc (suc f)) (base + suc v) (suc r) r _ _ [] []
        sent (omega arith)
        (wait_silent os content b (suc v) fits s file wait_rr (base + suc v) (suc r) _ sent []
          ∙ ap
              (λ k. defined (
                fill_window,
                serving wait_rr (base + suc v) k (pieces os content b base (suc v)) [] sent [],
              ))
              {x = suc r - 1} {y = r} (omega arith))
      ∙ idle os content b (suc v) fits s file (suc (suc f)) base r sent bound
          (omega (arith, few, enough))
      ∙ ap (ended os content b v fits s file base) (sym (append-nil sent))
  hears (suc (suc (suc f))) sent (advance base r q {l} {last} {out} lo hi room h) few bound enough =
      waited os content b v fits s file (suc (suc f)) (base + suc v) (base + suc v) r pkt_trnsmax _
        _ _ l sent []
        (wait_advance os content b (suc v) s file wait_rr (base + suc v) (suc r) base v q l sent []
          lo hi bound)
      ∙ ap
          (λ k. child_loop os (suc (suc f)) (
            serving fill_window k pkt_trnsmax (pieces os content b (q + 1) (base + suc v - (q + 1)))
              l sent []))
          {x = base + suc v} {y = q + 1 + (base + suc v - (q + 1))} (omega arith)
      ∙ refill os content b v fits s file f (q + 1) (base + suc v - (q + 1)) 9 last l sent [] out
          (omega arith) room (hears f _ h (omega arith) room (omega (arith, enough)))
      ∙ ap₂
          (λ k m. ended os content b v fits s file last (sent ++ (pieces os content b k m ++ out)))
          {x = q + 1 + (base + suc v - (q + 1))} {y = base + suc v}
          {u = suc v - (base + suc v - (q + 1))} {v = q + 1 - base} (omega arith) (omega arith)
  hears (suc (suc (suc f))) sent (stale base r q {l} {last} {out} less h) few bound enough =
      waits_on os content b v fits s file (suc (suc f)) (base + suc v) r pkt_trnsmax _ _ l sent (
        wait_stale os content b (suc v) s file wait_rr (base + suc v) (suc r) base v q l sent []
          less)
      ∙ hears (suc (suc f)) sent h (omega arith) bound (omega (arith, enough))
  hears (suc (suc (suc f))) sent (repeat base r q {l} {last} {out} lo h) few bound enough =
      waited os content b v fits s file (suc (suc f)) (base + suc v) (base + suc v) r pkt_trnsmax _
        _ _ l sent (pieces os content b base (suc v))
        (wait_repeat os content b (suc v) s file wait_rr (base + suc v) (suc r) base v q l sent []
          lo)
      ∙ refill_full os content b v fits s file f base 9 last l sent
          (pieces os content b base (suc v)) out bound
          (hears f _ h (omega arith) bound (omega (arith, enough)))
  hears (suc (suc (suc f))) sent (back base r q {l} {last} {out} less within small h) few bound
        enough =
      waited os content b v fits s file (suc (suc f)) (base + suc v) q r pkt_trnsmax _ _ _ l sent []
        (wait_back os content b (suc v) s file wait_rr (base + suc v) (suc r) base v q l sent []
          less within small)
      ∙ ap₂ (λ k x. child_loop os (suc (suc f)) (serving fill_window k pkt_trnsmax x l sent []))
          {x = q} {y = q + 0} {u = []} {v = pieces os content b q 0} (omega arith)
          (unfold pieces in refl)
      ∙ refill os content b v fits s file f q 0 9 last l sent [] out (omega arith)
          (omega (arith, less, bound))
          (hears f _ h (omega arith) (omega (arith, less, bound)) (omega (arith, enough)))
      ∙ ap₂
          (λ k m. ended os content b v fits s file last (sent ++ (pieces os content b k m ++ out)))
          {x = q + 0} {y = q} {u = suc v - 0} {v = suc v} (omega arith) (omega arith)
  hears (suc (suc (suc f))) sent (damaged base r p {l} {last} {out} bad h) few bound enough =
      waited os content b v fits s file (suc (suc f)) (base + suc v) (base + suc v) r 9 _ _ _ l sent
        []
        (wait_damaged os content b (suc v) s file wait_rr (base + suc v) (suc r) p _ l sent [] bad)
      ∙ refill_full os content b v fits s file f base 8 last l sent [] out bound
          (hears f _ h (omega arith) bound (omega (arith, enough)))
  hears (suc (suc (suc f))) sent (timeout base zero a {l} {last} {out} quiet h) few bound enough =
      waited os content b v fits s file (suc (suc f)) (base + suc v) (base + suc v) zero zero _ _ _
        l sent []
        (wait_timeout os content b (suc v) s file wait_rr (base + suc v) zero a _ l sent [] quiet)
      ∙ stopped os content b v fits s file (suc (suc f)) base last l sent out bound
          (omega (arith, enough)) (Hears-nothing os content b v fits s file h)
  hears (suc (suc (suc f))) sent (timeout base (suc r) a {l} {last} {out} quiet h) few bound
        enough =
      waited os content b v fits s file (suc (suc f)) (base + suc v) (base + suc v) (suc r) (suc r)
        _ _ _ l sent []
        (wait_timeout os content b (suc v) s file wait_rr (base + suc v) (suc r) a _ l sent []
          quiet)
      ∙ refill_full os content b v fits s file f base r last l sent [] out bound
          (hears f _ h (omega (arith, few)) bound (omega (arith, enough)))
