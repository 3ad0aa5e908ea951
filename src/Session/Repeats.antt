-- ===== src/Session/Repeats.antt =====
-- Go Back N (UDP): a session in which the client asks for pieces again, as the child process sees it.
use cpe464_fileserver.Base.{
  ℕ, zero, suc, ◌+◌, ◌*◌, ◌-◌, ◌^◌, ◌≤◌, ◌<◌, ◌≡◌, ◌≢◌, refl, sym, min, ap, ap₂, subst, ◌∙◌, List,
  [], ◌++◌, All, some, arith, length, append_assoc, Returns, Returns->>=, Outcome, defined,
}
use cpe464_fileserver.Platform.{Platform, IsFile}
use cpe464_fileserver.Packet.{Packet, pkt_dmax, pkt_trnsmax}
use cpe464_fileserver.Net.{Arrival}
use cpe464_fileserver.Server.{Server, wait_rr}
use cpe464_fileserver.Server.Init.Completes.{child_replies}
use cpe464_fileserver.Server.Parent.{child_state}
use cpe464_fileserver.Server.Child.{child, child_loop, child_exit}
use cpe464_fileserver.Server.Child.Rounds.{fill_and_send}
use cpe464_fileserver.Server.Child.Hears.{Hears}
use cpe464_fileserver.Server.Child.Recovers.{hears}
use cpe464_fileserver.Server.Window.Lossless.{serving_at}
use cpe464_fileserver.Server.Window.Pieces.{pieces}
use cpe464_fileserver.Session.Begins.{forked, begun, child_begins}

-- The process has sent these packets and exits with status 1.
abbrev pub GivesUp : List Packet → Server × ℕ → Type 0
GivesUp l r = (r.0.net.sent ≡ l) × (r.1 ≡ 1)

module _ (os : Platform) (content : List ℕ) (b : ℕ) (fits : b ≤ pkt_dmax) where
  -- A child process after the handshake, which then hears from its client.
  begun-Hears :
      (v fd f last : ℕ) (name : List ℕ) (l : List Arrival) (out : List Packet)
      → suc v < 2 ^ 16
      → IsFile os fd content
      → Hears os content b (suc v) 0 pkt_trnsmax l last out
      → 3 * length l + 33 < f
      → Returns
          (λ d.
            GivesUp (child_replies os ++ (pieces os content b 0 (suc v) ++ out)) (d, child_exit d))
          (child_loop os (suc (suc f)) (begun os fd b (suc v) name l))
  unfolding child_state pieces child_exit
  begun-Hears v fd f last name l out small file h enough =
      subst (Returns Sent)
        (sym (
            fill_and_send os content b (suc v) fits s file f 0 0 pkt_trnsmax l (child_replies os) []
              (omega arith) (omega arith) (omega arith)
            ∙ ap₂
                (λ k m. child_loop os f (
                  serving_at os content b (suc v) s wait_rr (0 + suc v) pkt_trnsmax
                    (pieces os content b 0 (suc v)) l (child_replies os ++ pieces os content b k m)
                    []))
                {x = 0 + 0} {y = 0} {u = suc v - 0} {v = suc v} (omega arith) (omega arith)
            ∙ hears os content b v fits s file f (child_replies os ++ pieces os content b 0 (suc v))
                h (omega arith) (omega arith) enough)
          ∙ ap (λ at. from at b (suc v)) {x = min (b * 0) (length content)} {y = 0} (omega arith)
          ∙ ap₂ (from 0) (omega arith) (omega arith))
        (append_assoc (child_replies os) (pieces os content b 0 (suc v)) out, refl)
    where
      Sent : Server → Type 0
      Sent d =
          GivesUp (child_replies os ++ (pieces os content b 0 (suc v) ++ out)) (d, child_exit d)

      s : Server
      s = begun os fd b (suc v) name l

      from : ℕ → ℕ → ℕ → Outcome Server
      from at x y =
          child_loop os (suc (suc f)) (record s { position = at; buffer_size = x; window_size = y })

  -- Let a client have asked for windows of 1 to 65535 pieces of at most 1400 bytes of a file that can
  -- be opened and whose name has no 0 byte, and let the handshake be complete. Let the child process
  -- then get, in any order, RRs for numbers in the window and before it, REJs for the front of the
  -- window, for later numbers and for earlier ones, packets with a bad checksum and timeouts, such
  -- that the retries last, and numbers and offsets stay below 2^32 and within the file. Then `Child`
  -- ends with status 1 and has sent, after the replies, exactly the first window and, for each RR in
  -- the window, the pieces that come into it, for each REJ the window from the requested number on
  -- or, where that is not before the front, from the front on, and nothing for the rest.
  pub child_recovers :
      (w fd last : ℕ) (name : List ℕ) (l : List Arrival) (out : List Packet)
      → Hears os content b w 0 pkt_trnsmax l last out
      → 0 < w
      → w < 2 ^ 16
      → All (λ byte. byte ≢ 0) name
      → os.open_rdonly name ≡ some fd
      → IsFile os fd content
      → Returns
          (GivesUp (child_replies os ++ (pieces os content b 0 w ++ out)))
          (child os (forked os b w name l))
  unfolding child child_state
  child_recovers zero fd last name l out h pos small a e file = absurd (omega (arith, pos))
  child_recovers (suc v) fd last name l out h pos small a e file =
      Returns->>= {B = Server × ℕ} Sent
        (GivesUp (child_replies os ++ (pieces os content b 0 (suc v) ++ out)))
        (λ d. defined (d, child_exit d)) (λ d x. x) _
        (subst (Returns Sent)
          (sym (
            ap (λ k. child_loop os k (forked os b (suc v) name l))
              {y = suc (suc (suc (305 + 44 * length l)))} (omega arith)
            ∙ child_begins os b (suc v) fd (suc (suc (305 + 44 * length l))) name l a e))
          (begun-Hears v fd (305 + 44 * length l) last name l out small file h (omega arith)))
    where
      Sent : Server → Type 0
      Sent d =
          GivesUp (child_replies os ++ (pieces os content b 0 (suc v) ++ out)) (d, child_exit d)
