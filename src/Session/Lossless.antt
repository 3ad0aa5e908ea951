-- ===== src/Session/Lossless.antt =====
-- Go Back N (UDP): a whole session of a client and a child process in which nothing is lost.
use cpe464_fileserver.Base.{
  ℕ, zero, suc, ◌+◌, ◌*◌, ◌-◌, ◌^◌, ◌≤◌, ◌<◌, ◌≡◌, ◌≢◌, refl, sym, min, ap, ap₂, subst, ◌∙◌, List,
  [], ◌∷◌, ◌++◌, All, some, arith, length, Returns, Returns->>=, Outcome, defined,
}
use cpe464_fileserver.Platform.{Platform, IsFile}
use cpe464_fileserver.Packet.{Packet, pkt_dmax, pkt_trnsmax}
use cpe464_fileserver.Net.{Arrival, arrive, brings}
use cpe464_fileserver.Client.{Client}
use cpe464_fileserver.Client.Init.Completes.{to_parent}
use cpe464_fileserver.Client.Run.{run}
use cpe464_fileserver.Client.Run.Completes.{Completed, carry, acknowledgments}
use cpe464_fileserver.Server.{Server}
use cpe464_fileserver.Server.Init.Completes.{to_child, child_replies}
use cpe464_fileserver.Server.Parent.{child_state}
use cpe464_fileserver.Server.Child.{child, child_loop, child_exit}
use cpe464_fileserver.Server.Child.Completes.{serves}
use cpe464_fileserver.Server.Window.Lossless.{pieces-add}
use cpe464_fileserver.Server.Window.Pieces.{piece_packet, pieces}
use cpe464_fileserver.Session.Begins.{forked, begun, child_begins, starting}
use cpe464_fileserver.Session.Recovers.{empty_target}
use cpe464_fileserver.Session.Completes.{session_completes}

-- The process has sent these packets.
abbrev pub HasSent : List Packet → Server × ℕ → Type 0
HasSent l r = r.0.net.sent ≡ l

module _ (os : Platform) (content : List ℕ) (b : ℕ) (fits : b ≤ pkt_dmax) where
  length-acknowledgments :
      (q n : ℕ) → length (arrive (acknowledgments os content b fits q n) []) ≡ n
  unfolding acknowledgments
  length-acknowledgments q zero = refl
  length-acknowledgments q (suc n) = omega (arith, length-acknowledgments (q + 1) n)

  carry-arrive : (q n : ℕ) → carry os content b fits q n ≡ arrive (pieces os content b q (suc n)) []
  unfolding pieces
  carry-arrive q zero = refl
  carry-arrive q (suc n) =
      ap (λ l. brings (piece_packet os content b q) ∷ l)
        (carry-arrive (q + 1) n ∙ ap (λ k. arrive (pieces os content b k (suc n)) []) (omega arith))

  -- A child process after the handshake, which then gets the RRs for `n` pieces.
  begun_serves :
      (w fd n f : ℕ) (name : List ℕ)
      → 0 < w
      → w < 2 ^ 16
      → n + w < 2 ^ 32
      → IsFile os fd content
      → 3 * n + 33 < f
      → Returns
          (λ d. d.net.sent ≡ child_replies os ++ pieces os content b 0 (n + w))
          (child_loop os f
            (begun os fd b w name (arrive (acknowledgments os content b fits 0 n) [])))
  unfolding child_state pieces
  begun_serves w fd n f name pos small few file enough =
      subst (Returns Sent)
        (sym (
            serves os content b w fits s file n 0 0 pkt_trnsmax f (child_replies os) (omega arith)
              pos (omega arith) (omega arith) (omega arith) enough)
          ∙ ap (λ at. from at b w) {x = min (b * 0) (length content)} {y = 0} (omega arith)
          ∙ ap₂ (from 0) (omega arith) (omega arith))
        (ap (λ k. child_replies os ++ pieces os content b 0 k) (omega arith))
    where
      Sent : Server → Type 0
      Sent d = d.net.sent ≡ child_replies os ++ pieces os content b 0 (n + w)

      s : Server
      s = begun os fd b w name (arrive (acknowledgments os content b fits 0 n) [])

      from : ℕ → ℕ → ℕ → Outcome Server
      from at x y = child_loop os f (record s { position = at; buffer_size = x; window_size = y })

  -- A child process that is told what to send and then gets the RRs for `n` pieces.
  pub child_completes :
      (w fd n : ℕ) (name : List ℕ)
      → 0 < w
      → w < 2 ^ 16
      → n + w < 2 ^ 32
      → All (λ byte. byte ≢ 0) name
      → os.open_rdonly name ≡ some fd
      → IsFile os fd content
      → Returns
          (HasSent (child_replies os ++ pieces os content b 0 (n + w)))
          (child os (forked os b w name (arrive (acknowledgments os content b fits 0 n) [])))
  unfolding child child_state
  child_completes w fd n name pos small few a e file =
      Returns->>= {B = Server × ℕ} Sent (λ r. Sent r.0) (λ d. defined (d, child_exit d)) (λ d x. x)
        _
        (subst (Returns Sent)
          (sym (
            ap (λ k. child_loop os k (forked os b w name l)) {y = suc (307 + 44 * n)}
              (omega (arith, length-acknowledgments 0 n))
            ∙ child_begins os b w fd (307 + 44 * n) name l a e))
          (begun_serves w fd n (307 + 44 * n) name pos small few file (omega arith)))
    where
      l : List Arrival
      l = arrive (acknowledgments os content b fits 0 n) []

      Sent : Server → Type 0
      Sent d = d.net.sent ≡ child_replies os ++ pieces os content b 0 (n + w)

-- A client and the child process that was forked for it, where each receives, in order, what the
-- other sends it: the child receives the client's handshake and RRs, and the client receives the
-- replies and the pieces of the file, up to the one at which it stops; the replies of the parent
-- process come first, and no call fails. Let the file have `n` full pieces of 1 to 1400 bytes and
-- one shorter piece, let windows have 1 to 65535 packets, `n` and the window size together be less
-- than 2^32, and let the name of the file have no 0 byte, fit into a packet and open the file. Then
-- `Run` of the client, from INIT on, returns 0 with the whole file in its target, and has sent
-- exactly the handshake and one RR for each full piece; and `Child` ends, and has sent exactly the
-- replies, the pieces that the client receives and, behind them, the rest of the last window.
pub session_lossless :
    (os : Platform) (content : List ℕ) (c : Client) (port fd n : ℕ)
    (fits : c.buffer_size ≤ pkt_dmax)
    → 0 < c.window_size
    → c.window_size < 2 ^ 16
    → n + c.window_size < 2 ^ 32
    → length c.from_name + 1 ≤ pkt_dmax
    → All (λ byte. byte ≢ 0) c.from_name
    → os.open_rdonly c.from_name ≡ some fd
    → IsFile os fd content
    → c.buffer_size * n ≤ length content
    → length content < c.buffer_size * (n + 1)
    → let bytes = pieces os content c.buffer_size 0 (suc n) in
      let rest = pieces os content c.buffer_size (suc n) (c.window_size - 1) in
      let asks = to_child os c.buffer_size c.window_size c.from_name in
      let acks = acknowledgments os content c.buffer_size fits 0 n in
      Returns
        (Completed os content c.buffer_size fits n (to_parent os ++ asks))
        (run os (starting os (empty_target c) port (arrive bytes [])))
      × Returns
          (HasSent (child_replies os ++ (bytes ++ rest)))
          (child os (forked os c.buffer_size c.window_size c.from_name (arrive acks [])))
session_lossless os content c port fd n fits pos small few short name e file lo hi = (
  subst
      (λ l.
        Returns
          (Completed os content b fits n (to_parent os ++ to_child os b c.window_size c.from_name))
          (run os (starting os (empty_target c) port l)))
      (carry-arrive os content b fits 0 n)
      (session_completes os content c port n fits short (omega arith) lo hi),
  subst
      (λ p. Returns (HasSent (child_replies os ++ p)) (
        child os (
          forked os b c.window_size c.from_name
            (arrive (acknowledgments os content b fits 0 n) []))))
      (ap (pieces os content b 0) {x = n + c.window_size} (omega arith)
        ∙ pieces-add os content b c.window_size 0 (suc n) (c.window_size - 1)
        ∙ ap (λ k. pieces os content b 0 (suc n) ++ pieces os content b k (c.window_size - 1))
            (omega arith))
      (child_completes os content b fits c.window_size fd n c.from_name pos small few name e file),
)
  where
    b : ℕ
    b = c.buffer_size
