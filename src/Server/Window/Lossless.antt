-- ===== src/Server/Window/Lossless.antt =====
-- Server.cpp, `fillWindow`, `sendWindow` and `waitRR`: a window in which every piece arrives.
use cpe464_fileserver.Base.{
  ℕ, zero, suc, ◌+◌, ◌*◌, ◌-◌, ◌%◌, ◌^◌, ◌≤◌, ◌<◌, ◌≡◌, refl, sym, ap, ap₂, ◌∙◌, inl, inr, true,
  false, List, [], ◌∷◌, ◌++◌, append_assoc, append-nil, arith, length, take, drop, drop-all,
  Bool-cases, some, min, ltb, leb, if_true, le→leb, Outcome, defined, ◌>>=◌,
}
use cpe464_fileserver.Platform.{Platform, IsFile}
use cpe464_fileserver.Packet.{Packet, pkt_dmax, pkt_trnsmax, rrpkt, seal, verifies, memset_packet}
use cpe464_fileserver.Packet.Seal.{verifies-seal}
use cpe464_fileserver.File.{piece, length-piece}
use cpe464_fileserver.Net.{Arrival, brings, send, next_arrival, select_call}
use cpe464_fileserver.Server.{
  Server, State, fill_window, send_window, wait_rr, recv_packet, receive,
}
use cpe464_fileserver.Server.Window.{
  data_packet, push_piece, fill_one, fill_loop, filled, send_all, slide, on_packet, at_front,
  on_received, wait_round,
}
use cpe464_fileserver.Server.Window.Pieces.{piece_packet, pieces, slide-pieces}

module _ (os : Platform) (content : List ℕ) (b w : ℕ) where
  -- How far `q` pieces reach into the file.
  abbrev pub place : ℕ → ℕ
  place q = min (b * q) (length content)

  -- A child process that serves the file, where every call of `sendtoErr` succeeds.
  abbrev pub serving_at :
      Server → State → ℕ → ℕ → List Packet → List Arrival → List Packet → List Packet → Server
  serving_at s st q r window l sent out = record s {
    position = place q;
    buffer_size = b;
    window_size = w;
    window = window;
    out_buf = out;
    sequence = q;
    retries = r;
    state = st;
    net = record { arrivals = l; send_results = []; sent = sent };
  }

  pub pieces-add :
      (q m n : ℕ)
      → pieces os content b q (m + n) ≡ pieces os content b q m ++ pieces os content b (q + m) n
  unfolding pieces
  pieces-add q zero n = ap₂ (pieces os content b) (omega arith) (omega arith)
  pieces-add q (suc m) n =
      ap (pieces os content b q) {y = suc (m + n)} (omega arith)
      ∙ ap (λ l. piece_packet os content b q ∷ l)
          (pieces-add (suc q) m n
            ∙ ap (λ k. pieces os content b (suc q) m ++ pieces os content b k n) (omega arith))

  drop-place : (q : ℕ) → drop (place q) content ≡ drop (b * q) content
  drop-place q = elim (Bool-cases (leb (b * q) (length content))) [
    | inl below ↦ ap (λ n. drop n content) {x = place q} (ground arith)
    | inr above ↦
        drop-all (place q) content (ground arith) ∙ sym (drop-all (b * q) content (ground arith))
  ]

  module _ (fits : b ≤ pkt_dmax) (s : Server) (file : IsFile os s.from content) where
    fill_one-at :
        (st : State) (q r : ℕ) (window : List Packet) (l : List Arrival) (sent out : List Packet)
        → q + 1 < 2 ^ 32
        → fill_one os (serving_at s st q r window l sent out)
          ≡ defined (
              some (
                serving_at s st
                  (q + 1)
                  r
                  (window ++ (piece_packet os content b q ∷ []))
                  l
                  sent
                  (out ++ (piece_packet os content b q ∷ []))))
    unfolding fill_one push_piece piece_packet
    fill_one-at st q r window l sent out h = rw (read, small, fill_one, wrap, onward) refl
      where
        read : os.read_at s.from (place q) b ≡ some (piece content b q)
        read = file.reads (place q) b ∙ ap (λ l. some (take b l)) (drop-place q)

        small : ltb pkt_dmax (length (piece content b q)) ≡ false
        small = ground (arith, length-piece content b q)

        wrap : (q + 1) % 2 ^ 32 ≡ q + 1
        wrap = omega arith

        onward : place q + length (piece content b q) ≡ place (q + 1)
        onward = omega (arith, length-piece content b q)

    -- After the filling loop.
    abbrev pub full_at :
        State
        → ℕ
        → List Arrival
        → List Packet
        → ℕ
        → List Packet
        → List Packet
        → Outcome (State × Server)
    full_at st r l sent q window out = defined (send_window, serving_at s st q r window l sent out)

    pub full-same :
        (st : State) (r : ℕ) (l : List Arrival) (sent : List Packet) {p q : ℕ}
        {v x o y : List Packet}
        → p ≡ q
        → v ≡ x
        → o ≡ y
        → full_at st r l sent p v o ≡ full_at st r l sent q x y
    full-same st r l sent {q} {v} {o} e f g =
        ap (λ k. full_at st r l sent k v o) e ∙ ap₂ (full_at st r l sent q) f g

    pub fill_loop-at :
        (k : ℕ) (st : State) (q r : ℕ) (window : List Packet) (l : List Arrival)
        (sent out : List Packet)
        → q + k < 2 ^ 32
        → fill_loop os k (serving_at s st q r window l sent out)
          ≡ full_at st r l sent
              (q + k)
              (window ++ pieces os content b q k)
              (out ++ pieces os content b q k)
    unfolding fill_loop filled pieces
    fill_loop-at zero st q r window l sent out h =
        full-same st r l sent (omega arith) (sym (append-nil window)) (sym (append-nil out))
    fill_loop-at (suc k) st q r window l sent out h =
        ap (λ o. o >>= filled (serving_at s st q r window l sent out) (fill_loop os k))
          (fill_one-at st q r window l sent out (omega arith))
        ∙ fill_loop-at k st (q + 1) r _ l sent _ (omega arith)
        ∙ full-same st r l sent (omega arith) (longer window) (longer out)
      where
        longer :
            (x : List Packet)
            → (x ++ (piece_packet os content b q ∷ [])) ++ pieces os content b (q + 1) k
              ≡ x ++ (piece_packet os content b q ∷ pieces os content b (suc q) k)
        longer x =
            append_assoc x (piece_packet os content b q ∷ []) (pieces os content b (q + 1) k)
            ∙ ap (λ j. x ++ (piece_packet os content b q ∷ pieces os content b j k)) (omega arith)

    pub send_all-at :
        (st : State) (q r : ℕ) (window : List Packet) (l : List Arrival)
        (sent out old : List Packet)
        → send_all out (serving_at s st q r window l sent old)
          ≡ (wait_rr, serving_at s st q r window l (sent ++ out) [])
    unfolding send_all send
    send_all-at st q r window l sent [] old =
        ap (λ x. (wait_rr, serving_at s st q r window l x [])) (sym (append-nil sent))
    send_all-at st q r window l sent (p ∷ out) old =
        send_all-at st q r window l (sent ++ (p ∷ [])) out old
        ∙ ap (λ x. (wait_rr, serving_at s st q r window l x [])) (append_assoc sent (p ∷ []) out)

    acked :
        (base : ℕ) (d : Server)
        → on_packet os (rrpkt os base) (piece_packet os content b base) d
          ≡ (fill_window, record d { window = slide base base d.window; retries = pkt_trnsmax })
    unfolding on_packet rrpkt seal memset_packet piece_packet data_packet
    acked base d = if_true (leb base base) _ _ (le→leb base base (omega arith))

    pub wait_ack :
        (st : State) (q r base v : ℕ) (l : List Arrival) (sent out : List Packet)
        → base + suc v < 2 ^ 32
        → wait_round os (
            serving_at s st q r
              (pieces os content b base (suc v))
              (brings (rrpkt os base) ∷ l)
              sent
              out)
          ≡ defined (
            fill_window,
            serving_at s st q pkt_trnsmax (pieces os content b (base + 1) v) l sent out,
          )
    unfolding wait_round on_received at_front recv_packet receive next_arrival select_call pieces
    wait_ack st q r base v l sent out h =
        ap
          (λ x. on_received os x (serving_at s st q r window (brings (rrpkt os base) ∷ l) sent out))
          (if_true (verifies os (rrpkt os base)) _ _ rr_verifies)
        ∙ ap defined (acked base (serving_at s st q pkt_trnsmax window l sent out))
        ∙ ap (λ x. defined (fill_window, serving_at s st q pkt_trnsmax x l sent out))
            (slide-pieces os content b base (suc v) base h
              ∙ ap₂ (pieces os content b) (omega arith) (omega arith))
      where
        window : List Packet
        window = pieces os content b base (suc v)

        rr_verifies : verifies os (rrpkt os base) ≡ true
        rr_verifies = unfold rrpkt in verifies-seal os _

    pub wait_silent :
        (st : State) (q r : ℕ) (window : List Packet) (sent out : List Packet)
        → wait_round os (serving_at s st q r window [] sent out)
          ≡ defined (fill_window, serving_at s st q (r - 1) window [] sent out)
    unfolding wait_round on_received recv_packet next_arrival select_call
    wait_silent st q r window sent out = refl
