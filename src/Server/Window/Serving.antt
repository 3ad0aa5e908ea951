-- ===== src/Server/Window/Serving.antt =====
-- Server.cpp, `fillWindow`, `sendWindow` and `waitRR`: what the server sends while it serves a file.
use cpe464_fileserver.Base.{
  ℕ, zero, suc, ◌+◌, ◌*◌, ◌%◌, ◌^◌, ◌≤◌, ◌<◌, ◌≡◌, refl, sym, ap, ap₂, ◌∙◌, false, List, [], ◌∷◌,
  ◌++◌, arith, length, take, drop, All, All-append, ltb, Outcome, defined, undefined, unfinished,
  Returns, drop-add, drop-length-take, length-append, some,
}
use cpe464_fileserver.Platform.{Platform, IsFile}
use cpe464_fileserver.Packet.{Packet, pkt_dmax}
use cpe464_fileserver.File.{piece, length-piece}
use cpe464_fileserver.Server.{Server, State, send_window}
use cpe464_fileserver.Server.Window.{data_packet, push_piece, fill_one, filled, fill_loop}
use cpe464_fileserver.Server.Window.Pieces.{
  piece_packet, pieces, IsServed, pieces-snoc, piece_packet-IsServed,
}

pub mul_mono : (b x y : ℕ) → x ≤ y → b * x ≤ b * y
mul_mono b x y h = grind arith

pub le_mul : (b x : ℕ) → 0 < b → x ≤ b * x
le_mul b x h = grind arith

next_offset : (b q x : ℕ) → x ≡ suc q → b * q + b ≡ b * x
next_offset b q x e = rw e (omega arith)

module _ (os : Platform) (content : List ℕ) (b : ℕ) where
  -- The window is a run of pieces that ends before `sequence`, the file is read on from there, and
  -- no other data packet is or was sent. `room` says that the numbers stay below `top`, and the
  -- offsets into the file below 2^32.
  pub record Sending (top : ℕ) (s : Server) : Type 0 where
    pub file : IsFile os s.from content
    pub buffer : s.buffer_size ≡ b
    pub at : drop s.position content ≡ drop (b * s.sequence) content
    pub base : ℕ
    pub count : ℕ
    pub window : s.window ≡ pieces os content b base count
    pub ends : base + count ≡ s.sequence
    pub out : All (IsServed os content b) s.out_buf
    pub sent : All (IsServed os content b) s.net.sent
    pub within : s.sequence ≤ top
    pub room : b * top < 2 ^ 32

  module _ (pos : 0 < b) (fits : b ≤ pkt_dmax) where
    -- A round of the filling loop appends the next piece to the window.
    push-Sending :
        (top : ℕ) (s : Server) (t : Sending top s)
        → suc s.sequence ≤ top
        → let s' = push_piece os (piece content b s.sequence) s in
          Sending top s' × (s'.sequence ≡ suc s.sequence)
    unfolding push_piece piece_packet
    push-Sending top s t h = (
      record {
        file = t.file;
        buffer = t.buffer;
        at = advanced;
        base = t.base;
        count = suc t.count;
        window =
            ap₂ (λ w q. w ++ (piece_packet os content b q ∷ [])) t.window (sym t.ends)
            ∙ pieces-snoc os content b t.base t.count;
        ends = omega (arith, e, t.ends);
        out = All-append _ s.out_buf _ t.out (piece_packet-IsServed os content b s.sequence, tt);
        sent = t.sent;
        within = omega (arith, e);
        room = t.room;
      },
      e,
    )
      where
        e : (s.sequence + 1) % 2 ^ 32 ≡ suc s.sequence
        e = omega (arith, le_mul b top pos, t.room)

        advanced :
            drop (s.position + length (piece content b s.sequence)) content
            ≡ drop (b * ((s.sequence + 1) % 2 ^ 32)) content
        advanced =
            drop-add s.position (length (piece content b s.sequence)) content
            ∙ ap (λ l. drop (length (piece content b s.sequence)) l) t.at
            ∙ drop-length-take b (drop (b * s.sequence) content)
            ∙ sym (drop-add (b * s.sequence) b content)
            ∙ ap (λ n. drop n content) (next_offset b s.sequence _ e)

    fill_one-push :
        (top : ℕ) (s : Server)
        → Sending top s
        → fill_one os s ≡ defined (some (push_piece os (piece content b s.sequence) s))
    unfolding fill_one
    fill_one-push top s t = rw (read, small, fill_one)
      where
        read : os.read_at s.from s.position s.buffer_size ≡ some (piece content b s.sequence)
        read =
            ap (os.read_at s.from s.position) t.buffer
            ∙ t.file.reads s.position b
            ∙ ap (λ l. some (take b l)) t.at

        small : ltb pkt_dmax (length (piece content b s.sequence)) ≡ false
        small = ground (arith, length-piece content b s.sequence)

    -- What `fillWindow` does in `n` rounds from `s`.
    abbrev pub Filled : ℕ → ℕ → Server → State × Server → Type 0
    Filled top n s r =
        (r.0 ≡ send_window)
        × Sending top r.1
        × (r.1.sequence ≡ s.sequence + n)
        × (r.1.window_size ≡ s.window_size)
        × (length r.1.window ≡ length s.window + n)
        × (r.1.net ≡ s.net)

    Filled-suc :
        (top n : ℕ) (s : Server) (q : Packet) (o : Outcome (State × Server)) (s' : Server)
        → s'.sequence ≡ suc s.sequence
        → s'.window_size ≡ s.window_size
        → s'.window ≡ s.window ++ (q ∷ [])
        → s'.net ≡ s.net
        → Returns (Filled top n s') o
        → Returns (Filled top (suc n) s) o
    Filled-suc top n s q (defined r) s' e z w t f = (
      f.0,
      f.1,
      omega (arith, f.2, e),
      f.3 ∙ z,
      omega (arith, f.4, ap (length {A = Packet}) w, length-append s.window (q ∷ [])),
      f.5 ∙ t,
    )
    Filled-suc top n s q undefined s' e z w t f = f
    Filled-suc top n s q unfinished s' e z w t f = f

    -- With pieces of at most 1400 bytes and numbers that stay within `top`, `n` rounds of
    -- `fillWindow` are defined, return SEND_WINDOW, append `n` packets to the window and keep what
    -- `Sending` says: the window is a run of pieces up to `sequence`, and no other data packet is in
    -- it, waits to be sent or was sent.
    pub fill_loop-Filled :
        (top n : ℕ) (s : Server)
        → Sending top s
        → s.sequence + n ≤ top
        → Returns (Filled top n s) (fill_loop os n s)
    unfolding fill_loop
    fill_loop-Filled top zero s t h = (refl, t, omega arith, refl, omega arith, refl)
    fill_loop-Filled top (suc n) s t h =
        rw (fill_one-push top s t, filled)
          (Filled-suc top n s (data_packet os s.sequence (piece content b s.sequence)) _ s' p.1
            (unfold push_piece in refl) (unfold push_piece in refl) (unfold push_piece in refl)
            (fill_loop-Filled top n s' p.0 (omega (arith, p.1))))
      where
        s' : Server
        s' = push_piece os (piece content b s.sequence) s

        p : Sending top s' × (s'.sequence ≡ suc s.sequence)
        p = push-Sending top s t (omega arith)
