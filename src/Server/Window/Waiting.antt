-- ===== src/Server/Window/Waiting.antt =====
-- Server.cpp, `sendWindow` and `waitRR`: they keep the window a run of pieces.
use cpe464_fileserver.Base.{
  ℕ, zero, suc, ◌+◌, ◌*◌, ◌-◌, ◌%◌, ◌^◌, ◌≤◌, ◌<◌, ◌≡◌, ◌≢◌, refl, sym, ap, ◌∙◌, subst, inl, inr,
  List, [], ◌∷◌, arith, drop, All, Bool-cases, leb, ◌==◌, min, Returns,
}
use cpe464_fileserver.Platform.{Platform}
use cpe464_fileserver.Packet.{Packet, pkt_trnsmax, pkt_type_rr, pkt_type_rej}
use cpe464_fileserver.Net.{Channel, Received, failed, rejected, accepted, send}
use cpe464_fileserver.Net.Send.{send-All}
use cpe464_fileserver.Client.RecvPacket.{Effect}
use cpe464_fileserver.Server.{Server, State, init, error, done, fill_window, send_window, wait_rr}
use cpe464_fileserver.Server.Init.Ends.{Any}
use cpe464_fileserver.Server.Window.{slide, send_all, rewind, on_packet, at_front, on_received}
use cpe464_fileserver.Server.Window.Pieces.{
  piece_packet, pieces, IsServed, slide-pieces, pieces-IsServed, sequence-piece_packet,
}
use cpe464_fileserver.Server.Window.Serving.{Sending, mul_mono, le_mul}

module _ (os : Platform) (content : List ℕ) (b top : ℕ) where
  -- What holds in each state while a file is served.
  abbrev pub Phase : State → Server → Type 0
  Phase init s = ⊥
  Phase done s = ⊥
  Phase error s = All (IsServed os content b) s.net.sent
  Phase fill_window s = Sending os content b top s
  Phase send_window s = Sending os content b top s × (s.window ≢ [])
  Phase wait_rr s = Sending os content b top s × (s.window ≢ [])

  -- A step from `s` that fills nothing.
  abbrev pub Kept : Server → State × Server → Type 0
  Kept s r = Phase r.0 r.1 × (r.1.sequence ≤ s.sequence) × (r.1.window_size ≡ s.window_size)

  -- A change of the socket, of the retries and of `out_buf`.
  Sending-net :
      {s : Server} (net : Channel) (retries : ℕ) (out : List Packet)
      → Sending os content b top s
      → All (IsServed os content b) out
      → All (IsServed os content b) net.sent
      → Sending os content b top (record s { net = net; retries = retries; out_buf = out })
  Sending-net net retries out t o sent = record {
    file = t.file;
    buffer = t.buffer;
    at = t.at;
    base = t.base;
    count = t.count;
    window = t.window;
    ends = t.ends;
    out = o;
    sent = sent;
    within = t.within;
    room = t.room;
  }

  pub send_all-Kept :
      (l : List Packet) (s : Server)
      → All (IsServed os content b) l
      → Sending os content b top s
      → s.window ≢ []
      → Kept s (send_all l s)
  unfolding send_all
  send_all-Kept [] s a t n = ((Sending-net s.net s.retries [] t tt t.sent, n), omega arith, refl)
  send_all-Kept (p ∷ l) s a t n = elim (Bool-cases (send p s.net).0) [
    | inl ok ↦
        rw (ok, send_all)
          (send_all-Kept l _ a.1
            (Sending-net (send p s.net).1 s.retries s.out_buf t t.out
              (send-All _ p s.net a.0 t.sent))
            n)
    | inr bad ↦
        rw (bad, send_all) (send-All (IsServed os content b) p s.net a.0 t.sent, omega arith, refl)
  ]

  rewind-Kept :
      (q : ℕ) (s : Server) → Sending os content b top s → q < s.sequence → Kept s (rewind os q s)
  unfolding rewind
  rewind-Kept q s t h = elim (Bool-cases (os.lseek_set s.from ((s.buffer_size * q) % 2 ^ 32))) [
    | inl ok ↦
        rw (ok, rewind)
          (
            record {
              file = t.file;
              buffer = t.buffer;
              at = ap (λ n. drop n content) offset;
              base = q;
              count = 0;
              window = unfold pieces in refl;
              ends = omega arith;
              out = tt;
              sent = t.sent;
              within = omega (arith, t.within);
              room = t.room;
            },
            omega arith,
            refl,
          )
    | inr bad ↦ rw (bad, rewind) (t.sent, omega arith, refl)
  ]
    where
      offset : (s.buffer_size * q) % 2 ^ 32 ≡ b * q
      offset =
          ap (λ n. (n * q) % 2 ^ 32) t.buffer
          ∙ omega (arith, mul_mono b q top (omega (arith, t.within)), t.room)

  -- The front of the window is the piece with the number `base`.
  pub front_of :
      (base count : ℕ) (front : Packet) (rest : List Packet)
      → pieces os content b base count ≡ front ∷ rest
      → front.sequence ≡ base
  unfolding pieces
  front_of base zero front rest e = cc
  front_of base (suc count) front rest e =
      let h : piece_packet os content b base ≡ front = cc in
      ap (λ (p : Packet). p.sequence) (sym h) ∙ sequence-piece_packet os content b base

  -- An RR in or after the window.
  slide-Sending :
      (q : ℕ) (s : Server) (t : Sending os content b top s)
      → 0 < b
      → Sending os content b top
          (record s { window = slide t.base q s.window; retries = pkt_trnsmax })
  slide-Sending q s t pos = record {
    file = t.file;
    buffer = t.buffer;
    at = t.at;
    base = t.base + min t.count (q + 1 - t.base);
    count = t.count - min t.count (q + 1 - t.base);
    window =
        ap (slide t.base q) t.window
        ∙ slide-pieces os content b t.base t.count q
            (omega (arith, le_mul b top pos, t.room, t.ends, t.within));
    ends = omega (arith, t.ends);
    out = t.out;
    sent = t.sent;
    within = t.within;
    room = t.room;
  }

  on_packet-Kept :
      (p front : Packet) (rest : List Packet) (s : Server)
      → Sending os content b top s
      → 0 < b
      → s.window ≡ front ∷ rest
      → Kept s (on_packet os p front s)
  unfolding on_packet
  on_packet-Kept p front rest s t pos e = elim (Bool-cases (p.type == pkt_type_rr)) [
    | inl rr ↦ elim (Bool-cases (leb front.sequence p.sequence)) [
      | inl due ↦
          rw (rr, due, on_packet)
            (
              subst
                  (λ i.
                    Sending os content b top
                      (record s { window = slide i p.sequence s.window; retries = pkt_trnsmax }))
                  (sym first) (slide-Sending p.sequence s t pos),
              omega arith,
              refl,
            )
      | inr old ↦ rw (rr, old, on_packet) ((t, full), omega arith, refl)
    ]
    | inr other ↦ elim (Bool-cases (p.type == pkt_type_rej)) [
      | inl rej ↦ elim (Bool-cases (leb front.sequence p.sequence)) [
        | inl due ↦
            rw (other, rej, due, on_packet)
              (Sending-net s.net s.retries s.window t again t.sent, omega arith, refl)
        | inr old ↦
            rw (other, rej, old, on_packet)
              (rewind-Kept p.sequence s t (ground (arith, first, t.ends)))
      ]
      | inr none_of ↦ rw (other, none_of, on_packet) ((t, full), omega arith, refl)
    ]
  ]
    where
      first : front.sequence ≡ t.base
      first = front_of t.base t.count front rest (sym t.window ∙ e)

      full : s.window ≢ []
      full w = cc

      again : All (IsServed os content b) s.window
      again = rw t.window (pieces-IsServed os content b t.base t.count)

  at_front-Kept :
      (p : Packet) (l : List Packet) (s : Server)
      → Sending os content b top s
      → 0 < b
      → s.window ≡ l
      → s.window ≢ []
      → Returns (Kept s) (at_front os p l s)
  unfolding at_front
  at_front-Kept p [] s t pos e n = absurd (n e)
  at_front-Kept p (front ∷ rest) s t pos e n = on_packet-Kept p front rest s t pos e

  pub on_received-Kept :
      (s : Server) (x : Received × ℕ × Channel)
      → Effect os Any s.retries s.net x
      → Sending os content b top s
      → 0 < b
      → s.window ≢ []
      → Returns (Kept s) (on_received os x s)
  unfolding on_received
  on_received-Kept s (failed, r, net) f t pos n = (rw f.kept t.sent, omega arith, refl)
  on_received-Kept s (rejected, r, net) f t pos n =
      (Sending-net net r s.out_buf t t.out (rw f.kept t.sent), omega arith, refl)
  on_received-Kept s (accepted p, r, net) f t pos n =
      at_front-Kept p s.window (record s { net = net; retries = r })
        (Sending-net net r s.out_buf t t.out (rw f.kept t.sent)) pos refl n
