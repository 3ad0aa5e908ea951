-- ===== src/StopAndWait/Rcopy/Pieces.antt =====
-- Stop and Wait (TCP)/rcopy.c: a data packet is written to the target.
use cpe464_fileserver.Base.{
  ℕ, ◌+◌, ◌*◌, ◌^◌, ◌≤◌, ◌<◌, ◌≡◌, refl, sym, ap, ap₂, ◌∙◌, subst, inl, inr, Bool, true, false,
  ◌||◌, not, List, [], ◌∷◌, ◌++◌, Option, none, some, All, arith, length, length-take, take,
  take-all, suc, ltb, ◌==◌, Bool-cases, if_true, if_false, if_either, Returns,
}
use cpe464_fileserver.Platform.{Platform}
use cpe464_fileserver.Packet.{Packet, verifies, pkt_type_dat, pkt_dmax}
use cpe464_fileserver.File.{piece, length-piece, take-suc_pieces, last_piece}
use cpe464_fileserver.StopAndWait.Comm.{Missing}
use cpe464_fileserver.StopAndWait.Rcopy.{
  Rcopy, Flags, send_err, write_bytes, restore, transmit_part, on_ack, on_written, on_piece,
  on_packet,
}

module _ (os : Platform) (content : List ℕ) (b : ℕ) where
  -- A result of `recv`: a data packet with a good checksum and a number of the file's pieces holds
  -- that piece.
  abbrev pub Brings : Option Packet → Type 0
  Brings none = Unit
  Brings (some p) =
      (q : ℕ)
      → q < 2 ^ 32
      → verifies os p ≡ true
      → p.type ≡ pkt_type_dat
      → p.sequence ≡ os.htonl q
      → (p.size ≡ length (piece content b q)) × (take p.size p.payload ≡ piece content b q)

  -- The target holds the pieces before `sequence`, and the whole file if `END` is set.
  pub record Writing (buffer_size : ℕ) (written : List ℕ) (at_end : Bool) (results : List Bool)
      (sequence : ℕ) (inbox : List (Option Packet)) : Type 0 where
    pub buffer : buffer_size ≡ b
    pub pieces : written ≡ take (b * sequence) content
    pub whole : at_end ≡ true → written ≡ content
    pub succeed : results ≡ []
    pub small : sequence + length inbox < 2 ^ 32
    pub brings : All Brings inbox

  abbrev pub Holds : Rcopy → Type 0
  Holds c = Writing c.buffer_size c.written c.status.at_end c.write_results c.sequence c.inbox

  module _ (missing : Missing) (fits : b ≤ pkt_dmax) where
    sent-Holds :
        (l : List Bool) (c : Rcopy) (f : Flags)
        → Holds c
        → f.at_end ≡ c.status.at_end
        → Holds (record (send_err l c) { status = f })
    unfolding send_err
    sent-Holds [] c f h e =
        subst (λ t. Writing c.buffer_size c.written t c.write_results c.sequence c.inbox) (sym e) h
    sent-Holds (true ∷ l) c f h e =
        subst (λ t. Writing c.buffer_size c.written t c.write_results c.sequence c.inbox) (sym e) h
    sent-Holds (false ∷ l) c f h e =
        subst (λ t. Writing c.buffer_size c.written t c.write_results c.sequence c.inbox) (sym e) h

    pub transmit_part-Holds : (c : Rcopy) → Holds c → Holds (transmit_part os missing c).0
    unfolding transmit_part
    transmit_part-Holds c h =
        if_either {A = Rcopy × Bool} (λ r. Holds r.0) c.status.transmit _ _
          (if_either {A = Rcopy × Bool} (λ r. Holds r.0) (c.out_packet.type == missing.pkt_type_ack)
            _ _
            (sent-Holds c.send_results c
              (record (c.status) { transmit = false; quit = c.status.quit || c.status.at_end }) h
              refl)
            (sent-Holds c.send_results c
              (record (c.status) {
                transmit = false;
                receive = true;
                expect_ack = c.status.expect_ack || not (c.out_packet.type == missing.pkt_type_ret);
              })
              h refl))
          h

    pub restore-Holds : (ret : ℕ) (c : Rcopy) → Holds c → Holds (restore ret c)
    unfolding restore
    restore-Holds ret c h = if_either Holds (c.out_packet.type == ret) _ _ h h

    pub restore-room :
        (ret : ℕ) (c : Rcopy)
        → c.sequence + 1 + length c.inbox < 2 ^ 32
        → (restore ret c).sequence + 1 + length (restore ret c).inbox < 2 ^ 32
    unfolding restore
    restore-room ret c h =
        if_either {A = Rcopy} (λ d. d.sequence + 1 + length d.inbox < 2 ^ 32)
          (c.out_packet.type == ret) _ _ h h

    -- The next piece was written.
    on_written-Holds :
        (l : List Bool) (p : Packet) (c : Rcopy)
        → l ≡ []
        → Holds c
        → c.sequence + 1 + length c.inbox < 2 ^ 32
        → p.size ≡ length (piece content b c.sequence)
        → take p.size p.payload ≡ piece content b c.sequence
        → Holds (on_written os missing p (write_bytes l (take p.size p.payload) c))
    unfolding on_written write_bytes
    on_written-Holds (x ∷ l) p c e h room size bytes = absurd (cc)
    on_written-Holds [] p c e h room size bytes = record {
      buffer = h.buffer;
      pieces = longer ∙ ap (λ q. take (b * q) content) {x = suc c.sequence} (omega arith);
      whole = λ ended. elim (Bool-cases c.status.at_end) [
        | inl before ↦
            longer ∙ take-all (b * suc c.sequence) content (omega (arith, reached before))
        | inr first ↦
            ap₂ (λ x y. x ++ y) h.pieces bytes
            ∙ last_piece content b c.sequence (ground (arith, size, h.buffer))
      ];
      succeed = h.succeed;
      small = omega arith;
      brings = h.brings;
    }
      where
        longer : c.written ++ take p.size p.payload ≡ take (b * suc c.sequence) content
        longer = ap₂ (λ x y. x ++ y) h.pieces bytes ∙ sym (take-suc_pieces content b c.sequence)

        reached : c.status.at_end ≡ true → length content ≤ b * c.sequence
        reached t = omega (
          arith,
          length-take (b * c.sequence) content,
          ap (length {A = ℕ}) (sym h.pieces ∙ h.whole t),
        )

    on_piece-Holds :
        (p : Packet) (c : Rcopy)
        → Holds c
        → c.sequence + 1 + length c.inbox < 2 ^ 32
        → Brings (some p)
        → verifies os p ≡ true
        → p.type ≡ pkt_type_dat
        → Returns Holds (on_piece os missing p c)
    unfolding on_piece
    on_piece-Holds p c h room g v t = elim (Bool-cases (os.htonl c.sequence == p.sequence)) [
      | inl same ↦
          let held = g c.sequence (omega arith) v t (ground arith) in
          let fit : ltb pkt_dmax p.size ≡ false =
            ground (arith, held.0, length-piece content b c.sequence) in
          subst (Returns Holds) (sym (if_true _ _ _ same ∙ if_false _ _ _ fit))
            (on_written-Holds c.write_results p c h.succeed h room held.0 held.1)
      | inr other ↦ subst (Returns Holds) (sym (if_false _ _ _ other)) h
    ]

    pub on_packet-Holds :
        (p : Packet) (c : Rcopy)
        → Holds c
        → c.sequence + 1 + length c.inbox < 2 ^ 32
        → Brings (some p)
        → verifies os p ≡ true
        → Returns Holds (on_packet os missing p c)
    unfolding on_packet on_ack
    on_packet-Holds p c h room g v =
        if_either (Returns Holds) (p.type == missing.pkt_type_ack) _ _ (if_either Holds _ _ _ h h) (
          if_either (Returns Holds) (p.type == missing.pkt_type_ret) _ _ h
            (elim (Bool-cases (p.type == pkt_type_dat)) [
              | inl is ↦
                  subst (Returns Holds) (sym (if_true _ _ _ is))
                    (on_piece-Holds p c h room g v (ground arith))
              | inr other ↦ subst (Returns Holds) (sym (if_false _ _ _ other)) h
            ]))
