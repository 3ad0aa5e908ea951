-- ===== src/StopAndWait/Rcopy/Writes.antt =====
-- Stop and Wait (TCP)/rcopy.c: what the client's loop writes to its target.
use cpe464_fileserver.Base.{
  ℕ, ◌+◌, ◌*◌, ◌^◌, ◌≤◌, ◌<◌, ◌≡◌, refl, sym, ap, ◌∙◌, subst, inl, inr, true, false, List, [], ◌∷◌,
  Option, none, some, All, arith, length, take, suc, leb, Bool-cases, if_true, if_false, if_either,
  defined, Returns, Returns->>=,
}
use cpe464_fileserver.Platform.{Platform}
use cpe464_fileserver.Packet.{Packet, verifies, pkt_dmax, pkt_trnsmax}
use cpe464_fileserver.File.{take-zero, no_pieces}
use cpe464_fileserver.StopAndWait.Comm.{Missing}
use cpe464_fileserver.StopAndWait.Rcopy.{
  Rcopy, Turn, again, waiting, leave, restore, transmit_part, on_bad_checksum, on_recv, rcopy_turn,
  Reached, start, next,
}
use cpe464_fileserver.StopAndWait.Rcopy.Pieces.{
  Brings, Holds, transmit_part-Holds, restore-Holds, restore-room, on_packet-Holds,
}

module _ (os : Platform) (content : List ℕ) (b : ℕ) where
  abbrev pub AfterTurn : Turn → Type 0
  AfterTurn (again c) = (Holds os content b) c
  AfterTurn (waiting c) = (Holds os content b) c
  AfterTurn (leave status c) = (Holds os content b) c

  module _ (missing : Missing) (fits : b ≤ pkt_dmax) where
    -- The next result of `recv` is taken off the inbox.
    popped :
        (r : Option Packet) (more : List (Option Packet)) (c : Rcopy)
        → c.inbox ≡ r ∷ more
        → (Holds os content b) c
        → (Brings os content b) r
          × (c.sequence + 1 + length more < 2 ^ 32)
          × (Holds os content b) (record c { inbox = more })
    popped r more c e h =
        let all : All (Brings os content b) (r ∷ more) =
          subst (All (Brings os content b)) e h.brings in
        let shorter : length c.inbox ≡ suc (length more) = ap (length {A = Option Packet}) e in
        (
          all.0,
          omega (arith, h.small, shorter),
          record {
            buffer = h.buffer;
            pieces = h.pieces;
            whole = h.whole;
            succeed = h.succeed;
            small = omega (arith, h.small, shorter);
            brings = all.1;
          },
        )

    on_recv-Holds :
        (l : List (Option Packet)) (c : Rcopy)
        → c.inbox ≡ l
        → (Holds os content b) c
        → Returns AfterTurn (on_recv os missing l c)
    unfolding on_recv on_bad_checksum
    on_recv-Holds [] c e h = h
    on_recv-Holds (none ∷ more) c e h = (popped none more c e h).2
    on_recv-Holds (some p ∷ more) c e h =
        let (g, room, d) = popped (some p) more c e h in
        elim (Bool-cases (verifies os p)) [
          | inl good ↦ subst (Returns AfterTurn) (sym (if_true _ _ _ good)) (
              Returns->>= (Holds os content b) AfterTurn (λ x. defined (again x)) (λ x held. held) _
                (on_packet-Holds os content b missing fits p
                  (restore missing.pkt_type_ret (record c { inbox = more }))
                  (restore-Holds os content b missing fits missing.pkt_type_ret
                    (record c { inbox = more }) d)
                  (restore-room os content b missing fits missing.pkt_type_ret
                    (record c { inbox = more }) room)
                  g good))
          | inr bad ↦ subst (Returns AfterTurn) (sym (if_false _ _ _ bad)) d
        ]

    rcopy_turn-Holds :
        (c : Rcopy) → (Holds os content b) c → Returns AfterTurn (rcopy_turn os missing c)
    unfolding rcopy_turn
    rcopy_turn-Holds c h =
        let d = transmit_part-Holds os content b missing fits c h in
        if_either (Returns AfterTurn) (leb pkt_trnsmax c.retries) _ _ h (
          if_either (Returns AfterTurn) (transmit_part os missing c).1 _ _ d
            (on_recv-Holds _ (transmit_part os missing c).0 refl d))

    Reached-Holds :
        {c₀ c : Rcopy} → Reached os missing c₀ c → (Holds os content b) c₀ → (Holds os content b) c
    Reached-Holds start h = h
    Reached-Holds (next {c} r e) h =
        subst (Returns AfterTurn) e (rcopy_turn-Holds c (Reached-Holds r h))

    -- Let the loop start with number 0, an empty target and `END` not set, let pieces have at most
    -- 1400 bytes and fewer than 2^32 packets arrive, and let calls of `write` succeed. If each data
    -- packet with a good checksum and the number of a piece holds that piece, in any order and any
    -- number of times, then in every iteration the target holds the pieces before the current
    -- number, the whole file if `END` is set, and the iteration has no undefined behaviour.
    pub Reached-writes :
        {c₀ c : Rcopy}
        → Reached os missing c₀ c
        → c₀.buffer_size ≡ b
        → c₀.sequence ≡ 0
        → c₀.written ≡ []
        → c₀.status.at_end ≡ false
        → c₀.write_results ≡ []
        → length c₀.inbox < 2 ^ 32
        → All (Brings os content b) c₀.inbox
        → (c.written ≡ take (b * c.sequence) content)
          × (c.status.at_end ≡ true → c.written ≡ content)
          × Returns AfterTurn (rcopy_turn os missing c)
    Reached-writes {c₀} {c} r size q w f results small brings =
        (held.pieces, held.whole, rcopy_turn-Holds c held)
      where
        held : (Holds os content b) c
        held = Reached-Holds r (record {
          buffer = size;
          pieces = w ∙ sym (take-zero content b (no_pieces b q));
          whole = λ e. cc;
          succeed = results;
          small = omega arith;
          brings = brings;
        })
