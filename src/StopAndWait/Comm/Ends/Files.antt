-- ===== src/StopAndWait/Comm/Ends/Files.antt =====
-- Stop and Wait (TCP)/server.c, `client_comm`: the part for files.
use cpe464_fileserver.Base.{
  ℕ, ◌*◌, ◌<◌, ◌≡◌, ◌≢◌, refl, sym, ap, subst, ◌∙◌, inl, inr, Bool, true, false, List, ◌++◌, Option,
  none, some, arith, Bool-cases, if_true, if_false, if_either, Option-cases, ltb, length, Ends,
  Ends->>=,
}
use cpe464_fileserver.Platform.{Platform}
use cpe464_fileserver.Packet.{Packet, seal, pkt_dmax}
use cpe464_fileserver.StopAndWait.Comm.{
  Missing, Comm, prepare, read_part, file_part, file_to_packet,
}
use cpe464_fileserver.StopAndWait.Comm.Ends.States.{
  TellsApart, Opening, Due, Goes, Piece, left_idle, add_offset_kept,
}

module _ (os : Platform) (missing : Missing) (apart : TellsApart missing) where
  pub file_to_packet-Piece :
      (fd at sequence size : ℕ) (p : Packet)
      → Ends Piece (file_to_packet os missing fd at sequence size p)
  unfolding file_to_packet seal
  file_to_packet-Piece fd at sequence size p = elim (Option-cases (os.read_at fd at size)) [
    | inl e ↦ rw (e, file_to_packet) tt
    | inr (bytes, e) ↦
        rw (e, file_to_packet) (if_either (Ends Piece) (ltb pkt_dmax (length bytes)) _ _ tt refl)
  ]

  pub prepare-Goes :
      (n : ℕ) (r : Option (List ℕ × Packet)) (c : Comm)
      → c.status.info_init ≡ false
      → c.saved_packet.type ≢ missing.pkt_type_ack
      → 2 * length c.inbox < n
      → Piece r
      → Goes missing n (prepare os missing r c)
  unfolding prepare
  prepare-Goes n none c i s h u = tt
  prepare-Goes n (some (bytes, p)) c i s h u =
      let kept = add_offset_kept (length bytes) c in
      (
        inl (record {
          init = i;
          out = λ e. apart.not_data (sym e ∙ u);
          saved = λ e. s (sym (ap (λ q. q.type) kept.0) ∙ e);
          busy = inr (inl refl);
        }),
        ground (arith, ap length kept.2, i, h),
      )

  pub read_part-Goes :
      (n : ℕ) (f : Option ℕ) (c : Comm)
      → c.status.info_init ≡ false
      → c.saved_packet.type ≢ missing.pkt_type_ack
      → 2 * length c.inbox < n
      → c.status.next_data ≡ true
      → Ends (Goes missing n) (read_part os missing f c)
  unfolding read_part
  read_part-Goes n none c i s h e = tt
  read_part-Goes n (some fd) c i s h e =
      subst (Ends (Goes missing n)) (sym (if_true c.status.next_data _ _ e)) (
        Ends->>= Piece (Goes missing n) _ (λ r u. prepare-Goes n r c i s h u) _
          (file_to_packet-Piece fd c.position c.sequence c.buffer_size c.out_packet))

  pub file_part-Due :
      (n : ℕ) (ok : Bool) (c : Comm)
      → Due missing c
      → 2 * length c.inbox < n
      → Ends (Goes missing n) (file_part os missing ok c)
  unfolding file_part
  file_part-Due n ok c d h = elim (Bool-cases c.status.expect_info) [
    | inl e ↦ subst (Ends (Goes missing n)) (sym (if_true c.status.expect_info _ _ e)) (
      inl (record { init = d.init; out = d.out; saved = d.saved; busy = inl e }),
      omega (arith, left_idle c d.init, h),
    )
    | inr e ↦
        subst (Ends (Goes missing n))
          (sym (if_false c.status.expect_info _ _ e ∙ if_false c.status.info_init _ _ d.init))
          (elim d.busy [
            | inl x ↦
                subst (Ends (Goes missing n)) (sym (if_true c.status.next_data _ _ x))
                  (read_part-Goes n c.from c d.init d.saved h x)
            | inr r ↦ elim (Bool-cases c.status.next_data) [
              | inl x ↦
                  subst (Ends (Goes missing n)) (sym (if_true c.status.next_data _ _ x))
                    (read_part-Goes n c.from c d.init d.saved h x)
              | inr x ↦ subst (Ends (Goes missing n)) (sym (if_false c.status.next_data _ _ x)) (
                inl (record { init = d.init; out = d.out; saved = d.saved; busy = inr (inr r) }),
                omega (arith, left_idle c d.init, h),
              )
            ]
          ])
  ]

  pub fresh_part :
      (n : ℕ) (ok : Bool) (o : Option ℕ) (c : Comm)
      → Opening missing c
      → 2 * length c.inbox < n
      → os.open_rdonly (c.name ++ missing.heap_tail) ≡ o
      → Ends (Goes missing n) (file_part os missing ok c)
  unfolding file_part
  fresh_part n ok none c f h o = rw (f.info, f.init, o, file_part) tt
  fresh_part n true (some fd) c f h o =
      rw (f.info, f.init, o, file_part)
        (read_part-Goes n (some fd)
          (record c {
            from = some fd;
            position = 0;
            status = record (c.status) { info_init = false; next_data = true };
          })
          refl f.saved h refl)
  fresh_part n false (some fd) c f h o = rw (f.info, f.init, o, file_part) tt
