-- ===== src/StopAndWait/Comm/Flags.antt =====
-- Stop and Wait (TCP)/server.c, `status` and `printFlags`: the byte of flags, and the record for it.
use Prim.Native.Nat.{bit_and, bit_or}
use cpe464_fileserver.Base.{
  ℕ, zero, suc, ◌+◌, ◌-◌, ◌^◌, ◌<◌, ◌≡◌, refl, Bool, true, false, not, ◌&&◌, arith, if◌then◌else◌,
  ltb, ltb→lt, ◌==◌, ==_iff,
}
use cpe464_fileserver.StopAndWait.Comm.{Status}

-- The places of the bits.
abbrev pub quit_bit : ℕ
quit_bit = 0

abbrev pub expect_ack_bit : ℕ
expect_ack_bit = 1

abbrev pub expect_info_bit : ℕ
expect_info_bit = 2

abbrev pub info_init_bit : ℕ
info_init_bit = 3

abbrev pub transmit_bit : ℕ
transmit_bit = 4

abbrev pub receive_bit : ℕ
receive_bit = 5

abbrev pub next_data_bit : ℕ
next_data_bit = 6

abbrev pub retransmit_bit : ℕ
retransmit_bit = 7

-- `status & (1 << bit)`
unfoldable pub test_bit : ℕ → ℕ → Bool
test_bit bit status = not (bit_and status (2 ^ bit) == 0)

-- `status |= 1 << bit`
unfoldable pub set_bit : ℕ → ℕ → ℕ
set_bit bit status = bit_or status (2 ^ bit)

-- `status &= ~(1 << bit)`, of a byte.
unfoldable pub clear_bit : ℕ → ℕ → ℕ
clear_bit bit status = bit_and status (255 - 2 ^ bit)

-- What `printFlags` prints for a byte: "yes" or "no" for each flag.
unfoldable pub print_flags : ℕ → Status
unfolding test_bit
print_flags flags = record {
  quit = test_bit quit_bit flags;
  expect_ack = test_bit expect_ack_bit flags;
  expect_info = test_bit expect_info_bit flags;
  info_init = test_bit info_init_bit flags;
  transmit = test_bit transmit_bit flags;
  receive = test_bit receive_bit flags;
  next_data = test_bit next_data_bit flags;
  retransmit = test_bit retransmit_bit flags;
}

-- The byte with these flags.
pub byte_of : Status → ℕ
byte_of s =
    (if s.quit then 1 else 0)
    + (if s.expect_ack then 2 else 0)
    + (if s.expect_info then 4 else 0)
    + (if s.info_init then 8 else 0)
    + (if s.transmit then 16 else 0)
    + (if s.receive then 32 else 0)
    + (if s.next_data then 64 else 0)
    + (if s.retransmit then 128 else 0)

-- One field of the record.
pub with_flag : ℕ → Bool → Status → Status
with_flag bit value s = record {
  quit = if bit == quit_bit then value else s.quit;
  expect_ack = if bit == expect_ack_bit then value else s.expect_ack;
  expect_info = if bit == expect_info_bit then value else s.expect_info;
  info_init = if bit == info_init_bit then value else s.info_init;
  transmit = if bit == transmit_bit then value else s.transmit;
  receive = if bit == receive_bit then value else s.receive;
  next_data = if bit == next_data_bit then value else s.next_data;
  retransmit = if bit == retransmit_bit then value else s.retransmit;
}

holds_below : ℕ → (ℕ → Bool) → Bool
holds_below zero test = true
holds_below (suc n) test = if test n then holds_below n test else false

holds_below_lem : (n k : ℕ) (test : ℕ → Bool) → k < n → holds_below n test ≡ true → test k ≡ true
unfolding holds_below
holds_below_lem zero k test h e = absurd (omega arith)
holds_below_lem (suc n) k test h e = ground (arith, holds_below_lem n k test)

same_bool : Bool → Bool → Bool
same_bool true b = b
same_bool false b = not b

same_bool_lem : (a b : Bool) → same_bool a b ≡ true → a ≡ b
unfolding same_bool
same_bool_lem true true e = refl
same_bool_lem true false e = absurd (cc)
same_bool_lem false true e = absurd (cc)
same_bool_lem false false e = refl

and_lem : (a b : Bool) → (a && b) ≡ true → (a ≡ true) × (b ≡ true)
and_lem true b e = (refl, e)
and_lem false b e = absurd (cc)

same_status : Status → Status → Bool
same_status s t =
    same_bool s.quit t.quit
    && (same_bool s.expect_ack t.expect_ack
        && (same_bool s.expect_info t.expect_info
            && (same_bool s.info_init t.info_init
                && (same_bool s.transmit t.transmit
                    && (same_bool s.receive t.receive
                        && (same_bool s.next_data t.next_data
                            && same_bool s.retransmit t.retransmit))))))

same_status_lem : (s t : Status) → same_status s t ≡ true → s ≡ t
unfolding same_status
same_status_lem s t e =
    let a = and_lem _ _ e in
    let b = and_lem _ _ a.1 in
    let c = and_lem _ _ b.1 in
    let d = and_lem _ _ c.1 in
    let f = and_lem _ _ d.1 in
    let g = and_lem _ _ f.1 in
    let h = and_lem _ _ g.1 in
    λ i. record {
      quit = same_bool_lem s.quit t.quit a.0 i;
      expect_ack = same_bool_lem s.expect_ack t.expect_ack b.0 i;
      expect_info = same_bool_lem s.expect_info t.expect_info c.0 i;
      info_init = same_bool_lem s.info_init t.info_init d.0 i;
      transmit = same_bool_lem s.transmit t.transmit f.0 i;
      receive = same_bool_lem s.receive t.receive g.0 i;
      next_data = same_bool_lem s.next_data t.next_data h.0 i;
      retransmit = same_bool_lem s.retransmit t.retransmit h.1 i;
    }

-- Setting and clearing a bit of a byte, on the record.
step_test : ℕ → ℕ → Bool
step_test bit status =
    same_status (print_flags (set_bit bit status)) (with_flag bit true (print_flags status))
    && (same_status (print_flags (clear_bit bit status)) (with_flag bit false (print_flags status))
        && (ltb (set_bit bit status) 256
            && (ltb (clear_bit bit status) 256 && (byte_of (print_flags status) == status))))

step_table : holds_below 8 (λ bit. holds_below 256 (λ status. step_test bit status)) ≡ true
unfolding holds_below step_test same_status same_bool print_flags test_bit set_bit clear_bit
    with_flag byte_of
step_table = refl

step_tested : (bit status : ℕ) → bit < 8 → status < 256 → step_test bit status ≡ true
step_tested bit status h k =
    holds_below_lem 256 status (λ x. step_test bit x) k
      (holds_below_lem 8 bit (λ y. holds_below 256 (λ x. step_test y x)) h step_table)

-- The byte of flags implements the record: for every byte and each of the eight bits, setting the
-- bit sets its flag and no other, clearing it clears its flag and no other, both give a byte again,
-- and the flags that `printFlags` prints determine the byte.
pub bits_refine :
    (bit status : ℕ)
    → bit < 8
    → status < 256
    → (print_flags (set_bit bit status) ≡ with_flag bit true (print_flags status))
      × (print_flags (clear_bit bit status) ≡ with_flag bit false (print_flags status))
      × (set_bit bit status < 256)
      × (clear_bit bit status < 256)
      × (byte_of (print_flags status) ≡ status)
unfolding step_test
bits_refine bit status h k =
    let a = and_lem _ _ (step_tested bit status h k) in
    let b = and_lem _ _ a.1 in
    let c = and_lem _ _ b.1 in
    let d = and_lem _ _ c.1 in
    (
      same_status_lem _ _ a.0,
      same_status_lem _ _ b.0,
      ltb→lt _ _ c.0,
      ltb→lt _ _ d.0,
      (==_iff _ _).0 d.1,
    )
