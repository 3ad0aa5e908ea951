-- ===== src/File.antt =====
-- The specification of a transfer: a file cut into pieces of `buffer_size` bytes, numbered from 0.
use cpe464_fileserver.Base.{
  ℕ, suc, ◌+◌, ◌*◌, ◌-◌, ◌≤◌, ◌<◌, ◌≡◌, refl, ap, ◌∙◌, List, [], ◌++◌, arith, length, take, drop,
  min, length-take, length-drop, take-add, take-all, take-append-drop,
}
use cpe464_fileserver.Packet.{Packet, pkt_type_dat}

-- The bytes of piece number `q`, which is shorter or empty at the end of the file.
abbrev pub piece : List ℕ → ℕ → ℕ → List ℕ
piece content buffer_size q = take buffer_size (drop (buffer_size * q) content)

-- A data packet that carries the piece of its sequence number.
pub record IsPiece (content : List ℕ) (buffer_size : ℕ) (p : Packet) : Type 0 where
  pub data_type : p.type ≡ pkt_type_dat
  pub sized : p.size ≡ length (piece content buffer_size p.sequence)
  pub bytes : take p.size p.payload ≡ piece content buffer_size p.sequence

-- `w` is a beginning of the file.
abbrev pub IsStart : List ℕ → List ℕ → Type 0
IsStart content w = take (length w) content ≡ w

pub no_pieces : (b : ℕ) {q : ℕ} → q ≡ 0 → b * q ≡ 0
no_pieces b e = rw e (omega arith)

module _ (content : List ℕ) (b : ℕ) where
  pub length-piece : (q : ℕ) → length (piece content b q) ≡ min b (length content - b * q)
  length-piece q =
      length-take b (drop (b * q) content) ∙ ap (λ n. min b n) (length-drop (b * q) content)

  -- The first `q + 1` pieces.
  pub take-suc_pieces :
      (q : ℕ) → take (b * suc q) content ≡ take (b * q) content ++ piece content b q
  take-suc_pieces q =
      let e : b * suc q ≡ b * q + b = omega arith in rw e (take-add (b * q) b content)

  -- A piece that is not full is the end of the file.
  pub last_piece :
      (q : ℕ) → length (piece content b q) < b → take (b * q) content ++ piece content b q ≡ content
  last_piece q h =
      ap (λ l. take (b * q) content ++ l)
        (take-all b (drop (b * q) content)
          (omega (arith, length-piece q, length-drop (b * q) content)))
      ∙ take-append-drop (b * q) content

  -- A full piece lies within the file.
  pub full_piece : (q : ℕ) → 0 < b → b ≤ length (piece content b q) → b * suc q ≤ length content
  full_piece q pos h = omega (arith, length-piece q)

  pub take-IsStart : (k : ℕ) → k ≤ length content → IsStart content (take k content)
  take-IsStart k h = ap (λ n. take n content) (length-take k content ∙ omega arith)

  pub take-zero : {k : ℕ} → k ≡ 0 → take k content ≡ []
  unfolding take
  take-zero e = rw e refl
