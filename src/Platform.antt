-- ===== src/Platform.antt =====
-- What the programs call and do not implement: `in_cksum` of the course library
-- (Go Back N (UDP)/cpe464.h), the byte order functions, and the files of the system.
use cpe464_fileserver.Base.{ℕ, ◌≡◌, Option, some, List, take, drop}
use cpe464_fileserver.Base.{Bool, true}

-- A file name and a file's content are lists of bytes. The position of a descriptor is kept by the
-- caller of `read_at`, so `read(fd, buf, n)` at position `at` is `read_at fd at n`.
pub record Platform : Type 0 where
  pub in_cksum : List ℕ → ℕ
  pub htons : ℕ → ℕ
  pub htonl : ℕ → ℕ
  pub ntohl : ℕ → ℕ
  pub open_rdonly : List ℕ → Option ℕ
  pub read_at : ℕ → ℕ → ℕ → Option (List ℕ)
  pub lseek_set : ℕ → ℕ → Bool

-- Reads of a regular file that nobody changes: `read` gives the bytes that are there, at most as
-- many as asked for, and `lseek` to any offset succeeds.
pub record IsFile (os : Platform) (fd : ℕ) (content : List ℕ) : Type 0 where
  pub reads : (at n : ℕ) → os.read_at fd at n ≡ some (take n (drop at content))
  pub seeks : (at : ℕ) → os.lseek_set fd at ≡ true
