-- ===== src/Client/Recv/Writes.antt =====
-- Client.cpp, `writeTo`: what the call of `write` changes.
use cpe464_fileserver.Base.{ℕ, ◌≡◌, refl, Bool, true, false, List, [], ◌∷◌, ◌++◌, if◌then◌else◌}
use cpe464_fileserver.Client.{Client, write_by}

-- What `write` changes: the file, if the call succeeds, and the list of outcomes.
pub record Wrote (bytes : List ℕ) (c : Client) (r : Bool × Client) : Type 0 where
  pub written : r.1.written ≡ (if r.0 then c.written ++ bytes else c.written)
  pub sequence : r.1.sequence ≡ c.sequence
  pub buffer : r.1.buffer_size ≡ c.buffer_size
  pub retries : r.1.retries ≡ c.retries
  pub net : r.1.net ≡ c.net

pub write_by-Wrote :
    (rs : List Bool) (bytes : List ℕ) (c : Client) → Wrote bytes c (write_by rs bytes c)
unfolding write_by
write_by-Wrote [] bytes c = record {
  written = refl;
  sequence = refl;
  buffer = refl;
  retries = refl;
  net = refl;
}
write_by-Wrote (true ∷ rs) bytes c = record {
  written = refl;
  sequence = refl;
  buffer = refl;
  retries = refl;
  net = refl;
}
write_by-Wrote (false ∷ rs) bytes c = record {
  written = refl;
  sequence = refl;
  buffer = refl;
  retries = refl;
  net = refl;
}
