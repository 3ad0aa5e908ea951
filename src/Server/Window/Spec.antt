-- ===== src/Server/Window/Spec.antt =====
-- What the window of the server is meant to do, without packets: which number is at its front.
use cpe464_fileserver.Base.{ℕ, ◌+◌, ◌≡◌, refl, List, [], ◌∷◌, ◌++◌, leb, min, if◌then◌else◌}

-- What a client says: it has all pieces up to a number, or it asks for the piece with a number.
pub data Word : Type 0 where
  has asks : ℕ → Word

-- The front after one word, for a full window of `w` pieces from `base` on. A client that has more
-- empties the window, and one that asks for an earlier piece moves it back.
unfoldable pub moved : ℕ → ℕ → Word → ℕ
moved w base (has q) = if leb base q then min (base + w) (q + 1) else base
moved w base (asks q) = if leb base q then base else q

-- The front after all of a conversation.
unfoldable pub front : ℕ → ℕ → List Word → ℕ
front w base [] = base
front w base (x ∷ more) = front w (moved w base x) more

pub front-append :
    (w base : ℕ) (l m : List Word) → front w base (l ++ m) ≡ front w (front w base l) m
unfolding front
front-append w base [] m = refl
front-append w base (x ∷ l) m = front-append w (moved w base x) l m
