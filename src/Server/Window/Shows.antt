-- ===== src/Server/Window/Shows.antt =====
-- Server.cpp, `mvWindow`: what it holds, seen as the abstract window.
use cpe464_fileserver.Base.{
  ℕ, zero, suc, ◌+◌, ◌-◌, ◌≤◌, ◌≡◌, refl, sym, ap, ◌∙◌, inl, inr, ◌⊎◌, ◌++◌, Bool, true, false,
  List, [], arith, length,
}
use cpe464_fileserver.Platform.{Platform}
use cpe464_fileserver.Server.{Server, State, init, error, done, fill_window, send_window, wait_rr}
use cpe464_fileserver.Server.Window.Pieces.{pieces}
use cpe464_fileserver.Server.Window.Spec.{Word, front}
use cpe464_fileserver.Server.Window.Words.{said}

-- In front of `sendWindow` and `waitRR` the window is full.
unfoldable pub is_filled : State → Bool
is_filled init = false
is_filled error = false
is_filled done = false
is_filled fill_window = false
is_filled send_window = true
is_filled wait_rr = true

module _ (os : Platform) (content : List ℕ) (b : ℕ) where
  pub length-pieces : (q n : ℕ) → length (pieces os content b q n) ≡ n
  unfolding pieces
  length-pieces q zero = refl
  length-pieces q (suc n) = omega (arith, length-pieces (suc q) n)

  -- In the state `st` the server's window of at most `w` packets begins at `base`.
  pub record Shows (w base : ℕ) (st : State) (s : Server) : Type 0 where
    pub ordered : base ≤ s.sequence
    pub within : s.sequence ≤ base + w
    pub full : is_filled st ≡ true → s.sequence ≡ base + w
    pub window : s.window ≡ pieces os content b base (s.sequence - base)

  -- A step that leaves the arrivals alone.
  abbrev pub Stays : ℕ → ℕ → Server → State × Server → Type 0
  Stays w base s r = (r.0 ≡ error) ⊎ (Shows w base r.0 r.1 × (r.1.net.arrivals ≡ s.net.arrivals))

  -- A step hears some words, and the window begins where they lead to, unless it met an error.
  abbrev pub Moves : ℕ → ℕ → Server → State × Server → Type 0
  Moves w base s r =
      (r.0 ≡ error)
      ⊎ ((l : List Word) × (said os s.net.arrivals ≡ l ++ said os r.1.net.arrivals)
          × Shows w (front w base l) r.0 r.1)

  pub Stays-Moves :
      (w base : ℕ) (s : Server) (r : State × Server) → Stays w base s r → Moves w base s r
  unfolding front
  Stays-Moves w base s r (inl e) = inl e
  Stays-Moves w base s r (inr (h, e)) = inr ([], ap (said os) (sym e), h)

  pub filled_still :
      (w base : ℕ) (st : State) (s d : Server)
      → Shows w base wait_rr s
      → d.sequence ≡ s.sequence
      → d.window ≡ s.window
      → Shows w base st d
  unfolding is_filled
  filled_still w base st s d h e f = record {
    ordered = omega (arith, h.ordered, e);
    within = omega (arith, h.within, e);
    full = λ x. e ∙ h.full refl;
    window = f ∙ h.window ∙ ap (λ n. pieces os content b base (n - base)) (sym e);
  }
