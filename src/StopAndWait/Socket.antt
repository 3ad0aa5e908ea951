-- ===== src/StopAndWait/Socket.antt =====
-- Stop and Wait (TCP)/server.c, `findsocket` and `connect_to_client`: the socket to listen on.
use cpe464_fileserver.Base.{
  ℕ, suc, ◌≡◌, refl, ◌⊎◌, inl, inr, Bool, true, false, List, [], ◌∷◌, Option, none, some,
}

-- One address of the list that `getaddrinfo` gives, with what the calls return for it: `socket`
-- (`none` is -1), and whether `setsockopt` and `bind` succeed.
pub record Attempt : Type 0 where
  pub socket : Option ℕ
  pub option_set : Bool
  pub bound : Bool

-- What `findsocket` returns. `refused` is -1 with `conninfo` not written; `exhausted` is -1 with
-- the null pointer in `conninfo`; `chosen` has the address's place in the list and the socket.
pub data Found : Type 0 where
  refused exhausted : Found
  chosen : ℕ → ℕ → Found

-- `findsocket`, where `i` is the place of the first address of the list.
unfoldable pub find_socket : ℕ → List Attempt → Found
find_socket i [] = exhausted
find_socket i (a ∷ more) =
    let rest = find_socket (suc i) more in
    elim a.socket [
      | none ↦ rest
      | some fd ↦ elim a.option_set [
        | false ↦ refused
        | true ↦ elim a.bound [ true ↦ chosen i fd | false ↦ rest ]
      ]
    ]

socket_of : Found → Option ℕ
socket_of refused = none
socket_of exhausted = none
socket_of (chosen i fd) = some fd

-- `none` is -1, of `getaddrinfo` and of `connect_to_client`.
unfoldable pub connect_to_client : Option (List Attempt) → Option ℕ
unfolding find_socket socket_of
connect_to_client none = none
connect_to_client (some addresses) = socket_of (find_socket 0 addresses)

-- An address that the loop passes over: no socket, or a socket that cannot be bound.
abbrev pub IsSkipped : Attempt → Type 0
IsSkipped a = (a.socket ≡ none) ⊎ ((a.option_set ≡ true) × (a.bound ≡ false))

-- The first address of the list that is not passed over has the socket `fd`.
abbrev pub IsFirst : List Attempt → ℕ → Type 0
IsFirst [] fd = ⊥
IsFirst (a ∷ more) fd =
    ((a.socket ≡ some fd) × (a.option_set ≡ true) × (a.bound ≡ true))
    ⊎ (IsSkipped a × IsFirst more fd)

picked_at :
    (i : ℕ) (s : Option ℕ) (o b : Bool) (more : List Attempt) (fd : ℕ)
    → ((j : ℕ) → socket_of (find_socket j more) ≡ some fd → IsFirst more fd)
    → socket_of (find_socket i (record { socket = s; option_set = o; bound = b } ∷ more)) ≡ some fd
    → IsFirst (record { socket = s; option_set = o; bound = b } ∷ more) fd
unfolding socket_of find_socket
picked_at i none o b more fd ih h = inr (inl refl, ih (suc i) h)
picked_at i (some k) false b more fd ih h = absurd (cc)
picked_at i (some k) true false more fd ih h = inr (inr (refl, refl), ih (suc i) h)
picked_at i (some k) true true more fd ih h = inl (h, refl, refl)

picked : (i : ℕ) (l : List Attempt) (fd : ℕ) → socket_of (find_socket i l) ≡ some fd → IsFirst l fd
unfolding socket_of find_socket
picked i [] fd h = absurd (cc)
picked i (a ∷ more) fd h =
    picked_at i a.socket a.option_set a.bound more fd (λ j g. picked j more fd g) h

-- When `connect_to_client` returns a socket, `getaddrinfo` gave addresses, and the socket is that
-- of the first one that can be bound: of those before it either no socket was made or the socket
-- could not be bound, and `setsockopt` failed for none.
pub connect_to_client-IsFirst :
    (addresses : Option (List Attempt)) (fd : ℕ)
    → connect_to_client addresses ≡ some fd
    → (l : List Attempt) × ((addresses ≡ some l) × IsFirst l fd)
unfolding connect_to_client
connect_to_client-IsFirst none fd h = absurd (cc)
connect_to_client-IsFirst (some l) fd h = (l, (refl, picked 0 l fd h))
