-- ===== src/StopAndWait/Connect.antt =====
-- Stop and Wait (TCP)/rcopy.c, `findsocket` and `connect_to_server`, and client.cpp, the constructor:
-- the client's socket.
use cpe464_fileserver.Base.{
  ℕ, ◌≡◌, refl, Bool, true, false, List, [], ◌∷◌, ◌++◌, Option, none, some,
}

-- One address of the list that `getaddrinfo` gives, with what the calls return for it: `socket`
-- (`none` is -1), and whether `connect` succeeds. `text` stands for its text form.
pub record Address : Type 0 where
  pub text : ℕ
  pub socket : Option ℕ
  pub connected : Bool

-- `findsocket` of rcopy.c: the address that `conninfo` points to and the socket, or `none` for the
-- null pointer and -1.
unfoldable pub find_socket : List Address → Option (Address × ℕ)
find_socket [] = none
find_socket (a ∷ more) =
    let rest = find_socket more in
    elim a.socket [
      | none ↦ rest
      | some fd ↦ elim a.connected [ true ↦ some (a, fd) | false ↦ rest ]
    ]

-- The socket that was found.
unfoldable pub socket_of : Option (Address × ℕ) → Option ℕ
socket_of none = none
socket_of (some (a, fd)) = some fd

-- `connect_to_server` of rcopy.c. `none` is -1, and an error of `getaddrinfo`.
unfoldable pub connect_to_server : Option (List Address) → Option ℕ
unfolding find_socket socket_of
connect_to_server none = none
connect_to_server (some addresses) = socket_of (find_socket addresses)

-- The loop of the constructor in client.cpp: `mvSocket` when `found` is set, and what `conn` points
-- to afterwards, which is the address behind the one that was found.
unfoldable pub search_socket : List Address → Option (ℕ × List Address)
search_socket [] = none
search_socket (a ∷ more) =
    let rest = search_socket more in
    elim a.socket [
      | none ↦ rest
      | some fd ↦ elim a.connected [ true ↦ some (fd, more) | false ↦ rest ]
    ]

-- After the loop: `none` is the exception, for `conn == NULL || !found`.
unfoldable pub finish_client : Option (ℕ × List Address) → Option (ℕ × ℕ)
finish_client none = none
finish_client (some (fd, [])) = none
finish_client (some (fd, a ∷ more)) = some (fd, a.text)

-- The constructor: `mvSocket` and `mvServLabel`.
unfoldable pub construct_client : Option (List Address) → Option (ℕ × ℕ)
unfolding search_socket finish_client
construct_client none = none
construct_client (some addresses) = finish_client (search_socket addresses)

-- `mvSocket`, if the constructor has not thrown an exception.
abbrev pub client_socket : Option (ℕ × ℕ) → Option ℕ
client_socket none = none
client_socket (some (fd, label)) = some fd

head_skips :
    (t : ℕ) (s : Option ℕ) (c : Bool) (l : List Address) (a : Address)
    → client_socket (finish_client (search_socket (l ++ (a ∷ [])))) ≡ socket_of (find_socket l)
    → client_socket (
        finish_client
          (search_socket (record { text = t; socket = s; connected = c } ∷ (l ++ (a ∷ [])))))
      ≡ socket_of (find_socket (record { text = t; socket = s; connected = c } ∷ l))
unfolding search_socket find_socket finish_client socket_of
head_skips t none c l a h = h
head_skips t (some fd) false l a h = h
head_skips t (some fd) true [] a h = refl
head_skips t (some fd) true (b ∷ l) a h = refl

last_alone :
    (t : ℕ) (s : Option ℕ) (c : Bool)
    → client_socket
        (finish_client (search_socket (record { text = t; socket = s; connected = c } ∷ [])))
      ≡ none
unfolding search_socket finish_client
last_alone t none c = refl
last_alone t (some fd) false = refl
last_alone t (some fd) true = refl

-- For every list of addresses, the constructor of client.cpp gets the socket that
-- `connect_to_server` of rcopy.c gets for the list without its last address: if only the last one
-- can be connected, the constructor throws its exception.
pub construct_client-last :
    (l : List Address) (a : Address)
    → client_socket (construct_client (some (l ++ (a ∷ [])))) ≡ connect_to_server (some l)
unfolding construct_client connect_to_server find_socket socket_of
construct_client-last [] a = last_alone a.text a.socket a.connected
construct_client-last (b ∷ l) a =
    head_skips b.text b.socket b.connected l a (construct_client-last l a)
