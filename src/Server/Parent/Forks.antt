-- ===== src/Server/Parent/Forks.antt =====
-- Server.cpp, `Run`: how many child processes there are.
use cpe464_fileserver.Base.{
  ℕ, ◌+◌, ◌≤◌, ◌≡◌, refl, ap, Bool, true, false, ◌&&◌, List, [], ◌∷◌, Option, none, some, arith,
  length, length-append, Bool-cases, inl, inr, if◌then◌else◌, if_either, if_true, if_false, subst,
  sym, ◌==◌, Outcome, defined, undefined, unfinished, Ends, Ends->>=,
}
use cpe464_fileserver.Platform.{Platform}
use cpe464_fileserver.Packet.{Packet, verifies, rrpkt, pkt_type_cxn, pkt_type_cxn2, pkt_type_rej}
use cpe464_fileserver.Server.Parent.{
  Parent, Forked, Socket, no_socket, no_name, on_port, take_socket, fork_child, send_reply,
  answer_with, request_reply, request_packet, second_reply, serve, after_round, parent_run,
}

-- 1 if a connection request waits for its second stage.
abbrev pub pending : Bool → ℕ
pending true = 1
pending false = 0

-- How many connection requests with a good checksum arrive.
unfoldable pub requests : Platform → List (Option Packet) → ℕ
requests os [] = 0
requests os (none ∷ more) = requests os more
requests os (some p ∷ more) =
    (if verifies os p && (p.type == pkt_type_cxn) then 1 else 0) + requests os more

-- The child processes, and the one that may come.
abbrev weight : Parent → ℕ
weight s = length s.forked + pending s.second_stage

abbrev Within : ℕ → Bool × Parent → Type 0
Within n r = weight r.1 ≤ n

send_reply-Within :
    (n : ℕ) (l : List Bool) (p : Packet) (s : Parent) → weight s ≤ n → Within n (send_reply l p s)
unfolding send_reply
send_reply-Within n [] p s h = h
send_reply-Within n (true ∷ l) p s h = h
send_reply-Within n (false ∷ l) p s h = h

answer_with-Within :
    (n : ℕ) (q : Option Packet) (s : Parent) → weight s ≤ n → Ends (Within n) (answer_with q s)
unfolding answer_with
answer_with-Within n none s h = tt
answer_with-Within n (some p) s h = send_reply-Within n s.send_results p s h

take_socket-forked : (l : List Socket) (s : Parent) → (take_socket l s).forked ≡ s.forked
unfolding take_socket
take_socket-forked [] s = refl
take_socket-forked (no_socket ∷ l) s = refl
take_socket-forked (no_name ∷ l) s = refl
take_socket-forked (on_port n ∷ l) s = refl

fork_child-weight :
    (port : ℕ) (l : List Bool) (s : Parent)
    → weight (fork_child port l s) ≤ length s.forked + 1 + pending s.second_stage
unfolding fork_child
fork_child-weight port [] s =
    omega (arith, length-append s.forked (record { has_socket = s.has_socket; port = port } ∷ []))
fork_child-weight port (true ∷ l) s =
    omega (arith, length-append s.forked (record { has_socket = s.has_socket; port = port } ∷ []))
fork_child-weight port (false ∷ l) s = omega arith

fork_child-stage :
    (port : ℕ) (l : List Bool) (s : Parent) → (fork_child port l s).second_stage ≡ s.second_stage
unfolding fork_child
fork_child-stage port [] s = refl
fork_child-stage port (true ∷ l) s = refl
fork_child-stage port (false ∷ l) s = refl

abbrev Bounded : ℕ → Parent → Type 0
Bounded n r = length r.forked ≤ n

Ends-mono :
    (P Q : Parent → Type 0)
    → ((r : Parent) → P r → Q r)
    → (o : Outcome Parent) → Ends P o
    → Ends Q o
Ends-mono P Q f (defined r) h = f r h
Ends-mono P Q f undefined h = tt
Ends-mono P Q f unfinished h = h

after_round-Bounded :
    (n k : ℕ) (loop : Parent → Outcome Parent)
    → ((d : Parent) → Ends (Bounded (weight d + k)) (loop d))
    → (r : Bool × Parent) → Within n r
    → Ends (Bounded (n + k)) (after_round loop r)
unfolding after_round
after_round-Bounded n k loop ih (false, d) w = omega (arith, w)
after_round-Bounded n k loop ih (true, d) w =
    Ends-mono (Bounded (weight d + k)) (Bounded (n + k)) (λ r g. omega (arith, g, w)) (loop d)
      (ih d)

module _ (os : Platform) where
  request-Within :
      (n q : ℕ) (o : Option ℕ) (s : Parent)
      → length s.forked + 1 ≤ n
      → Ends (Within n) (request_reply os q o s)
  unfolding request_reply
  request-Within n q none s h = tt
  request-Within n q (some port) s h =
      answer_with-Within n (some (request_packet os q port))
        (record s { out_packet = some (request_packet os q port); second_stage = true }) h

  second-Within :
      (n q : ℕ) (o : Option ℕ) (s : Parent)
      → length s.forked + 1 ≤ n
      → Ends (Within n) (second_reply os q o s)
  unfolding second_reply
  second-Within n q none s h = tt
  second-Within n q (some port) s h =
      answer_with-Within n (some (rrpkt os q))
        (fork_child port s.fork_results
          (record s { second_stage = false; out_packet = some (rrpkt os q) }))
        (omega (
          arith,
          fork_child-weight port s.fork_results
              (record s { second_stage = false; out_packet = some (rrpkt os q) }),
        ))

  serve-Within :
      (n : ℕ) (p : Packet) (s : Parent)
      → weight s + (if p.type == pkt_type_cxn then 1 else 0) ≤ n
      → Ends (Within n) (serve os p s)
  unfolding serve
  serve-Within n p s h = elim (Bool-cases (p.type == pkt_type_cxn)) [
    | inl asks ↦ subst (Ends (Within n)) (sym (if_true (p.type == pkt_type_cxn) _ _ asks)) (
        request-Within n p.sequence (take_socket s.sockets s).local_port (take_socket s.sockets s) (
          omega (
            arith,
            h,
            if_true {A = ℕ} (p.type == pkt_type_cxn) 1 0 asks,
            ap (length {A = Forked}) (take_socket-forked s.sockets s),
          )))
    | inr other ↦ subst (Ends (Within n)) (sym (if_false (p.type == pkt_type_cxn) _ _ other)) (
        if_either (Ends (Within n)) (p.type == pkt_type_cxn2) _ _ (second s.second_stage refl) (
          if_either (Ends (Within n)) (p.type == pkt_type_rej) _ _
            (answer_with-Within n s.out_packet s (omega (arith, h))) (omega (arith, h))))
  ]
    where
      second :
          (b : Bool)
          → s.second_stage ≡ b
          → Ends
              (Within n)
              (if b then second_reply os p.sequence s.local_port s else defined (true, s))
      second true e = second-Within n p.sequence s.local_port s (omega (arith, h, ap pending e))
      second false e = omega (arith, h)

  -- Whatever arrives and whichever calls fail, `Run` of the parent process comes to the end of the
  -- arrivals or returns, unless it meets undefined behaviour, and has forked at most one child for
  -- each connection request with a good checksum, and one more if a request was waiting for its
  -- second stage.
  pub parent_run-forks :
      (l : List (Option Packet)) (s : Parent)
      → Ends
          (λ r. length r.forked ≤ length s.forked + pending s.second_stage + requests os l)
          (parent_run os l s)
  unfolding parent_run requests
  parent_run-forks [] s = omega arith
  parent_run-forks (none ∷ l) s = omega arith
  parent_run-forks (some p ∷ l) s = elim (Bool-cases (verifies os p)) [
    | inl good ↦
        let n = weight s + (if p.type == pkt_type_cxn then 1 else 0) in
        let e = ap {B = ℕ} (λ b. if b && (p.type == pkt_type_cxn) then 1 else 0) good in
        subst (Ends _) (sym (if_true (verifies os p) _ _ good)) (
          Ends-mono (Bounded (n + requests os l)) _ (λ r h. omega (arith, h, e)) _
            (Ends->>= (Within n) (Bounded (n + requests os l)) (after_round (parent_run os l))
              (after_round-Bounded n (requests os l) (parent_run os l) (parent_run-forks l))
              (serve os p s) (serve-Within n p s (omega arith))))
    | inr bad ↦ subst (Ends _) (sym (if_false (verifies os p) _ _ bad)) (
        Ends-mono (Bounded (weight s + requests os l)) _ (λ r h. omega (arith, h)) _
          (parent_run-forks l s))
  ]
