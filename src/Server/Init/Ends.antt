-- ===== src/Server/Init/Ends.antt =====
-- Server.cpp, `init`: its loop ends.
use cpe464_fileserver.Base.{
  ℕ, zero, suc, ◌+◌, ◌*◌, ◌%◌, ◌^◌, ◌≤◌, ◌<◌, ◌≡◌, refl, ap, ◌⊎◌, inl, inr, ◌&&◌, List, [], ◌∷◌,
  arith, length, All, Bool-cases, ◌==◌, ltb, leb, Outcome, defined, undefined, unfinished, Ends,
  Ends->>=, ◌>>=◌, Option-cases,
}
use cpe464_fileserver.Platform.{Platform}
use cpe464_fileserver.Packet.{
  Packet, pkt_trnsmax, rrpkt, rejpkt, pkt_type_buf, pkt_type_win, pkt_type_fln,
}
use cpe464_fileserver.Net.{Arrival, Channel, Received, failed, rejected, accepted, send}
use cpe464_fileserver.Net.Send.{send-arrivals}
use cpe464_fileserver.Client.RecvPacket.{Delivers, Effect, recv_packet-Effect}
use cpe464_fileserver.Server.{Server, State, error, fill_window, recv_packet}
use cpe464_fileserver.Server.Receive.{recv_packet-same}
use cpe464_fileserver.Server.Init.{
  Flags, Round, leave, next, c_string, apply_setting, transmit, follow, wanting, no_flags, fuel_of,
  take_setting, respond, finish_init, init_loop, server_init,
}

abbrev pub Any : Packet → Type 0
Any p = Unit {0}

pub All-Any : (os : Platform) (l : List Arrival) → All (Delivers os Any) l
All-Any os [] = tt
All-Any os (a ∷ l) = (λ p e v. tt, All-Any os l)

abbrev pub measure : Server → ℕ
measure s = s.retries + 11 * length s.net.arrivals

pub server_recv-Effect :
    (os : Platform) (retries : ℕ) (net : Channel)
    → 0 < retries
    → Effect os Any retries net (recv_packet os retries net)
server_recv-Effect os retries net h =
    rw (recv_packet-same os retries net)
      (recv_packet-Effect os Any retries net h (All-Any os net.arrivals))

-- A round that goes on leaves less than `m`; one that returns leaves no more, and an error.
abbrev RoundEnds : ℕ → Outcome Round → Type 0
RoundEnds m (defined (leave st s)) = (st ≡ error) × (measure s ≤ m)
RoundEnds m (defined (next f s)) = measure s < m
RoundEnds m undefined = Unit {0}
RoundEnds m unfinished = ⊥

transmit-RoundEnds :
    (m : ℕ) (q : Packet) (f : Flags) (s : Server)
    → measure s < m
    → RoundEnds m (defined (transmit q f s))
unfolding transmit
transmit-RoundEnds m q f s h = elim (Bool-cases (send q s.net).0) [
  | inl ok ↦ rw (ok, transmit) (omega (arith, l))
  | inr bad ↦ rw (bad, transmit) (refl, omega (arith, l))
]
  where
    l : length (send q s.net).1.arrivals ≡ length s.net.arrivals
    l = ap (length {A = Arrival}) (send-arrivals q s.net)

pub c_string-Ends : (l : List ℕ) → Ends (λ s. Unit {0}) (c_string l)
unfolding c_string
c_string-Ends [] = tt
c_string-Ends (b ∷ l) = elim (Bool-cases (b == 0)) [
  | inl end ↦ rw (end, c_string) tt
  | inr more ↦
      rw (more, c_string)
        (Ends->>= (λ s. Unit {0}) (λ s. Unit {0}) _ (λ s u. tt) (c_string l) (c_string-Ends l))
]

apply_setting-Ends :
    (p : Packet) (f : Flags) (s : Server)
    → Ends (λ r. measure r.1 ≡ measure s) (apply_setting p f s)
unfolding apply_setting
apply_setting-Ends p f s = elim (Bool-cases (p.type == pkt_type_buf)) [
  | inl a ↦ rw (a, apply_setting) refl
  | inr a ↦ elim (Bool-cases (p.type == pkt_type_win)) [
    | inl b ↦ rw (a, b, apply_setting) refl
    | inr b ↦ elim (Bool-cases (p.type == pkt_type_fln)) [
      | inl c ↦
          rw (a, b, c, apply_setting)
            (Ends->>= (λ n. Unit {0}) (λ (r : Flags × Server). measure r.1 ≡ measure s) _
              (λ n u. refl) (c_string p.payload) (c_string-Ends p.payload))
      | inr c ↦ rw (a, b, c, apply_setting) refl
    ]
  ]
]

module _ (os : Platform) where
  setting-RoundEnds :
      (m seq : ℕ) (p : Packet) (f : Flags) (s : Server)
      → measure s < m
      → (o : Outcome (Flags × Server)) → Ends (λ r. measure r.1 ≡ measure s) o
      → RoundEnds m (o >>= λ r. defined (transmit (rrpkt os seq) r.0 r.1))
  setting-RoundEnds m seq p f s h (defined (f', s')) e =
      transmit-RoundEnds m (rrpkt os seq) f' s' (omega (arith, e))
  setting-RoundEnds m seq p f s h undefined e = tt
  setting-RoundEnds m seq p f s h unfinished e = e

  take_setting-RoundEnds :
      (m : ℕ) (p : Packet) (f : Flags) (s : Server)
      → measure s < m
      → s.retries ≡ pkt_trnsmax
      → RoundEnds m (take_setting os p f s)
  unfolding take_setting
  take_setting-RoundEnds m p f s h y = elim (Bool-cases (leb p.sequence s.sequence)) [
    | inr later ↦
        rw (later, take_setting) (transmit-RoundEnds m (rejpkt os s.sequence) f _ (omega arith))
    | inl due ↦ elim (Bool-cases (p.sequence == s.sequence)) [
      | inl now ↦
          rw (due, now, take_setting)
            (setting-RoundEnds m s.sequence p f
              (record s { retries = pkt_trnsmax; sequence = (s.sequence + 1) % 2 ^ 32 })
              (omega arith) _
              (apply_setting-Ends p f
                (record s { retries = pkt_trnsmax; sequence = (s.sequence + 1) % 2 ^ 32 })))
      | inr old ↦
          rw (due, old, take_setting) (transmit-RoundEnds m (rrpkt os s.sequence) f _ (omega arith))
    ]
  ]

  respond-RoundEnds :
      (f : Flags) (s : Server) (x : Received × ℕ × Channel)
      → Effect os Any s.retries s.net x
      → RoundEnds (measure s) (respond os x f s)
  unfolding respond
  respond-RoundEnds f s (failed, r, net) e = (refl, omega (arith, e.falls))
  respond-RoundEnds f s (rejected, r, net) e =
      transmit-RoundEnds _ (rejpkt os s.sequence) f _ e.falls
  respond-RoundEnds f s (accepted p, r, net) e =
      take_setting-RoundEnds _ p f (record s { retries = r; net = net }) e.falls (e.fresh p refl)

  -- What `init` returns.
  -- `init` has failed, or the file is open at its start; it has spent no more than `m` and ten retries.
  abbrev pub InitDone : ℕ → State × Server → Type 0
  InitDone m r =
      ((r.0 ≡ error)
        ⊎ ((r.0 ≡ fill_window)
            × (r.1.sequence ≡ 0)
            × (r.1.position ≡ 0)
            × (r.1.retries ≡ pkt_trnsmax)))
      × (measure r.1 ≤ m + pkt_trnsmax)

  finish_init-InitDone : (s : Server) → InitDone (measure s) (finish_init os s)
  unfolding finish_init
  finish_init-InitDone s = elim (Bool-cases (s.retries == 0)) [
    | inl spent ↦ rw (spent, finish_init) (inl refl, omega arith)
    | inr left ↦ elim (Option-cases (os.open_rdonly s.from_name)) [
      | inl missing ↦ rw (left, missing, finish_init) (inl refl, omega arith)
      | inr (fd, e) ↦ rw (left, e, finish_init) (inr (refl, refl, refl, refl), omega arith)
    ]
  ]

  follow-Ends :
      (m : ℕ) (loop : Flags → Server → Outcome (State × Server))
      → ((f : Flags) (s : Server) → measure s < m → Ends (InitDone m) (loop f s))
      → (o : Outcome Round) → RoundEnds m o
      → Ends (InitDone m) (follow loop o)
  unfolding follow
  follow-Ends m loop ih (defined (leave st s)) h = (inl h.0, omega (arith, h.1))
  follow-Ends m loop ih (defined (next f s)) h = ih f s h
  follow-Ends m loop ih undefined h = tt
  follow-Ends m loop ih unfinished h = h

  InitDone-later :
      {k m : ℕ} → k ≤ m → (o : Outcome (State × Server)) → Ends (InitDone k) o → Ends (InitDone m) o
  InitDone-later h (defined r) t = (t.0, omega (arith, t.1))
  InitDone-later h undefined t = tt
  InitDone-later h unfinished t = t

  init_loop-Ends :
      (fuel : ℕ) (f : Flags) (s : Server)
      → measure s < fuel
      → Ends (InitDone (measure s)) (init_loop os fuel f s)
  unfolding init_loop
  init_loop-Ends zero f s h = elim h [ ]
  init_loop-Ends (suc fuel) f s h = elim (Bool-cases (wanting f && ltb 0 s.retries)) [
    | inr over ↦ rw (over, init_loop) (finish_init-InitDone s)
    | inl more ↦
        rw (more, init_loop)
          (follow-Ends (measure s) (init_loop os fuel)
            (λ f' s' lt.
              InitDone-later {k = measure s'} {m = measure s} (omega arith) _
                (init_loop-Ends fuel f' s' (omega arith)))
            _ (respond-RoundEnds f s _ (server_recv-Effect os s.retries s.net (ground arith))))
  ]

  -- For every sequence of arrivals and outcomes of sends `init` ends, unless it meets undefined
  -- behaviour, and spends no more than the retries and arrivals it has, but for ten new retries. It
  -- returns ERROR, or FILL_WINDOW with sequence number 0, the file at its start and all retries.
  pub server_init-Ends : (s : Server) → Ends (InitDone (measure s)) (server_init os s)
  unfolding server_init
  server_init-Ends s = init_loop-Ends (fuel_of s) no_flags s (omega arith)
