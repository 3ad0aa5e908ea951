-- ===== src/Session/Begins.antt =====
-- Go Back N (UDP): the client and the child process of a session, up to the end of the handshake.
use cpe464_fileserver.Base.{
  drop, ℕ, suc, ◌+◌, ◌*◌, ◌^◌, ◌≤◌, ◌<◌, ◌≡◌, ◌≢◌, refl, sym, ap, subst, ◌∙◌, List, [], ◌++◌, some,
  All, arith, length, defined, Returns, Returns->>=, ◌>>=◌, false, ◌&&◌, ltb,
}
use cpe464_fileserver.Platform.{Platform, IsFile}
use cpe464_fileserver.Packet.{rrpkt, rejpkt, seal, memset_packet, pkt_trnsmax, pkt_dmax}
use cpe464_fileserver.Net.{Arrival, arrive}
use cpe464_fileserver.Client
use cpe464_fileserver.Client.{Client}
use cpe464_fileserver.Client.Init.Completes.{
  client_at, to_parent, parent_replies, connected, client_init_completes,
}
use cpe464_fileserver.Client.Run
use cpe464_fileserver.Server
use cpe464_fileserver.Server.{Server}
use cpe464_fileserver.Server.Init.Completes.{
  to_child, child_replies, served_at, server_init_completes,
}
use cpe464_fileserver.Server.Parent.{child_state}
use cpe464_fileserver.Server.Child.{
  child, child_fuel, child_loop, child_step, dispatch, store_state, running, child_exit,
}
use cpe464_fileserver.Server.Window.Waiting.{Phase}
use cpe464_fileserver.Server.Child.Serves.{child_loop-Returns, served}
use cpe464_fileserver.Server.Window.Serving.{Sending}
use cpe464_fileserver.Server.Window.Pieces.{IsServed, pieces}

module _ (os : Platform) where
  -- A child process that was just forked, with a handshake before what else arrives.
  abbrev pub forked : ℕ → ℕ → List ℕ → List Arrival → Server
  forked b w name l =
      child_state
        (record { arrivals = arrive (to_child os b w name) l; send_results = []; sent = [] })

  -- The child after `init`, in the main loop.
  abbrev pub begun : ℕ → ℕ → ℕ → List ℕ → List Arrival → Server
  begun fd b w name l = record (served_at os (forked b w name l) fd b w name l (child_replies os)) {
    state = Server.fill_window;
  }

  -- Its first step is the handshake.
  pub child_begins :
      (b w fd fuel : ℕ) (name : List ℕ) (l : List Arrival)
      → All (λ byte. byte ≢ 0) name
      → os.open_rdonly name ≡ some fd
      → child_loop os (suc fuel) (forked b w name l) ≡ child_loop os fuel (begun fd b w name l)
  unfolding child_loop child_step dispatch running child_state store_state
  child_begins b w fd fuel name l a e =
      ap (λ o. o >>= store_state >>= child_loop os fuel)
        (server_init_completes os (forked b w name l) b w fd name l [] a e)

  child_replies-IsServed :
      (content : List ℕ) (b : ℕ) → All (IsServed os content b) (child_replies os)
  unfolding rrpkt rejpkt seal memset_packet
  child_replies-IsServed content b = (
    (λ e. absurd (omega arith)),
    (
      (λ e. absurd (omega arith)),
      (
        (λ e. absurd (omega arith)),
        ((λ e. absurd (omega arith)), ((λ e. absurd (omega arith)), tt)),
      ),
    ),
  )

  module _ (content : List ℕ) (b w fd top : ℕ) (name : List ℕ) where
    begun-Sending :
        (l : List Arrival)
        → b ≤ pkt_dmax
        → IsFile os fd content
        → b * top < 2 ^ 32
        → Sending os content b top (begun fd b w name l)
    unfolding child_state
    begun-Sending l fits f room = record {
      file = f;
      buffer = omega arith;
      at = ap (λ n. drop n content) {x = 0} (omega arith);
      base = 0;
      count = 0;
      window = unfold pieces in refl;
      ends = refl;
      out = tt;
      sent = child_replies-IsServed content b;
      within = omega arith;
      room = room;
    }

    -- The child process ends, and what it has sent are pieces.
    pub child_session :
        (l : List Arrival)
        → 0 < b
        → b ≤ pkt_dmax
        → 0 < w
        → w < 2 ^ 16
        → All (λ byte. byte ≢ 0) name
        → os.open_rdonly name ≡ some fd
        → IsFile os fd content
        → b * top < 2 ^ 32
        → child_fuel (forked b w name l) * w ≤ top
        → Returns (λ r. All (IsServed os content b) r.0.net.sent) (child os (forked b w name l))
    unfolding child child_state
    child_session l pos fits wide small a e f room enough =
        Returns->>= {B = Server × ℕ} (Over w) (λ r. All (IsServed os content b) r.0.net.sent)
          (λ d. defined (d, child_exit d)) (λ d x. served os content b top pos fits d.state d x.0) _
          (subst (Returns (Over w))
            (sym (child_begins b w fd fuel name l a e)
              ∙ ap (λ n. child_loop os n (forked b w name l)) fueled)
            (child_loop-Returns os content b top pos fits w fuel (begun fd b w name l) wide
              (omega arith)
              (
                begun-Sending l fits f room,
                omega (arith, enough, ap (λ k. k * w) fueled),
                omega arith,
              )))
      where
        fuel : ℕ
        fuel = 307 + 44 * length l

        fueled : suc fuel ≡ child_fuel (forked b w name l)
        fueled = unfold child_state in omega arith

        Over : ℕ → Server → Type 0
        Over n d = Phase os content b top d.state d × ((running d.state && ltb 0 d.retries) ≡ false)

  -- The client before the handshake.
  abbrev pub starting : Client → ℕ → List Arrival → Client
  starting c port l =
      client_at (record c { state = Client.init }) pkt_trnsmax
        (arrive (parent_replies os port ++ child_replies os) l) []

  -- The client after `init`, in the loop of `Run`.
  abbrev pub listening : Client → ℕ → List Arrival → Client
  listening c port l =
      record (connected os c port l
        (to_parent os ++ to_child os c.buffer_size c.window_size c.from_name)) {
          state = Client.recv_packets;
        }

  client_begins :
      (c : Client) (port fuel : ℕ) (l : List Arrival)
      → length c.from_name + 1 ≤ pkt_dmax
      → Run.client_loop os (suc fuel) (starting c port l)
        ≡ Run.client_loop os fuel (listening c port l)
  unfolding Run.client_loop Run.client_step
  client_begins c port fuel l fits =
      ap (λ o. o >>= Run.store_state >>= Run.client_loop os fuel)
        (client_init_completes os (record c { state = Client.init }) port l [] fits)

  -- `Run` goes on after the handshake with at least the fuel that the transfer needs.
  pub run_begins :
      (c : Client) (port : ℕ) (l : List Arrival)
      → length c.from_name + 1 ≤ pkt_dmax
      → Run.run os (starting c port l)
        ≡ Run.client_loop os (98 + 11 * length l) (listening c port l) >>= λ d.
            defined (d, Run.client_exit d)
  unfolding Run.run
  run_begins c port l fits =
      ap (λ o. o >>= λ d. defined (d, Run.client_exit d))
        (ap (λ n. Run.client_loop os n (starting c port l)) {y = suc (98 + 11 * length l)}
            (omega arith)
          ∙ client_begins c port (98 + 11 * length l) l fits)
