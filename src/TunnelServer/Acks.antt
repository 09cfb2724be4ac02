-- ===== src/TunnelServer/Acks.antt =====
-- OPEN_ACK and the thread that waits for it.
use tunnel_proxy.Base.Maps.{
  ℕ_key, Bytes_key, lookup, insert, lookup-insert, lookup-erase, lookup-insert_self,
  lookup-erase_self,
}
use tunnel_proxy.Base.{ℕ, ◌≡◌, ◌==◌, false, arith, none, some, Bytes}
use tunnel_proxy.Protocol.Types.{TunnelFrame, open_ack}
use tunnel_proxy.TunnelServer.Clients.{await_ack}
use tunnel_proxy.TunnelServer.State.{TunnelServer, acknowledged}
use tunnel_proxy.TunnelServer.{handle_agent_frame, signal_open, handle_type}

-- An OPEN_ACK that comes while its session is awaited takes the promise out and wakes the waiting
-- thread, and no other.
pub ack_in_time :
    (id : Bytes) (frame : TunnelFrame) (now : ℕ) (s : TunnelServer)
    → frame.type ≡ open_ack
    → let t = handle_agent_frame id frame now (await_ack frame.session_id s) in
      (lookup frame.session_id t.signals ≡ some acknowledged)
      × (lookup frame.session_id t.pending_open ≡ none)
      × ((sid : ℕ)
          → (frame.session_id == sid) ≡ false
          → (lookup sid t.signals ≡ lookup sid s.signals)
            × (lookup sid t.pending_open ≡ lookup sid s.pending_open))
unfolding handle_agent_frame handle_type await_ack signal_open
ack_in_time id frame now s e =
    let sid = frame.session_id in
    let found = lookup-insert_self sid tt s.pending_open in
    rw (e, handle_type)
      (
        ground (arith, found, lookup-insert_self sid acknowledged s.signals),
        ground (arith, found, lookup-erase_self sid (insert sid tt s.pending_open)),
        λ other ne. (
          ground (arith, found, lookup-insert sid other acknowledged s.signals),
          ground (
            arith,
            found,
            lookup-erase sid other (insert sid tt s.pending_open),
            lookup-insert sid other tt s.pending_open,
          ),
        ),
      )

-- An OPEN_ACK that comes before the thread has entered its promise is lost: the server is in the
-- same state as if it had never come, so the thread waits until its time is over.
pub ack_too_early :
    (id : Bytes) (frame : TunnelFrame) (now : ℕ) (s : TunnelServer)
    → frame.type ≡ open_ack
    → lookup frame.session_id s.pending_open ≡ none
    → await_ack frame.session_id (handle_agent_frame id frame now s) ≡ await_ack frame.session_id s
unfolding handle_agent_frame handle_type signal_open
ack_too_early id frame now s e h = rw (e, handle_type) (ground (arith, h))
