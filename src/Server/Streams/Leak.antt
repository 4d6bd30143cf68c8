-- ===== src/Server/Streams/Leak.antt =====
-- What a stream leaves in the table of clients.
use epoxy_tls.Base.{ℕ, ◌≡◌, ◌≢◌, refl, arith, true, none, some, ◌∙◌}
use epoxy_tls.Server.Resolve.Connect.{
  Sockets, ClientStream, tcp_stream, udp_socket, wispnet_stream, no_resolved_stream, blocked_stream,
  invalid_stream,
}
use epoxy_tls.Server.Clients.{Clients, StreamPair, run_actions}
use epoxy_tls.Server.Clients.Listed.{Entry, entry, run_on, entry-run_actions}
use epoxy_tls.Server.Streams.{
  Requested, opened, refused, crashed, cancelled, finished, forward_stream, handle_stream,
}

module _ (sockets : Sockets) {MuxStream : Type 0} (id uuid : ℕ) where
  -- A stream that was not listed before is listed nowhere after it has ended.
  run_on-finished :
      (r : Requested (ClientStream sockets MuxStream)) (i : ℕ) (e : Entry)
      → e.stream ≡ none
      → run_on i uuid (handle_stream id uuid r finished) e ≡ e
  unfolding handle_stream forward_stream
  run_on-finished (opened pair (tcp_stream s)) i e h = ground arith
  run_on-finished (opened pair (udp_socket s)) i e h = ground arith
  run_on-finished (opened pair (wispnet_stream s mux_id)) i e h = ground arith
  run_on-finished (opened pair no_resolved_stream) i e h = ground arith
  run_on-finished (opened pair blocked_stream) i e h = ground arith
  run_on-finished (opened pair invalid_stream) i e h = ground arith
  run_on-finished (refused reason) i e h = refl
  run_on-finished crashed i e h = refl

  -- A stream whose name was not listed has left the entry of every client as it was, once its
  -- handler has run to its end, however it was resolved.
  pub handle_stream-finished :
      (r : Requested (ClientStream sockets MuxStream)) (clients : Clients) (i : ℕ)
      → (entry clients i uuid).stream ≡ none
      → entry (run_actions (handle_stream id uuid r finished) clients) i uuid ≡ entry clients i uuid
  handle_stream-finished r clients i h =
      entry-run_actions (handle_stream id uuid r finished) clients i uuid
      ∙ run_on-finished r i (entry clients i uuid) h

  -- A stream that another client serves stays listed for that client, when the event of the client
  -- that asked for it stops the handler during the copy.
  pub handle_stream-cancelled :
      (pair : StreamPair) (s : MuxStream) (mux_id : ℕ) (clients : Clients)
      → mux_id ≢ id
      → (entry clients mux_id uuid).connected ≡ true
      → (entry
          (run_actions
            (handle_stream {sockets = sockets} id uuid
              (opened pair (wispnet_stream s mux_id))
              cancelled)
            clients)
          mux_id
          uuid).stream
        ≡ some (record { requested = pair.resolved; resolved = pair.resolved })
  unfolding handle_stream forward_stream
  handle_stream-cancelled pair s mux_id clients n c = ground (
    arith,
    entry-run_actions
        (handle_stream {sockets = sockets} id uuid (opened pair (wispnet_stream s mux_id))
          cancelled)
        clients mux_id uuid,
  )
