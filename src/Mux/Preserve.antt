-- ===== src/Mux/Preserve.antt =====
-- Handling a packet keeps every stream that can still receive in the map.
use epoxy_tls.Base.{
  ℕ, ◌≡◌, inl, inr, refl, ◌==◌, Bool-cases, lookup, Option-cases, Role, server, client,
}
use epoxy_tls.Bytes.{Payload}
use epoxy_tls.Packet.Codec.{
  ConnectPacket, ContinuePacket, ClosePacket, Packet, connect, payload, continue, close, PacketType,
}
use epoxy_tls.Stream.Channel.{Flume}
use epoxy_tls.Stream.Info.{FlowControl, disabled, enabled_track_amount, enabled_send_messages}
use epoxy_tls.Stream.Deliver.{server_deliver, client_deliver}
use epoxy_tls.Mux.State.{Mux, StreamObject, add_stream}
use epoxy_tls.Mux.Handlers.{
  handle_connect_packet, handle_continue_packet, grant, handle_close_packet, handle_data_packet,
  deliver, handle_packet,
}
use epoxy_tls.Mux.Live.{
  has_sender, IsMapped, modify-Mapped, add_stream-IsMapped, close_entry-IsMapped,
}

grant_keeps_sender :
    (f : FlowControl) (pkt : ContinuePacket) (o : StreamObject)
    → has_sender (grant f pkt o) ≡ has_sender o
grant_keeps_sender disabled pkt o = refl
grant_keeps_sender enabled_track_amount pkt o = refl
grant_keeps_sender enabled_send_messages pkt o = refl

handle_connect_packet-IsMapped :
    (role : Role) (m : Mux) (h : ℕ) (pkt : ConnectPacket)
    → IsMapped m
    → IsMapped (handle_connect_packet role m h pkt).0
handle_connect_packet-IsMapped client m h pkt v = v
handle_connect_packet-IsMapped server m h pkt v = elim (Bool-cases m.accepting) [
  | inl y ↦ rw y v
  | inr n ↦ rw n v
]

handle_continue_packet-IsMapped :
    (role : Role) (m : Mux) (id : ℕ) (pkt : ContinuePacket)
    → IsMapped m
    → IsMapped (handle_continue_packet role m id pkt).0
handle_continue_packet-IsMapped server m id pkt v = v
handle_continue_packet-IsMapped client m id pkt v = elim (Option-cases (lookup id m.streams)) [
  | inl e ↦ rw e v
  | inr (h, e) ↦ rw e (
      modify-Mapped m.objects m.streams h (λ o. grant o.info.flow_status pkt o)
        (λ o. grant_keeps_sender o.info.flow_status pkt o) v)
]

handle_close_packet-IsMapped :
    (m : Mux) (id : ℕ) (c : ClosePacket) → IsMapped m → IsMapped (handle_close_packet m id c).0
unfolding handle_close_packet
handle_close_packet-IsMapped m id c v = elim (Bool-cases (id == 0)) [
  | inl z ↦ rw z v
  | inr n ↦ rw n (elim (Option-cases (lookup id m.streams)) [
    | inl e ↦ rw e v
    | inr (h, e) ↦ rw e (close_entry-IsMapped m id c.reason h e v)
  ])
]

module _ ⦃flume : Flume⦄ where
  deliver_keeps_sender :
      (role : Role) (o : StreamObject) (p : Payload) → has_sender (deliver role o p) ≡ has_sender o
  unfolding server_deliver client_deliver
  deliver_keeps_sender client o p = elim (Option-cases (flume.try_send o.channel p)) [
    | inl e ↦ rw e
    | inr (c, e) ↦ rw e (flume.try_send_keeps_sender o.channel c p e)
  ]
  deliver_keeps_sender server o p = elim (Option-cases (flume.try_send o.channel p)) [
    | inl e ↦ rw e
    | inr (c, e) ↦ rw e (flume.try_send_keeps_sender o.channel c p e)
  ]

  handle_data_packet-IsMapped :
      (m : Mux) (id : ℕ) (p : Payload) → IsMapped m → IsMapped (handle_data_packet m id p)
  unfolding handle_data_packet
  handle_data_packet-IsMapped m id p v = elim (Option-cases (lookup id m.streams)) [
    | inl e ↦ rw e v
    | inr (h, e) ↦ rw e (
        modify-Mapped m.objects m.streams h (λ o. deliver m.role o p)
          (λ o. deliver_keeps_sender m.role o p) v)
  ]

  handle_packet_type-IsMapped :
      (m : Mux) (id : ℕ) (t : PacketType)
      → IsMapped m
      → IsMapped (handle_packet m (record { stream_id = id; packet_type = t })).0
  unfolding handle_packet
  handle_packet_type-IsMapped m id (connect pkt) v =
      handle_connect_packet-IsMapped m.role _ (add_stream m id pkt.stream_type).1 pkt
        (add_stream-IsMapped m id pkt.stream_type v)
  handle_packet_type-IsMapped m id (payload p) v = handle_data_packet-IsMapped m id p v
  handle_packet_type-IsMapped m id (continue pkt) v =
      handle_continue_packet-IsMapped m.role m id pkt v
  handle_packet_type-IsMapped m id (close c) v = handle_close_packet-IsMapped m id c v

  pub handle_packet-IsMapped : (m : Mux) (p : Packet) → IsMapped m → IsMapped (handle_packet m p).0
  handle_packet-IsMapped m p v = handle_packet_type-IsMapped m p.stream_id p.packet_type v
