-- ===== src/Mux/State.antt =====
-- wisp/src/mux/inner.rs: the state of `MuxInner`, and how streams enter and leave it. The stream
-- map holds a handle for each identifier; the objects behind the handles are shared with the
-- streams that the users hold, and outlive the map's entry.
use epoxy_tls.Base.{
  ℕ, ◌+◌, ltb, if◌then◌else◌, Bool, true, false, List, [], ◌∷◌, ◌++◌, length, contains, lookup,
  insert, modify, Option, none, some, Outcome, ok, err, WispError, max_stream_count_reached, Role,
  server, client,
}
use epoxy_tls.Bytes.{Payload}
use epoxy_tls.Packet.Kinds.{StreamType, tcp, stream_type_into, CloseReason}
use epoxy_tls.Packet.Codec.{ConnectPacket}
use epoxy_tls.Extension.Any.{AnyProtocolExtension, get_congestion_stream_types}
use epoxy_tls.Stream.Channel.{Channel, bounded, unbounded}
use epoxy_tls.Stream.Info.{
  StreamInfo, FlowControl, disabled, enabled_track_amount, enabled_send_messages, stream_info_new,
  set_reason, u32_max,
}

pub record StreamObject : Type 0 where
  pub info : StreamInfo
  pub channel : Channel

-- The answer to a request of a user, through its oneshot channel.
pub data Reply : Type 0 where
  created : Outcome ℕ → Reply
  closed : Option WispError → Reply

-- `role` is the type of the actor. `sent` holds the frames that the transport took and `locked` is
-- the lock that this handle has on it. `accepted` is the queue of new streams of a server, whose
-- receiver is there while `accepting`; `replies` are the answers given. `transport_closed` says that
-- the transport was asked to close, whatever it answers: the actor does not look at that answer.
pub record Mux : Type 0 where
  pub role : Role
  pub flow_stream_types : List ℕ
  pub streams : List (ℕ × ℕ)
  pub objects : List StreamObject
  pub current_id : ℕ
  pub buffer_size : ℕ
  pub sent : List Payload
  pub locked : Bool
  pub accepted : List (ConnectPacket × ℕ)
  pub accepting : Bool
  pub replies : List Reply
  pub transport_closed : Bool

-- `extensions.iter().flat_map(get_congestion_stream_types)`, and TCP.
unfoldable pub congestion_stream_types : List AnyProtocolExtension → List ℕ
unfolding get_congestion_stream_types stream_type_into
congestion_stream_types [] = stream_type_into tcp ∷ []
congestion_stream_types (e ∷ es) = get_congestion_stream_types e ++ congestion_stream_types es

unfoldable pub mux_new : Role → List AnyProtocolExtension → ℕ → Mux
unfolding congestion_stream_types
mux_new role extensions buffer_size = record {
  role = role;
  flow_stream_types = congestion_stream_types extensions;
  streams = [];
  objects = [];
  current_id = 0;
  buffer_size = buffer_size;
  sent = [];
  locked = false;
  accepted = [];
  accepting = true;
  replies = [];
  transport_closed = false;
}

abbrev pub flow_control_of : Role → FlowControl
flow_control_of client = enabled_track_amount
flow_control_of server = enabled_send_messages

unfoldable pub get_flow_control : Role → StreamType → List ℕ → FlowControl
get_flow_control role ty flow_stream_types =
    if contains flow_stream_types (stream_type_into ty) then flow_control_of role else disabled

abbrev pub channel_for : FlowControl → ℕ → Channel
channel_for disabled buffer_size = unbounded
channel_for enabled_track_amount buffer_size = unbounded
channel_for enabled_send_messages buffer_size = bounded buffer_size

-- Dropping the entry of the map drops its sender.
abbrev pub drop_sender : StreamObject → StreamObject
drop_sender o = record o { channel = record o.channel { has_sender = false } }

abbrev pub drop_entry : List StreamObject → Option ℕ → List StreamObject
drop_entry objects none = objects
drop_entry objects (some h) = modify objects h drop_sender

-- The new stream's handle, beside the state. An entry with the same identifier is replaced.
unfoldable pub add_stream : Mux → ℕ → StreamType → Mux × ℕ
unfolding get_flow_control stream_info_new
add_stream m id ty =
    let flow = get_flow_control m.role ty m.flow_stream_types in
    let object : StreamObject = record {
      info = stream_info_new id flow m.buffer_size;
      channel = channel_for flow m.buffer_size;
    } in
    let h = length m.objects in
    (
      record m {
        streams = insert id h m.streams;
        objects = drop_entry m.objects (lookup id m.streams) ++ (object ∷ []);
      },
      h,
    )

-- `checked_add(1)` fails at the largest `u32`.
unfoldable pub create_stream : Mux → StreamType → Mux × Outcome (ℕ × ℕ)
create_stream m ty =
    if ltb m.current_id u32_max
    then (let (m', h) =
          add_stream (record m { current_id = m.current_id + 1 }) (m.current_id + 1) ty in
        (m', ok (h, m.current_id + 1)))
    else (m, err max_stream_count_reached)

abbrev pub close_object : CloseReason → StreamObject → StreamObject
close_object reason o = record o {
  channel = record o.channel { has_sender = false };
  info = set_reason o.info reason;
}

unfoldable pub close_stream : Mux → ℕ → CloseReason → Mux
unfolding set_reason
close_stream m h reason = record m { objects = modify m.objects h (close_object reason) }
