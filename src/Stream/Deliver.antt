-- ===== src/Stream/Deliver.antt =====
-- wisp/src/mux: what `handle_data_packet` does with the payload at the stream that it found: the
-- server counts it against the stream's buffer, the client (the default of the trait) does not.
use epoxy_tls.Base.{Option, none, some}
use epoxy_tls.Bytes.{Payload}
use epoxy_tls.Stream.Channel.{Channel, Flume}
use epoxy_tls.Stream.Info.{StreamInfo, flow_dec}

abbrev pub counted : Channel → StreamInfo → Option Channel → Channel × StreamInfo
counted c info none = (c, info)
counted c info (some c') = (c', flow_dec info)

abbrev pub uncounted : Channel → StreamInfo → Option Channel → Channel × StreamInfo
uncounted c info none = (c, info)
uncounted c info (some c') = (c', info)

module _ ⦃flume : Flume⦄ where
  unfoldable pub server_deliver : Channel → StreamInfo → Payload → Channel × StreamInfo
  unfolding flow_dec
  server_deliver c info p = counted c info (flume.try_send c p)

  unfoldable pub client_deliver : Channel → StreamInfo → Payload → Channel × StreamInfo
  client_deliver c info p = uncounted c info (flume.try_send c p)
