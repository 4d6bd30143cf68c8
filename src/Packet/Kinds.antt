-- ===== src/Packet/Kinds.antt =====
-- wisp/src/packet.rs: `StreamType` and `CloseReason`, with the conversions that `num_enum` derives
-- from the discriminants in the source: a byte that is no discriminant is kept in `other`.
use epoxy_tls.Base.{ℕ, ◌≡◌, arith, ◌==◌, if◌then◌else◌}

pub data StreamType : Type 0 where
  tcp udp : StreamType
  other : ℕ → StreamType

unfoldable pub stream_type_from : ℕ → StreamType
stream_type_from b = if b == 0x01 then tcp else if b == 0x02 then udp else other b

unfoldable pub stream_type_into : StreamType → ℕ
stream_type_into tcp = 0x01
stream_type_into udp = 0x02
stream_type_into (other b) = b

pub data CloseReason : Type 0 where
  unknown voluntary unexpected extensions_incompatible : CloseReason
  server_stream_invalid_info server_stream_unreachable : CloseReason
  server_stream_connection_timed_out server_stream_connection_refused : CloseReason
  server_stream_timed_out server_stream_blocked_address server_stream_throttled : CloseReason
  client_unexpected : CloseReason
  extensions_password_auth_failed extensions_cert_auth_failed extensions_auth_required : CloseReason
  other_reason : ℕ → CloseReason

unfoldable pub close_reason_into : CloseReason → ℕ
close_reason_into unknown = 0x01
close_reason_into voluntary = 0x02
close_reason_into unexpected = 0x03
close_reason_into extensions_incompatible = 0x04
close_reason_into server_stream_invalid_info = 0x41
close_reason_into server_stream_unreachable = 0x42
close_reason_into server_stream_connection_timed_out = 0x43
close_reason_into server_stream_connection_refused = 0x44
close_reason_into server_stream_timed_out = 0x47
close_reason_into server_stream_blocked_address = 0x48
close_reason_into server_stream_throttled = 0x49
close_reason_into client_unexpected = 0x81
close_reason_into extensions_password_auth_failed = 0xc0
close_reason_into extensions_cert_auth_failed = 0xc1
close_reason_into extensions_auth_required = 0xc2
close_reason_into (other_reason b) = b

unfoldable pub close_reason_from : ℕ → CloseReason
close_reason_from b =
    if b == 0x01
    then unknown
    else if b == 0x02
    then voluntary
    else if b == 0x03
    then unexpected
    else if b == 0x04
    then extensions_incompatible
    else if b == 0x41
    then server_stream_invalid_info
    else if b == 0x42
    then server_stream_unreachable
    else if b == 0x43
    then server_stream_connection_timed_out
    else if b == 0x44
    then server_stream_connection_refused
    else if b == 0x47
    then server_stream_timed_out
    else if b == 0x48
    then server_stream_blocked_address
    else if b == 0x49
    then server_stream_throttled
    else if b == 0x81
    then client_unexpected
    else if b == 0xc0
    then extensions_password_auth_failed
    else if b == 0xc1
    then extensions_cert_auth_failed
    else if b == 0xc2
    then extensions_auth_required
    else other_reason b

-- The values that the conversion from a byte gives: `other` holds no discriminant.
abbrev pub IsStreamType : StreamType → Type 0
IsStreamType t = stream_type_from (stream_type_into t) ≡ t

abbrev pub IsCloseReason : CloseReason → Type 0
IsCloseReason r = close_reason_from (close_reason_into r) ≡ r

pub stream_type_into-from : (b : ℕ) → stream_type_into (stream_type_from b) ≡ b
unfolding stream_type_from stream_type_into
stream_type_into-from b = ground arith

pub close_reason_into-from : (b : ℕ) → close_reason_into (close_reason_from b) ≡ b
unfolding close_reason_from close_reason_into
close_reason_into-from b = ground arith
