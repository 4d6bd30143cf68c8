-- ===== src/Stream/Info.antt =====
-- wisp/src/mux/inner.rs: `FlowControl` and `StreamInfo`, the part of a stream's state that the
-- multiplexor and the two halves of the stream share. The atomics are numbers: each method is one
-- step.
use epoxy_tls.Base.{ℕ, ◌+◌, ◌-◌, ◌*◌, ◌/◌, Bool, ◌==◌, ltb, if◌then◌else◌, Option}
use epoxy_tls.Packet.Kinds.{CloseReason, unknown, close_reason_from, close_reason_into}
use epoxy_tls.Sink.Waiter.{Waiter, woken, waiter_register, waiter_wake}

pub data FlowControl : Type 0 where
  disabled enabled_track_amount enabled_send_messages : FlowControl

pub record StreamInfo : Type 0 where
  pub id : ℕ
  pub flow_status : FlowControl
  pub target_flow_control : ℕ
  pub flow_control : ℕ
  pub close_reason : ℕ
  pub flow_waker : Waiter

abbrev pub u32_max : ℕ
u32_max = 4294967295

abbrev pub saturating_add : ℕ → ℕ → ℕ
saturating_add a b = if ltb u32_max (a + b) then u32_max else a + b

-- 90 % of the buffer. The `debug_assert` on the identifier is left out, as in a release build.
unfoldable pub stream_info_new : ℕ → FlowControl → ℕ → StreamInfo
stream_info_new id flow_status buffer_size = record {
  id = id;
  flow_status = flow_status;
  target_flow_control = buffer_size * 90 / 100;
  flow_control = buffer_size;
  close_reason = close_reason_into unknown;
  flow_waker = woken;
}

unfoldable pub flow_set : StreamInfo → ℕ → StreamInfo
flow_set s amt = record s { flow_control = amt }

unfoldable pub flow_add : StreamInfo → ℕ → StreamInfo × ℕ
flow_add s amt =
    let new = saturating_add s.flow_control amt in (record s { flow_control = new }, new)

unfoldable pub flow_sub : StreamInfo → ℕ → StreamInfo × ℕ
flow_sub s amt = let new = s.flow_control - amt in (record s { flow_control = new }, new)

unfoldable pub flow_dec : StreamInfo → StreamInfo
unfolding flow_sub
flow_dec s = (flow_sub s 1).0

unfoldable pub flow_empty : StreamInfo → Bool
flow_empty s = s.flow_control == 0

unfoldable pub flow_register : StreamInfo → ℕ → StreamInfo
flow_register s cx = record s { flow_waker = waiter_register s.flow_waker cx }

-- The task to wake, beside the state.
unfoldable pub flow_wake : StreamInfo → Option ℕ × StreamInfo
flow_wake s = let (waker, w) = waiter_wake s.flow_waker in (waker, record s { flow_waker = w })

unfoldable pub get_reason : StreamInfo → CloseReason
get_reason s = close_reason_from s.close_reason

unfoldable pub set_reason : StreamInfo → CloseReason → StreamInfo
set_reason s reason = record s { close_reason = close_reason_into reason }
