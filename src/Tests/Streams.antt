-- ===== src/Tests/Streams.antt =====
-- The halves of a stream in concrete runs.
use epoxy_tls.Base.{
  ◌≡◌, ◌-◌, ◌*◌, ◌/◌, ◌+◌, ◌≤◌, ◌<◌, refl, arith, true, false, [], ◌∷◌, length, none,
}
use epoxy_tls.Sink.Transport.{ready, Transport}
use epoxy_tls.Stream.Channel.{bounded}
use epoxy_tls.Stream.Info.{
  enabled_send_messages, enabled_track_amount, stream_info_new, flow_dec, flow_sub, flow_empty,
}
use epoxy_tls.Stream.Read.{MuxStreamRead, read_new, poll_next}
use epoxy_tls.Stream.Read.Balance.{IsBalanced, Works, arrive, yielded}
use epoxy_tls.Stream.Read.Drain.{IsIdle, drain, drained_has_credit}
use epoxy_tls.Stream.Read.Schedule.{
  Announces, Invariant, here, next, arrives, polls, stream_delivers, poll_next-Announces,
}
use epoxy_tls.Stream.Write.{
  MuxStreamWrite, write_new, write_poll_ready, write_poll_flush, write_start_send,
}
use epoxy_tls.Stream.Write.Credit.{
  sent_within_credit, no_call, one_more, polls_ready, starts_send, polls_flush,
}
use epoxy_tls.Tests.Instances.{list_buf, list_flume}

abbrev idle : Transport
idle = record {
  lock_free = true;
  poll_ready = ready none;
  start_send = λ p. none;
  poll_flush = ready none;
}

idle-Works : Works idle
idle-Works = record { no_error = λ e h. cc; accepts = λ p. refl }

abbrev fresh : MuxStreamRead
fresh = record {
  channel = bounded 1;
  info = stream_info_new 7 enabled_send_messages 1;
  read_cnt = 0;
  chunk = none;
  locked = false;
  sent = [];
}

fresh-IsBalanced : IsBalanced 1 fresh
unfolding stream_info_new
fresh-IsBalanced = record {
  status = refl;
  bound = refl;
  receiver = refl;
  target = refl;
  balance = refl;
  unannounced = omega arith;
}

-- A server's stream with room for one payload: it arrives, and the reader takes it.
abbrev opened : MuxStreamRead
opened = read_new (bounded 1) (stream_info_new 7 enabled_send_messages 1)

abbrev received : MuxStreamRead
received = arrive opened (9 ∷ [])

stream_delivers_example :
    Invariant 1 ((poll_next received idle).0, (9 ∷ []) ∷ [], yielded (poll_next received idle).1)
unfolding read_new stream_info_new
stream_delivers_example =
    stream_delivers 1 7
      ((poll_next received idle).0, (9 ∷ []) ∷ [], yielded (poll_next received idle).1)
      (omega arith)
      (next (next here (arrives opened [] [] (9 ∷ []) (omega arith)))
        (polls received ((9 ∷ []) ∷ []) [] idle idle-Works))

poll_next-Announces_example : Announces 1 fresh (poll_next fresh idle).0
poll_next-Announces_example =
    poll_next-Announces 1 fresh idle (omega arith) fresh-IsBalanced idle-Works

abbrev full : MuxStreamRead
full = record fresh {
  channel = record (bounded 1) { queue = (9 ∷ []) ∷ [] };
  info = flow_dec (stream_info_new 7 enabled_send_messages 1);
}

full-IsBalanced : IsBalanced 1 full
unfolding stream_info_new flow_dec flow_sub
full-IsBalanced = record {
  status = refl;
  bound = refl;
  receiver = refl;
  target = refl;
  balance = refl;
  unannounced = omega arith;
}

idle-IsIdle : IsIdle idle
idle-IsIdle = record { free = refl; ready_now = refl; accepts = λ p. refl }

drained_has_credit_example :
    let s' = drain (length full.channel.queue) full idle in
    (s'.channel.queue ≡ []) × (1 - 1 * 90 / 100 ≤ s'.info.flow_control) × (0 < s'.info.flow_control)
drained_has_credit_example =
    drained_has_credit 1 full idle (omega arith) (omega arith) idle-IsIdle full-IsBalanced refl refl

-- A client with a credit of 1 is told that it may send, gives an item and flushes it.
abbrev granted : MuxStreamWrite
granted = write_new (stream_info_new 7 enabled_track_amount 1)

abbrev written : MuxStreamWrite
written = (write_start_send (write_poll_ready granted 3 idle).0 (9 ∷ [])).0

sent_within_credit_example : length (write_poll_flush written idle).0.sent ≤ 1 + 1
unfolding write_new stream_info_new write_poll_ready flow_empty
sent_within_credit_example =
    sent_within_credit 1 7 ((write_poll_flush written idle).0, false)
      (one_more
        (one_more (one_more no_call (polls_ready granted false 3 idle))
          (starts_send (write_poll_ready granted 3 idle).0 (9 ∷ [])))
        (polls_flush written false idle))
