-- ===== src/Zone/Streams/Stream.antt =====
-- `zoneStream` of zone/streams.go and its entry in the stream table. Each method is one step: its
-- changes to the flags are made under the stream's mutex. The half-close of the local
-- connection's write side is left out.
use linksocks.Prelude.{
  ℕ, ◌+◌, ◌*◌, Bool, true, false, ◌||◌, List, [], ◌∷◌, ◌++◌, if◌then◌else◌, Bytes,
}
use linksocks.Zone.Cipher.Streams.{close_message, reset_message}
use linksocks.Zone.Streams.Queue.{FrameQueue, new_frame_queue, push, close_queue}

abbrev pub stream_queue_limit : ℕ
stream_queue_limit = 512 * 1024

pub record Stream : Type 0 where
  pub id : ℕ
  pub queue : FrameQueue
  -- The local connection is attached and not closed.
  pub local_open : Bool
  pub local_closed : Bool
  pub remote_closed : Bool
  pub done : Bool
  pub in_table : Bool
  -- How often `close(s.finished)` ran: a second time panics.
  pub finished : ℕ
  -- The messages that `sendPlain` was given.
  pub sent : List Bytes

unfoldable pub new_stream : ℕ → Stream
new_stream id = record {
  id = id;
  queue = new_frame_queue stream_queue_limit;
  local_open = false;
  local_closed = false;
  remote_closed = false;
  done = false;
  in_table = true;
  finished = 0;
  sent = [];
}

unfoldable pub attach : Stream → Stream
attach s = record s { local_open = true }

unfoldable pub enqueue : Stream → Bytes → Stream
enqueue s payload = let (queue, answer) = push s.queue payload in record s { queue = queue }

unfoldable pub release : Stream → Stream
release s = if s.done then s else record s {
  done = true;
  queue = close_queue s.queue;
  local_open = false;
  finished = s.finished + 1;
}

-- `discard` of the table.
unfoldable pub discard : Stream → Stream
discard s = release (record s { in_table = false })

-- `abort` up to the call of `discard`.
unfoldable pub shut : Stream → Stream
shut s = record s { done = true; queue = close_queue s.queue; local_open = false }

unfoldable pub finish : Stream → Stream
finish s = record s { finished = s.finished + 1 }

unfoldable pub abort : Stream → Stream
abort s = if s.done then s else finish (discard (shut s))

unfoldable pub send_plain : Stream → Bytes → Stream
send_plain s message = record s { sent = s.sent ++ (message ∷ []) }

unfoldable pub fail : Stream → Stream
fail s = abort (send_plain s (reset_message s.id 1))

unfoldable pub remote_close : Stream → Stream
remote_close s =
    if s.done || s.remote_closed
    then s
    else (let s' = record s { remote_closed = true; queue = close_queue s.queue } in
        if s.local_closed then abort s' else s')

-- The end of `readLoop`: the local connection ended, or failed.
unfoldable pub read_end : Stream → Bool → Stream
read_end s eof =
    let s' = record s { local_closed = true } in
    if eof
    then (let s2 = send_plain s' (close_message s.id) in if s.remote_closed then abort s2 else s2)
    else abort (send_plain s' (reset_message s.id 1))
