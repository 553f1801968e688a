-- ===== src/Zone/Streams/Life.antt =====
-- The life of a stream of zone/streams.go.
use linksocks.Prelude.{
  ◌≡◌, Bool, true, false, List, [], ◌∷◌, if◌then◌else◌, Bytes, arith, refl, Bool-cases, inl, inr,
}
use linksocks.Zone.Streams.Queue.{push, close_queue}
use linksocks.Zone.Streams.Stream.{
  Stream, attach, enqueue, release, discard, shut, finish, abort, send_plain, fail, remote_close,
  read_end,
}

pub data StreamEvent : Type 0 where
  enqueue_event : Bytes → StreamEvent
  read_end_event : Bool → StreamEvent
  attach_event abort_event discard_event fail_event remote_close_event : StreamEvent

unfoldable pub stream_step : Stream → StreamEvent → Stream
stream_step s attach_event = attach s
stream_step s (enqueue_event payload) = enqueue s payload
stream_step s (read_end_event eof) = read_end s eof
stream_step s abort_event = abort s
stream_step s discard_event = discard s
stream_step s fail_event = fail s
stream_step s remote_close_event = remote_close s

unfoldable pub run_stream : Stream → List StreamEvent → Stream
run_stream s [] = s
run_stream s (event ∷ rest) = run_stream (stream_step s event) rest

-- The end is announced once, when the stream is done; the queue of a done stream is closed and it is
-- out of the table; and it is done when both sides closed.
abbrev pub IsSound : Stream → Type 0
IsSound s =
    (s.finished ≡ (if s.done then 1 else 0))
    × ((s.done ≡ true → (s.queue.closed ≡ true) × (s.in_table ≡ false))
        × (s.local_closed ≡ true → s.remote_closed ≡ true → s.done ≡ true))

-- A local connection is attached when the stream is already done.
unfoldable pub attached_late : Stream → List StreamEvent → Bool
attached_late s [] = false
attached_late s (attach_event ∷ rest) =
    let later = attached_late (attach s) rest in if s.done then true else later
attached_late s (event ∷ rest) = attached_late (stream_step s event) rest

stream_step-IsSound : (s : Stream) (event : StreamEvent) → IsSound s → IsSound (stream_step s event)
unfolding stream_step attach enqueue push read_end abort discard release shut finish fail send_plain
    remote_close close_queue
stream_step-IsSound s attach_event h = ground (arith, h)
stream_step-IsSound s (enqueue_event payload) h = ground (arith, h)
stream_step-IsSound s (read_end_event eof) h = ground (arith, h)
stream_step-IsSound s abort_event h = ground (arith, h)
stream_step-IsSound s discard_event h = ground (arith, h)
stream_step-IsSound s fail_event h = ground (arith, h)
stream_step-IsSound s remote_close_event h = ground (arith, h)

run_stream-keeps_IsSound :
    (s : Stream) (events : List StreamEvent) → IsSound s → IsSound (run_stream s events)
unfolding run_stream
run_stream-keeps_IsSound s [] h = h
run_stream-keeps_IsSound s (event ∷ rest) h =
    run_stream-keeps_IsSound (stream_step s event) rest (stream_step-IsSound s event h)

-- A done stream that holds an open connection.
abbrev Leaks : Stream → Type 0
Leaks s = (s.done ≡ true) × (s.local_open ≡ true)

stream_step-Leaks : (s : Stream) (event : StreamEvent) → Leaks s → Leaks (stream_step s event)
unfolding stream_step attach enqueue push read_end abort discard release shut finish fail send_plain
    remote_close close_queue
stream_step-Leaks s attach_event h = ground (arith, h)
stream_step-Leaks s (enqueue_event payload) h = ground (arith, h)
stream_step-Leaks s (read_end_event eof) h = ground (arith, h)
stream_step-Leaks s abort_event h = ground (arith, h)
stream_step-Leaks s discard_event h = ground (arith, h)
stream_step-Leaks s fail_event h = ground (arith, h)
stream_step-Leaks s remote_close_event h = ground (arith, h)

attach-Leaks : (s : Stream) → s.done ≡ true → Leaks (attach s)
unfolding attach
attach-Leaks s e = (e, refl)

run_stream-Leaks : (s : Stream) (events : List StreamEvent) → Leaks s → Leaks (run_stream s events)
unfolding run_stream
run_stream-Leaks s [] h = h
run_stream-Leaks s (event ∷ rest) h =
    run_stream-Leaks (stream_step s event) rest (stream_step-Leaks s event h)

-- A done stream whose connection is closed.
abbrev Closes : Stream → Type 0
Closes s = s.done ≡ true → s.local_open ≡ false

-- No event but a late attach leaves a done stream with an open connection.
stream_step-Closes :
    (s : Stream) (event : StreamEvent)
    → (event ≡ attach_event → s.done ≡ false)
    → Closes s
    → Closes (stream_step s event)
unfolding stream_step attach enqueue push read_end abort discard release shut finish fail send_plain
    remote_close close_queue
stream_step-Closes s attach_event early h = ground (arith, h, early refl)
stream_step-Closes s (enqueue_event payload) early h = ground (arith, h)
stream_step-Closes s (read_end_event eof) early h = ground (arith, h)
stream_step-Closes s abort_event early h = ground (arith, h)
stream_step-Closes s discard_event early h = ground (arith, h)
stream_step-Closes s fail_event early h = ground (arith, h)
stream_step-Closes s remote_close_event early h = ground (arith, h)

run_stream-local_open :
    (s : Stream) (events : List StreamEvent)
    → Closes s
    → (run_stream s events).done ≡ true
    → (run_stream s events).local_open ≡ attached_late s events
unfolding run_stream attached_late stream_step
run_stream-local_open s [] h d = h d
run_stream-local_open s (attach_event ∷ rest) h d = elim (Bool-cases s.done) [
  | inl e ↦ ground (arith, e, run_stream-Leaks (attach s) rest (attach-Leaks s e))
  | inr e ↦ ground (
    arith,
    e,
    run_stream-local_open (attach s) rest (stream_step-Closes s attach_event (λ _. e) h) d,
  )
]
run_stream-local_open s (enqueue_event payload ∷ rest) h d =
    run_stream-local_open (enqueue s payload) rest
      (stream_step-Closes s (enqueue_event payload) (λ x. cc) h) d
run_stream-local_open s (read_end_event eof ∷ rest) h d =
    run_stream-local_open (read_end s eof) rest
      (stream_step-Closes s (read_end_event eof) (λ x. cc) h) d
run_stream-local_open s (abort_event ∷ rest) h d =
    run_stream-local_open (abort s) rest (stream_step-Closes s abort_event (λ x. cc) h) d
run_stream-local_open s (discard_event ∷ rest) h d =
    run_stream-local_open (discard s) rest (stream_step-Closes s discard_event (λ x. cc) h) d
run_stream-local_open s (fail_event ∷ rest) h d =
    run_stream-local_open (fail s) rest (stream_step-Closes s fail_event (λ x. cc) h) d
run_stream-local_open s (remote_close_event ∷ rest) h d =
    run_stream-local_open (remote_close s) rest
      (stream_step-Closes s remote_close_event (λ x. cc) h) d

-- Whatever happens to a stream, in any order and however often, its end is announced at most
-- once, when it is done; from then on its queue takes nothing and it is out of the table; once both
-- sides closed it is done; and when it is done its connection is closed, unless a connection was
-- attached after the end: then one is open, and it stays so.
pub run_stream-IsSound :
    (s : Stream) (events : List StreamEvent)
    → IsSound s
    → (s.done ≡ true → s.local_open ≡ false)
    → IsSound (run_stream s events)
      × ((run_stream s events).done ≡ true
          → (run_stream s events).local_open ≡ attached_late s events)
run_stream-IsSound s events h closes =
    (run_stream-keeps_IsSound s events h, run_stream-local_open s events closes)

-- A stream that is live and open on both sides is done once its local side ended and its peer
-- closed, in either order, and the messages to the peer are the same in both.
pub remote_close-read_end :
    (s : Stream)
    → s.done ≡ false
    → s.remote_closed ≡ false
    → s.local_closed ≡ false
    → ((remote_close (read_end s true)).done ≡ true)
      × (((read_end (remote_close s) true).done ≡ true)
          × ((remote_close (read_end s true)).sent ≡ (read_end (remote_close s) true).sent))
unfolding read_end abort discard release shut finish send_plain remote_close close_queue
remote_close-read_end s live open_remote open_local = ground (arith, live, open_remote, open_local)
