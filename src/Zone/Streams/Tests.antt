-- ===== src/Zone/Streams/Tests.antt =====
-- A queue and a stream on which the theorems on zone/streams.go are run.
use linksocks.Prelude.{◌≡◌, refl, true, false, List, [], ◌∷◌, arith}
use linksocks.Zone.Streams.Queue.{FrameQueue, push, close_queue}
use linksocks.Zone.Streams.Delivery.{
  QueueCall, push_call, pop_call, close_call, run_queue, IsFaithful, run_queue-IsFaithful,
}
use linksocks.Zone.Streams.Stream.{
  new_stream, enqueue, remote_close, abort, shut, finish, discard, release,
}
use linksocks.Zone.Streams.Life.{
  attached_late, attach_event, stream_step, StreamEvent, enqueue_event, read_end_event, abort_event,
  remote_close_event, run_stream, IsSound, run_stream-IsSound,
}

abbrev empty_queue : FrameQueue
empty_queue = record { chunks = []; bytes = 0; closed = false; limit = 4 }

abbrev queue_calls : List QueueCall
queue_calls = push_call (1 ∷ 2 ∷ []) ∷ push_call (3 ∷ []) ∷ pop_call ∷ close_call ∷ pop_call ∷ []

run_queue-IsFaithful_example : IsFaithful (run_queue (empty_queue, [], []) queue_calls)
run_queue-IsFaithful_example = run_queue-IsFaithful (empty_queue, [], []) queue_calls (refl, refl)

-- The peer resets the stream before the connection that was dialled for it is attached.
abbrev stream_events : List StreamEvent
stream_events =
    enqueue_event (1 ∷ [])
    ∷ remote_close_event
    ∷ abort_event
    ∷ attach_event
    ∷ read_end_event true
    ∷ []

new-IsSound : IsSound (new_stream 9)
unfolding new_stream
new-IsSound = ground arith

not_done : (new_stream 9).done ≡ true → (new_stream 9).local_open ≡ false
unfolding new_stream
not_done h = refl

run_stream-IsSound_example :
    IsSound (run_stream (new_stream 9) stream_events)
    × ((run_stream (new_stream 9) stream_events).done ≡ true
        → (run_stream (new_stream 9) stream_events).local_open
          ≡ attached_late (new_stream 9) stream_events)
run_stream-IsSound_example = run_stream-IsSound (new_stream 9) stream_events new-IsSound not_done

leaks : attached_late (new_stream 9) stream_events ≡ true
unfolding attached_late stream_step new_stream enqueue push remote_close abort shut finish discard
    release close_queue
leaks = ground arith

is_new :
    ((new_stream 9).done ≡ false)
    × (((new_stream 9).remote_closed ≡ false) × ((new_stream 9).local_closed ≡ false))
unfolding new_stream
is_new = (refl, (refl, refl))
