-- ===== src/Zone/Streams/Delivery.antt =====
-- What goes through a `frameQueue` of zone/streams.go.
use linksocks.Prelude.{
  ℕ, ◌+◌, ◌-◌, ◌<◌, ◌≤◌, ◌≡◌, inl, inr, refl, sym, ap, ◌∙◌, Bool, true, false, not, ◌&&◌, List, [],
  ◌∷◌, ◌++◌, leb, Bytes, length, arith, append_assoc, Bool-cases, ◌↔◌,
}
use linksocks.Zone.Streams.Queue.{
  FrameQueue, Pushed, pushed, refused, push_blocked, Popped, popped, drained, pop_blocked, push,
  pop, close_queue,
}

pub data QueueCall : Type 0 where
  push_call : Bytes → QueueCall
  pop_call close_call : QueueCall

-- The queue, the payloads it took and the payloads it handed out, oldest first.
abbrev pub Trace : Type 0
Trace = FrameQueue × List Bytes × List Bytes

unfoldable pub after_push : Bytes → List Bytes → List Bytes → FrameQueue × Pushed → Trace
after_push payload taken handed (q, pushed) = (q, taken ++ (payload ∷ []), handed)
after_push payload taken handed (q, refused) = (q, taken, handed)
after_push payload taken handed (q, push_blocked) = (q, taken, handed)

unfoldable pub after_pop : List Bytes → List Bytes → FrameQueue × Popped → Trace
after_pop taken handed (q, popped payload) = (q, taken, handed ++ (payload ∷ []))
after_pop taken handed (q, drained) = (q, taken, handed)
after_pop taken handed (q, pop_blocked) = (q, taken, handed)

unfoldable pub queue_step : Trace → QueueCall → Trace
queue_step (q, taken, handed) (push_call payload) = after_push payload taken handed (push q payload)
queue_step (q, taken, handed) pop_call = after_pop taken handed (pop q)
queue_step (q, taken, handed) close_call = (close_queue q, taken, handed)

-- Calls in any order, from any goroutines.
unfoldable pub run_queue : Trace → List QueueCall → Trace
run_queue t [] = t
run_queue t (call ∷ rest) = run_queue (queue_step t call) rest

abbrev pub total : List Bytes → ℕ
total [] = 0
total (b ∷ rest) = length b + total rest

-- What was handed out and what is queued is what was taken, in the same order, and the counter of
-- bytes is right.
abbrev pub IsFaithful : Trace → Type 0
IsFaithful (q, taken, handed) = (handed ++ q.chunks ≡ taken) × (q.bytes ≡ total q.chunks)

total-append : (a b : List Bytes) → total (a ++ b) ≡ total a + total b
total-append [] b = omega arith
total-append (x ∷ a) b = omega (arith, total-append a b)

push-IsFaithful :
    (q : FrameQueue) (taken handed : List Bytes) (payload : Bytes)
    → IsFaithful (q, taken, handed)
    → IsFaithful (queue_step (q, taken, handed) (push_call payload))
unfolding queue_step after_push push
push-IsFaithful q taken handed payload h = elim (Bool-cases (leb q.limit q.bytes && not q.closed)) [
  | inl full ↦ rw full h
  | inr room ↦ rw room (elim (Bool-cases q.closed) [
    | inl gone ↦ rw (gone) h
    | inr live ↦ rw (live) (
      sym (append_assoc handed q.chunks (payload ∷ []))
          ∙ ap (λ (l : List Bytes). l ++ (payload ∷ [])) h.0,
      omega (arith, total-append q.chunks (payload ∷ []), h.1),
    )
  ])
]

pop-IsFaithful :
    (chunks : List Bytes) (bytes limit : ℕ) (closed : Bool) (taken handed : List Bytes)
    → let q : FrameQueue = record {
      chunks = chunks;
      bytes = bytes;
      closed = closed;
      limit = limit;
    } in
      IsFaithful (q, taken, handed) → IsFaithful (queue_step (q, taken, handed) pop_call)
unfolding queue_step after_pop pop
pop-IsFaithful [] bytes limit true taken handed h = h
pop-IsFaithful [] bytes limit false taken handed h = h
pop-IsFaithful (payload ∷ rest) bytes limit closed taken handed h =
    (append_assoc handed (payload ∷ []) rest ∙ h.0, omega (arith, h.1))

queue_step-IsFaithful :
    (t : Trace) (call : QueueCall) → IsFaithful t → IsFaithful (queue_step t call)
unfolding queue_step close_queue
queue_step-IsFaithful (q, taken, handed) (push_call payload) h =
    push-IsFaithful q taken handed payload h
queue_step-IsFaithful (q, taken, handed) pop_call h =
    pop-IsFaithful q.chunks q.bytes q.limit q.closed taken handed h
queue_step-IsFaithful (q, taken, handed) close_call h = h

-- Whatever calls are made on a queue, in any order, the payloads come out in the order in which
-- they were taken, none lost and none twice, also after the queue was closed, and the counter of
-- queued bytes stays right.
pub run_queue-IsFaithful :
    (t : Trace) (calls : List QueueCall) → IsFaithful t → IsFaithful (run_queue t calls)
unfolding run_queue
run_queue-IsFaithful t [] h = h
run_queue-IsFaithful t (call ∷ rest) h =
    run_queue-IsFaithful (queue_step t call) rest (queue_step-IsFaithful t call h)

-- No payload is longer than `most`, and the queue held at most the limit and one payload.
abbrev pub IsBounded : ℕ → FrameQueue → Type 0
IsBounded most q = q.bytes ≤ q.limit + most

-- Backpressure: a queue takes a payload only while it is open and below its limit, so it never
-- holds more than the limit and one payload; a call that waits or is refused changes nothing.
pub push-IsBounded :
    (most : ℕ) (q : FrameQueue) (payload : Bytes)
    → IsBounded most q
    → length payload ≤ most
    → IsBounded most (push q payload).0
      × (((push q payload).1 ≡ pushed) ↔ ((q.closed ≡ false) × (q.bytes < q.limit)))
unfolding push
push-IsBounded most q payload h k = ground arith

-- A closed queue hands out what it holds, chunk by chunk, and then ends the reader; it takes
-- nothing more.
abbrev pub Drains : FrameQueue → List Bytes → Type 0
Drains q [] = pop q ≡ (q, drained)
Drains q (payload ∷ rest) = ((pop q).1 ≡ popped payload) × Drains (pop q).0 rest

pub close_queue-Drains :
    (chunks : List Bytes) (bytes limit : ℕ)
    → Drains (record { chunks = chunks; bytes = bytes; closed = true; limit = limit }) chunks
unfolding pop
close_queue-Drains [] bytes limit = refl
close_queue-Drains (payload ∷ rest) bytes limit =
    (refl, close_queue-Drains rest (bytes - length payload) limit)
