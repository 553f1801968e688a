-- ===== src/Zone/Streams/Queue.antt =====
-- `frameQueue` of zone/streams.go. A call that waits on the condition variable is `blocked`: it
-- changes nothing and is tried again after the next change.
use linksocks.Prelude.{
  ℕ, ◌+◌, ◌-◌, Bool, true, false, not, ◌&&◌, List, [], ◌∷◌, ◌++◌, leb, if◌then◌else◌, Bytes, length,
}

pub record FrameQueue : Type 0 where
  pub chunks : List Bytes
  pub bytes : ℕ
  pub closed : Bool
  pub limit : ℕ

unfoldable pub new_frame_queue : ℕ → FrameQueue
new_frame_queue limit = record { chunks = []; bytes = 0; closed = false; limit = limit }

-- `refused` and `drained` are the answers false.
pub data Pushed : Type 0 where
  pushed refused push_blocked : Pushed

pub data Popped : Type 0 where
  popped : Bytes → Popped
  drained pop_blocked : Popped

unfoldable pub push : FrameQueue → Bytes → FrameQueue × Pushed
push q payload =
    if leb q.limit q.bytes && not q.closed
    then (q, push_blocked)
    else if q.closed
    then (q, refused)
    else (
      record q { chunks = q.chunks ++ (payload ∷ []); bytes = q.bytes + length payload },
      pushed,
    )

unfoldable pub pop : FrameQueue → FrameQueue × Popped
pop q = elim q.chunks [
  | [] ↦ (q, if q.closed then drained else pop_blocked)
  | ◌∷◌ payload rest ↦
      (record q { chunks = rest; bytes = q.bytes - length payload }, popped payload)
]

unfoldable pub close_queue : FrameQueue → FrameQueue
close_queue q = record q { closed = true }
