-- ===== src/Relay/Arrivals.antt =====
-- What a channel of linksocks/relay.go finds when it is bound, after any run of arrivals and timers.
use linksocks.Prelude.{
  ℕ, suc, ◌+◌, ◌-◌, ◌≤◌, ◌≡◌, refl, sym, ap, ◌∙◌, false, none, List, [], ◌∷◌, ◌++◌, length, take,
  ltb, Option-cases, take-all, take-append_left, length-take, append-nil, if◌then◌else◌, arith,
  Bool-cases, inl, inr, length-append, append_assoc,
}
use linksocks.Prelude.Table.{load-erase}
use linksocks.Prelude.ByteOrder.{bytes_eq, bytes_eq→eq}
use linksocks.Message.Types.{DataMessage, Uuid}
use linksocks.Relay.Orphans.{
  Buffers, no_buffers, orphan_data_queue_size, offer, queue_or_new, buffer_orphan_data, move_queued,
  flush_orphan_data, expire_orphan_data,
}

-- What happens to the buffers before the channel is bound.
pub data Event : Type 0 where
  arrives : DataMessage → Event
  expires : Uuid → Event

abbrev pub step : Buffers → Event → Buffers
step t (arrives m) = buffer_orphan_data t m
step t (expires id) = expire_orphan_data t id

abbrev pub run : Buffers → List Event → Buffers
run t [] = t
run t (e ∷ es) = run (step t e) es

-- The data of a channel that arrived since its buffer last expired, behind what was there.
unfoldable pub waiting : Uuid → List DataMessage → List Event → List DataMessage
waiting id had [] = had
waiting id had (arrives m ∷ es) =
    waiting id (if bytes_eq m.channel_id id then had ++ (m ∷ []) else had) es
waiting id had (expires x ∷ es) = waiting id (if bytes_eq x id then [] else had) es

offer-take :
    (capacity : ℕ) (l : List DataMessage) (m : DataMessage)
    → offer capacity (take capacity l) m ≡ take capacity (l ++ (m ∷ []))
unfolding offer
offer-take capacity l m = elim (Bool-cases (ltb (length l) capacity)) [
  | inl e ↦
      let whole : length l + 1 ≤ capacity = ground (arith, e) in
      rw
        (
          take-all capacity l (omega (arith, whole)),
          e,
          take-all capacity (l ++ (m ∷ [])) (omega (arith, whole, length-append l (m ∷ []))),
        )
        refl
  | inr e ↦
      let enough : capacity ≤ length l = ground (arith, e) in
      let full : ltb (length (take capacity l)) capacity ≡ false =
        ground (arith, length-take capacity l, enough) in
      rw (full, take-append_left capacity l (m ∷ []) enough) refl
]

move_queued-take :
    (capacity : ℕ) (messages q : List DataMessage)
    → length messages ≤ capacity
    → move_queued capacity messages q ≡ messages ++ take (capacity - length messages) q
unfolding move_queued
move_queued-take capacity messages [] h =
    let nothing : take {A = DataMessage} (capacity - length messages) [] ≡ [] =
      take-all (capacity - length messages) [] (omega arith) in
    rw (nothing, append-nil messages) refl
move_queued-take capacity messages (m ∷ q) h = elim (Bool-cases (ltb (length messages) capacity)) [
  | inl e ↦
      let room : length messages + 1 ≤ capacity = ground (arith, e) in
      let again =
        move_queued-take capacity (messages ++ (m ∷ [])) q
          (omega (arith, room, length-append messages (m ∷ []))) in
      let left : capacity - length messages ≡ suc (capacity - length (messages ++ (m ∷ []))) =
        omega (arith, room, length-append messages (m ∷ [])) in
      rw (e, left)
        (again ∙ append_assoc messages (m ∷ []) (take (capacity - length (messages ++ (m ∷ []))) q))
  | inr e ↦
      let none_left : capacity - length messages ≡ 0 = ground (arith, e, h) in
      rw (e, none_left, append-nil messages) refl
]

-- The buffer of a channel holds the first messages of what waits.
abbrev Holds : Uuid → Buffers → List DataMessage → Type 0
Holds id t had = queue_or_new (t id) ≡ take orphan_data_queue_size had

arrives-Holds :
    (id : Uuid) (t : Buffers) (had : List DataMessage) (m : DataMessage)
    → Holds id t had
    → Holds id (buffer_orphan_data t m) (if bytes_eq m.channel_id id then had ++ (m ∷ []) else had)
unfolding buffer_orphan_data
arrives-Holds id t had m h = elim (Bool-cases (bytes_eq m.channel_id id)) [
  | inl e ↦
      let same : t m.channel_id ≡ t id = ap t (bytes_eq→eq m.channel_id id e) in
      rw (e, same, h) (offer-take orphan_data_queue_size had m)
  | inr e ↦ rw e h
]

expires-Holds :
    (id : Uuid) (t : Buffers) (had : List DataMessage) (x : Uuid)
    → Holds id t had
    → Holds id (expire_orphan_data t x) (if bytes_eq x id then [] else had)
unfolding expire_orphan_data
expires-Holds id t had x h = elim (Option-cases (t x)) [
  | inl e ↦ elim (Bool-cases (bytes_eq x id)) [
    | inl f ↦
        let same : t id ≡ none = ap t (sym (bytes_eq→eq x id f)) ∙ e in
        rw (e, expire_orphan_data, f, same) refl
    | inr f ↦ rw (e, expire_orphan_data, f) h
  ]
  | inr (q, e) ↦ elim (Bool-cases (bytes_eq x id)) [
    | inl f ↦ rw (e, expire_orphan_data, f) refl
    | inr f ↦ rw (e, expire_orphan_data, f) h
  ]
]

run-Holds :
    (id : Uuid) (t : Buffers) (had : List DataMessage) (es : List Event)
    → Holds id t had
    → Holds id (run t es) (waiting id had es)
unfolding waiting
run-Holds id t had [] h = h
run-Holds id t had (arrives m ∷ es) h =
    run-Holds id (buffer_orphan_data t m) _ es (arrives-Holds id t had m h)
run-Holds id t had (expires x ∷ es) h =
    run-Holds id (expire_orphan_data t x) _ es (expires-Holds id t had x h)

flush_orphan_data-queue :
    (t : Buffers) (id : Uuid) (capacity : ℕ) (messages : List DataMessage)
    → length messages ≤ capacity
    → (flush_orphan_data t id capacity messages).1
      ≡ messages ++ take (capacity - length messages) (queue_or_new (t id))
unfolding flush_orphan_data
flush_orphan_data-queue t id capacity messages h = elim (Option-cases (t id)) [
  | inl e ↦
      let nothing : take {A = DataMessage} (capacity - length messages) [] ≡ [] =
        take-all (capacity - length messages) [] (omega arith) in
      rw (e, flush_orphan_data, nothing, append-nil messages) refl
  | inr (q, e) ↦ rw (e, flush_orphan_data) (move_queued-take capacity messages q h)
]

flush_orphan_data-buffers :
    (t : Buffers) (id : Uuid) (capacity : ℕ) (messages : List DataMessage) (x : Uuid)
    → ((flush_orphan_data t id capacity messages).0 id ≡ none)
      × (bytes_eq id x ≡ false → (flush_orphan_data t id capacity messages).0 x ≡ t x)
unfolding flush_orphan_data
flush_orphan_data-buffers t id capacity messages x = elim (Option-cases (t id)) [
  | inl e ↦ (rw (e, flush_orphan_data) e, λ f. rw (e, flush_orphan_data) refl)
  | inr (q, e) ↦
      (rw (e, flush_orphan_data) (load-erase id t), λ f. rw (e, flush_orphan_data, f) refl)
]

-- After any arrivals and timer firings, binding a channel appends to its message queue, in the
-- order of arrival, the first 1000 data messages of the channel that arrived since its buffer last
-- expired, as many of them as the queue has room for; it leaves the channel without a buffer and
-- the buffer of every other channel as it was.
pub flush_orphan_data-in_order :
    (es : List Event) (id x : Uuid) (capacity : ℕ) (messages : List DataMessage)
    → length messages ≤ capacity
    → ((flush_orphan_data (run no_buffers es) id capacity messages).1
        ≡ messages ++ take (capacity - length messages) (take 1000 (waiting id [] es)))
      × (((flush_orphan_data (run no_buffers es) id capacity messages).0 id ≡ none)
          × (bytes_eq id x ≡ false
              → (flush_orphan_data (run no_buffers es) id capacity messages).0 x
                ≡ run no_buffers es x))
flush_orphan_data-in_order es id x capacity messages h = (
  flush_orphan_data-queue (run no_buffers es) id capacity messages h
      ∙ ap (λ q. messages ++ take (capacity - length messages) q)
          (run-Holds id no_buffers [] es refl),
  flush_orphan_data-buffers (run no_buffers es) id capacity messages x,
)
