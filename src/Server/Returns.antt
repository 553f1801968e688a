-- ===== src/Server/Returns.antt =====
-- What holds of the messages that linksocks/server.go keeps for a connector whose link is down.
use linksocks.Prelude.{
  ℕ, suc, ◌+◌, ◌≤◌, ◌≡◌, refl, sym, ap, ◌∙◌, Bool, true, none, some, List, [], ◌∷◌, ◌++◌, length,
  append-nil, append_assoc, length-append, arith, Bool-cases, Option-cases, inl, inr, ltb,
}
use linksocks.Prelude.ByteOrder.{bytes_eq_refl}
use linksocks.Prelude.Table.{store, load-store}
use linksocks.Message.Types.{Uuid, Message}
use linksocks.Relay.Orphans.{orphan_data_queue_size}
use linksocks.Server.Cache.{
  Cache, try_send, try_send_all, queue_of, buffer_connector_return, take_returns, write_returns,
  put_back, drain_connector_return,
}

-- Messages that arrive for a channel one after the other.
unfoldable pub buffer_all : Uuid → List Message → Cache → Cache
buffer_all id [] c = c
buffer_all id (m ∷ ms) c = buffer_all id ms (buffer_connector_return c id m)

abbrev pub returns : Cache → Uuid → List Message
returns c id = queue_of (c.return_queues id)

try_send_all-fits :
    (q ms : List Message)
    → length q + length ms ≤ orphan_data_queue_size
    → try_send_all q ms ≡ q ++ ms
unfolding try_send_all try_send
try_send_all-fits q [] h = sym (append-nil q)
try_send_all-fits q (m ∷ ms) h =
    let room : ltb (length q) orphan_data_queue_size ≡ true = ground arith in
    rw room (
      try_send_all-fits (q ++ (m ∷ [])) ms (omega (arith, length-append q (m ∷ [])))
      ∙ append_assoc q (m ∷ []) ms)

buffer_all-Queue :
    (id : Uuid) (ms : List Message) (c : Cache) (q : List Message)
    → c.return_queues id ≡ some q
    → (buffer_all id ms c).return_queues id ≡ some (try_send_all q ms)
unfolding buffer_all buffer_connector_return try_send_all queue_of
buffer_all-Queue id [] c q e = e
buffer_all-Queue id (m ∷ ms) c q e =
    buffer_all-Queue id ms _ (try_send q m) (rw (e, bytes_eq_refl id) refl)

buffer_all-returns :
    (id : Uuid) (ms : List Message) (c : Cache)
    → returns (buffer_all id ms c) id ≡ try_send_all (returns c id) ms
unfolding buffer_all buffer_connector_return try_send_all queue_of
buffer_all-returns id [] c = refl
buffer_all-returns id (m ∷ ms) c =
    buffer_all-returns id ms (buffer_connector_return c id m) ∙ rw (bytes_eq_refl id) refl

write_returns-append :
    (up : ℕ → Bool) (i : ℕ) (ms : List Message)
    → (write_returns up i ms).0 ++ (write_returns up i ms).1 ≡ ms
unfolding write_returns
write_returns-append up i [] = refl
write_returns-append up i (m ∷ ms) = elim (Bool-cases (up i)) [
  | inl e ↦ rw e (ap (λ (l : List Message). m ∷ l) (write_returns-append up (suc i) ms))
  | inr e ↦ rw e refl
]

write_returns-left :
    (up : ℕ → Bool) (i : ℕ) (ms : List Message) → length (write_returns up i ms).1 ≤ length ms
unfolding write_returns
write_returns-left up i [] = omega arith
write_returns-left up i (m ∷ ms) = elim (Bool-cases (up i)) [
  | inl e ↦ rw e (omega (arith, write_returns-left up (suc i) ms))
  | inr e ↦ rw e (omega arith)
]

put_back-returns :
    (c : Cache) (id : Uuid) (left q : List Message)
    → c.return_queues id ≡ some q
    → length left + length q ≤ orphan_data_queue_size
    → returns (put_back c id left) id ≡ left ++ q
unfolding put_back queue_of
put_back-returns c id [] q e h = rw e refl
put_back-returns c id (m ∷ ms) q e h =
    rw (e, put_back, bytes_eq_refl id)
      (try_send_all-fits [] ((m ∷ ms) ++ q) (omega (arith, length-append (m ∷ ms) q)))

drain-missing :
    (c : Cache) (id : Uuid) (up : ℕ → Bool) (arrived : List Message)
    → c.return_queues id ≡ none
    → length arrived ≤ orphan_data_queue_size
    → (drain_connector_return c id up (buffer_all id arrived)).1
        ++ returns (drain_connector_return c id up (buffer_all id arrived)).0 id
      ≡ arrived
unfolding drain_connector_return take_returns write_returns put_back queue_of
drain-missing c id up arrived e h =
    rw (e, take_returns)
      (buffer_all-returns id arrived c ∙ rw e (try_send_all-fits [] arrived (omega arith)))

drain-kept :
    (c : Cache) (id : Uuid) (up : ℕ → Bool) (arrived q : List Message)
    → c.return_queues id ≡ some q
    → length q + length arrived ≤ orphan_data_queue_size
    → (drain_connector_return c id up (buffer_all id arrived)).1
        ++ returns (drain_connector_return c id up (buffer_all id arrived)).0 id
      ≡ q ++ arrived
unfolding drain_connector_return take_returns
drain-kept c id up arrived q e h =
    let taken : Cache = record c { return_queues = store id [] c.return_queues } in
    let sent = (write_returns up 0 q).0 in
    let left = (write_returns up 0 q).1 in
    let back : returns (put_back (buffer_all id arrived taken) id left) id ≡ left ++ arrived =
      put_back-returns (buffer_all id arrived taken) id left arrived
        (buffer_all-Queue id arrived taken [] (load-store id [] c.return_queues)
          ∙ ap (λ (l : List Message). some l) (try_send_all-fits [] arrived (omega arith)))
        (omega (arith, write_returns-left up 0 q)) in
    rw (e, take_returns)
      (ap (λ (l : List Message). sent ++ l) back
        ∙ (sym (append_assoc sent left arrived)
            ∙ ap (λ (l : List Message). l ++ arrived) (write_returns-append up 0 q)))

-- While a connector's returns are drained onto a link that may fail at any write, and more of them
-- arrive, what was written and then what waits is what waited and then what arrived: nothing is
-- lost, doubled or out of order, as long as all of it fits the queue.
pub drain_connector_return-in_order :
    (c : Cache) (id : Uuid) (up : ℕ → Bool) (arrived : List Message)
    → length (returns c id) + length arrived ≤ orphan_data_queue_size
    → (drain_connector_return c id up (buffer_all id arrived)).1
        ++ returns (drain_connector_return c id up (buffer_all id arrived)).0 id
      ≡ returns c id ++ arrived
unfolding queue_of
drain_connector_return-in_order c id up arrived h = elim (Option-cases (c.return_queues id)) [
  | inl e ↦ rw e (drain-missing c id up arrived e (omega arith))
  | inr (q, e) ↦ rw e (drain-kept c id up arrived q e (rw e at h))
]
