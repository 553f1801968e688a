-- ===== src/Channel/Pending.antt =====
-- What a migrating channel keeps until the peer acknowledges it.
use linksocks.Prelude.{
  ℕ, ◌≡◌, refl, Bool, true, false, Option, none, some, List, [], ◌∷◌, ◌==◌, if◌then◌else◌, arith,
  String, Error, Option-cases, inl, inr,
}
use linksocks.Channel.State.{Channel, Network, Writer, net_write}
use linksocks.Channel.Sending.{
  Outcome, put, remove, prepare, stamped, next_sequence, use_fallback, switch_to_fallback,
  after_fallback, after_write, write_prepared, write_message,
}
use linksocks.Channel.Receiving.{acknowledge}
use linksocks.Message.Types.{DataMessage, Message, data_message}

-- `c.pending[k]`
unfoldable pub find : List (ℕ × DataMessage) → ℕ → Option DataMessage
find [] k = none
find ((j, m) ∷ rest) k = if j == k then some m else find rest k

pub find-put :
    (l : List (ℕ × DataMessage)) (k j : ℕ) (m : DataMessage)
    → find (put l k m) j ≡ (if k == j then some m else find l j)
unfolding find put
find-put [] k j m = refl
find-put ((i, x) ∷ l) k j m = ground (arith, find-put l k j m)

pub find-remove :
    (l : List (ℕ × DataMessage)) (k j : ℕ)
    → find (remove l k) j ≡ (if k == j then none else find l j)
unfolding find remove
find-remove [] k j = ground arith
find-remove ((i, x) ∷ l) k j = ground (arith, find-remove l k j)

module _ (up : ℕ → Writer → Bool) where
  pending-switch_to_fallback :
      (c : Channel) (n : Network) (reason : String)
      → (switch_to_fallback up c n reason).0.pending ≡ c.pending
  unfolding switch_to_fallback use_fallback
  pending-switch_to_fallback c n reason = ground arith

  pending-after_fallback :
      (migration : Bool) (m : Message) (o : Outcome)
      → (after_fallback up migration m o).0.pending ≡ o.0.pending
  unfolding after_fallback
  pending-after_fallback migration m (c, n, some e) = refl
  pending-after_fallback migration m (c, n, none) = ground arith

  pending-after_write :
      (migration : Bool) (c : Channel) (m : Message) (w : Network × Option Error)
      → (after_write up migration c m w).0.pending ≡ c.pending
  unfolding after_write
  pending-after_write migration c m (n, none) = refl
  pending-after_write migration c m (n, some e) = ground (
    arith,
    pending-after_fallback migration m (switch_to_fallback up c n "write failure"),
    pending-switch_to_fallback c n "write failure",
  )

  pending-write_prepared :
      (migration : Bool) (p : Channel × Message) (n : Network)
      → (write_prepared up migration p n).0.pending ≡ p.0.pending
  unfolding write_prepared
  pending-write_prepared migration (c, m) n = elim (Option-cases c.writer) [
    | inl e ↦ ground arith
    | inr (w, e) ↦ ground (arith, pending-after_write migration c m (net_write up n w m))
  ]

  -- Whatever the links do, `WriteMessage` leaves what `prepare` kept.
  pending-write_message :
      (c : Channel) (n : Network) (m : Message)
      → c.closed ≡ false
      → (write_message up c n (some m)).0.pending ≡ (prepare c m).0.pending
  unfolding write_message
  pending-write_message c n m open_ =
      simp open_ (pending-write_prepared c.migration (prepare c m) n)

  -- A data message that is written to an open migrating channel is kept under its number, and
  -- nothing else that was kept is lost, whether or not any link works.
  pub find-write_message :
      (c : Channel) (n : Network) (m : DataMessage) (j : ℕ)
      → c.closed ≡ false
      → c.migration ≡ true
      → find (write_message up c n (some (data_message m))).0.pending j
        ≡ (if next_sequence c.sequence == j then some (stamped c m) else find c.pending j)
  find-write_message c n m j open_ migrating =
      rw (pending-write_message c n (data_message m) open_) (
        unfold prepare in
        simp migrating (find-put c.pending (next_sequence c.sequence) j (stamped c m)))

-- An acknowledgement removes the message of its number and no other.
pub find-acknowledge :
    (c : Channel) (s j : ℕ)
    → find (acknowledge c s).pending j ≡ (if s == j then none else find c.pending j)
unfolding acknowledge
find-acknowledge c s j = find-remove c.pending s j
