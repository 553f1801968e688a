-- ===== src/Channel/Replay.antt =====
-- What a channel replays when it falls back: every pending message once, in order.
use linksocks.Prelude.{
  ℕ, ◌+◌, ◌≤◌, ◌≡◌, refl, sym, Bool, true, ◌++◌, none, some, List, [], ◌∷◌, leb, All, arith, inl,
  inr, append_assoc, append-nil, Bool-cases,
}
use mathlib.Core.List.{Perm}
use mathlib.Core.List.Perm
use linksocks.Channel.State.{Channel, Network, Writer, net_write}
use linksocks.Channel.Sending.{
  insert_sorted, sort_messages, pending_messages, replay, replay_pending,
}
use linksocks.Message.Types.{DataMessage, Message, data_message}

abbrev pub values : List (ℕ × DataMessage) → List DataMessage
values [] = []
values ((k, m) ∷ rest) = m ∷ values rest

-- In the order of the sequence numbers.
abbrev pub IsOrdered : List DataMessage → Type 0
IsOrdered [] = Unit
IsOrdered (m ∷ rest) = All (λ x. m.sequence ≤ x.sequence) rest × IsOrdered rest

All-insert_sorted :
    (k : ℕ) (m : DataMessage) (l : List DataMessage)
    → k ≤ m.sequence
    → All (λ x. k ≤ x.sequence) l
    → All (λ x. k ≤ x.sequence) (insert_sorted m l)
unfolding insert_sorted
All-insert_sorted k m [] h a = (h, tt)
All-insert_sorted k m (x ∷ rest) h a = elim (Bool-cases (leb m.sequence x.sequence)) [
  | inl e ↦ rw e (h, a)
  | inr e ↦ rw e (a.0, All-insert_sorted k m rest h a.1)
]

All-weaken :
    (j k : ℕ) (l : List DataMessage)
    → j ≤ k
    → All (λ x. k ≤ x.sequence) l
    → All (λ x. j ≤ x.sequence) l
All-weaken j k [] h a = tt
All-weaken j k (x ∷ l) h a = (omega arith, All-weaken j k l h a.1)

insert_sorted-IsOrdered :
    (m : DataMessage) (l : List DataMessage) → IsOrdered l → IsOrdered (insert_sorted m l)
unfolding insert_sorted
insert_sorted-IsOrdered m [] h = (tt, tt)
insert_sorted-IsOrdered m (x ∷ rest) h = elim (Bool-cases (leb m.sequence x.sequence)) [
  | inl e ↦ rw e ((ground arith, All-weaken m.sequence x.sequence rest (ground arith) h.0), h)
  | inr e ↦
      rw e
        (All-insert_sorted x.sequence m rest (ground arith) h.0, insert_sorted-IsOrdered m rest h.1)
]

insert_sorted-perm : (m : DataMessage) (l : List DataMessage) → Perm (insert_sorted m l) (m ∷ l)
unfolding insert_sorted
insert_sorted-perm m [] = Perm.refl _
insert_sorted-perm m (x ∷ rest) = elim (Bool-cases (leb m.sequence x.sequence)) [
  | inl e ↦ rw e (Perm.refl _)
  | inr e ↦ rw e (Perm.trans (Perm.cons x (insert_sorted-perm m rest)) (Perm.swap m x rest))
]

sort_messages-sorts :
    (l : List (ℕ × DataMessage)) → IsOrdered (sort_messages l) × Perm (sort_messages l) (values l)
unfolding sort_messages
sort_messages-sorts [] = (tt, Perm.refl _)
sort_messages-sorts ((k, m) ∷ rest) =
    let (o, p) = sort_messages-sorts rest in
    (
      insert_sorted-IsOrdered m (sort_messages rest) o,
      Perm.trans (insert_sorted-perm m (sort_messages rest)) (Perm.cons m p),
    )

-- The messages to replay are the pending ones, each once, in the order of their numbers.
pub pending_messages-sorts :
    (c : Channel) → IsOrdered (pending_messages c) × Perm (pending_messages c) (values c.pending)
unfolding pending_messages
pending_messages-sorts c = sort_messages-sorts c.pending

abbrev pub sent_as : Writer → List DataMessage → List (Writer × Message)
sent_as w [] = []
sent_as w (m ∷ rest) = (w, data_message m) ∷ sent_as w rest

module _ (up : ℕ → Writer → Bool) (w : Writer) (works : (i : ℕ) → up i w ≡ true) where
  pub net_write-works :
      (n : Network) (m : Message)
      → net_write up n w m
        ≡ (record { sent = n.sent ++ ((w, m) ∷ []); attempts = n.attempts + 1 }, none)
  unfolding net_write
  net_write-works n m = rw (works n.attempts)

  replay-works :
      (n : Network) (ms : List DataMessage)
      → ((replay up n w ms).1 ≡ none) × ((replay up n w ms).0.sent ≡ n.sent ++ sent_as w ms)
  unfolding replay
  replay-works n [] = (refl, sym (append-nil n.sent))
  replay-works n (m ∷ rest) =
      let n' : Network = record {
        sent = n.sent ++ ((w, data_message m) ∷ []);
        attempts = n.attempts + 1;
      } in
      ground (
        arith,
        net_write-works n (data_message m),
        replay-works n' rest,
        append_assoc n.sent ((w, data_message m) ∷ []) (sent_as w rest),
      )

  pub replay_pending-works :
      (c : Channel) (n : Network)
      → c.writer ≡ some w
      → ((replay_pending up c n).1 ≡ none)
        × ((replay_pending up c n).0.sent ≡ n.sent ++ sent_as w (pending_messages c))
  unfolding replay_pending
  replay_pending-works c n active = ground (arith, replay-works n (pending_messages c))
