-- ===== src/Channel/Order.antt =====
-- What a channel accepts: consecutive sequence numbers, each once.
use linksocks.Prelude.{
  ℕ, suc, ◌+◌, ◌-◌, ◌^◌, ◌<◌, ◌≤◌, ◌≡◌, ◌⊎◌, true, false, List, [], ◌∷◌, All, if◌then◌else◌, arith,
  length, drop, drop-nil, sym, inl, inr, Bool-cases, ltb,
}
use linksocks.Channel.State.{Channel}
use linksocks.Channel.Receiving.{accept_data, reject_data}
use linksocks.Message.Types.{DataMessage}

-- A receiver that is handed the messages of a link one after the other; what it accepted.
unfoldable pub accept_all : Channel → List DataMessage → Channel × List DataMessage
accept_all c [] = (c, [])
accept_all c (m ∷ rest) =
    let (c', taken) = accept_data c m in
    let (c2, accepted) = accept_all c' rest in if taken then (c2, m ∷ accepted) else (c2, accepted)

-- The messages are numbered from `n` + 1 on, with no gap.
abbrev pub Consecutive : ℕ → List DataMessage → Type 0
Consecutive n [] = Unit
Consecutive n (m ∷ rest) = (m.sequence ≡ n + 1) × Consecutive (n + 1) rest

-- A number that was sent: not zero, and a `uint64`.
abbrev pub IsNumbered : DataMessage → Type 0
IsNumbered m = (0 < m.sequence) × (m.sequence < 2 ^ 64)

accept_data-step :
    (c : Channel) (m : DataMessage)
    → IsNumbered m
    → c.received < 2 ^ 64
    → ((accept_data c m ≡ (record c { received = m.sequence }, true))
        × (m.sequence ≡ c.received + 1))
      ⊎ (accept_data c m ≡ (c, false))
unfolding accept_data
accept_data-step c m h k = ground arith

-- Whatever numbered messages a link delivers, in any order, repeated or not, the accepted ones
-- are numbered consecutively from the last received number on, and `received` counts them.
pub accept_all-Consecutive :
    (c : Channel) (ms : List DataMessage)
    → All IsNumbered ms
    → c.received < 2 ^ 64
    → Consecutive c.received (accept_all c ms).1
      × ((accept_all c ms).0.received ≡ c.received + length (accept_all c ms).1)
unfolding accept_all
accept_all-Consecutive c [] h k = (tt, omega arith)
accept_all-Consecutive c (m ∷ rest) h k = ground (
  arith,
  accept_data-step c m h.0 k,
  accept_all-Consecutive (record c { received = m.sequence }) rest h.1 h.0.1,
  accept_all-Consecutive c rest h.1 k,
)

accept_data-old :
    (c : Channel) (m : DataMessage)
    → 0 < m.sequence
    → m.sequence ≤ c.received
    → accept_data c m ≡ (c, false)
unfolding accept_data
accept_data-old c m h k = ground arith

accept_data-next :
    (c : Channel) (m : DataMessage)
    → m.sequence ≡ c.received + 1
    → m.sequence < 2 ^ 64
    → accept_data c m ≡ (record c { received = m.sequence }, true)
unfolding accept_data
accept_data-next c m h k = ground arith

drop_zero : (n : ℕ) (rest : List DataMessage) → n ≡ 0 → drop n rest ≡ rest
drop_zero n rest e = rw e

drop_none :
    (k n : ℕ) (m : DataMessage) (rest : List DataMessage)
    → k ≡ n
    → drop (n - k) (m ∷ rest) ≡ m ∷ rest
drop_none k n m rest e = let z : n - k ≡ 0 = omega arith in rw z

drop_one :
    (k n : ℕ) (m : DataMessage) (rest : List DataMessage)
    → k < n
    → drop (n - k) (m ∷ rest) ≡ drop (n - (k + 1)) rest
drop_one k n m rest e = let z : n - k ≡ suc (n - (k + 1)) = omega arith in rw z

-- After a reconnect the peer replays its unacknowledged messages, numbered from `k` + 1 on. The
-- channel takes exactly those that it has not received yet, and no number twice.
pub accept_all-replay :
    (c : Channel) (k : ℕ) (ms : List DataMessage)
    → Consecutive k ms
    → k ≤ c.received
    → c.received + length ms < 2 ^ 64
    → (accept_all c ms).1 ≡ drop (c.received - k) ms
unfolding accept_all
accept_all-replay c k [] h le fits = sym (drop-nil (c.received - k))
accept_all-replay c k (m ∷ rest) h le fits = elim (Bool-cases (ltb k c.received)) [
  | inl lt ↦ ground (
    arith,
    accept_data-old c m,
    accept_all-replay c (k + 1) rest h.1 (ground arith) (omega arith),
    drop_one k c.received m rest,
  )
  | inr ge ↦ ground (
    arith,
    accept_data-next c m,
    accept_all-replay (record c { received = m.sequence }) (k + 1) rest h.1 (omega arith)
        (ground arith),
    drop_none k c.received m rest,
    drop_zero (m.sequence - (k + 1)) rest,
  )
]

-- A message that could not be passed on is taken back: `rejectData` after an accepting
-- `acceptData` restores the channel, so a retransmission is accepted again.
pub reject_data-accept_data :
    (c : Channel) (m : DataMessage)
    → IsNumbered m
    → c.received < 2 ^ 64
    → (accept_data c m).1 ≡ true
    → reject_data (accept_data c m).0 m.sequence ≡ c
unfolding accept_data reject_data
reject_data-accept_data c m h k e = ground arith
