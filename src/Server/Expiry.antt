-- ===== src/Server/Expiry.antt =====
-- What the end of the grace window does to a channel in linksocks/server.go.
use linksocks.Prelude.{
  ℕ, ◌==◌, ◌≡◌, refl, true, false, none, some, [], ◌∷◌, arith, ◌⊎◌, inl, inr, ap, ◌∙◌, Bool-cases,
  Option-cases,
}
use linksocks.Prelude.ByteOrder.{codes, bytes_eq, bytes_eq_refl}
use linksocks.Message.Types.{Uuid, Message, disconnect}
use linksocks.Server.Cache.{
  Cache, points_at, still_dead, expiry_peer, expiry_notices, expire_channel,
  cleanup_connector_channel,
}

abbrev pub expired_notice : Uuid → Message
expired_notice id = disconnect (record { channel_id = id; error = codes "peer link expired" })

-- Nothing of the channel is left.
abbrev pub Forgotten : Uuid → Cache → Type 0
Forgotten id c =
    (c.channel_to_client id ≡ none)
    × (c.channel_to_connector id ≡ none)
    × (c.orphan_queues id ≡ none)
    × (c.return_queues id ≡ none)

cleanup-Forgotten : (c : Cache) (id : Uuid) → Forgotten id (cleanup_connector_channel c id)
unfolding cleanup_connector_channel
cleanup-Forgotten c id = rw (bytes_eq_refl id) (refl, refl, refl, refl)

-- Another channel has what it had.
abbrev pub Untouched : Uuid → Cache → Cache → Type 0
Untouched x c c' =
    (c'.channel_to_client x ≡ c.channel_to_client x)
    × (c'.channel_to_connector x ≡ c.channel_to_connector x)
    × (c'.orphan_queues x ≡ c.orphan_queues x)
    × (c'.return_queues x ≡ c.return_queues x)

cleanup-Untouched :
    (c : Cache) (id x : Uuid)
    → bytes_eq id x ≡ false
    → Untouched x c (cleanup_connector_channel c id)
unfolding cleanup_connector_channel
cleanup-Untouched c id x e = rw e (refl, refl, refl, refl)

-- A link is one of the two that a channel is bound to.
abbrev pub BoundTo : Cache → ℕ → Uuid → Type 0
BoundTo c ws id = (c.channel_to_connector id ≡ some ws) ⊎ (c.channel_to_client id ≡ some ws)

still_dead-BoundTo : (c : Cache) (ws : ℕ) (id : Uuid) → BoundTo c ws id → still_dead c ws id ≡ true
unfolding still_dead points_at
still_dead-BoundTo c ws id (inl e) = ground (arith, e)
still_dead-BoundTo c ws id (inr e) = ground (arith, e)

not_BoundTo-still_dead :
    (c : Cache) (ws : ℕ) (id : Uuid) → ¬ (BoundTo c ws id) → still_dead c ws id ≡ false
unfolding still_dead points_at
not_BoundTo-still_dead c ws id free = elim (Option-cases (c.channel_to_connector id)) [
  | inl e ↦ elim (Option-cases (c.channel_to_client id)) [
    | inl f ↦ rw (e, f) refl
    | inr (q, f) ↦ elim (Bool-cases (q == ws)) [
      | inl same ↦ let h : q ≡ ws = ground arith in absurd (free (inr (f ∙ ap some h)))
      | inr other ↦ rw (e, f, other) refl
    ]
  ]
  | inr (p, e) ↦ elim (Bool-cases (p == ws)) [
    | inl same ↦ let h : p ≡ ws = ground arith in absurd (free (inl (e ∙ ap some h)))
    | inr apart ↦ elim (Option-cases (c.channel_to_client id)) [
      | inl f ↦ rw (e, f, apart) refl
      | inr (q, f) ↦ elim (Bool-cases (q == ws)) [
        | inl same ↦ let h : q ≡ ws = ground arith in absurd (free (inr (f ∙ ap some h)))
        | inr other ↦ rw (e, f, apart, other) refl
      ]
    ]
  ]
]

expiry_notices-peer :
    (c : Cache) (ws : ℕ) (id : Uuid)
    → BoundTo c ws id
    → ((p : ℕ)
        → c.channel_to_connector id ≡ some p
        → expiry_notices (expiry_peer c id) id ≡ (p, expired_notice id) ∷ [])
      × (c.channel_to_connector id ≡ none
          → expiry_notices (expiry_peer c id) id ≡ (ws, expired_notice id) ∷ [])
unfolding expiry_peer expiry_notices
expiry_notices-peer c ws id (inl e) = (λ p f. ground (arith, f), λ f. absurd (ground (arith, e, f)))
expiry_notices-peer c ws id (inr e) = (λ p f. ground (arith, f), λ f. ground (arith, f, e))

-- When the grace ends for a channel that has the departed link `ws` on one side, then, whatever
-- others do to the cache before the cleanup, also when they bind the channel to a live link, the
-- channel is forgotten and every other channel is left as they left it. One disconnect is written: to
-- the link of the connector if the channel has one, also when that is the departed link, and else to
-- the departed link. A channel that has the link on neither side is left as it is.
pub expire_channel-Notifies :
    (c : Cache) (ws : ℕ) (id : Uuid) (meanwhile : Cache → Cache)
    → (BoundTo c ws id
        → Forgotten id (expire_channel c ws id meanwhile).0
          × ((x : Uuid)
              → bytes_eq id x ≡ false
              → Untouched x (meanwhile c) (expire_channel c ws id meanwhile).0)
          × ((p : ℕ)
              → c.channel_to_connector id ≡ some p
              → (expire_channel c ws id meanwhile).1 ≡ (p, expired_notice id) ∷ [])
          × (c.channel_to_connector id ≡ none
              → (expire_channel c ws id meanwhile).1 ≡ (ws, expired_notice id) ∷ []))
      × (¬ (BoundTo c ws id) → expire_channel c ws id meanwhile ≡ (c, []))
unfolding expire_channel
expire_channel-Notifies c ws id meanwhile = (
  λ h.
      let (connected, alone) = expiry_notices-peer c ws id h in
      rw (still_dead-BoundTo c ws id h) (
        cleanup-Forgotten (meanwhile c) id,
        λ x e. cleanup-Untouched (meanwhile c) id x e,
        connected,
        alone,
      ),
  λ free. rw (not_BoundTo-still_dead c ws id free) refl,
)
