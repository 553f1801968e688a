-- ===== src/Server/Selection.antt =====
-- `getNextWebSocketLocked` of linksocks/server.go: the link that serves the next request of a token.
use linksocks.Prelude.{
  ℕ, zero, suc, ◌+◌, ◌%◌, ◌<◌, ◌≤◌, ◌≡◌, refl, Bool, true, false, ◌||◌, Option, none, some, List,
  [], Bytes, if◌then◌else◌, ◌==◌, length, get_or, arith, Bool-cases, inl, inr, ◌∙◌, sym, subst,
}
use linksocks.Prelude.Table.{Table, store, load-store}
use native.Mathlib.Nat.{mod-lt, mod-add-mod}
use linksocks.PortPool.Allocation.{round_of}

-- The clients of each token as links, and the round-robin indexes; `version` is the protocol major
-- of a link.
pub record Providers : Type 0 where
  pub token_clients : Table (List ℕ)
  pub token_indexes : Table ℕ

unfoldable pub clients_of : Option (List ℕ) → List ℕ
clients_of none = []
clients_of (some l) = l

unfoldable pub index_of : Option ℕ → ℕ
index_of none = 0
index_of (some i) = i

unfoldable pub speaks : (ℕ → ℕ) → ℕ → ℕ → Bool
speaks version major conn = (major == 0) || (version conn == major)

-- The loop over the offsets, with `left` to go.
unfoldable pub scan : (ℕ → ℕ) → ℕ → List ℕ → ℕ → ℕ → ℕ → Option ℕ
scan version major clients current offset zero = none
scan version major clients current offset (suc left) =
    let rest = scan version major clients current (offset + 1) left in
    let conn = get_or clients ((current + offset) % length clients) 0 in
    if speaks version major conn then some conn else rest

unfoldable pub get_next_web_socket : (ℕ → ℕ) → Providers → Bytes → ℕ → Providers × Option ℕ
get_next_web_socket version p token major =
    let clients = clients_of (p.token_clients token) in
    let current = index_of (p.token_indexes token) in
    if length clients == 0 then (p, none) else (
      record p { token_indexes = store token ((current + 1) % length clients) p.token_indexes },
      scan version major clients current 0 (length clients),
    )

-- The client at an offset from the index of the token.
abbrev pub at_offset : List ℕ → ℕ → ℕ → ℕ
at_offset clients current j = get_or clients ((current + j) % length clients) 0

-- What the loop may answer from an offset on.
abbrev pub Chosen : (ℕ → ℕ) → ℕ → List ℕ → ℕ → ℕ → ℕ → Option ℕ → Type 0
Chosen version major clients current offset last none =
    (j : ℕ) → offset ≤ j → j < last → speaks version major (at_offset clients current j) ≡ false
Chosen version major clients current offset last (some conn) =
    (j : ℕ) × (offset ≤ j)
    × (j < last)
    × (conn ≡ at_offset clients current j)
    × (speaks version major conn ≡ true)
    × ((k : ℕ) → offset ≤ k → k < j → speaks version major (at_offset clients current k) ≡ false)

Chosen-later :
    (version : ℕ → ℕ) (major : ℕ) (clients : List ℕ) (current offset last : ℕ) (r : Option ℕ)
    → speaks version major (at_offset clients current offset) ≡ false
    → Chosen version major clients current (offset + 1) last r
    → Chosen version major clients current offset last r
Chosen-later version major clients current offset last none e h = λ j lo hi.
    elim (Bool-cases (offset == j)) [
      | inl same ↦ let k : offset ≡ j = ground arith in rw (← k) e
      | inr other ↦ h j (ground arith) hi
    ]
Chosen-later version major clients current offset last (some conn) e (j, lo, hi, is, ok, before) = (
  j,
  omega arith,
  hi,
  is,
  ok,
  λ k low high. elim (Bool-cases (offset == k)) [
    | inl same ↦ let q : offset ≡ k = ground arith in rw (← q) e
    | inr other ↦ before k (ground arith) high
  ],
)

scan-Chosen :
    (version : ℕ → ℕ) (major : ℕ) (clients : List ℕ) (current offset left : ℕ)
    → Chosen version major clients current offset
        (offset + left)
        (scan version major clients current offset left)
unfolding scan
scan-Chosen version major clients current offset zero = λ j lo hi. absurd (omega arith)
scan-Chosen version major clients current offset (suc left) =
    elim (Bool-cases (speaks version major (at_offset clients current offset))) [
      | inl e ↦ rw e ((offset, omega arith, omega arith, refl, e, λ k lo hi. absurd (omega arith)))
      | inr e ↦
          let sum : offset + 1 + left ≡ offset + suc left = omega arith in
          rw e (
            Chosen-later version major clients current offset (offset + suc left) _ e
              (rw sum at (scan-Chosen version major clients current (offset + 1) left)))
    ]

-- A right answer of the rotation: the first client from the index on that speaks the generation,
-- and none only when no client of the token speaks it.
abbrev pub Picks : (ℕ → ℕ) → ℕ → List ℕ → ℕ → Option ℕ → Type 0
Picks version major clients current none =
    (k : ℕ) → k < length clients → speaks version major (get_or clients k 0) ≡ false
Picks version major clients current (some conn) =
    Chosen version major clients current 0 (length clients) (some conn)

Chosen-Picks :
    (version : ℕ → ℕ) (major : ℕ) (clients : List ℕ) (current : ℕ) (r : Option ℕ)
    → 0 < length clients
    → Chosen version major clients current 0 (length clients) r
    → Picks version major clients current r
Chosen-Picks version major clients current (some conn) nonempty h = h
Chosen-Picks version major clients current none nonempty h = λ k small.
    let (j, (in_range, hits)) =
      round_of (length clients) (current % length clients) k (mod-lt current nonempty) small in
    let same : (current + j) % length clients ≡ k =
      sym (mod-add-mod current (length clients) j) ∙ hits in
    subst (λ (x : ℕ). speaks version major (get_or clients x 0) ≡ false) same
      (h j (omega arith) in_range)

-- A token with clients moves its index to the next client, whatever the answer, and the answer is
-- the first client from the old index on that speaks the wanted generation; there is none only
-- when no client of the token speaks it.
pub get_next_web_socket-Picks :
    (version : ℕ → ℕ) (p : Providers) (token : Bytes) (major : ℕ)
    → 0 < length (clients_of (p.token_clients token))
    → ((get_next_web_socket version p token major).0.token_indexes token
        ≡ some
            ((index_of (p.token_indexes token) + 1) % length (clients_of (p.token_clients token))))
      × Picks version major
          (clients_of (p.token_clients token))
          (index_of (p.token_indexes token))
          (get_next_web_socket version p token major).1
unfolding get_next_web_socket
get_next_web_socket-Picks version p token major h =
    let some_left : (length (clients_of (p.token_clients token)) == 0) ≡ false = ground arith in
    let current = index_of (p.token_indexes token) in
    let clients = clients_of (p.token_clients token) in
    let all_rounds : 0 + length clients ≡ length clients = omega arith in
    rw some_left (
      load-store token ((current + 1) % length clients) p.token_indexes,
      Chosen-Picks version major clients current _ h
          (rw all_rounds at (scan-Chosen version major clients current 0 (length clients))),
    )
