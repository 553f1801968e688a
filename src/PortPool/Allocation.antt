-- ===== src/PortPool/Allocation.antt =====
-- What the pool hands out: free ports, none of them twice, and one whenever there is one.
use linksocks.Prelude.{
  ℕ, zero, suc, ◌+◌, ◌-◌, ◌%◌, ◌<◌, ◌≤◌, ◌≡◌, ◌⊎◌, refl, ◌∙◌, true, false, not, List, [], ◌∷◌, ltb,
  ◌==◌, if◌then◌else◌, length, ok, index_in, get_or, arith, inl, inr, Bool-cases, subst,
}
use native.Mathlib.Nat.{mod-lt, mod-eq_of_lt, add-mod_right}
use linksocks.PortPool.Pool.{PortPool, in_use, take_port, probe, get, delete, put_port}

-- What a call of `Get` may answer: a port that is offered and free, which is in use from then on;
-- or 0 with nothing changed, when the ports are exhausted.
abbrev pub Answer : PortPool → PortPool × ℕ → (ℕ → Type 0) → Type 0 → Type 0
Answer p (p', port) Offered Exhausted =
    ((in_use p.used_ports port ≡ false) × ((p' ≡ take_port p port) × Offered port))
    ⊎ ((port ≡ 0) × ((p' ≡ p) × Exhausted))

-- A port of the pool.
abbrev pub Pooled : PortPool → ℕ → Type 0
Pooled p port = (k : ℕ) × ((k < length p.ports) × (get_or p.ports k 0 ≡ port))

probe-step :
    (p : PortPool) (start i left : ℕ)
    → 0 < length p.ports
    → probe p start i (suc left) ≡ (
        if not (in_use p.used_ports (get_or p.ports ((start + i) % length p.ports) 0))
        then ok (
          take_port p (get_or p.ports ((start + i) % length p.ports) 0),
          get_or p.ports ((start + i) % length p.ports) 0,
        )
        else probe p start (i + 1) left)
unfolding probe
probe-step p start i left h =
    rw (index_in p.ports ((start + i) % length p.ports) (mod-lt (start + i) h)) refl

-- Every port that the remaining rounds visit is in use.
abbrev Visited : PortPool → ℕ → ℕ → ℕ → Type 0
Visited p start i left =
    (j : ℕ)
    → i ≤ j
    → j < i + left
    → in_use p.used_ports (get_or p.ports ((start + j) % length p.ports) 0) ≡ true

Visited-step :
    (p : PortPool) (start i left : ℕ)
    → in_use p.used_ports (get_or p.ports ((start + i) % length p.ports) 0) ≡ true
    → Visited p start (i + 1) left
    → Visited p start i (suc left)
Visited-step p start i left e rest j lo hi = elim (Bool-cases (i == j)) [
  | inl same ↦ let k : i ≡ j = ground arith in rw (← k) e
  | inr later ↦ rest j (ground arith) (omega arith)
]

probe-Answer :
    (p : PortPool) (start i left : ℕ)
    → 0 < length p.ports
    → (r : PortPool × ℕ) × ((probe p start i left ≡ ok r)
        × Answer p r (Pooled p) (Visited p start i left))
unfolding probe
probe-Answer p start i zero h =
    ((p, 0), (refl, inr (refl, (refl, λ j lo hi. absurd (omega arith)))))
probe-Answer p start i (suc left) h =
    let port = get_or p.ports ((start + i) % length p.ports) 0 in
    let step = probe-step p start i left h in
    elim (Bool-cases (in_use p.used_ports port)) [
      | inl e ↦
          let (r, (eq, answer)) = probe-Answer p start (i + 1) left h in
          elim answer [
            | inl free ↦ (r, (step ∙ rw e eq, inl free))
            | inr (z, (same, rest)) ↦
                (r, (step ∙ rw e eq, inr (z, (same, Visited-step p start i left e rest))))
          ]
      | inr e ↦ (
        (take_port p port, port),
        (
          step ∙ rw e refl,
          inl (e, (refl, ((start + i) % length p.ports, (mod-lt (start + i) h, refl)))),
        ),
      )
    ]

-- Every index is among the rounds of a full loop.
pub round_of : (n start k : ℕ) → start < n → k < n → (j : ℕ) × ((j < n) × ((start + j) % n ≡ k))
round_of n start k h1 h2 = elim (Bool-cases (ltb k start)) [
  | inl e ↦ (
    k + n - start,
    (
      ground arith,
      (let a : start + (k + n - start) ≡ k + n = ground arith in
          rw a (add-mod_right k n ∙ mod-eq_of_lt h2)),
    ),
  )
  | inr e ↦ (
    k - start,
    (omega arith, (let a : start + (k - start) ≡ k = ground arith in rw a (mod-eq_of_lt h2))),
  )
]

-- The ports that a request may be given, and when there is none for it: the requested port alone,
-- or any port of the pool.
abbrev pub Offer : PortPool → ℕ → ℕ → Type 0
Offer p requested port = if requested == 0 then Pooled p port else (port ≡ requested)

abbrev pub Spent : PortPool → ℕ → Type 0
Spent p requested =
    if requested == 0
    then ((k : ℕ) → k < length p.ports → in_use p.used_ports (get_or p.ports k 0) ≡ true)
    else in_use p.used_ports requested ≡ true

-- `Get` never panics. Either it hands out a port that was not in use, the requested one when one is
-- requested and else a port of the pool, and marks it; or it answers 0 and changes nothing, and then
-- the requested port is in use or, with no request, every port of the pool is.
pub get-Answer :
    (p : PortPool) (requested start : ℕ)
    → (0 < length p.ports → start < length p.ports)
    → (r : PortPool × ℕ) × ((get p requested start ≡ ok r)
        × Answer p r (Offer p requested) (Spent p requested))
unfolding get
get-Answer p requested start h = elim (Bool-cases (requested == 0)) [
  | inr e ↦ elim (Bool-cases (in_use p.used_ports requested)) [
    | inl u ↦ ((p, 0), (rw (e, u) refl, inr (refl, (refl, rw e u))))
    | inr u ↦ ((take_port p requested, requested), (rw (e, u) refl, inl (u, (refl, rw e refl))))
  ]
  | inl e ↦ elim (Bool-cases (length p.ports == 0)) [
    | inl z ↦ ((p, 0), (rw (e, z) refl, inr (refl, (refl, rw e (λ k lt. absurd (ground arith))))))
    | inr z ↦
        let (r, (eq, answer)) = probe-Answer p start 0 (length p.ports) (ground arith) in
        elim answer [
          | inl (free, (taken, pooled)) ↦ (r, (rw (e, z) eq, inl (free, (taken, rw e pooled))))
          | inr (zero_port, (same, visited)) ↦ (
            r,
            (
              rw (e, z) eq,
              inr (
                zero_port,
                (
                  same,
                  rw e (λ k lt.
                      let (j, (in_range, hits)) =
                        round_of (length p.ports) start k (h (ground arith)) lt in
                      subst (λ (x : ℕ). in_use p.used_ports (get_or p.ports x 0) ≡ true) hits
                        (visited j (omega arith) (omega arith))),
                ),
              ),
            ),
          )
        ]
  ]
]

pub delete-in_use :
    (l : List ℕ) (port other : ℕ)
    → in_use (delete l port) other ≡ (if port == other then false else in_use l other)
unfolding in_use delete
delete-in_use [] port other = ground arith
delete-in_use (x ∷ l) port other = ground (arith, delete-in_use l port other)

in_use_same : (l : List ℕ) (port other : ℕ) → port ≡ other → in_use l port ≡ in_use l other
in_use_same l port other e = rw e refl

-- A port that was taken and put back is free again, and no other port changes hands.
pub put_port-take_port :
    (p : PortPool) (port other : ℕ)
    → in_use p.used_ports port ≡ false
    → in_use (put_port (take_port p port) port).used_ports other ≡ in_use p.used_ports other
unfolding take_port put_port in_use
put_port-take_port p port other free =
    ground
      (arith, delete-in_use (port ∷ p.used_ports) port other, in_use_same p.used_ports port other)
