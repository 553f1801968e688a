-- ===== src/PortPool/Pool.antt =====
-- `PortPool` of linksocks/portpool.go. The pool's random start, `rand.Intn`, is an argument.
use linksocks.Prelude.{
  ℕ, zero, suc, ◌+◌, ◌-◌, ◌%◌, Bool, true, false, not, List, [], ◌∷◌, ltb, ◌==◌, if◌then◌else◌,
  length, Result, ok, panic, index, ◌>>=◌,
}

pub record PortPool : Type 0 where
  pub ports : List ℕ
  -- The keys of the map `usedPorts`, whose values are all true.
  pub used_ports : List ℕ

unfoldable pub new_port_pool : List ℕ → PortPool
new_port_pool ports = record { ports = ports; used_ports = [] }

-- `for i := 0; i < size; i++ { pool.ports[i] = start + i }`
unfoldable pub count_up : ℕ → ℕ → List ℕ
count_up start zero = []
count_up start (suc size) = start ∷ count_up (start + 1) size

-- A negative size panics in `make`.
unfoldable pub new_port_pool_from_range : ℕ → ℕ → Result PortPool
new_port_pool_from_range start end =
    if ltb (end + 1) start
    then panic
    else ok (record { ports = count_up start (end + 1 - start); used_ports = [] })

-- `p.usedPorts[port]`
unfoldable pub in_use : List ℕ → ℕ → Bool
in_use [] port = false
in_use (x ∷ rest) port = if x == port then true else in_use rest port

-- `p.usedPorts[port] = true` for a port that is not in use.
unfoldable pub take_port : PortPool → ℕ → PortPool
take_port p port = record p { used_ports = port ∷ p.used_ports }

-- The loop of `Get` with `left` rounds to go.
unfoldable pub probe : PortPool → ℕ → ℕ → ℕ → Result (PortPool × ℕ)
probe p start i zero = ok (p, 0)
probe p start i (suc left) =
    let rest = probe p start (i + 1) left in
    index p.ports ((start + i) % length p.ports) >>= λ port.
    if not (in_use p.used_ports port) then ok (take_port p port, port) else rest

-- `Get`
unfoldable pub get : PortPool → ℕ → ℕ → Result (PortPool × ℕ)
get p requested_port start =
    if not (requested_port == 0)
    then (if not (in_use p.used_ports requested_port)
        then ok (take_port p requested_port, requested_port)
        else ok (p, 0))
    else if length p.ports == 0
    then ok (p, 0)
    else probe p start 0 (length p.ports)

-- `delete(p.usedPorts, port)`
unfoldable pub delete : List ℕ → ℕ → List ℕ
delete [] port = []
delete (x ∷ l) port = let rest = delete l port in if x == port then rest else x ∷ rest

-- `Put`
unfoldable pub put_port : PortPool → ℕ → PortPool
put_port p port = record p { used_ports = delete p.used_ports port }
