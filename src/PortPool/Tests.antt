-- ===== src/PortPool/Tests.antt =====
-- A small pool on which the theorems on linksocks/portpool.go are run.
use linksocks.Prelude.{ℕ, ◌≡◌, false, [], ◌∷◌, ok, index, refl, arith}
use linksocks.PortPool.Pool.{PortPool, in_use, take_port, probe, get}
use linksocks.PortPool.Allocation.{Answer, Offer, Spent, get-Answer}

abbrev two_ports : PortPool
two_ports = record { ports = 8000 ∷ 8001 ∷ []; used_ports = 8001 ∷ [] }

-- The search starts at the port in use and comes round to the free one.
gets_free : get two_ports 0 1 ≡ ok (take_port two_ports 8000, 8000)
unfolding get probe in_use index
gets_free = refl

get-Answer_example :
    (r : PortPool × ℕ) × ((get two_ports 8000 1 ≡ ok r)
      × Answer two_ports r (Offer two_ports 8000) (Spent two_ports 8000))
get-Answer_example = get-Answer two_ports 8000 1 (λ _. omega arith)

free_8000 : in_use two_ports.used_ports 8000 ≡ false
unfolding in_use
free_8000 = refl
