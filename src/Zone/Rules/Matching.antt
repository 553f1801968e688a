-- ===== src/Zone/Rules/Matching.antt =====
-- When a rule of zone/rules.go matches, and which rule decides.
use linksocks.Prelude.{
  ℕ, ◌≤◌, ◌≡◌, ◌⊎◌, ◌↔◌, inl, inr, refl, ap, Bool, true, false, Option, none, some, List, [], ◌∷◌,
  ◌++◌, All, String, str_eq, arith, Bool-cases,
}
use linksocks.Zone.Addresses.{Addr, Prefix, contains}
use linksocks.Zone.Rules.Ports.{PortField, contains_port}
use linksocks.Zone.Rules.Ruleset.{
  Rule, Ruleset, Flow, port_fits, network_fits, matches, first_match, allow,
}

-- A port condition is met by TCP and UDP traffic whose port is known and in the range.
abbrev pub MeetsPort : String → PortField → Bool → ℕ → Type 0
MeetsPort proto field known port =
    (field.is_set ≡ false)
    ⊎ (((str_eq proto "tcp" ≡ true) ⊎ (str_eq proto "udp" ≡ true))
        × ((known ≡ true) × ((field.from ≤ port) × (port ≤ field.to))))

-- A network condition is met by a known address inside the network.
abbrev pub MeetsNetwork : Option Prefix → Option Addr → Type 0
MeetsNetwork none a = Unit
MeetsNetwork (some p) none = ⊥
MeetsNetwork (some p) (some a) = contains p a ≡ true

port_fits_iff :
    (proto : String) (field : PortField) (known : Bool) (port : ℕ)
    → (port_fits proto field known port ≡ true) ↔ MeetsPort proto field known port
unfolding port_fits contains_port
port_fits_iff proto field known port = ground arith

network_fits_iff :
    (p : Option Prefix) (a : Option Addr) → (network_fits p a ≡ true) ↔ MeetsNetwork p a
unfolding network_fits
network_fits_iff none a = ((λ _. tt), (λ _. refl))
network_fits_iff (some p) none = ((λ e. ground (arith, e)), (λ h. elim h [ ]))
network_fits_iff (some p) (some a) = ((λ e. e), (λ e. e))

-- A rule matches exactly the traffic of its protocol (any traffic for "any") that meets both of
-- its port conditions and both of its network conditions.
pub matches_iff :
    (r : Rule) (f : Flow)
    → (matches r f ≡ true) ↔ (
        ((str_eq r.proto "any" ≡ true) ⊎ (str_eq r.proto f.proto ≡ true))
        × (MeetsPort f.proto r.src_port f.src_port_known f.src_port
            × (MeetsPort f.proto r.dst_port f.dst_port_known f.dst_port
                × (MeetsNetwork r.src f.src × MeetsNetwork r.dst f.dst))))
unfolding matches
matches_iff r f = ground (
  arith,
  port_fits_iff f.proto r.src_port f.src_port_known f.src_port,
  port_fits_iff f.proto r.dst_port f.dst_port_known f.dst_port,
  network_fits_iff r.src f.src,
  network_fits_iff r.dst f.dst,
)

-- No rule matches and the default decides, or the first rule that matches does.
abbrev pub Decides : List Rule → Bool → Flow → Bool → Type 0
Decides rules default_allow f decision =
    (All (λ r. matches r f ≡ false) rules × (decision ≡ default_allow))
    ⊎ ((before : List Rule) × ((r : Rule) × ((after : List Rule) × ((rules ≡ before ++ (r ∷ after))
              × (All (λ x. matches x f ≡ false) before
                  × ((matches r f ≡ true) × (decision ≡ r.allow)))))))

first_match-Decides :
    (rules : List Rule) (d : Bool) (f : Flow) → Decides rules d f (first_match rules d f)
unfolding first_match
first_match-Decides [] d f = inl (tt, refl)
first_match-Decides (r ∷ rest) d f = elim (Bool-cases (matches r f)) [
  | inl e ↦ inr ([], (r, (rest, (refl, (tt, (e, rw e refl))))))
  | inr e ↦ elim (first_match-Decides rest d f) [
    | inl h ↦ inl ((e, h.0), rw e h.1)
    | inr (before, (x, (after, (split, (none_before, (hit, decision)))))) ↦ inr (
      r ∷ before,
      (x, (after, (ap (λ l. r ∷ l) split, ((e, none_before), (hit, rw e decision))))),
    )
  ]
]

-- The firewall decides by the first rule that matches, and by the default action when no rule
-- does; the rules behind the first match have no say.
pub allow-Decides : (rs : Ruleset) (f : Flow) → Decides rs.rules rs.default_allow f (allow rs f)
unfolding allow
allow-Decides rs f = first_match-Decides rs.rules rs.default_allow f
