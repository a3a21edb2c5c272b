-- ===== src/Placement/Ports.antt =====
-- The subnet and the port of a new server.
use tunploy.Common.{
  ℕ, zero, suc, ◌+◌, ◌-◌, ◌≤◌, ◌<◌, ◌≡◌, sym, subst, ◌⊎◌, inl, inr, true, false, ◌&&◌, List, arith,
  ltb, ◌==◌, Bool-cases,
}
use tunploy.Common.Int.{ℤ}
use tunploy.Wg.Model.{Instance, default_listen_port}
use tunploy.Placement.{ports_on, in_use, port_from, next_free_port}

-- The lowest port from one on that is not in use, or the last one.
abbrev pub IsNextPort : List ℤ → ℕ → ℕ → Type 0
IsNextPort used first p =
    (first ≤ p)
    × (p ≤ 65535)
    × ((in_use used p ≡ false) ⊎ (p ≡ 65535))
    × ((m : ℕ) → first ≤ m → m < p → in_use used m ≡ true)

stops_at :
    (used : List ℤ) (port : ℕ)
    → port ≤ 65535
    → (in_use used port && ltb port 65535) ≡ false
    → (in_use used port ≡ false) ⊎ (port ≡ 65535)
stops_at used port h k = elim (Bool-cases (in_use used port)) [
  | inl busy ↦ inr (ground arith)
  | inr open_ ↦ inl open_
]

taken_below :
    (used : List ℤ) (port p m : ℕ)
    → in_use used port ≡ true
    → ((n : ℕ) → port + 1 ≤ n → n < p → in_use used n ≡ true)
    → port ≤ m
    → m < p
    → in_use used m ≡ true
taken_below used port p m h k l n = elim (Bool-cases (m == port)) [
  | inl same ↦ (let e : m ≡ port = ground arith in subst (λ x. in_use used x ≡ true) (sym e) h)
  | inr other ↦ k m (ground arith) n
]

port_from-IsNextPort :
    (used : List ℤ) (fuel port : ℕ)
    → port ≤ 65535
    → 65535 - port < fuel
    → IsNextPort used port (port_from used fuel port)
unfolding port_from
port_from-IsNextPort used zero port h k = absurd (omega arith)
port_from-IsNextPort used (suc fuel) port h k =
    elim (Bool-cases (in_use used port && ltb port 65535)) [
      | inr stop ↦
          rw stop (omega arith, h, stops_at used port h stop, λ m p q. absurd (omega arith))
      | inl on ↦
          let small : port < 65535 = ground arith in
          let taken : in_use used port ≡ true = ground arith in
          let (lo, hi, free, below) =
            port_from-IsNextPort used fuel (port + 1) (omega arith) (omega arith) in
          rw on (omega arith, hi, free, λ m a b. taken_below used port _ m taken below a b)
    ]

-- The port for a new server ends the loop, for any servers: it is the lowest one from 51820 on that
-- no server of the node listens on, or 65535 when all of them up to there are in use.
pub next_free_port-IsNextPort :
    (existing : List Instance) (node_id : ℕ)
    → IsNextPort (ports_on existing node_id) default_listen_port (next_free_port existing node_id)
unfolding next_free_port
next_free_port-IsNextPort existing node_id =
    port_from-IsNextPort (ports_on existing node_id) 65536 default_listen_port (omega arith)
      (omega arith)
