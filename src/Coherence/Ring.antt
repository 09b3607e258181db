-- ===== src/Coherence/Ring.antt =====
-- src/coherence/node.cpp: the direction in which a node of the ring sends a message on. The arithmetic of
-- the node ids is modulo the number of nodes, which is far below the width of a word.
pub mod Arrives
mod Tests
use multicore_oo_o_sim.Base.{ℕ, zero, suc, ◌+◌, ◌-◌, ◌/◌, ◌%◌, Bool, if◌then◌else◌, ltb}

module _ (num_nodes : ℕ) where
  abbrev pub distance : (id dst : ℕ) → ℕ
  distance id dst = (dst + num_nodes - id) % num_nodes

  abbrev pub goes_left : (id dst : ℕ) → Bool
  goes_left id dst = ltb (num_nodes / 2) (distance id dst)

  unfoldable pub target : (id dst : ℕ) → ℕ
  target id dst =
      if goes_left id dst
      then (id + num_nodes - 1) % num_nodes
      else (id + 1 + num_nodes) % num_nodes

  abbrev pub out_port : (id dst : ℕ) → ℕ
  out_port id dst = if goes_left id dst then 0 else 1

  abbrev pub rcv_port : (id dst : ℕ) → ℕ
  rcv_port id dst = 1 - out_port id dst

  -- The node that a message for `dst` has reached after some hops.
  unfoldable pub after_hops : (hops id dst : ℕ) → ℕ
  after_hops zero id dst = id
  after_hops (suc hops) id dst = after_hops hops (target id dst) dst
