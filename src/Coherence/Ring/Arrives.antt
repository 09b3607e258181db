-- ===== src/Coherence/Ring/Arrives.antt =====
-- src/coherence/node.cpp: a message gets round the ring.
use multicore_oo_o_sim.Base.{
  ℕ, zero, suc, ◌+◌, ◌-◌, ◌/◌, ◌%◌, ◌<◌, ◌≤◌, ◌≡◌, ◌≢◌, refl, ap, sym, subst, ◌∙◌, arith,
  if◌then◌else◌, ltb, leb, ◌==◌, Bool-cases, inl, inr,
}
use native.Mathlib.Nat.{mod-eq_of_lt, mod-eq-sub-mod}
use multicore_oo_o_sim.Coherence.Ring.{distance, target, after_hops}

-- The length of the shorter way from one node to another.
abbrev pub shortest : (num_nodes id dst : ℕ) → ℕ
shortest n id dst =
    let forth = if leb id dst then dst - id else dst + n - id in
    let back = if leb dst id then id - dst else id + n - dst in
    if leb forth back then forth else back

mod_once : (x n : ℕ) → n ≤ x → x < n + n → x % n ≡ x - n
mod_once x n h k = mod-eq-sub-mod h ∙ mod-eq_of_lt (omega (arith, h, k))

distance_lem :
    (n id dst : ℕ)
    → id < n
    → dst < n
    → distance n id dst ≡ (if leb id dst then dst - id else dst + n - id)
distance_lem n id dst i d = elim (Bool-cases (leb id dst)) [
  | inl p ↦ rw p (mod_once (dst + n - id) n (ground arith) (ground arith) ∙ ground arith)
  | inr p ↦ rw p (mod-eq_of_lt (ground arith))
]

left_lem : (n id : ℕ) → id < n → (id + n - 1) % n ≡ (if id == 0 then n - 1 else id - 1)
left_lem n id i = elim (Bool-cases (id == 0)) [
  | inl p ↦ rw p (mod-eq_of_lt (ground arith) ∙ ground arith)
  | inr p ↦ rw p (mod_once (id + n - 1) n (ground arith) (ground arith) ∙ ground arith)
]

mod_double : (n : ℕ) → 0 < n → (n + n) % n ≡ 0
mod_double n h =
    let once : (n + n) % n ≡ (n + n - n) % n = mod-eq-sub-mod (omega arith) in
    let back : (n + n - n) % n ≡ n % n = ap (λ m. m % n) (omega arith) in
    let twice : n % n ≡ (n - n) % n = mod-eq-sub-mod (omega arith) in
    let none_left : (n - n) % n ≡ 0 % n = ap (λ m. m % n) (omega arith) in
    once ∙ back ∙ twice ∙ none_left ∙ mod-eq_of_lt h

right_lem : (n id : ℕ) → id < n → (id + 1 + n) % n ≡ (if id + 1 == n then 0 else id + 1)
right_lem n id i = elim (Bool-cases (id + 1 == n)) [
  | inl p ↦
      let same : id + 1 ≡ n = ground arith in
      let pair : (id + 1 + n) % n ≡ (n + n) % n = ap (λ m. (m + n) % n) same in
      rw p (pair ∙ mod_double n (omega (arith, i)))
  | inr p ↦ rw p (mod_once (id + 1 + n) n (ground arith) (ground arith) ∙ ground arith)
]

-- The next node, without the remainders.
abbrev pub next_node : (num_nodes id dst : ℕ) → ℕ
next_node n id dst =
    if ltb (n / 2) (if leb id dst then dst - id else dst + n - id)
    then (if id == 0 then n - 1 else id - 1)
    else (if id + 1 == n then 0 else id + 1)

target_lem : (n id dst : ℕ) → id < n → dst < n → target n id dst ≡ next_node n id dst
unfolding target
target_lem n id dst i d = rw (distance_lem n id dst i d, left_lem n id i, right_lem n id i) refl

nearer :
    (n id dst : ℕ)
    → id < n
    → dst < n
    → id ≢ dst
    → (next_node n id dst < n) × (suc (shortest n (next_node n id dst) dst) ≡ shortest n id dst)
nearer n id dst i d ne = ground arith

reaches : (n k id dst : ℕ) → id < n → dst < n → shortest n id dst ≡ k → after_hops n k id dst ≡ dst
unfolding after_hops
reaches n zero id dst i d h = ground arith
reaches n (suc k) id dst i d h =
    let ne : id ≢ dst = λ e. ground arith in
    let step : (next_node n id dst < n)
        × (suc (shortest n (next_node n id dst) dst) ≡ shortest n id dst) =
      nearer n id dst i d ne in
    let left : shortest n (next_node n id dst) dst ≡ k = omega (arith, step.1, h) in
    subst (λ t. after_hops n k t dst ≡ dst) (sym (target_lem n id dst i d))
      (reaches n k (next_node n id dst) dst step.0 d left)

-- A message that each node of the ring sends on as it does reaches its destination after as many hops
-- as the shorter way round has, which is at most half of the nodes.
pub after_hops-shortest :
    (num_nodes id dst : ℕ)
    → id < num_nodes
    → dst < num_nodes
    → (after_hops num_nodes (shortest num_nodes id dst) id dst ≡ dst)
      × (shortest num_nodes id dst ≤ num_nodes / 2)
after_hops-shortest n id dst i d = (reaches n (shortest n id dst) id dst i d refl, ground arith)
