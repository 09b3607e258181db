-- ===== src/Coherence/Adapter/Wiring/Stores.antt =====
-- src/full/full_mode.cpp and src/cache/cache.cpp: what the adapter is told of the stores that find their line in L1.
use multicore_oo_o_sim.Base.{
  ℕ, ◌<◌, ◌≡◌, refl, sym, subst, ap, ◌∙◌, arith, Bool, true, false, some, List, [], ◌∷◌, ◌||◌,
  length,
}
use multicore_oo_o_sim.Cache.Sets.{TagMeta, find_block}
use multicore_oo_o_sim.Cache.Level.{
  MemReq, wbwa, Config, Cache, get_tag, get_index, get_block_addr, is_write, row,
}
use multicore_oo_o_sim.Cache.Level.Access.{access}
use multicore_oo_o_sim.Cache.Level.Shape.{IsValid}
use multicore_oo_o_sim.Cache.Level.Shape.Accesses.{access-IsValid}
use multicore_oo_o_sim.Coherence.Message.{private_l2, shared_lls}
use multicore_oo_o_sim.Coherence.Adapter.Invalidates.{dirty_found}
use multicore_oo_o_sim.Coherence.Adapter.Wiring.{
  wire_l1, BelowL1, serve, all_to, any_store, holds_dirty, holds, asked,
}
use multicore_oo_o_sim.Coherence.Adapter.Wiring.Lines.{
  Served, private_hit, shared_hit, line_of, index_within, in_geometry,
}

private_step :
    (k : Config) (c : Cache (BelowL1 private_l2)) (block : ℕ) (req : MemReq)
    → k.write_policy ≡ wbwa
    → IsValid k c
    → holds k block c ≡ true
    → get_block_addr k req.addr ≡ block
    → Served k block c.below
        (holds_dirty k block c || is_write req.op)
        (access (wire_l1 private_l2) (λ addr. false) req c).1
private_step k c block req p v h a =
    let line : (b : TagMeta) × (find_block (get_tag k block) (row c (get_index k block)) ≡ some b) =
      line_of k block c h in
    let d : Cache (BelowL1 private_l2) = (access (wire_l1 private_l2) (λ addr. false) req c).1 in
    let goal : Bool → Config → ℕ → Type 0 = λ x j n. Served j n c.below (x || is_write req.op) d in
    subst (λ x. goal x k block) (sym (ap dirty_found line.1))
      (in_geometry
        (λ j n.
          j.write_policy ≡ wbwa
          → get_index j n < length c.rows
          → find_block (get_tag j n) (row c (get_index j n)) ≡ some line.0
          → goal line.0.dirty j n)
        c.cfg k req.addr block v.configured a (private_hit c req line.0) p
        (index_within k block c v) line.1)

shared_step :
    (k : Config) (c : Cache (BelowL1 shared_lls)) (block : ℕ) (req : MemReq)
    → k.write_policy ≡ wbwa
    → IsValid k c
    → holds k block c ≡ true
    → holds_dirty k block c ≡ false
    → get_block_addr k req.addr ≡ block
    → Served k block
        (asked block (req ∷ []) c.below)
        false
        (access (wire_l1 shared_lls) (λ addr. false) req c).1
shared_step k c block req p v h clean a =
    let line : (b : TagMeta) × (find_block (get_tag k block) (row c (get_index k block)) ≡ some b) =
      line_of k block c h in
    let d : Cache (BelowL1 shared_lls) = (access (wire_l1 shared_lls) (λ addr. false) req c).1 in
    in_geometry
      (λ j n.
        j.write_policy ≡ wbwa
        → get_index j n < length c.rows
        → find_block (get_tag j n) (row c (get_index j n)) ≡ some line.0
        → line.0.dirty ≡ false
        → Served j n (asked n (req ∷ []) c.below) false d)
      c.cfg k req.addr block v.configured a (shared_hit c req line.0) p (index_within k block c v)
      line.1 (sym (ap dirty_found line.1) ∙ clean)

or_assoc : (a b c : Bool) → (a || b) || c ≡ a || (b || c)
or_assoc a b c = ground arith

private_run :
    (k : Config) (block : ℕ) (reqs : List MemReq) (c : Cache (BelowL1 private_l2))
    → k.write_policy ≡ wbwa
    → IsValid k c
    → holds k block c ≡ true
    → all_to k block reqs ≡ true
    → ((serve private_l2 reqs c).below ≡ c.below)
      × (holds_dirty k block (serve private_l2 reqs c) ≡ holds_dirty k block c || any_store reqs)
unfolding serve
private_run k block [] c p v h a = (refl, ground arith)
private_run k block (req ∷ reqs) c p v h a =
    let d : Cache (BelowL1 private_l2) = (access (wire_l1 private_l2) (λ addr. false) req c).1 in
    let s : Served k block c.below (holds_dirty k block c || is_write req.op) d =
      private_step k c block req p v h (ground arith) in
    let r : ((serve private_l2 reqs d).below ≡ d.below)
        × (holds_dirty k block (serve private_l2 reqs d)
            ≡ holds_dirty k block d || any_store reqs) =
      private_run k block reqs d p (access-IsValid (wire_l1 private_l2) k (λ addr. false) req c v)
        s.held (ground arith) in
    (
      r.0 ∙ s.told,
      r.1
          ∙ ap (λ x. x || any_store reqs) s.dirtied
          ∙ or_assoc (holds_dirty k block c) (is_write req.op) (any_store reqs),
    )

shared_run :
    (k : Config) (block : ℕ) (reqs : List MemReq) (c : Cache (BelowL1 shared_lls))
    → k.write_policy ≡ wbwa
    → IsValid k c
    → holds k block c ≡ true
    → holds_dirty k block c ≡ false
    → all_to k block reqs ≡ true
    → ((serve shared_lls reqs c).below ≡ asked block reqs c.below)
      × (holds_dirty k block (serve shared_lls reqs c) ≡ false)
unfolding serve
shared_run k block [] c p v h clean a = (refl, clean)
shared_run k block (req ∷ reqs) c p v h clean a =
    let d : Cache (BelowL1 shared_lls) = (access (wire_l1 shared_lls) (λ addr. false) req c).1 in
    let s : Served k block (asked block (req ∷ []) c.below) false d =
      shared_step k c block req p v h clean (ground arith) in
    let r : ((serve shared_lls reqs d).below ≡ asked block reqs d.below)
        × (holds_dirty k block (serve shared_lls reqs d) ≡ false) =
      shared_run k block reqs d p (access-IsValid (wire_l1 shared_lls) k (λ addr. false) req c v)
        s.held s.dirtied (ground arith) in
    (r.0 ∙ ap (asked block reqs) s.told, r.1)

-- A write-back L1 with well-formed sets serves any requests for a block that it holds. As the full mode
-- wires it with a private L2, the adapter, and L2, are as they were, and the line is dirty if it was or if
-- one of the requests is a store; as it wires it with a shared last-level cache, from a clean line,
-- the adapter is asked for ownership at each store, and the line stays clean until it answers.
pub stores_told :
    (k : Config) (block : ℕ) (reqs : List MemReq) (c : Cache (BelowL1 private_l2))
    (d : Cache (BelowL1 shared_lls))
    → k.write_policy ≡ wbwa
    → all_to k block reqs ≡ true
    → IsValid k c
    → holds k block c ≡ true
    → IsValid k d
    → holds k block d ≡ true
    → holds_dirty k block d ≡ false
    → (((serve private_l2 reqs c).below ≡ c.below)
        × (holds_dirty k block (serve private_l2 reqs c) ≡ holds_dirty k block c || any_store reqs))
      × (((serve shared_lls reqs d).below ≡ asked block reqs d.below)
          × (holds_dirty k block (serve shared_lls reqs d) ≡ false))
stores_told k block reqs c d p a v h w i clean =
    (private_run k block reqs c p v h a, shared_run k block reqs d p w i clean a)
