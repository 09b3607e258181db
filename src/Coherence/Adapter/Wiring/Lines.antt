-- ===== src/Coherence/Adapter/Wiring/Lines.antt =====
-- src/full/full_mode.cpp and src/cache/cache.cpp: one request that finds its line in L1.
use multicore_oo_o_sim.Base.{
  ℕ, ◌<◌, ◌≡◌, refl, sym, subst, ap, ◌∙◌, arith, Bool, true, false, some, List, [], ◌∷◌, ◌||◌, not,
  if◌then◌else◌, get_or, set, get_or-set_self, length, Option-cases, inl, inr,
}
use native.Mathlib.Nat.{mod-lt}
use multicore_oo_o_sim.Cache.Mshr.{AccessResult, op_write}
use multicore_oo_o_sim.Cache.Sets.{TagMeta, is_in, find_block, remove, to_front}
use multicore_oo_o_sim.Cache.Sets.Shape.{find_block-is_in, find_block-absent}
use multicore_oo_o_sim.Cache.Level.{
  MemReq, wbwa, CoherenceSink, Downstream, Config, Cache, index_bit, get_tag, get_index,
  get_block_addr, is_write, row,
}
use multicore_oo_o_sim.Cache.Level.Access.{
  access, by_policy, wbwa_found, wbwa_resident, wbwa_hit, upgrade, touched, count_access,
}
use multicore_oo_o_sim.Cache.Level.Shape.{IsValid}
use multicore_oo_o_sim.Cache.Level.Run.{pow_pos}
use multicore_oo_o_sim.Coherence.Message.{private_l2, shared_lls}
use multicore_oo_o_sim.Coherence.Adapter.{CoherenceAdapter, on_miss, on_evict}
use multicore_oo_o_sim.Coherence.Adapter.Invalidates.{dirty_found}
use multicore_oo_o_sim.Coherence.Adapter.Wiring.{wire_l1, BelowL1, holds_dirty, holds, asked}

-- What a request for a block that is held leaves of the cache: what is below it, and its line.
pub record Served {D : Type 0} (k : Config) (block : ℕ) (below : D) (dirty : Bool) (d : Cache D)
    : Type 0 where
  pub told : d.below ≡ below
  pub held : holds k block d ≡ true
  pub dirtied : holds_dirty k block d ≡ dirty

found_dirty :
    (t : ℕ) (b : TagMeta) (l : List TagMeta)
    → b.tag ≡ t
    → b.valid ≡ true
    → dirty_found (find_block t (b ∷ l)) ≡ b.dirty
unfolding find_block
found_dirty t b l e v = ground arith

found_held :
    (t : ℕ) (b : TagMeta) (l : List TagMeta) → b.tag ≡ t → b.valid ≡ true → is_in t (b ∷ l) ≡ true
unfolding is_in
found_held t b l e v = ground arith

-- A line that is moved to the front, with or without a change of its dirty bit.
moved :
    {D : Type 0} (c d : Cache D) (block : ℕ) (b b' : TagMeta)
    → get_index c.cfg block < length c.rows
    → find_block (get_tag c.cfg block) (row c (get_index c.cfg block)) ≡ some b
    → b'.tag ≡ b.tag
    → b'.valid ≡ b.valid
    → d.rows
      ≡ set c.rows
          (get_index c.cfg block)
          (to_front (get_tag c.cfg block) b' (row c (get_index c.cfg block)))
    → Served c.cfg block d.below b'.dirty d
moved c d block b b' i f e v r =
    let tag : ℕ = get_tag c.cfg block in
    let index : ℕ = get_index c.cfg block in
    let there : _ = find_block-is_in tag (row c index) b f in
    let put : row d index ≡ to_front tag b' (row c index) =
      ap (λ l. get_or l index []) r
      ∙ get_or-set_self c.rows index (to_front tag b' (row c index)) [] i in
    let same_tag : b'.tag ≡ tag = e ∙ there.1.0 in
    let still : b'.valid ≡ true = v ∙ there.1.1 in
    record {
      told = refl;
      held = ap (is_in tag) put ∙ found_held tag b' (remove tag (row c index)) same_tag still;
      dirtied =
          ap (λ l. dirty_found (find_block tag l)) put
          ∙ found_dirty tag b' (remove tag (row c index)) same_tag still;
    }

pub private_hit :
    (c : Cache (BelowL1 private_l2)) (req : MemReq) (b : TagMeta)
    → c.cfg.write_policy ≡ wbwa
    → get_index c.cfg (get_block_addr c.cfg req.addr) < length c.rows
    → find_block
        (get_tag c.cfg (get_block_addr c.cfg req.addr))
        (row c (get_index c.cfg (get_block_addr c.cfg req.addr)))
      ≡ some b
    → Served c.cfg
        (get_block_addr c.cfg req.addr)
        c.below
        (b.dirty || is_write req.op)
        (access (wire_l1 private_l2) (λ addr. false) req c).1
unfolding access
private_hit c req b p i f =
    let down : Downstream (BelowL1 private_l2) = wire_l1 private_l2 in
    let block : ℕ = get_block_addr c.cfg req.addr in
    let c' : Cache (BelowL1 private_l2) = count_access down req c in
    let found : AccessResult × Cache (BelowL1 private_l2) =
      wbwa_found down (λ addr. false) req (some b) c' in
    let dirty : (touched down (is_write req.op) b).dirty ≡ b.dirty || is_write req.op =
      ground arith in
    subst
      (λ q.
        Served c.cfg block c.below (b.dirty || is_write req.op)
          (by_policy down (λ addr. false) q req c').1)
      (sym p)
      (subst
        (λ o.
          Served c.cfg block c.below (b.dirty || is_write req.op)
            (wbwa_found down (λ addr. false) req o c').1)
        (sym f)
        (subst (λ q. Served c.cfg block c.below q found.1) dirty
          (moved c found.1 block b (touched down (is_write req.op) b) i f refl refl refl)))

sink : CoherenceSink CoherenceAdapter
sink = record { on_miss = on_miss; on_evict = on_evict }

shared_line :
    (c : Cache (BelowL1 shared_lls)) (req : MemReq) (block : ℕ) (write : Bool) (b : TagMeta)
    → get_index c.cfg block < length c.rows
    → find_block (get_tag c.cfg block) (row c (get_index c.cfg block)) ≡ some b
    → b.dirty ≡ false
    → Served c.cfg block
        (if write then on_miss block op_write c.below else c.below)
        false
        (wbwa_resident
          (wire_l1 shared_lls)
          (some sink)
          write
          block
          b
          (get_tag c.cfg block)
          (get_index c.cfg block)
          (count_access (wire_l1 shared_lls) req c)).1
unfolding sink
shared_line c req block true b i f clean =
    let down : Downstream (BelowL1 shared_lls) = wire_l1 shared_lls in
    let c' : Cache (BelowL1 shared_lls) = count_access down req c in
    let up : AccessResult × Cache (BelowL1 shared_lls) =
      upgrade down sink block b (get_tag c.cfg block) (get_index c.cfg block) c' in
    let asks : not b.dirty ≡ true = ap not clean in
    rw asks (
      subst (λ d. Served c.cfg block (on_miss block op_write c.below) d up.1) clean
        (moved c up.1 block b b i f refl refl refl))
shared_line c req block false b i f clean =
    let down : Downstream (BelowL1 shared_lls) = wire_l1 shared_lls in
    let c' : Cache (BelowL1 shared_lls) = count_access down req c in
    let hit : AccessResult × Cache (BelowL1 shared_lls) =
      wbwa_hit down false b (get_tag c.cfg block) (get_index c.cfg block) c' in
    subst (λ d. Served c.cfg block c.below d hit.1) clean
      (moved c hit.1 block b (touched down false b) i f refl refl refl)

pub shared_hit :
    (c : Cache (BelowL1 shared_lls)) (req : MemReq) (b : TagMeta)
    → c.cfg.write_policy ≡ wbwa
    → get_index c.cfg (get_block_addr c.cfg req.addr) < length c.rows
    → find_block
        (get_tag c.cfg (get_block_addr c.cfg req.addr))
        (row c (get_index c.cfg (get_block_addr c.cfg req.addr)))
      ≡ some b
    → b.dirty ≡ false
    → Served c.cfg
        (get_block_addr c.cfg req.addr)
        (asked (get_block_addr c.cfg req.addr) (req ∷ []) c.below)
        false
        (access (wire_l1 shared_lls) (λ addr. false) req c).1
unfolding access sink
shared_hit c req b p i f clean =
    let down : Downstream (BelowL1 shared_lls) = wire_l1 shared_lls in
    let block : ℕ = get_block_addr c.cfg req.addr in
    let c' : Cache (BelowL1 shared_lls) = count_access down req c in
    let told : CoherenceAdapter = asked block (req ∷ []) c.below in
    subst (λ q. Served c.cfg block told false (by_policy down (λ addr. false) q req c').1) (sym p)
      (subst (λ o. Served c.cfg block told false (wbwa_found down (λ addr. false) req o c').1)
        (sym f) (shared_line c req block (is_write req.op) b i f clean))

-- The line of a block that is held, in the geometry `k` of the cache.
pub line_of :
    {D : Type 0} (k : Config) (block : ℕ) (c : Cache D)
    → holds k block c ≡ true
    → (b : TagMeta) × (find_block (get_tag k block) (row c (get_index k block)) ≡ some b)
line_of k block c h =
    elim (Option-cases (find_block (get_tag k block) (row c (get_index k block)))) [
      | inl n ↦
          absurd (ground (arith, find_block-absent (get_tag k block) (row c (get_index k block)) n))
      | inr s ↦ s
    ]

pub index_within :
    {D : Type 0} (k : Config) (block : ℕ) (c : Cache D)
    → IsValid k c
    → get_index k block < length c.rows
index_within k block c v =
    subst (λ n. get_index k block < n) (sym v.all_sets) (mod-lt block (pow_pos (index_bit k)))

-- What holds for the geometry of a cache and the block of an address there, where these are known as `k` and
-- `block`.
pub in_geometry :
    (P : Config → ℕ → Type 0) (j k : Config) (addr block : ℕ)
    → j ≡ k
    → get_block_addr k addr ≡ block
    → P j (get_block_addr j addr)
    → P k block
in_geometry P j k addr block e a x = subst (P k) a (subst (λ g. P g (get_block_addr g addr)) e x)
