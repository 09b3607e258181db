-- ===== src/Coherence/Adapter/Invalidates.antt =====
-- src/coherence/coherence_adapter.cpp: what a message of the protocol leaves in the caches.
use multicore_oo_o_sim.Base.{
  ℕ, zero, suc, ◌≡◌, refl, ap, subst, arith, Bool, true, false, Option, none, some, List, [], ◌∷◌,
  ◌||◌, not, if-cases, get_or, set,
}
use multicore_oo_o_sim.Cache.Sets.{TagMeta, is_in, find_block, remove, write_dirty}
use multicore_oo_o_sim.Cache.Sets.Shape.{set_ok, distinct, removed}
use multicore_oo_o_sim.Cache.Level.{
  Config, Cache, get_tag, get_index, row, is_in_cache, coherence_invalidate, coherence_clean,
}
use multicore_oo_o_sim.Cache.Level.Shape.{IsValid}
use multicore_oo_o_sim.Coherence.Message.{
  Message, MessageKind, req_invalid, recall_goto_i, recall_goto_s,
}
use multicore_oo_o_sim.Coherence.Adapter.{
  CoherenceAdapter, to_cache_block, on_event, on_ntwk_event_private,
}

abbrev pub dirty_found : Option TagMeta → Bool
dirty_found none = false
dirty_found (some b) = b.dirty

-- What the message asks of a cache: not to hold the block, or not to hold it dirty.
abbrev pub honoured : MessageKind → Bool → ℕ → List TagMeta → Bool
honoured req_invalid dirty tag set = not (is_in tag set)
honoured recall_goto_i dirty tag set = not (is_in tag set)
honoured recall_goto_s dirty tag set = dirty || not (dirty_found (find_block tag set))
honoured _ dirty tag set = true

set_ok-distinct : (n : ℕ) (l : List TagMeta) → set_ok n l ≡ true → distinct l ≡ true
set_ok-distinct n l h = ground arith

removed_there :
    (t : ℕ) (rows : List (List TagMeta)) (i : ℕ)
    → distinct (get_or rows i []) ≡ true
    → is_in t (get_or (set rows i (remove t (get_or rows i []))) i []) ≡ false
unfolding is_in
removed_there t [] i h = refl
removed_there t (r ∷ rs) zero h = removed t r h
removed_there t (r ∷ rs) (suc i) h = removed_there t rs i h

cleaned : (t : ℕ) (l : List TagMeta) → dirty_found (find_block t (write_dirty false t l)) ≡ false
unfolding find_block write_dirty
cleaned t [] = refl
cleaned t (b ∷ bs) = ground (arith, cleaned t bs)

cleaned_there :
    (t : ℕ) (rows : List (List TagMeta)) (i : ℕ)
    → dirty_found (find_block t (get_or (set rows i (write_dirty false t (get_or rows i []))) i []))
      ≡ false
unfolding find_block
cleaned_there t [] i = refl
cleaned_there t (r ∷ rs) zero = cleaned t r
cleaned_there t (r ∷ rs) (suc i) = cleaned_there t rs i

module _ {D : Type 0} (k : Config) (block : ℕ) where
  invalidated :
      (c : Cache D)
      → IsValid k c
      → is_in (get_tag k block) (row (coherence_invalidate block c) (get_index k block)) ≡ false
  unfolding coherence_invalidate
  invalidated c v =
      subst
        (λ j.
          is_in (get_tag j block) (row (coherence_invalidate block c) (get_index j block)) ≡ false)
        v.configured
        (if-cases
          (λ (d : Cache D). is_in (get_tag c.cfg block) (row d (get_index c.cfg block)) ≡ false)
          (is_in_cache (get_tag c.cfg block) (get_index c.cfg block) c) _ _
          (λ p.
            removed_there (get_tag c.cfg block) c.rows (get_index c.cfg block)
              (set_ok-distinct _ _ (v.sets_ok (get_index c.cfg block))))
          (λ p. p))

  clean :
      (c : Cache D)
      → IsValid k c
      → dirty_found
          (find_block (get_tag k block) (row (coherence_clean block c) (get_index k block)))
        ≡ false
  unfolding coherence_clean
  clean c v =
      subst
        (λ j.
          dirty_found
            (find_block (get_tag j block) (row (coherence_clean block c) (get_index j block)))
          ≡ false)
        v.configured (cleaned_there (get_tag c.cfg block) c.rows (get_index c.cfg block))

  honoured-on_event :
      (kind : MessageKind) (dirty : Bool) (c : Cache D)
      → IsValid k c
      → honoured kind dirty
          (get_tag k block)
          (row (on_event block kind dirty c) (get_index k block))
        ≡ true
  honoured-on_event req_invalid dirty c v = ap not (invalidated c v)
  honoured-on_event recall_goto_i dirty c v = ap not (invalidated c v)
  honoured-on_event recall_goto_s true c v = refl
  honoured-on_event recall_goto_s false c v = ap not (clean c v)
  honoured-on_event _ dirty c v = refl

-- With a private L2 whose sets, like those of L1, are well formed, a message of the network leaves the
-- block in neither cache where it takes it away, and dirty in neither where it leaves it to be shared
-- clean.
pub honoured-on_ntwk_event_private :
    (k1 k2 : Config) (m : Message) (c : Cache (Cache CoherenceAdapter))
    → IsValid k1 c
    → IsValid k2 c.below
    → (honoured m.kind m.dirty (get_tag k1 (to_cache_block m.block c.below.below.block_size_log2)) (
          row
            (on_ntwk_event_private m c)
            (get_index k1 (to_cache_block m.block c.below.below.block_size_log2)))
        ≡ true)
      × (honoured m.kind m.dirty
            (get_tag k2 (to_cache_block m.block c.below.below.block_size_log2))
            (row
              (on_ntwk_event_private m c).below
              (get_index k2 (to_cache_block m.block c.below.below.block_size_log2)))
          ≡ true)
unfolding on_ntwk_event_private
honoured-on_ntwk_event_private k1 k2 m c v w =
    let block : ℕ = to_cache_block m.block c.below.below.block_size_log2 in
    (
      honoured-on_event k1 block m.kind m.dirty c v,
      honoured-on_event k2 block m.kind m.dirty c.below w,
    )
