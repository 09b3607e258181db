-- ===== src/Coherence/Adapter/Wakes.antt =====
-- src/coherence/coherence_adapter.cpp: the requests that an answer wakes.
use multicore_oo_o_sim.Base.{
  ℕ, ◌≡◌, refl, ap, sym, subst, ◌∙◌, arith, Bool, true, false, Option, none, some, List, [], ◌∷◌,
  ◌==◌, ◌&&◌, not, if◌then◌else◌, if-cases, Bool-cases, inl, inr,
}
use multicore_oo_o_sim.Cache.Mshr
use multicore_oo_o_sim.Cache.Mshr.{MshrEntry, contains, entry_holds}
use multicore_oo_o_sim.Cache.Mshr.Stalls.{is_none}
use multicore_oo_o_sim.Cache.Level.{
  Downstream, Cache, mark_entry, peek, block_in, byte_of, get_index, coherence_set_dirty,
}
use multicore_oo_o_sim.Cache.Level.Insert.{insert_new_block}
use multicore_oo_o_sim.Cache.Level.Access.Books.{book-before_insert}
use multicore_oo_o_sim.Cache.Level.Below.{over_level}
use multicore_oo_o_sim.Coherence.Message.{Message}
use multicore_oo_o_sim.Coherence.Adapter.{
  CoherenceAdapter, mark_ids, mark_all, mark_block_ready, cache_fill, over_adapter, drain, drained,
  consume, served_l1, served_both, fill_l2, tick_shared, tick_private, to_cache_block,
}

-- Whether the request with an identifier has its answer, and whether it waits for a block.
abbrev pub is_ready : Option MshrEntry → Bool
is_ready none = false
is_ready (some e) = e.ready

abbrev pub waits_for : ℕ → Option MshrEntry → Bool
waits_for block none = false
waits_for block (some e) = e.block_addr == block

abbrev ready_of : ℕ → Mshr.Mshr → Bool
ready_of y t = is_ready (Mshr.find y t)

held-mark_entry :
    (y id : ℕ) (t : Mshr.Mshr) → is_none (Mshr.find y (mark_entry id t)) ≡ is_none (Mshr.find y t)
unfolding mark_entry Mshr.find entry_holds
held-mark_entry y id [] = refl
held-mark_entry y id (e ∷ es) = ground (arith, held-mark_entry y id es)

marked : (y : ℕ) (t : Mshr.Mshr) → ready_of y (mark_entry y t) ≡ not (is_none (Mshr.find y t))
unfolding mark_entry Mshr.find entry_holds
marked y [] = refl
marked y (e ∷ es) = ground (arith, marked y es)

stays_ready : (y id : ℕ) (t : Mshr.Mshr) → ready_of y t ≡ true → ready_of y (mark_entry id t) ≡ true
unfolding mark_entry Mshr.find entry_holds
stays_ready y id [] h = h
stays_ready y id (e ∷ es) h = ground (arith, stays_ready y id es)

held-mark_ids :
    (y : ℕ) (ids : List ℕ) (t : Mshr.Mshr)
    → is_none (Mshr.find y (mark_ids ids t)) ≡ is_none (Mshr.find y t)
unfolding mark_ids
held-mark_ids y [] t = refl
held-mark_ids y (id ∷ ids) t = held-mark_ids y ids (mark_entry id t) ∙ held-mark_entry y id t

all_stay_ready :
    (y : ℕ) (ids : List ℕ) (t : Mshr.Mshr)
    → ready_of y t ≡ true
    → ready_of y (mark_ids ids t) ≡ true
unfolding mark_ids
all_stay_ready y [] t h = h
all_stay_ready y (id ∷ ids) t h = all_stay_ready y ids (mark_entry id t) (stays_ready y id t h)

-- An identifier that is held and is among those marked has its answer.
ready-mark_ids :
    (y : ℕ) (ids : List ℕ) (t : Mshr.Mshr)
    → contains y ids ≡ true
    → is_none (Mshr.find y t) ≡ false
    → ready_of y (mark_ids ids t) ≡ true
unfolding mark_ids contains
ready-mark_ids y [] t c h = absurd cc
ready-mark_ids y (id ∷ ids) t c h = elim (Bool-cases (id == y)) [
  | inl p ↦
      let same : id ≡ y = ground arith in
      all_stay_ready y ids (mark_entry id t)
        (subst (λ i. ready_of y (mark_entry i t) ≡ true) (sym same) (marked y t ∙ ap not h))
  | inr p ↦ ready-mark_ids y ids (mark_entry id t) (ground arith) (held-mark_entry y id t ∙ h)
]

still_ready :
    (b y : ℕ) (es t : Mshr.Mshr) → ready_of y t ≡ true → ready_of y (mark_all b es t) ≡ true
unfolding mark_all
still_ready b y [] t h = h
still_ready b y (e ∷ es) t h = still_ready b y es _ (
    if-cases (λ (u : Mshr.Mshr). ready_of y u ≡ true) (e.valid && (e.block_addr == b)) _ _
      (λ p. all_stay_ready y (e.id ∷ e.merged_ids) t h) (λ p. h))

-- A request that the loop finds waiting for the block gets its answer.
ready-mark_all :
    (b y : ℕ) (es t : Mshr.Mshr)
    → waits_for b (Mshr.find y es) ≡ true
    → is_none (Mshr.find y t) ≡ false
    → ready_of y (mark_all b es t) ≡ true
unfolding mark_all Mshr.find entry_holds contains
ready-mark_all b y [] t w h = absurd cc
ready-mark_all b y (e ∷ es) t w h = elim (Bool-cases (entry_holds e y)) [
  | inl p ↦
      let found : waits_for b (if entry_holds e y then some e else Mshr.find y es) ≡ true = w in
      let here : e.valid && (e.block_addr == b) ≡ true = ground arith in
      rw here (still_ready b y es _ (ready-mark_ids y (e.id ∷ e.merged_ids) t (ground arith) h))
  | inr p ↦ ready-mark_all b y es _ (ground arith) (
      if-cases (λ (u : Mshr.Mshr). is_none (Mshr.find y u) ≡ false) (e.valid && (e.block_addr == b))
        _ _ (λ q. held-mark_ids y (e.id ∷ e.merged_ids) t ∙ h) (λ q. h))
]

held_if_waiting : (b : ℕ) (o : Option MshrEntry) → waits_for b o ≡ true → is_none o ≡ false
held_if_waiting b none h = absurd cc
held_if_waiting b (some e) h = refl

mshr-cache_fill :
    {D : Type 0} (down : Downstream D) (block : ℕ) (write : Bool) (c : Cache D)
    → (cache_fill down block write c).mshr ≡ c.mshr
unfolding cache_fill insert_new_block coherence_set_dirty
mshr-cache_fill {D} down block write c =
    if-cases (λ (d : Cache D). d.mshr ≡ c.mshr) (block_in c (byte_of c.cfg block)) _ _
      (λ p. if-cases (λ (d : Cache D). d.mshr ≡ c.mshr) write _ _ (λ q. refl) (λ q. refl))
      (λ p. ap (λ b. b.1.0) (book-before_insert down c.cfg.write_policy (get_index c.cfg block) c))

ready-mark_block_ready :
    {D : Type 0} (b y : ℕ) (c : Cache D)
    → waits_for b (peek y c) ≡ true
    → is_ready (peek y (mark_block_ready b c)) ≡ true
unfolding mark_block_ready
ready-mark_block_ready b y c w =
    ready-mark_all b y c.mshr c.mshr w (held_if_waiting b (Mshr.find y c.mshr) w)

size-drain : (a : CoherenceAdapter) → (drain a).block_size_log2 ≡ a.block_size_log2
size-drain a = drained_size a.outbound_proc a.cpu_in_next
  where
    drained_size :
        (l : List Message) (o : Option Message)
        → (drained l o a).block_size_log2 ≡ a.block_size_log2
    drained_size [] o = refl
    drained_size (m ∷ ms) (some busy) = refl
    drained_size (m ∷ ms) none = refl

ready-fill :
    {D : Type 0} (down : Downstream D) (b y : ℕ) (write : Bool) (c : Cache D)
    → waits_for b (peek y c) ≡ true
    → is_ready (peek y (mark_block_ready b (cache_fill down b write c))) ≡ true
ready-fill down b y write c w =
    ready-mark_block_ready b y (cache_fill down b write c)
      (ap (λ t. waits_for b (Mshr.find y t)) (mshr-cache_fill down b write c) ∙ w)

-- Where the last-level cache is shared, a cycle of the adapter that finds an answer in its slot makes
-- each request ready that the L1 cache has in flight for that block, merged or not.
pub ready-tick_shared :
    (c : Cache CoherenceAdapter) (m : Message) (y : ℕ)
    → c.below.port.cache_in_next ≡ some m
    → waits_for (to_cache_block m.block c.below.block_size_log2) (peek y c) ≡ true
    → is_ready (peek y (tick_shared c)) ≡ true
unfolding tick_shared
ready-tick_shared c m y a w =
    let d : CoherenceAdapter = drain c.below in
    let b : ℕ = to_cache_block m.block d.block_size_log2 in
    let kept : Cache CoherenceAdapter = record c { below = d } in
    subst (λ o. is_ready (peek y (served_l1 o kept)) ≡ true) (sym a)
      (ready-fill over_adapter b y (contains m.block d.pending_stores)
        (record c { below = consume m d })
        (ap (λ n. waits_for (to_cache_block m.block n) (peek y c)) (size-drain c.below) ∙ w))

-- With a private L2, a cycle of the adapter that finds an answer in its slot makes each request ready
-- that the L1 cache has in flight for that block, merged or not.
pub ready-tick_private :
    (c : Cache (Cache CoherenceAdapter)) (m : Message) (y : ℕ)
    → c.below.below.port.cache_in_next ≡ some m
    → waits_for (to_cache_block m.block c.below.below.block_size_log2) (peek y c) ≡ true
    → is_ready (peek y (tick_private c)) ≡ true
unfolding tick_private
ready-tick_private c m y a w =
    let d : CoherenceAdapter = drain c.below.below in
    let b : ℕ = to_cache_block m.block d.block_size_log2 in
    let kept : Cache (Cache CoherenceAdapter) = record c {
      below = record (c.below) { below = d };
    } in
    subst (λ o. is_ready (peek y (served_both o kept)) ≡ true) (sym a)
      (ready-fill (over_level over_adapter) b y (contains m.block d.pending_stores)
        (fill_l2 b (record c { below = record (c.below) { below = consume m d } }))
        (ap (λ n. waits_for (to_cache_block m.block n) (peek y c)) (size-drain c.below.below) ∙ w))
