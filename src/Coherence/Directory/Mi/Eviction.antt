-- ===== src/Coherence/Directory/Mi/Eviction.antt =====
-- The MI directory's cycle on an eviction notice from the owner.
use multicore_oo_o_sim.Base.{suc, ◌≡◌, true, false, List, ◌∷◌, arith, ok}
use multicore_oo_o_sim.Coherence.Message.{Message, data_wb}
use multicore_oo_o_sim.Coherence.Directory.{
  DirEntry, DirectoryController, dir_i, dir_m, get_entry, is_present, put_entry, dequeue,
  written_back, drop_sharer, handle_writeback, count_write, is_due,
}
use multicore_oo_o_sim.Coherence.Directory.Carriers.{dir_tokens}
use multicore_oo_o_sim.Coherence.Directory.Mi.{mi_tick, handle, poll, respond_if_due}

-- The only sharer of an owned entry leaves it free.
written_back_owner :
    (e : DirEntry) (m : Message)
    → e.state ≡ dir_m
    → is_present e m.src ≡ true
    → e.active_sharers ≡ 1
    → (written_back e m).state ≡ dir_i
unfolding written_back drop_sharer
written_back_owner e m st p a = ground arith

-- The directory that serves the eviction notice of a block's only holder takes the ownership of the
-- block back, and asks nothing of the holder.
pub mi_tick-owner_writeback :
    (d : DirectoryController) (m : Message) (ms : List Message)
    → d.request_queue ≡ m ∷ ms
    → d.request_in_progress ≡ false
    → m.kind ≡ data_wb
    → (get_entry m.block d).state ≡ dir_m
    → is_present (get_entry m.block d) m.src ≡ true
    → (get_entry m.block d).active_sharers ≡ 1
    → (d' : DirectoryController) × (mi_tick d ≡ ok d')
      × (d'.out ≡ d.out)
      × ((get_entry m.block d').state ≡ dir_i)
      × (dir_tokens m.block d' ≡ suc (dir_tokens m.block d))
unfolding mi_tick poll handle handle_writeback put_entry dequeue respond_if_due is_due count_write
mi_tick-owner_writeback d m ms q f k st p a =
    let e = get_entry m.block d in
    let free = written_back_owner e m st p a in
    let d₀ = put_entry m.block (written_back e m) (count_write m.dirty (put_entry m.block e d)) in
    (dequeue d₀, ground (arith, free), ground arith, ground (arith, free), ground (arith, free))
