-- ===== src/Coherence/Directory/Entries.antt =====
-- A property of every entry, and the steps that leave the entries alone.
use multicore_oo_o_sim.Base.{
  ℕ, ◌≡◌, refl, Bool, arith, subst, sym, Bool-cases, inl, inr, ◌==◌, ==_iff,
}
use multicore_oo_o_sim.Coherence.Message.{MessageKind}
use multicore_oo_o_sim.Coherence.Directory.{
  DirEntry, DirectoryController, get_entry, put_entry, dequeue, cycle_queue, send_request,
  schedule_data_response, schedule_lls, count_write,
}

-- `P block e` of each block and its entry.
abbrev pub Every : (ℕ → DirEntry → Type 0) → DirectoryController → Type 0
Every P d = (block : ℕ) → P block (get_entry block d)

pub Every-entries :
    (P : ℕ → DirEntry → Type 0) (d d' : DirectoryController)
    → d'.entries ≡ d.entries
    → Every P d
    → Every P d'
Every-entries P d d' e h block = rw e (h block)

pub put_entry-Every :
    (P : ℕ → DirEntry → Type 0) (block : ℕ) (e : DirEntry) (d : DirectoryController)
    → Every P d
    → P block e
    → Every P (put_entry block e d)
unfolding put_entry
put_entry-Every P block e d h p other = elim (Bool-cases (other == block)) [
  | inl same ↦ rw same (subst (λ b. P b e) (sym ((==_iff other block).0 same)) p)
  | inr differ ↦ rw differ (h other)
]

pub entries-dequeue : (d : DirectoryController) → (dequeue d).entries ≡ d.entries
unfolding dequeue
entries-dequeue d = ground arith

pub entries-cycle_queue : (d : DirectoryController) → (cycle_queue d).entries ≡ d.entries
unfolding cycle_queue
entries-cycle_queue d = ground arith

pub entries-send_request :
    (dest tag : ℕ) (kind : MessageKind) (dirty : Bool) (d : DirectoryController)
    → (send_request dest tag kind dirty d).entries ≡ d.entries
unfolding send_request
entries-send_request dest tag kind dirty d = refl

pub entries-schedule :
    (block target : ℕ) (d : DirectoryController)
    → (schedule_data_response block target d).entries ≡ d.entries
unfolding schedule_data_response schedule_lls
entries-schedule block target d = ground arith

pub entries-count_write :
    (dirty : Bool) (d : DirectoryController) → (count_write dirty d).entries ≡ d.entries
unfolding count_write
entries-count_write dirty d = ground arith
