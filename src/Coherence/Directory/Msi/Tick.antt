-- ===== src/Coherence/Directory/Msi/Tick.antt =====
-- The cycle of the MSI directory keeps its entries well formed.
use multicore_oo_o_sim.Base.{
  ◌<◌, ◌≡◌, refl, subst, true, List, [], ◌∷◌, arith, if◌then◌else◌, ok, first_returned,
  ok-injective, Bool-cases, inl, inr, some, Option-cases,
}
use multicore_oo_o_sim.Coherence.Message.{Message, MessageKind, gets, invack}
use multicore_oo_o_sim.Coherence.Directory.{
  DirState, DirEntry, DirectoryController, dir_s, dir_m, dir_sm, get_entry, put_entry, dequeue,
  cycle_queue, send_request, handle_writeback, respond, is_due, max_sharers, is_stable,
  is_writeback, count_write, written_back,
}
use multicore_oo_o_sim.Coherence.Directory.Entries.{
  Every-entries, put_entry-Every, entries-cycle_queue, entries-count_write,
}
use multicore_oo_o_sim.Coherence.Directory.Msi.{dispatch, handle, poll, respond_if_due, msi_tick}
use multicore_oo_o_sim.Coherence.Directory.Msi.Valid.{IsValid, Sane, written_back-IsValid}
use multicore_oo_o_sim.Coherence.Directory.Msi.Handlers.{AllValid, stored_last, dispatch-AllValid}

Sane-src :
    (st : DirState) (k : MessageKind) (e : DirEntry) (m : Message)
    → is_writeback k ≡ true
    → Sane st k e m
    → m.src < max_sharers
Sane-src dir_s gets e m w h = cc
Sane-src dir_m gets e m w h = cc
Sane-src dir_sm invack e m w h = cc
Sane-src _ _ e m w h = h

handle_writeback-AllValid :
    (e : DirEntry) (m : Message) (d d' : DirectoryController)
    → AllValid d
    → IsValid e
    → (is_writeback m.kind ≡ true → m.src < max_sharers)
    → handle_writeback e m d ≡ some d'
    → AllValid d'
unfolding handle_writeback
handle_writeback-AllValid e m d d' all v src p = elim (Bool-cases (is_writeback m.kind)) [
  | inr other ↦ absurd (ground arith)
  | inl wb ↦ elim (Bool-cases (is_stable e.state)) [
    | inl stable ↦
        let same : dequeue (put_entry m.block (written_back e m) (count_write m.dirty d)) ≡ d' =
          ground arith in
        subst AllValid same (
          stored_last m.block _ d (count_write m.dirty d) all
            (written_back-IsValid e m v (src wb) stable) (entries-count_write m.dirty d))
    | inr moving ↦
        let same : cycle_queue d ≡ d' = ground arith in
        subst AllValid same
          (Every-entries (λ block e. IsValid e) d (cycle_queue d) (entries-cycle_queue d) all)
  ]
]

handle-AllValid :
    (m : Message) (d d' : DirectoryController)
    → AllValid d
    → Sane (get_entry m.block d).state m.kind (get_entry m.block d) m
    → handle m d ≡ ok d'
    → AllValid d'
unfolding handle
handle-AllValid m d d' all sane p =
    let e = get_entry m.block d in
    let d₀ = put_entry m.block e d in
    let all₀ = put_entry-Every (λ block e. IsValid e) m.block e d all (all m.block) in
    elim (Option-cases (handle_writeback e m d₀)) [
      | inl none_e ↦
          let now : dispatch e.state m.kind e m d₀ ≡ ok d' = ground arith in
          dispatch-AllValid e m d₀ all₀ (all m.block) e.state m.kind d' refl sane now
      | inr (d₁, some_e) ↦
          let now : handle_writeback e m d₀ ≡ some d' = ground arith in
          handle_writeback-AllValid e m d₀ d' all₀ (all m.block)
            (λ w. Sane-src e.state m.kind e m w sane) now
    ]

respond_if_due-AllValid : (d : DirectoryController) → AllValid d → AllValid (respond_if_due d)
unfolding respond_if_due respond send_request is_due
respond_if_due-AllValid d all =
    Every-entries (λ block e. IsValid e) d (respond_if_due d) (ground arith) all

-- The message at the front of the queue, if there is one, is one that the protocol sends in the state
-- of its block's entry.
abbrev pub FrontSane : DirectoryController → Type 0
FrontSane d =
    (m : Message) (ms : List Message)
    → d.request_queue ≡ m ∷ ms
    → Sane (get_entry m.block d).state m.kind (get_entry m.block d) m

poll-AllValid :
    (q : List Message) (d d' : DirectoryController)
    → d.request_queue ≡ q
    → AllValid d
    → FrontSane d
    → poll q d ≡ ok d'
    → AllValid d'
unfolding poll
poll-AllValid [] d d' q all sane p = subst AllValid (ok-injective p) all
poll-AllValid (m ∷ ms) d d' q all sane p = handle-AllValid m d d' all (sane m ms q) p

-- A cycle of the MSI directory that serves a message which the protocol sends keeps every entry well
-- formed: the count of sharers is the number of presence bits, a free block has no sharer, an owned one
-- has exactly one, and a block under invalidation waits for as many acknowledgements as it has sharers
-- beside the requester.
pub msi_tick-AllValid :
    (d d' : DirectoryController) → AllValid d → FrontSane d → msi_tick d ≡ ok d' → AllValid d'
unfolding msi_tick
msi_tick-AllValid d d' all sane p =
    let start = if d.request_in_progress then ok d else poll d.request_queue d in
    let (d₁, p₁, p₂) = first_returned start (λ d₁. ok (respond_if_due d₁)) p in
    let all₁ : AllValid d₁ = elim (Bool-cases d.request_in_progress) [
      | inl busy ↦ let same : d ≡ d₁ = ground arith in subst AllValid same all
      | inr free ↦
          let polled : poll d.request_queue d ≡ ok d₁ = ground arith in
          poll-AllValid d.request_queue d d₁ refl all sane polled
    ] in
    subst AllValid (ok-injective p₂) (respond_if_due-AllValid d₁ all₁)
