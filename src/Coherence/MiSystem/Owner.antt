-- ===== src/Coherence/MiSystem/Owner.antt =====
-- A block has one owner: the sum over a machine of the places where its ownership can be.
use multicore_oo_o_sim.Base.{
  ℕ, zero, suc, ◌+◌, ◌≤◌, ◌<◌, ◌≡◌, ◌≢◌, refl, ◌∙◌, List, [], ◌∷◌, ◌++◌, arith, ◌==◌, ◌&&◌,
  if◌then◌else◌, ok,
}
use multicore_oo_o_sim.Coherence.Message.{Message, Settings}
use multicore_oo_o_sim.Coherence.Agent.{Port, idle_port}
use multicore_oo_o_sim.Coherence.Agent.Mi.{
  MiState, st_i, st_m, st_im, process_proc_request, process_ntwk_request,
}
use multicore_oo_o_sim.Coherence.Directory.{tock, get_entry, init, dir_i}
use multicore_oo_o_sim.Coherence.Directory.Carriers.{
  is_data, is_wb, carriers, writebacks, carriers-append, writebacks-append, dir_tokens,
  dir_writebacks,
}
use multicore_oo_o_sim.Coherence.Directory.Mi.Tokens.{mi_tick-tokens}
use multicore_oo_o_sim.Coherence.MiSystem.{
  System, Step, request, deliver, arrive, tick, half_tick, Reach, here, next, set_agent, boot,
}

abbrev pub owns : MiState → ℕ
owns st_m = 1
owns _ = 0

-- The agents below `n` that own block `b`.
abbrev pub owners : (ℕ → ℕ → MiState) → ℕ → ℕ → ℕ
owners agents b zero = 0
owners agents b (suc n) = owns (agents n b) + owners agents b n

abbrev pub tokens : ℕ → ℕ → System → ℕ
tokens n b y = dir_tokens b y.dir + carriers b y.net + owners y.agents b n

owners-set_above :
    (agents : ℕ → ℕ → MiState) (b i c : ℕ) (st : MiState) (n : ℕ)
    → n ≤ i
    → owners (set_agent i c st agents) b n ≡ owners agents b n
owners-set_above agents b i c st zero h = refl
owners-set_above agents b i c st (suc n) h = ground (arith, owners-set_above agents b i c st n)

-- Only the agent that changes its state changes the sum.
owners-set_agent :
    (agents : ℕ → ℕ → MiState) (b i c : ℕ) (st : MiState) (n : ℕ)
    → i < n
    → owners (set_agent i c st agents) b n + (if c == b then owns (agents i b) else 0)
      ≡ owners agents b n + (if c == b then owns st else 0)
owners-set_agent agents b i c st zero h = absurd (omega arith)
owners-set_agent agents b i c st (suc n) h =
    ground (arith, owners-set_agent agents b i c st n, owners-set_above agents b i c st n)

-- What an agent owns and sends, under a request of its processor.
proc-owns :
    (s : Settings) (i b : ℕ) (st st' : MiState) (m : Message) (p : Port)
    → process_proc_request s i st m idle_port ≡ ok (st', p)
    → (carriers b p.ntwk_out_next ≡ 0) × (writebacks p.ntwk_out_next ≡ 0) × (owns st' ≡ owns st)
unfolding process_proc_request
proc-owns s i b st_i st' m p e = ground arith
proc-owns s i b st_m st' m p e = ground arith
proc-owns s i b st_im st' m p e = cc

-- What it owns and sends, under a message of the network.
ntwk-owns :
    (s : Settings) (i b : ℕ) (st st' : MiState) (m : Message) (p : Port)
    → process_ntwk_request s i st m idle_port ≡ ok (st', p)
    → (writebacks p.ntwk_out_next ≡ 0)
      × (carriers b p.ntwk_out_next + (if m.block == b then owns st' else 0)
          ≡ (if is_data m.kind && m.block == b then 1 else 0)
            + (if m.block == b then owns st else 0))
unfolding process_ntwk_request
ntwk-owns s i b st_i st' m p e = cc
ntwk-owns s i b st_m st' m p e = ground arith
ntwk-owns s i b st_im st' m p e = ground arith

abbrev pub all_writebacks : System → ℕ
all_writebacks y = dir_writebacks y.dir + writebacks y.net

carriers-take :
    (b : ℕ) (net before after : List Message) (m : Message)
    → net ≡ before ++ m ∷ after
    → (carriers b net
        ≡ (if is_data m.kind && m.block == b then 1 else 0) + carriers b (before ++ after))
      × (writebacks net ≡ (if is_wb m.kind then 1 else 0) + writebacks (before ++ after))
carriers-take b net before after m e = rw e (
  omega (
    arith,
    carriers-append b before (m ∷ after),
    carriers-append b before after,
    writebacks-append before (m ∷ after),
    writebacks-append before after,
  ),
  omega (
    arith,
    carriers-append b before (m ∷ after),
    carriers-append b before after,
    writebacks-append before (m ∷ after),
    writebacks-append before after,
  ),
)

-- Where no eviction notice is in the machine, each step keeps the number of places where the ownership
-- of a block is, and makes no eviction notice.
pub Step-tokens :
    (s : Settings) (n b : ℕ) {y z : System}
    → Step s n y z
    → all_writebacks y ≡ 0
    → (tokens n b z ≡ tokens n b y) × (all_writebacks z ≡ 0)
Step-tokens s n b (request y i m st p lt k e) w = ground (
  arith,
  proc-owns s i b (y.agents i m.block) st m p e,
  owners-set_agent y.agents b i m.block st n lt,
  carriers-append b y.net p.ntwk_out_next,
  writebacks-append y.net p.ntwk_out_next,
)
Step-tokens s n b (deliver y before after m st p e lt r) w = ground (
  arith,
  ntwk-owns s m.dst b (y.agents m.dst m.block) st m p r,
  owners-set_agent y.agents b m.dst m.block st n lt,
  carriers-take b y.net before after m e,
  carriers-append b (before ++ after) p.ntwk_out_next,
  writebacks-append (before ++ after) p.ntwk_out_next,
)
Step-tokens s n b (arrive y before after m e d) w = ground (
  arith,
  carriers-take b y.net before after m e,
  carriers-append b y.dir.request_next (m ∷ []),
  writebacks-append y.dir.request_next (m ∷ []),
)
Step-tokens s n b (tick y clock d e) w = ground (
  arith,
  mi_tick-tokens b (record (y.dir) { current_clock = clock }) d,
  carriers-append b y.net d.out,
  writebacks-append y.net d.out,
)
Step-tokens s n b (half_tick y) w =
    unfold tock in
    ground (
      arith,
      carriers-append b y.dir.request_queue y.dir.request_next,
      writebacks-append y.dir.request_queue y.dir.request_next,
    )

owners-none : (b n : ℕ) → owners (λ i c. st_i) b n ≡ 0
owners-none b zero = refl
owners-none b (suc n) = omega (arith, owners-none b n)

boot-tokens :
    (s : Settings) (n b : ℕ) {y : System}
    → boot s ≡ ok y
    → (tokens n b y ≡ 1) × (all_writebacks y ≡ 0)
unfolding boot init
boot-tokens s n b e = ground (arith, owners-none b n)

Reach-tokens :
    (s : Settings) (n b : ℕ) {x y : System}
    → (tokens n b x ≡ 1) × (all_writebacks x ≡ 0)
    → Reach s n x y
    → (tokens n b y ≡ 1) × (all_writebacks y ≡ 0)
Reach-tokens s n b start here = start
Reach-tokens s n b start (next r st) =
    let before = Reach-tokens s n b start r in
    let (same, quiet) = Step-tokens s n b st before.1 in (same ∙ before.0, quiet)

-- In every state that the machine reaches from its start, by requests, deliveries in any order and
-- cycles of the directory, the ownership of each block is in exactly one place: the memory, the
-- directory's pending answer, a data message, or one agent in state M.
pub ownership_conserved :
    (s : Settings) (b : ℕ) {x y : System}
    → boot s ≡ ok x
    → Reach s s.num_procs x y
    → tokens s.num_procs b y ≡ 1
ownership_conserved s b e r = (Reach-tokens s s.num_procs b (boot-tokens s s.num_procs b e) r).0

owns-owners :
    (agents : ℕ → ℕ → MiState) (b i n : ℕ) → i < n → agents i b ≡ st_m → 1 ≤ owners agents b n
owns-owners agents b i zero h e = absurd (omega arith)
owns-owners agents b i (suc n) h e = ground (arith, owns-owners agents b i n)

owners-two :
    (agents : ℕ → ℕ → MiState) (b i j n : ℕ)
    → i < j
    → j < n
    → agents i b ≡ st_m
    → agents j b ≡ st_m
    → 2 ≤ owners agents b n
owners-two agents b i j zero h k e f = absurd (omega arith)
owners-two agents b i j (suc n) h k e f =
    ground (arith, owners-two agents b i j n, owns-owners agents b i n)

-- In every state that the machine reaches from its start, two agents in state M for a block are the same
-- agent, and the directory does not hold that block free.
pub single_owner :
    (s : Settings) (b i j : ℕ) {x y : System}
    → boot s ≡ ok x
    → Reach s s.num_procs x y
    → i < s.num_procs
    → j < s.num_procs
    → y.agents i b ≡ st_m
    → y.agents j b ≡ st_m
    → (i ≡ j) × ((get_entry b y.dir).state ≢ dir_i)
single_owner s b i j {x} {y} e r h k p q =
    let one = ownership_conserved s b e r in
    let mine = owns-owners y.agents b i s.num_procs h p in
    let below = owners-two y.agents b i j s.num_procs in
    let above = owners-two y.agents b j i s.num_procs in
    (ground (arith, one, below, above), λ free. ground (arith, one, mine))
