-- ===== src/Coherence/Directory.antt =====
-- include/comparch/coherence/directory.hpp and src/coherence/directory.cpp: the directory's entries
-- and queues, and the steps that every protocol shares.
pub mod Carriers
pub mod Sharers
pub mod Entries
pub mod Mi
pub mod Msi
pub mod Mesi
use multicore_oo_o_sim.Base.{
  ℕ, ◌+◌, ◌%◌, Bool, true, false, Option, none, some, List, [], ◌∷◌, ◌++◌, ◌&&◌, ◌||◌, ◌==◌, ltb,
  leb, zero, suc, if◌then◌else◌, get_or, set, replicate, inc64, inc32, dec32, u64, minus_one64,
  update, Result, ok, ◌>>=◌,
}
use multicore_oo_o_sim.Coherence.Message.{
  Message, MessageKind, Settings, CacheMode, private_l2, shared_lls, data_wb, message,
}
use multicore_oo_o_sim.Coherence.Lls.{LlsCache, access, make}

pub data DirState : Type 0 where
  dir_m dir_o dir_s dir_i dir_f : DirState
  dir_fs dir_fm dir_sm dir_mo dir_ss dir_ms dir_mm dir_om : DirState
  dir_e dir_es dir_em dir_oo dir_ef dir_ff : DirState
  num_dir_state : DirState

abbrev pub max_sharers : ℕ
max_sharers = 16

-- `inv_ack_waiting` is the bit pattern of an `int32_t`.
pub record DirEntry : Type 0 where
  pub block_id : ℕ
  pub dirty : Bool
  pub presence : List Bool
  pub state : DirState
  pub active_sharers : ℕ
  pub req_node_in_transient : ℕ
  pub o_f_id : ℕ
  pub inv_ack_waiting : ℕ
  pub getm_upgrade : Bool

abbrev pub new_entry : ℕ → DirEntry
new_entry block = record {
  block_id = block;
  dirty = false;
  presence = replicate max_sharers false;
  state = dir_i;
  active_sharers = 0;
  req_node_in_transient = 0;
  o_f_id = 0;
  inv_ack_waiting = 0;
  getm_upgrade = false;
}

-- The fields of `CoherenceStats` that the directory counts.
pub record Stats : Type 0 where
  pub silent_upgrades : ℕ
  pub c2c_transfers : ℕ
  pub memory_reads : ℕ
  pub memory_writes : ℕ
  pub lls_accesses : ℕ
  pub lls_hits : ℕ
  pub lls_misses : ℕ
  pub lls_evictions : ℕ

abbrev pub no_stats : Stats
no_stats = record {
  silent_upgrades = 0;
  c2c_transfers = 0;
  memory_reads = 0;
  memory_writes = 0;
  lls_accesses = 0;
  lls_hits = 0;
  lls_misses = 0;
  lls_evictions = 0;
}

abbrev shares_lls : CacheMode → Bool
shares_lls shared_lls = true
shares_lls private_l2 = false

-- `entries` is `directory_`, with `none` for a block that was never asked for, and `out` is the egress
-- queue of the directory's node.
pub record DirectoryController : Type 0 where
  pub id : ℕ
  pub settings : Settings
  pub stats : Stats
  pub request_next : List Message
  pub request_queue : List Message
  pub send_e : Bool
  pub send_f : Bool
  pub tag_to_send : ℕ
  pub target_node : ℕ
  pub request_in_progress : Bool
  pub response_time : ℕ
  pub pending_lls_miss : Bool
  pub lls : LlsCache
  pub current_clock : ℕ
  pub entries : ℕ → Option DirEntry
  pub out : List Message

-- The constructor: without a shared cache the directory has one of no sets.
unfoldable pub init : ℕ → Settings → Result DirectoryController
unfolding make
init id s = do
  lls ← (if shares_lls s.cache_mode then make s.lls_blocks s.lls_assoc else make 0 0)
  ok (record {
    id = id;
    settings = s;
    stats = no_stats;
    request_next = [];
    request_queue = [];
    send_e = false;
    send_f = false;
    tag_to_send = 0;
    target_node = 0;
    request_in_progress = false;
    response_time = 0;
    pending_lls_miss = false;
    lls = lls;
    current_clock = 0;
    entries = λ block. none;
    out = [];
  })

abbrev pub or_new : ℕ → Option DirEntry → DirEntry
or_new block none = new_entry block
or_new block (some e) = e

abbrev pub get_entry : ℕ → DirectoryController → DirEntry
get_entry block d = or_new block (d.entries block)

-- A handler updates the entry in place; here it puts the new one back.
unfoldable pub put_entry : ℕ → DirEntry → DirectoryController → DirectoryController
put_entry block e d = record d { entries = update d.entries block (some e) }

unfoldable pub tock : DirectoryController → DirectoryController
tock d = record d { request_queue = d.request_queue ++ d.request_next; request_next = [] }

unfoldable pub dequeue : DirectoryController → DirectoryController
dequeue d = elim d.request_queue [ [] ↦ d | m ∷ ms ↦ record d { request_queue = ms } ]

unfoldable pub cycle_queue : DirectoryController → DirectoryController
cycle_queue d = elim d.request_queue [
  | [] ↦ d
  | m ∷ ms ↦ record d { request_queue = ms; request_next = d.request_next ++ m ∷ [] }
]

unfoldable pub send_request : ℕ → ℕ → MessageKind → Bool → DirectoryController → DirectoryController
send_request dest tag kind dirty d = record d {
  out = d.out ++ record (message d.settings d.id dest tag kind) { dirty = dirty } ∷ [];
}

abbrev pub is_present : DirEntry → ℕ → Bool
is_present e i = get_or e.presence i false

abbrev pub is_stable : DirState → Bool
is_stable dir_i = true
is_stable dir_s = true
is_stable dir_e = true
is_stable dir_m = true
is_stable dir_o = true
is_stable dir_f = true
is_stable _ = false

abbrev is_m : DirState → Bool
is_m dir_m = true
is_m _ = false

abbrev is_dirty_state : DirState → Bool
is_dirty_state dir_m = true
is_dirty_state dir_o = true
is_dirty_state dir_f = true
is_dirty_state _ = false

-- The source's presence bit goes, and the count of sharers with it.
unfoldable pub drop_sharer : ℕ → DirEntry → DirEntry
drop_sharer src e =
    if is_present e src
    then record e {
      presence = set e.presence src false;
      active_sharers = if ltb 0 e.active_sharers then dec32 e.active_sharers else e.active_sharers;
    }
    else e

unfoldable pub written_back : DirEntry → Message → DirEntry
unfolding drop_sharer
written_back e m =
    let dirty_holder = is_dirty_state e.state && is_present e m.src && m.src == e.o_f_id in
    let m_holder = is_m e.state && is_present e m.src in
    let dropped = drop_sharer m.src e in
    let clean : DirEntry = record dropped { dirty = if m.dirty then false else e.dirty } in
    if clean.active_sharers == 0
    then record clean { state = dir_i; dirty = false }
    else if m_holder || dirty_holder
    then record clean { state = dir_s; o_f_id = minus_one64 }
    else clean

pub count_write : Bool → DirectoryController → DirectoryController
count_write dirty d =
    if dirty
    then record d { stats = record (d.stats) { memory_writes = inc64 (d.stats.memory_writes) } }
    else d

abbrev pub is_writeback : MessageKind → Bool
is_writeback data_wb = true
is_writeback _ = false

-- `none` for a message that is no writeback.
unfoldable pub handle_writeback :
    DirEntry → Message → DirectoryController → Option DirectoryController
unfolding written_back count_write cycle_queue dequeue put_entry
handle_writeback e m d =
    if is_writeback m.kind
    then if is_stable e.state
      then some (dequeue (put_entry m.block (written_back e m) (count_write m.dirty d)))
      else some (cycle_queue d)
    else none

schedule_lls : ℕ → DirectoryController → DirectoryController
unfolding access
schedule_lls block d =
    let (r, lls') = access block d.lls in
    let asked : DirectoryController = record d {
      lls = lls';
      stats = record (d.stats) { lls_accesses = inc64 (d.stats.lls_accesses) };
    } in
    if r.hit
    then record asked {
      stats = record (asked.stats) { lls_hits = inc64 (d.stats.lls_hits) };
      response_time = (d.current_clock + d.settings.lls_hit_latency) % u64;
      pending_lls_miss = false;
    }
    else record asked {
      stats = record (asked.stats) {
        lls_misses = inc64 (d.stats.lls_misses);
        lls_evictions = if r.evicted then inc64 (d.stats.lls_evictions) else d.stats.lls_evictions;
      };
      response_time = (d.current_clock + d.settings.mem_latency) % u64;
      pending_lls_miss = true;
    }

unfoldable pub schedule_data_response : ℕ → ℕ → DirectoryController → DirectoryController
unfolding schedule_lls
schedule_data_response block target d =
    let d' : DirectoryController = record d {
      request_in_progress = true;
      target_node = target;
      tag_to_send = block;
    } in
    if shares_lls d.settings.cache_mode then schedule_lls block d' else record d' {
      response_time = (d.current_clock + d.settings.mem_latency) % u64;
      pending_lls_miss = true;
    }

-- `for (i = 0; i < num_procs; ++i) if (presence[i]) target = i;`, with the rounds left and `i`.
unfoldable pub last_present : ℕ → ℕ → List Bool → ℕ → ℕ
last_present zero i p target = target
last_present (suc n) i p target = last_present n (i + 1) p (if get_or p i false then i else target)

-- `for (i = 0; i < kMaxSharers; ++i) if (presence[i]) { owner = i; break; }`, from index `i` on.
unfoldable pub first_present : List Bool → ℕ → ℕ
first_present [] i = 0
first_present (b ∷ bs) i = if b then i else first_present bs (i + 1)

-- The end of every tick: the memory's answer, once its time has come.
unfoldable pub respond : MessageKind → DirectoryController → DirectoryController
unfolding send_request
respond kind d =
    let counted : DirectoryController =
      if d.pending_lls_miss
      then record d { stats = record (d.stats) { memory_reads = inc64 (d.stats.memory_reads) } }
      else d in
    record (send_request d.target_node d.tag_to_send kind false counted) {
      request_in_progress = false;
    }

unfoldable pub is_due : DirectoryController → Bool
is_due d = d.request_in_progress && leb d.response_time d.current_clock
