-- ===== src/Trace/Reader.antt =====
-- src/common/trace.cpp: the class `Reader`, over a stream and a sink for synchronisation records.
pub mod Ends
use multicore_oo_o_sim.Base.{
  ℕ, zero, suc, ◌+◌, Bool, true, false, Option, none, some, List, [], ◌∷◌, ◌==◌, ◌||◌, ◌&&◌, not,
  replicate, if◌then◌else◌, length, Result, ok, throw, ◌>>=◌,
}
use multicore_oo_o_sim.Trace.Bytes.{required}
use multicore_oo_o_sim.Trace.Format.{
  Variant, standard, casim_v2, Record, SyncRecord, SyncToken, LifecycleRecord, FileHeader,
  read_standard, read_instr_payload, read_sync_payload, read_lifecycle_payload, read_header, get_u8,
  type_instr, type_sync, type_lifecycle,
}

-- `SyncSink`, with the state that its methods change.
pub record SyncSink (S : Type 0) : Type 0 where
  pub try_consume_sync : ℕ → SyncRecord → S → Result (Bool × S)
  pub on_lifecycle : ℕ → LifecycleRecord → S → Result S

pub record Reader : Type 0 where
  pub stream : List ℕ
  pub variant : Variant
  pub records_read : ℕ
  pub header : FileHeader
  pub has_sink : Bool
  pub sync_tid : ℕ
  pub pending_sync : Option SyncRecord

abbrev pub blank_header : FileHeader
blank_header = record {
  format_version = 2;
  header_size = 32;
  thread_id = 0;
  thread_count = 1;
  program_uid = 0;
}

abbrev pub reader_on : Variant → FileHeader → List ℕ → Reader
reader_on variant header stream = record {
  stream = stream;
  variant = variant;
  records_read = 0;
  header = header;
  has_sink = false;
  sync_tid = 0;
  pending_sync = none;
}

-- The constructor: a CasimV2 stream must begin with a header.
abbrev pub opened : Option FileHeader × List ℕ → Result Reader
opened (none, s) = throw
opened (some h, s) = ok (reader_on casim_v2 h s)

abbrev pub make : Variant → List ℕ → Result Reader
make standard s = ok (reader_on standard blank_header s)
make casim_v2 s = do r ← read_header s; opened r

-- `open_auto`: a stream that does not begin with the magic is read as ChampSim's.
abbrev pub detected : List ℕ → Option FileHeader × List ℕ → Reader
detected s (none, rest) = reader_on standard blank_header s
detected s (some h, rest) = reader_on casim_v2 h rest

abbrev pub open_auto : List ℕ → Result Reader
open_auto s = do r ← read_header s; ok (detected s r)

abbrev pub is_atomic : ℕ → Bool
is_atomic k = (k == 5) || ((k == 6) || (k == 7))

-- Acquire, leave, and the atomics.
abbrev pub sync_needs_gate : ℕ → Bool
sync_needs_gate k = (k == 1) || ((k == 4) || is_atomic k)

-- Release, arrive, and the atomics.
abbrev pub sync_surfaces_as_pseudo : ℕ → Bool
sync_surfaces_as_pseudo k = (k == 2) || ((k == 3) || is_atomic k)

abbrev pub make_pseudo_record : SyncRecord → Record
make_pseudo_record s = record {
  ip = s.ip;
  is_branch = false;
  branch_taken = false;
  is_mul = false;
  destination_registers = replicate 2 0;
  source_registers = replicate 4 0;
  destination_memory = replicate 2 0;
  source_memory = replicate 4 0;
  sync_token = some (record {
    kind = s.kind;
    sync_object_addr = s.sync_object_addr;
    sequence_no = s.sequence_no;
    extra_arg = s.extra_arg;
  });
}

-- How one round of the loop in `next` ends: with a return, or with another round.
pub data Turn (S : Type 0) : Type 0 where
  return : Option Record → Reader → S → Turn S
  again : Reader → S → Turn S

abbrev pub counted : Reader → Reader
counted r = record r { records_read = r.records_read + 1 }

abbrev pub blocked : Reader → Bool
blocked r = elim r.pending_sync [ some held ↦ true | none ↦ false ]

-- The flag is whether the sink is more than a null pointer.
abbrev pub set_sync_sink : Bool → ℕ → Reader → Result Reader
set_sync_sink has_sink tid r = elim r.variant [
  | standard ↦ throw
  | casim_v2 ↦
      if not has_sink && blocked r
      then throw
      else ok (record r { has_sink = has_sink; sync_tid = tid })
]

module _ {S : Type 0} (sink : SyncSink S) where
  -- The record has its gate's approval: it comes out as a pseudo-instruction, or is dropped.
  unfoldable pub pass : SyncRecord → Reader → S → Turn S
  pass s r σ =
      if sync_surfaces_as_pseudo s.kind
      then return (some (make_pseudo_record s)) (counted r) σ
      else again r σ

  abbrev pub gated : SyncRecord → Reader → Bool × S → Turn S
  gated s r (true, σ) = pass s r σ
  gated s r (false, σ) = return none (record r { pending_sync = some s }) σ

  unfoldable pub on_sync : SyncRecord → Reader → S → Result (Turn S)
  on_sync s r σ =
      if not r.has_sink
      then ok (again r σ)
      else (if sync_needs_gate s.kind
          then (do approved ← sink.try_consume_sync r.sync_tid s σ; ok (gated s r approved))
          else ok (pass s r σ))

  unfoldable pub on_lifecycle_record : LifecycleRecord → Reader → S → Result (Turn S)
  on_lifecycle_record l r σ =
      if r.has_sink
      then (do σ ← sink.on_lifecycle r.sync_tid l σ; ok (again r σ))
      else ok (again r σ)

  -- The switch on the type byte; `s` is the stream after it.
  unfoldable pub on_type : ℕ → List ℕ → Reader → S → Result (Turn S)
  on_type t s r σ =
      if t == type_instr
      then (do
        (i, s) ← read_instr_payload s
        ok (return (some i) (counted (record r { stream = s })) σ))
      else (if t == type_sync
          then (do (y, s) ← read_sync_payload s; on_sync y (record r { stream = s }) σ)
          else (if t == type_lifecycle
              then (do
                (l, s) ← read_lifecycle_payload s
                on_lifecycle_record l (record r { stream = s }) σ)
              else throw))

  abbrev pub read_typed : Option (ℕ × List ℕ) → Reader → S → Result (Turn S)
  read_typed none r σ = ok (return none (record r { stream = [] }) σ)
  read_typed (some (t, s)) r σ = on_type t s r σ

  abbrev pub read_one : Reader → S → Result (Turn S)
  read_one r σ = read_typed (get_u8 r.stream) r σ

  -- A held record that passes now is the next to come out, or makes way for what follows it.
  abbrev pub released : SyncRecord → Reader → Bool × S → Result (Turn S)
  released held r (false, σ) = ok (return none r σ)
  released held r (true, σ) =
      if sync_surfaces_as_pseudo held.kind
      then ok
          (return (some (make_pseudo_record held)) (counted (record r { pending_sync = none })) σ)
      else read_one (record r { pending_sync = none }) σ

  abbrev pub poll : Option SyncRecord → Reader → S → Result (Turn S)
  poll none r σ = read_one r σ
  poll (some held) r σ =
      if r.has_sink
      then (do approved ← sink.try_consume_sync r.sync_tid held σ; released held r approved)
      else ok (return none r σ)

  abbrev pub turn : Reader → S → Result (Turn S)
  turn r σ = poll r.pending_sync r σ

  abbrev pub after_turn :
      (Reader → S → Option (Result (Option Record × (Reader × S))))
      → Result (Turn S)
      → Option (Result (Option Record × (Reader × S)))
  after_turn next throw = some throw
  after_turn next (ok (return found r σ)) = some (ok (found, (r, σ)))
  after_turn next (ok (again r σ)) = next r σ

  -- The loop; `none` is no result of the program, but a loop that ran out of fuel.
  unfoldable pub next_loop : ℕ → Reader → S → Option (Result (Option Record × (Reader × S)))
  next_loop zero r σ = none
  next_loop (suc fuel) r σ = after_turn (next_loop fuel) (turn r σ)

  abbrev pub next_standard :
      Reader → S → Result (Option Record × List ℕ) → Result (Option Record × (Reader × S))
  next_standard r σ throw = throw
  next_standard r σ (ok (none, s)) = ok (none, (record r { stream = s }, σ))
  next_standard r σ (ok (some i, s)) = ok (some i, (counted (record r { stream = s }), σ))

  abbrev pub next_on : Variant → Reader → S → Option (Result (Option Record × (Reader × S)))
  next_on standard r σ = some (next_standard r σ (read_standard r.stream))
  next_on casim_v2 r σ = next_loop (suc (length r.stream)) r σ

  -- `Reader::next`. Each round takes a byte at least, so that the length of the stream is fuel enough.
  abbrev pub next : Reader → S → Option (Result (Option Record × (Reader × S)))
  next r σ = next_on r.variant r σ
