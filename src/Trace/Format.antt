-- ===== src/Trace/Format.antt =====
-- include/comparch/trace.hpp and src/common/trace.cpp: the records, and how they are written and read.
-- An array is a list of its length; a `SyncKind` or a `LifecycleKind` is its byte, which a cast does not check.
use multicore_oo_o_sim.Base.{
  ℕ, ◌+◌, ◌-◌, ◌*◌, ◌/◌, ◌%◌, Bool, true, false, Option, none, some, List, [], ◌∷◌, ◌++◌, ◌==◌,
  if◌then◌else◌, ltb, not, Result, ok, throw, ◌>>=◌,
}
use multicore_oo_o_sim.Trace.Bytes.{put_le, get_le, put_array, get_array, put_pad, skip_n, required}

pub data Variant : Type 0 where
  standard casim_v2 : Variant

pub record SyncToken : Type 0 where
  pub kind : ℕ
  pub sync_object_addr : ℕ
  pub sequence_no : ℕ
  pub extra_arg : ℕ

-- `sync_token` is `none` where `has_sync_token` is false.
pub record Record : Type 0 where
  pub ip : ℕ
  pub is_branch : Bool
  pub branch_taken : Bool
  pub is_mul : Bool
  pub destination_registers : List ℕ
  pub source_registers : List ℕ
  pub destination_memory : List ℕ
  pub source_memory : List ℕ
  pub sync_token : Option SyncToken

pub record SyncRecord : Type 0 where
  pub kind : ℕ
  pub sync_object_addr : ℕ
  pub sequence_no : ℕ
  pub extra_arg : ℕ
  pub ip : ℕ
  pub timestamp_ns : ℕ

pub record LifecycleRecord : Type 0 where
  pub kind : ℕ
  pub peer_tid : ℕ
  pub ip : ℕ

pub data AnyRecord : Type 0 where
  instr : Record → AnyRecord
  sync : SyncRecord → AnyRecord
  lifecycle : LifecycleRecord → AnyRecord

pub record FileHeader : Type 0 where
  pub format_version : ℕ
  pub header_size : ℕ
  pub thread_id : ℕ
  pub thread_count : ℕ
  pub program_uid : ℕ

abbrev pub bit : Bool → ℕ
bit true = 1
bit false = 0

abbrev pub nonzero : ℕ → Bool
nonzero b = not (b == 0)

abbrev pub put_u8 : ℕ → List ℕ
put_u8 v = put_le 1 v

abbrev pub put_u64 : ℕ → List ℕ
put_u64 v = put_le 8 v

abbrev pub get_u8 : List ℕ → Option (ℕ × List ℕ)
get_u8 s = get_le 1 s

abbrev pub get_u64 : List ℕ → Option (ℕ × List ℕ)
get_u64 s = get_le 8 s

abbrev put_arrays : Record → List ℕ → List ℕ
put_arrays r tail =
    put_array 1 r.destination_registers
    ++ (put_array 1 r.source_registers
        ++ (put_array 8 r.destination_memory ++ (put_array 8 r.source_memory ++ tail)))

unfoldable pub write_standard : Record → List ℕ → List ℕ
write_standard r tail =
    put_u64 r.ip ++ (put_u8 (bit r.is_branch) ++ (put_u8 (bit r.branch_taken) ++ put_arrays r tail))

-- `none` is the end of the stream before the first field, which leaves nothing to read.
unfoldable pub read_standard_fields : ℕ → List ℕ → Result (Record × List ℕ)
read_standard_fields ip s = do
  (is_branch, s) ← required (get_u8 s)
  (branch_taken, s) ← required (get_u8 s)
  (destination_registers, s) ← required (get_array 1 2 s)
  (source_registers, s) ← required (get_array 1 4 s)
  (destination_memory, s) ← required (get_array 8 2 s)
  (source_memory, s) ← required (get_array 8 4 s)
  ok (
    record {
      ip = ip;
      is_branch = nonzero is_branch;
      branch_taken = nonzero branch_taken;
      is_mul = false;
      destination_registers = destination_registers;
      source_registers = source_registers;
      destination_memory = destination_memory;
      source_memory = source_memory;
      sync_token = none;
    },
    s,
  )

abbrev pub found {ℓ} : {A : Type ℓ} → Result (A × List ℕ) → Result (Option A × List ℕ)
found throw = throw
found (ok (a, s)) = ok (some a, s)

abbrev pub read_standard_from : Option (ℕ × List ℕ) → Result (Option Record × List ℕ)
read_standard_from none = ok (none, [])
read_standard_from (some (ip, s)) = found (read_standard_fields ip s)

abbrev pub read_standard : List ℕ → Result (Option Record × List ℕ)
read_standard s = read_standard_from (get_u64 s)

abbrev pub flags_of : Record → ℕ
flags_of r = bit r.is_branch + (2 * bit r.branch_taken + 4 * bit r.is_mul)

abbrev pub type_instr : ℕ
type_instr = 0

abbrev pub type_sync : ℕ
type_sync = 1

abbrev pub type_lifecycle : ℕ
type_lifecycle = 2

unfoldable pub write_instr : Record → List ℕ → List ℕ
write_instr r tail =
    put_u8 type_instr ++ (put_u8 (flags_of r) ++ (put_u64 r.ip ++ put_arrays r tail))

-- `flags & 0x1`, `flags & 0x2` and `flags & 0x4`.
unfoldable pub read_instr_payload : List ℕ → Result (Record × List ℕ)
read_instr_payload s = do
  (flags, s) ← required (get_u8 s)
  (ip, s) ← required (get_u64 s)
  (destination_registers, s) ← required (get_array 1 2 s)
  (source_registers, s) ← required (get_array 1 4 s)
  (destination_memory, s) ← required (get_array 8 2 s)
  (source_memory, s) ← required (get_array 8 4 s)
  ok (
    record {
      ip = ip;
      is_branch = nonzero (flags % 2);
      branch_taken = nonzero (flags / 2 % 2);
      is_mul = nonzero (flags / 4 % 2);
      destination_registers = destination_registers;
      source_registers = source_registers;
      destination_memory = destination_memory;
      source_memory = source_memory;
      sync_token = none;
    },
    s,
  )

unfoldable pub write_sync : SyncRecord → List ℕ → List ℕ
write_sync r tail =
    put_u8 type_sync
    ++ (put_u8 r.kind
        ++ (put_pad 6
            ++ (put_u64 r.sync_object_addr
                ++ (put_u64 r.sequence_no
                    ++ (put_u64 r.extra_arg
                        ++ (put_u64 r.ip ++ (put_u64 r.timestamp_ns ++ (put_pad 16 ++ tail))))))))

unfoldable pub read_sync_payload : List ℕ → Result (SyncRecord × List ℕ)
read_sync_payload s = do
  (kind, s) ← required (get_u8 s)
  s ← required (skip_n 6 s)
  (sync_object_addr, s) ← required (get_u64 s)
  (sequence_no, s) ← required (get_u64 s)
  (extra_arg, s) ← required (get_u64 s)
  (ip, s) ← required (get_u64 s)
  (timestamp_ns, s) ← required (get_u64 s)
  s ← required (skip_n 16 s)
  ok (
    record {
      kind = kind;
      sync_object_addr = sync_object_addr;
      sequence_no = sequence_no;
      extra_arg = extra_arg;
      ip = ip;
      timestamp_ns = timestamp_ns;
    },
    s,
  )

unfoldable pub write_lifecycle : LifecycleRecord → List ℕ → List ℕ
write_lifecycle r tail =
    put_u8 type_lifecycle
    ++ (put_u8 r.kind
        ++ (put_pad 2 ++ (put_le 4 r.peer_tid ++ (put_u64 r.ip ++ (put_pad 48 ++ tail)))))

unfoldable pub read_lifecycle_payload : List ℕ → Result (LifecycleRecord × List ℕ)
read_lifecycle_payload s = do
  (kind, s) ← required (get_u8 s)
  s ← required (skip_n 2 s)
  (peer_tid, s) ← required (get_le 4 s)
  (ip, s) ← required (get_u64 s)
  s ← required (skip_n 48 s)
  ok (record { kind = kind; peer_tid = peer_tid; ip = ip }, s)

-- "CASIMTR2".
abbrev pub magic : List ℕ
magic = 67 ∷ 65 ∷ 83 ∷ 73 ∷ 77 ∷ 84 ∷ 82 ∷ 50 ∷ []

abbrev pub casim_v2_header_bytes : ℕ
casim_v2_header_bytes = 32

unfoldable pub write_header : FileHeader → List ℕ → List ℕ
write_header h tail =
    magic
    ++ (put_le 2 h.format_version
        ++ (put_le 2 h.header_size
            ++ (put_le 4 h.thread_id
                ++ (put_le 4 h.thread_count ++ (put_u64 h.program_uid ++ (put_pad 4 ++ tail))))))

-- `memcmp` with the magic, over a stream that may be shorter.
unfoldable pub strip_prefix : List ℕ → List ℕ → Option (List ℕ)
strip_prefix [] s = some s
strip_prefix (m ∷ ms) [] = none
strip_prefix (m ∷ ms) (b ∷ s) = if b == m then strip_prefix ms s else none

unfoldable pub read_header_fields : List ℕ → Result (FileHeader × List ℕ)
read_header_fields s = do
  (format_version, s) ← required (get_le 2 s)
  (header_size, s) ← required (get_le 2 s)
  (thread_id, s) ← required (get_le 4 s)
  (thread_count, s) ← required (get_le 4 s)
  (program_uid, s) ← required (get_u64 s)
  s ←
      (if ltb header_size casim_v2_header_bytes
        then throw
        else required (skip_n (header_size - 28) s))
  ok (
    record {
      format_version = format_version;
      header_size = header_size;
      thread_id = thread_id;
      thread_count = thread_count;
      program_uid = program_uid;
    },
    s,
  )

abbrev pub read_header_from : Option (List ℕ) → Result (Option FileHeader × List ℕ)
read_header_from none = ok (none, [])
read_header_from (some s) = found (read_header_fields s)

-- `none` when the magic is missing.
abbrev pub read_header : List ℕ → Result (Option FileHeader × List ℕ)
read_header s = read_header_from (strip_prefix magic s)

abbrev pub any_of :
    {A : Type 0} → (A → AnyRecord) → Result (A × List ℕ) → Result (AnyRecord × List ℕ)
any_of f throw = throw
any_of f (ok (a, s)) = ok (f a, s)

-- The switch on the type byte of a CasimV2 record.
unfoldable pub read_payload : ℕ → List ℕ → Result (AnyRecord × List ℕ)
read_payload t s =
    if t == type_instr
    then any_of instr (read_instr_payload s)
    else (if t == type_sync
        then any_of sync (read_sync_payload s)
        else (if t == type_lifecycle then any_of lifecycle (read_lifecycle_payload s) else throw))

abbrev pub read_any_from : Option (ℕ × List ℕ) → Result (Option AnyRecord × List ℕ)
read_any_from none = ok (none, [])
read_any_from (some (t, s)) = found (read_payload t s)

-- `Reader::next_any`, on the stream of a CasimV2 reader.
abbrev pub next_any : List ℕ → Result (Option AnyRecord × List ℕ)
next_any s = read_any_from (get_u8 s)

-- `Writer::write` on a CasimV2 writer.
abbrev pub write_any : AnyRecord → List ℕ → List ℕ
write_any (instr r) tail = write_instr r tail
write_any (sync r) tail = write_sync r tail
write_any (lifecycle r) tail = write_lifecycle r tail
