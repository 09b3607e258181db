-- ===== src/Trace/Tests.antt =====
-- Traces on concrete inputs.
use multicore_oo_o_sim.Base.{
  ℕ, ◌+◌, ◌≡◌, refl, arith, true, false, Option, none, some, List, [], ◌∷◌, length, replicate,
  Result, ok, throw, ◌>>=◌,
}
use multicore_oo_o_sim.Trace.Bytes.{Fits, put_le, get_le, put_array, skip_n}
use multicore_oo_o_sim.Trace.Format.{
  casim_v2, Record, SyncRecord, AnyRecord, FileHeader, instr, sync, write_standard, read_standard,
  next_any, write_sync, write_instr, write_header, read_header, read_sync_payload,
}
use multicore_oo_o_sim.Trace.RoundTrip.{
  IsRecord, IsSyncRecord, IsHeader, read_standard-write_standard,
}
use multicore_oo_o_sim.Trace.RoundTrip.Streams.{AllAny, IsAny, Reads, write_all, read_back}
use multicore_oo_o_sim.Trace.Lengths.{next_any_cut}
use multicore_oo_o_sim.Trace.Reader.{
  SyncSink, Reader, reader_on, next, next_loop, on_type, on_sync, blank_header,
}
use multicore_oo_o_sim.Trace.Reader.Ends.{next_ends}
use multicore_oo_o_sim.Trace.Writer
use multicore_oo_o_sim.Trace.Writer.{add_header, write_records, headed, file_round_trip}

abbrev branch : Record
branch = record {
  ip = 4198400;
  is_branch = true;
  branch_taken = false;
  is_mul = false;
  destination_registers = 26 ∷ 0 ∷ [];
  source_registers = 6 ∷ 25 ∷ 0 ∷ 0 ∷ [];
  destination_memory = 0 ∷ 0 ∷ [];
  source_memory = 140737488355328 ∷ 0 ∷ 0 ∷ 0 ∷ [];
  sync_token = none;
}

branch-IsRecord : IsRecord branch
branch-IsRecord = record {
  ip_fits = omega arith;
  destinations = refl;
  sources = refl;
  destination_words = refl;
  source_words = refl;
  destinations_fit = Fits.cons (omega arith) (Fits.cons (omega arith) Fits.nil);
  sources_fit =
      Fits.cons (omega arith)
        (Fits.cons (omega arith) (Fits.cons (omega arith) (Fits.cons (omega arith) Fits.nil)));
  destination_words_fit = Fits.cons (omega arith) (Fits.cons (omega arith) Fits.nil);
  source_words_fit =
      Fits.cons (omega arith)
        (Fits.cons (omega arith) (Fits.cons (omega arith) (Fits.cons (omega arith) Fits.nil)));
  no_token = refl;
}

abbrev acquire : SyncRecord
acquire = record {
  kind = 1;
  sync_object_addr = 4096;
  sequence_no = 3;
  extra_arg = 0;
  ip = 400;
  timestamp_ns = 77;
}

acquire-IsSyncRecord : IsSyncRecord acquire
acquire-IsSyncRecord = record {
  kind_fits = omega arith;
  object_fits = omega arith;
  sequence_fits = omega arith;
  extra_fits = omega arith;
  ip_fits = omega arith;
  timestamp_fits = omega arith;
}

abbrev file : List AnyRecord
file = sync acquire ∷ instr branch ∷ []

file-AllAny : AllAny file
file-AllAny =
    AllAny.cons (IsAny.is_sync acquire-IsSyncRecord)
      (AllAny.cons (IsAny.is_instr branch-IsRecord) AllAny.nil)

blank_header-IsHeader : IsHeader blank_header
blank_header-IsHeader = record {
  version_fits = omega arith;
  size_fits = omega arith;
  thread_fits = omega arith;
  count_fits = omega arith;
  uid_fits = omega arith;
}

file_bytes : length (write_header blank_header (write_all file)) ≡ 160
unfolding write_header write_instr write_sync put_le put_array
file_bytes = refl

read_standard-write_standard_example :
    read_standard (write_standard branch []) ≡ ok (some branch, [])
read_standard-write_standard_example = read_standard-write_standard branch [] branch-IsRecord refl

-- A header that announces four bytes more.
abbrev longer : FileHeader
longer = record blank_header { header_size = 36 }

longer-IsHeader : IsHeader longer
longer-IsHeader = record {
  version_fits = omega arith;
  size_fits = omega arith;
  thread_fits = omega arith;
  count_fits = omega arith;
  uid_fits = omega arith;
}

read_back_example :
    (read_header (write_header longer (1 ∷ 2 ∷ 3 ∷ 4 ∷ write_all file))
      ≡ ok (some longer, write_all file))
    × Reads (write_all file) file
read_back_example = read_back longer (1 ∷ 2 ∷ 3 ∷ 4 ∷ []) file longer-IsHeader refl file-AllAny

file_round_trip_example :
    ((add_header blank_header (Writer.make casim_v2) >>= write_records file)
      ≡ ok (headed (write_header blank_header (write_all file)) 2))
    × ((read_header (write_header blank_header (write_all file))
          ≡ ok (some blank_header, write_all file))
        × Reads (write_all file) file)
file_round_trip_example = file_round_trip blank_header file blank_header-IsHeader refl file-AllAny

next_any_cut_example : next_any (1 ∷ replicate 40 7) ≡ throw
next_any_cut_example = next_any_cut (1 ∷ replicate 40 7) (omega arith) (omega arith)

-- A sink that holds everything, and counts how often it was asked.
abbrev stern : SyncSink ℕ
stern = record { try_consume_sync = λ tid s n. ok (false, n + 1); on_lifecycle = λ tid l n. ok n }

abbrev opened : Reader
opened = record (reader_on casim_v2 blank_header (write_all file)) { has_sink = true }

next_holds :
    next stern opened 0
    ≡ some (
        ok (
          none,
          (
            record opened { stream = write_all (instr branch ∷ []); pending_sync = some acquire },
            1,
          ),
        ))
unfolding next_loop on_type on_sync write_sync read_sync_payload get_le put_le skip_n
next_holds = refl

next_ends_example : (x : Result (Option Record × (Reader × ℕ))) × (next stern opened 0 ≡ some x)
next_ends_example = next_ends stern opened 0
