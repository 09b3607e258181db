-- ===== src/Trace/RoundTrip/Streams.antt =====
-- src/common/trace.cpp: whole trace files, as the reader takes them apart again.
use multicore_oo_o_sim.Base.{ℕ, ◌+◌, ◌≡◌, refl, List, [], ◌∷◌, ◌++◌, length, none, some, ok}
use multicore_oo_o_sim.Trace.Bytes.{get_le}
use multicore_oo_o_sim.Trace.Format.{
  Record, SyncRecord, LifecycleRecord, AnyRecord, FileHeader, instr, sync, lifecycle, write_any,
  next_any, write_header, read_header,
}
use multicore_oo_o_sim.Trace.RoundTrip.{
  IsRecord, IsSyncRecord, IsLifecycleRecord, IsHeader, next_any-write_instr, next_any-write_sync,
  next_any-write_lifecycle, read_header-write_header,
}

pub data IsAny : AnyRecord → Type 0 where
  is_instr : {r : Record} → IsRecord r → IsAny (instr r)
  is_sync : {r : SyncRecord} → IsSyncRecord r → IsAny (sync r)
  is_lifecycle : {r : LifecycleRecord} → IsLifecycleRecord r → IsAny (lifecycle r)

pub data AllAny : List AnyRecord → Type 0 where
  nil : AllAny []
  cons : {r : AnyRecord} {rs : List AnyRecord} → IsAny r → AllAny rs → AllAny (r ∷ rs)

abbrev pub write_all : List AnyRecord → List ℕ
write_all [] = []
write_all (r ∷ rs) = write_any r (write_all rs)

-- What calls of `next_any` return, one after the other, until the end of the stream.
pub data Reads : List ℕ → List AnyRecord → Type 0 where
  done : {s t : List ℕ} → next_any s ≡ ok (none, t) → Reads s []
  more :
      {s t : List ℕ} {r : AnyRecord} {rs : List AnyRecord}
      → next_any s ≡ ok (some r, t)
      → Reads t rs
      → Reads s (r ∷ rs)

next_any-write_any :
    (r : AnyRecord) (t : List ℕ) → IsAny r → next_any (write_any r t) ≡ ok (some r, t)
next_any-write_any (instr r) t (IsAny.is_instr v) = next_any-write_instr r t v
next_any-write_any (sync r) t (IsAny.is_sync v) = next_any-write_sync r t v
next_any-write_any (lifecycle r) t (IsAny.is_lifecycle v) = next_any-write_lifecycle r t v

Reads-write_all : (rs : List AnyRecord) → AllAny rs → Reads (write_all rs) rs
unfolding get_le
Reads-write_all [] v = Reads.done refl
Reads-write_all (r ∷ rs) (AllAny.cons v vs) =
    Reads.more (next_any-write_any r (write_all rs) v) (Reads-write_all rs vs)

-- A CasimV2 file of a header and of records of all three kinds, within their widths, is read back as it
-- was written: the header, its extension skipped, then each record in its turn, then the end.
pub read_back :
    (h : FileHeader) (ext : List ℕ) (rs : List AnyRecord)
    → IsHeader h
    → h.header_size ≡ 32 + length ext
    → AllAny rs
    → (read_header (write_header h (ext ++ write_all rs)) ≡ ok (some h, write_all rs))
      × Reads (write_all rs) rs
read_back h ext rs v e vs =
    (read_header-write_header h ext (write_all rs) v e, Reads-write_all rs vs)
