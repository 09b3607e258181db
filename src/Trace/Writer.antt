-- ===== src/Trace/Writer.antt =====
-- src/common/trace.cpp: the class `Writer`, over a stream that does not fail.
use multicore_oo_o_sim.Base.{
  ℕ, suc, ◌+◌, ◌≡◌, refl, sym, ap, ap₂, ◌∙◌, arith, Bool, true, false, List, [], ◌∷◌, ◌++◌, not,
  if◌then◌else◌, length, some, Result, ok, throw, ◌>>=◌,
}
use mathlib.Core.List.{append_assoc, append-nil}
use multicore_oo_o_sim.Trace.Format.{
  Variant, standard, casim_v2, AnyRecord, FileHeader, instr, sync, lifecycle, write_standard,
  write_instr, write_sync, write_lifecycle, write_any, write_header, read_header,
}
use multicore_oo_o_sim.Trace.RoundTrip.Streams.{write_all, AllAny, Reads, read_back}
use multicore_oo_o_sim.Trace.RoundTrip.{IsHeader}

pub record Writer : Type 0 where
  pub out : List ℕ
  pub variant : Variant
  pub records_written : ℕ
  pub header_written : Bool

abbrev pub make : Variant → Writer
make variant = record { out = []; variant = variant; records_written = 0; header_written = false }

abbrev pub add_header : FileHeader → Writer → Result Writer
add_header h w = elim w.variant [
  | standard ↦ throw
  | casim_v2 ↦
      if w.header_written
      then throw
      else ok (record w { out = w.out ++ write_header h []; header_written = true })
]

abbrev pub put_record : List ℕ → Writer → Writer
put_record bytes w = record w { out = w.out ++ bytes; records_written = w.records_written + 1 }

-- The three overloads of `write`.
abbrev pub write_record : AnyRecord → Writer → Result Writer
write_record (instr r) w = elim w.variant [
  | standard ↦ ok (put_record (write_standard r []) w)
  | casim_v2 ↦ if not w.header_written then throw else ok (put_record (write_instr r []) w)
]
write_record (sync r) w = elim w.variant [
  | standard ↦ throw
  | casim_v2 ↦ if not w.header_written then throw else ok (put_record (write_sync r []) w)
]
write_record (lifecycle r) w = elim w.variant [
  | standard ↦ throw
  | casim_v2 ↦ if not w.header_written then throw else ok (put_record (write_lifecycle r []) w)
]

abbrev pub write_records : List AnyRecord → Writer → Result Writer
write_records [] w = ok w
write_records (r ∷ rs) w = write_record r w >>= write_records rs

abbrev pub headed : List ℕ → ℕ → Writer
headed out n = record { out = out; variant = casim_v2; records_written = n; header_written = true }

write_any-append : (r : AnyRecord) (t : List ℕ) → write_any r [] ++ t ≡ write_any r t
unfolding write_instr write_sync write_lifecycle
write_any-append (instr r) t = simp append_assoc
write_any-append (sync r) t = simp append_assoc
write_any-append (lifecycle r) t = simp append_assoc

write_header-append : (h : FileHeader) (t : List ℕ) → write_header h [] ++ t ≡ write_header h t
unfolding write_header
write_header-append h t = simp append_assoc

write_record-headed :
    (r : AnyRecord) (out : List ℕ) (n : ℕ)
    → write_record r (headed out n) ≡ ok (headed (out ++ write_any r []) (n + 1))
write_record-headed (instr r) out n = refl
write_record-headed (sync r) out n = refl
write_record-headed (lifecycle r) out n = refl

write_records-headed :
    (rs : List AnyRecord) (out : List ℕ) (n : ℕ)
    → write_records rs (headed out n) ≡ ok (headed (out ++ write_all rs) (n + length rs))
write_records-headed [] out n = ap₂ (λ x m. ok (headed x m)) (sym (append-nil out)) (omega arith)
write_records-headed (r ∷ rs) out n =
    let bytes : out ++ write_any r [] ++ write_all rs ≡ out ++ write_any r (write_all rs) =
      append_assoc out (write_any r []) (write_all rs)
      ∙ ap (out ++◌) (write_any-append r (write_all rs)) in
    let number : n + 1 + length rs ≡ n + suc (length rs) = omega arith in
    ap (λ x. x >>= write_records rs) (write_record-headed r out n)
    ∙ write_records-headed rs (out ++ write_any r []) (n + 1)
    ∙ ap₂ (λ x m. ok (headed x m)) bytes number

-- What a writer that has been given a header and then records has put out.
pub write_file :
    (h : FileHeader) (rs : List AnyRecord)
    → (add_header h (make casim_v2) >>= write_records rs)
      ≡ ok (headed (write_header h (write_all rs)) (length rs))
write_file h rs =
    write_records-headed rs (write_header h []) 0
    ∙ ap₂ (λ x m. ok (headed x m)) (write_header-append h (write_all rs)) (omega arith)

-- A CasimV2 writer takes a header and then any records without an exception and counts them, and the
-- reader gets back from its bytes the header, each record in its turn, and then the end, when all are within their
-- widths and the header's size is the one that the format fixes.
pub file_round_trip :
    (h : FileHeader) (rs : List AnyRecord)
    → IsHeader h
    → h.header_size ≡ 32
    → AllAny rs
    → ((add_header h (make casim_v2) >>= write_records rs)
        ≡ ok (headed (write_header h (write_all rs)) (length rs)))
      × ((read_header (write_header h (write_all rs)) ≡ ok (some h, write_all rs))
          × Reads (write_all rs) rs)
file_round_trip h rs v e vs = (write_file h rs, read_back h [] rs v (e ∙ omega arith) vs)
