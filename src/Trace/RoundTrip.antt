-- ===== src/Trace/RoundTrip.antt =====
-- src/common/trace.cpp: what is read back of what was written.
pub mod Streams
use multicore_oo_o_sim.Base.{
  ℕ, zero, suc, ◌+◌, ◌-◌, ◌*◌, ◌/◌, ◌%◌, ◌^◌, ◌<◌, ◌≤◌, ◌≡◌, refl, sym, ap, ap₂, subst, ◌∙◌, arith,
  Bool, true, false, Option, none, some, List, [], ◌∷◌, ◌++◌, length, length-replicate, Result, ok,
  throw, ◌>>=◌, if◌then◌else◌, ltb, ◌==◌, not,
}
use multicore_oo_o_sim.Trace.Bytes.{
  put_le, get_le, put_array, get_array, put_pad, skip_n, required, Fits, get_le-put_le,
  get_array-put_array, skip_n-append,
}
use multicore_oo_o_sim.Trace.Format.{
  Record, SyncRecord, LifecycleRecord, AnyRecord, FileHeader, instr, sync, lifecycle, bit, nonzero,
  flags_of, magic, write_standard, read_standard, read_standard_fields, write_instr,
  read_instr_payload, write_sync, read_sync_payload, write_lifecycle, read_lifecycle_payload,
  write_header, read_header, read_header_fields, strip_prefix, read_payload, next_any, write_any,
  read_standard_from, read_header_from, read_any_from, found, any_of,
}

-- The machine widths and the lengths of the arrays.
pub record IsRecord (r : Record) : Type 0 where
  pub ip_fits : r.ip < 256 ^ 8
  pub destinations : length r.destination_registers ≡ 2
  pub sources : length r.source_registers ≡ 4
  pub destination_words : length r.destination_memory ≡ 2
  pub source_words : length r.source_memory ≡ 4
  pub destinations_fit : Fits 1 r.destination_registers
  pub sources_fit : Fits 1 r.source_registers
  pub destination_words_fit : Fits 8 r.destination_memory
  pub source_words_fit : Fits 8 r.source_memory
  pub no_token : r.sync_token ≡ none

pub record IsSyncRecord (r : SyncRecord) : Type 0 where
  pub kind_fits : r.kind < 256 ^ 1
  pub object_fits : r.sync_object_addr < 256 ^ 8
  pub sequence_fits : r.sequence_no < 256 ^ 8
  pub extra_fits : r.extra_arg < 256 ^ 8
  pub ip_fits : r.ip < 256 ^ 8
  pub timestamp_fits : r.timestamp_ns < 256 ^ 8

pub record IsLifecycleRecord (r : LifecycleRecord) : Type 0 where
  pub kind_fits : r.kind < 256 ^ 1
  pub peer_fits : r.peer_tid < 256 ^ 4
  pub ip_fits : r.ip < 256 ^ 8

module _ {B : Type 0} where
  read_le :
      (n v : ℕ) (t : List ℕ) (k : ℕ × List ℕ → Result B)
      → v < 256 ^ n
      → (required (get_le n (put_le n v ++ t)) >>= k) ≡ k (v, t)
  read_le n v t k h = ap (λ r. required r >>= k) (get_le-put_le n v t h)

  read_array :
      (n c : ℕ) (xs t : List ℕ) (k : List ℕ × List ℕ → Result B)
      → length xs ≡ c
      → Fits n xs
      → (required (get_array n c (put_array n xs ++ t)) >>= k) ≡ k (xs, t)
  read_array n c xs t k l h =
      ap (λ c. required (get_array n c (put_array n xs ++ t)) >>= k) (sym l)
      ∙ ap (λ r. required r >>= k) (get_array-put_array n xs t h)

  skip_bytes :
      (n : ℕ) (xs t : List ℕ) (k : List ℕ → Result B)
      → length xs ≡ n
      → (required (skip_n n (xs ++ t)) >>= k) ≡ k t
  skip_bytes n xs t k l =
      ap (λ c. required (skip_n c (xs ++ t)) >>= k) (sym l)
      ∙ ap (λ r. required r >>= k) (skip_n-append xs t)

pub next_any-write_sync :
    (r : SyncRecord) (t : List ℕ)
    → IsSyncRecord r
    → next_any (write_sync r t) ≡ ok (some (sync r), t)
unfolding write_sync read_sync_payload read_payload
next_any-write_sync r t v =
    ap (λ x. read_any_from x) (get_le-put_le 1 1 _ (omega arith))
    ∙ ap (λ x. found (any_of sync x))
        (read_le 1 r.kind _ _ v.kind_fits
          ∙ skip_bytes 6 (put_pad 6) _ _ refl
          ∙ read_le 8 r.sync_object_addr _ _ v.object_fits
          ∙ read_le 8 r.sequence_no _ _ v.sequence_fits
          ∙ read_le 8 r.extra_arg _ _ v.extra_fits
          ∙ read_le 8 r.ip _ _ v.ip_fits
          ∙ read_le 8 r.timestamp_ns _ _ v.timestamp_fits
          ∙ skip_bytes 16 (put_pad 16) _ _ refl)

pub next_any-write_lifecycle :
    (r : LifecycleRecord) (t : List ℕ)
    → IsLifecycleRecord r
    → next_any (write_lifecycle r t) ≡ ok (some (lifecycle r), t)
unfolding write_lifecycle read_lifecycle_payload read_payload
next_any-write_lifecycle r t v =
    ap (λ x. read_any_from x) (get_le-put_le 1 2 _ (omega arith))
    ∙ ap (λ x. found (any_of lifecycle x))
        (read_le 1 r.kind _ _ v.kind_fits
          ∙ skip_bytes 2 (put_pad 2) _ _ refl
          ∙ read_le 4 r.peer_tid _ _ v.peer_fits
          ∙ read_le 8 r.ip _ _ v.ip_fits
          ∙ skip_bytes 48 (put_pad 48) _ _ refl)

-- A record from its fields as they are read.
rebuilt :
    (r : Record) (x y z : Bool)
    → x ≡ r.is_branch
    → y ≡ r.branch_taken
    → z ≡ r.is_mul
    → r.sync_token ≡ none
    → record r { is_branch = x; branch_taken = y; is_mul = z; sync_token = none } ≡ r
rebuilt r x y z p q m n = cc

nonzero-bit : (b : Bool) → nonzero (bit b) ≡ b
nonzero-bit true = refl
nonzero-bit false = refl

bit_small : (b : Bool) → bit b < 256 ^ 1
bit_small true = omega arith
bit_small false = omega arith

flag_0 : (x y z : Bool) → nonzero ((bit x + (2 * bit y + 4 * bit z)) % 2) ≡ x
flag_0 x y z = ground arith

flag_1 : (x y z : Bool) → nonzero ((bit x + (2 * bit y + 4 * bit z)) / 2 % 2) ≡ y
flag_1 x y z = ground arith

flag_2 : (x y z : Bool) → nonzero ((bit x + (2 * bit y + 4 * bit z)) / 4 % 2) ≡ z
flag_2 x y z = ground arith

flags_small : (x y z : Bool) → bit x + (2 * bit y + 4 * bit z) < 256 ^ 1
flags_small x y z = ground arith

pub next_any-write_instr :
    (r : Record) (t : List ℕ) → IsRecord r → next_any (write_instr r t) ≡ ok (some (instr r), t)
unfolding write_instr read_instr_payload read_payload
next_any-write_instr r t v =
    ap (λ x. read_any_from x) (get_le-put_le 1 0 _ (omega arith))
    ∙ ap (λ x. found (any_of instr x))
        (read_le 1 (flags_of r) _ _ (flags_small r.is_branch r.branch_taken r.is_mul)
          ∙ read_le 8 r.ip _ _ v.ip_fits
          ∙ read_array 1 2 r.destination_registers _ _ v.destinations v.destinations_fit
          ∙ read_array 1 4 r.source_registers _ _ v.sources v.sources_fit
          ∙ read_array 8 2 r.destination_memory _ _ v.destination_words v.destination_words_fit
          ∙ read_array 8 4 r.source_memory _ _ v.source_words v.source_words_fit
          ∙ ap (λ x. ok (x, t))
              (rebuilt r _ _ _ (flag_0 r.is_branch r.branch_taken r.is_mul)
                (flag_1 r.is_branch r.branch_taken r.is_mul)
                (flag_2 r.is_branch r.branch_taken r.is_mul) v.no_token))

-- A ChampSim record comes back as it was written, where it carries neither of the fields that the
-- format has no room for.
pub read_standard-write_standard :
    (r : Record) (t : List ℕ)
    → IsRecord r
    → r.is_mul ≡ false
    → read_standard (write_standard r t) ≡ ok (some r, t)
unfolding write_standard read_standard_fields
read_standard-write_standard r t v m =
    ap (λ x. read_standard_from x) (get_le-put_le 8 r.ip _ v.ip_fits)
    ∙ ap (λ x. found x)
        (read_le 1 (bit r.is_branch) _ _ (bit_small r.is_branch)
          ∙ read_le 1 (bit r.branch_taken) _ _ (bit_small r.branch_taken)
          ∙ read_array 1 2 r.destination_registers _ _ v.destinations v.destinations_fit
          ∙ read_array 1 4 r.source_registers _ _ v.sources v.sources_fit
          ∙ read_array 8 2 r.destination_memory _ _ v.destination_words v.destination_words_fit
          ∙ read_array 8 4 r.source_memory _ _ v.source_words v.source_words_fit
          ∙ ap (λ x. ok (x, t))
              (rebuilt r _ _ _ (nonzero-bit r.is_branch) (nonzero-bit r.branch_taken) (sym m)
                v.no_token))

pub record IsHeader (h : FileHeader) : Type 0 where
  pub version_fits : h.format_version < 256 ^ 2
  pub size_fits : h.header_size < 256 ^ 2
  pub thread_fits : h.thread_id < 256 ^ 4
  pub count_fits : h.thread_count < 256 ^ 4
  pub uid_fits : h.program_uid < 256 ^ 8

skip_extension :
    {B : Type 0} (n : ℕ) (ext t : List ℕ) (k : List ℕ → Result B)
    → n ≡ 32 + length ext
    → ((if ltb n 32 then throw else required (skip_n (n - 28) (put_pad 4 ++ (ext ++ t)))) >>= k)
      ≡ k t
unfolding skip_n
skip_extension n ext t k e =
    let long : ltb n 32 ≡ false = ground arith in
    let rest : n - 28 ≡ suc (suc (suc (suc (length ext)))) = omega arith in
    rw long (rw rest (ap (λ r. required r >>= k) (skip_n-append ext t)))

-- A header comes back as it was written, also where its size announces bytes after the fields that
-- the reader knows: the reader goes past exactly those.
pub read_header-write_header :
    (h : FileHeader) (ext t : List ℕ)
    → IsHeader h
    → h.header_size ≡ 32 + length ext
    → read_header (write_header h (ext ++ t)) ≡ ok (some h, t)
unfolding write_header read_header_fields strip_prefix
read_header-write_header h ext t v e =
    ap (λ x. found x)
      (read_le 2 h.format_version _ _ v.version_fits
        ∙ read_le 2 h.header_size _ _ v.size_fits
        ∙ read_le 4 h.thread_id _ _ v.thread_fits
        ∙ read_le 4 h.thread_count _ _ v.count_fits
        ∙ read_le 8 h.program_uid _ _ v.uid_fits
        ∙ skip_extension h.header_size ext t _ e)
