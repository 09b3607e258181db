-- ===== src/Coherence/Directory/Carriers.antt =====
-- Where the ownership of a block can be at the directory, and what the shared steps do to it.
use multicore_oo_o_sim.Base.{
  ℕ, ◌+◌, ◌≡◌, refl, Bool, true, false, List, [], ◌∷◌, ◌++◌, arith, ◌==◌, ◌&&◌, if◌then◌else◌,
}
use multicore_oo_o_sim.Coherence.Message.{Message, MessageKind, data_msg, data_wb}
use multicore_oo_o_sim.Coherence.Directory.{
  DirState, DirectoryController, dir_i, get_entry, send_request, schedule_data_response,
  schedule_lls,
}

abbrev pub is_data : MessageKind → Bool
is_data data_msg = true
is_data _ = false

abbrev pub is_wb : MessageKind → Bool
is_wb data_wb = true
is_wb _ = false

-- The messages that carry a block's data.
abbrev pub carriers : ℕ → List Message → ℕ
carriers b [] = 0
carriers b (m ∷ ms) = (if is_data m.kind && m.block == b then 1 else 0) + carriers b ms

abbrev pub writebacks : List Message → ℕ
writebacks [] = 0
writebacks (m ∷ ms) = (if is_wb m.kind then 1 else 0) + writebacks ms

pub carriers-append :
    (b : ℕ) (xs ys : List Message) → carriers b (xs ++ ys) ≡ carriers b xs + carriers b ys
carriers-append b [] ys = omega arith
carriers-append b (x ∷ xs) ys = omega (arith, carriers-append b xs ys)

pub writebacks-append :
    (xs ys : List Message) → writebacks (xs ++ ys) ≡ writebacks xs + writebacks ys
writebacks-append [] ys = omega arith
writebacks-append (x ∷ xs) ys = omega (arith, writebacks-append xs ys)

abbrev pub is_i : DirState → Bool
is_i dir_i = true
is_i _ = false

-- The places at the directory where a block's ownership can be: the memory, an answer of the memory
-- that is under way, and the messages that it has received or sends.
abbrev pub dir_tokens : ℕ → DirectoryController → ℕ
dir_tokens b d =
    (if is_i (get_entry b d).state then 1 else 0)
    + (if d.request_in_progress && d.tag_to_send == b then 1 else 0)
    + carriers b d.request_queue
    + carriers b d.request_next
    + carriers b d.out

abbrev pub dir_writebacks : DirectoryController → ℕ
dir_writebacks d = writebacks d.request_queue + writebacks d.request_next + writebacks d.out

pub schedule-fields :
    (block target : ℕ) (d : DirectoryController)
    → let d' = schedule_data_response block target d in
      (d'.entries ≡ d.entries)
      × (d'.request_in_progress ≡ true)
      × (d'.tag_to_send ≡ block)
      × (d'.request_queue ≡ d.request_queue)
      × (d'.request_next ≡ d.request_next)
      × (d'.out ≡ d.out)
unfolding schedule_data_response schedule_lls
schedule-fields block target d = ground arith

pub send_request-fields :
    (b dest tag : ℕ) (kind : MessageKind) (dirty : Bool) (d : DirectoryController)
    → let d' = send_request dest tag kind dirty d in
      (d'.entries ≡ d.entries)
      × (d'.request_in_progress ≡ d.request_in_progress)
      × (d'.tag_to_send ≡ d.tag_to_send)
      × (d'.request_queue ≡ d.request_queue)
      × (d'.request_next ≡ d.request_next)
      × (carriers b d'.out ≡ carriers b d.out + (if is_data kind && tag == b then 1 else 0))
      × (writebacks d'.out ≡ writebacks d.out + (if is_wb kind then 1 else 0))
unfolding send_request
send_request-fields b dest tag kind dirty d = (
  refl,
  refl,
  refl,
  refl,
  refl,
  rw carriers-append (ground arith),
  rw writebacks-append (ground arith),
)
