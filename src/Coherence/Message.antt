-- ===== src/Coherence/Message.antt =====
-- include/comparch/coherence/message.hpp, src/coherence/message.cpp and the fields of
-- include/comparch/coherence/settings.hpp that the protocol code reads.
use multicore_oo_o_sim.Base.{ℕ, ◌+◌, Bool, true, false, if◌then◌else◌}

pub data MessageKind : Type 0 where
  nop load store gets getm : MessageKind
  data_msg data_wb req_invalid invack ack : MessageKind
  data_e getx data_f recall_goto_i recall_goto_s : MessageKind
  req_message_num : MessageKind

pub data CacheMode : Type 0 where
  private_l2 shared_lls : CacheMode

pub data Protocol : Type 0 where
  mi msi mesi mosi moesif : Protocol

pub record Settings : Type 0 where
  pub protocol : Protocol
  pub num_procs : ℕ
  pub mem_latency : ℕ
  pub header_flits : ℕ
  pub payload_flits : ℕ
  pub cache_mode : CacheMode
  pub lls_blocks : ℕ
  pub lls_assoc : ℕ
  pub lls_hit_latency : ℕ

pub record Message : Type 0 where
  pub src : ℕ
  pub dst : ℕ
  pub block : ℕ
  pub kind : MessageKind
  pub req_time : ℕ
  pub flits : ℕ
  pub tof : ℕ
  pub dirty : Bool

abbrev pub carries_data : MessageKind → Bool
carries_data data_msg = true
carries_data data_e = true
carries_data data_f = true
carries_data data_wb = true
carries_data _ = false

-- The constructor: flit counts are small, so the conversion to `int` keeps them.
abbrev pub message : Settings → ℕ → ℕ → ℕ → MessageKind → Message
message s src dst block kind = record {
  src = src;
  dst = dst;
  block = block;
  kind = kind;
  req_time = 0;
  flits = if carries_data kind then s.header_flits + s.payload_flits else s.header_flits;
  tof = 0;
  dirty = false;
}
