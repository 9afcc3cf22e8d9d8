-- ===== src/Proto/Printing.antt =====
-- The messages about captured print jobs (src/common/proto.hpp), as src/common/proto.cpp
-- writes and reads them.
pub mod RoundTrip
use ckmux.Prelude.{ℕ, List}
use ckmux.Proto.Wire.{Put, ◌▸◌, Get, ◌>>=◌, pure}
use ckmux.Proto.Writer
use ckmux.Proto.Reader
use ckmux.Proto.Limits.{max_chunk_payload_bytes}
use ckmux.Proto.Enums.{
  PrinterScope, printer_scope_code, printer_scope_of, PrinterMode, printer_mode_code,
  printer_mode_of, PrinterState, printer_state_code, printer_state_of,
}
use ckmux.Proto.Shapes.{PrintJobInfo, write_print_job_info, read_print_job_info}

pub record SetPrinterPolicy : Type 0 where
  pub scope : PrinterScope
  pub target : ℕ
  pub mode : PrinterMode
  pub ask_cache : ℕ
  pub spool_limit : ℕ

unfoldable pub write_set_printer_policy : SetPrinterPolicy → Put
write_set_printer_policy m =
    Writer.u8 (printer_scope_code m.scope)
    ▸ Writer.u64 m.target
    ▸ Writer.u8 (printer_mode_code m.mode)
    ▸ Writer.u32 m.ask_cache
    ▸ Writer.u32 m.spool_limit

unfoldable pub read_set_printer_policy : Get SetPrinterPolicy
read_set_printer_policy = do
  scope ← Reader.enum_u8 printer_scope_of 2
  target ← Reader.u64
  mode ← Reader.enum_u8 printer_mode_of 2
  ask_cache ← Reader.u32
  spool_limit ← Reader.u32
  pure (record {
    scope = scope;
    target = target;
    mode = mode;
    ask_cache = ask_cache;
    spool_limit = spool_limit;
  })

pub record PrintState : Type 0 where
  pub term : ℕ
  pub mode : PrinterMode
  pub state : PrinterState
  pub bytes : ℕ
  pub jobs : ℕ

unfoldable pub write_print_state : PrintState → Put
write_print_state m =
    Writer.u64 m.term
    ▸ Writer.u8 (printer_mode_code m.mode)
    ▸ Writer.u8 (printer_state_code m.state)
    ▸ Writer.u32 m.bytes
    ▸ Writer.u16 m.jobs

unfoldable pub read_print_state : Get PrintState
read_print_state = do
  term ← Reader.u64
  mode ← Reader.enum_u8 printer_mode_of 2
  state ← Reader.enum_u8 printer_state_of 3
  bytes ← Reader.u32
  jobs ← Reader.u16
  pure (record { term = term; mode = mode; state = state; bytes = bytes; jobs = jobs })

pub record PrintJobAdded : Type 0 where
  pub term : ℕ
  pub job : PrintJobInfo

unfoldable pub write_print_job_added : PrintJobAdded → Put
write_print_job_added m = Writer.u64 m.term ▸ write_print_job_info m.job

unfoldable pub read_print_job_added : Get PrintJobAdded
read_print_job_added = do
  term ← Reader.u64
  job ← read_print_job_info
  pure (record { term = term; job = job })

pub record PrintJobFetch : Type 0 where
  pub term : ℕ
  pub job : ℕ

unfoldable pub write_print_job_fetch : PrintJobFetch → Put
write_print_job_fetch m = Writer.u64 m.term ▸ Writer.u64 m.job

unfoldable pub read_print_job_fetch : Get PrintJobFetch
read_print_job_fetch = do
  term ← Reader.u64
  job ← Reader.u64
  pure (record { term = term; job = job })

pub record PrintJobData : Type 0 where
  pub term : ℕ
  pub job : ℕ
  pub seq : ℕ
  pub final_chunk : ℕ
  pub bytes : List ℕ

unfoldable pub write_print_job_data : PrintJobData → Put
write_print_job_data m =
    Writer.u64 m.term
    ▸ Writer.u64 m.job
    ▸ Writer.u32 m.seq
    ▸ Writer.u8 m.final_chunk
    ▸ Writer.blob m.bytes

unfoldable pub read_print_job_data : Get PrintJobData
read_print_job_data = do
  term ← Reader.u64
  job ← Reader.u64
  seq ← Reader.u32
  final_chunk ← Reader.u8
  bytes ← Reader.blob max_chunk_payload_bytes
  pure (record { term = term; job = job; seq = seq; final_chunk = final_chunk; bytes = bytes })

pub record PrintJobDiscard : Type 0 where
  pub term : ℕ
  pub job : ℕ

unfoldable pub write_print_job_discard : PrintJobDiscard → Put
write_print_job_discard m = Writer.u64 m.term ▸ Writer.u64 m.job

unfoldable pub read_print_job_discard : Get PrintJobDiscard
read_print_job_discard = do
  term ← Reader.u64
  job ← Reader.u64
  pure (record { term = term; job = job })
