-- ===== src/Proto/Printing/RoundTrip.antt =====
-- The messages about captured print jobs are read as they were written.
use ckmux.Prelude.{◌+◌, ◌^◌, ◌≤◌, ◌<◌, length, arith}
use ckmux.Proto.Limits.{max_chunk_payload_bytes}
use ckmux.Proto.Codes.{Codes, Codes-seq, Codes-last}
use ckmux.Proto.Codes.Numbers.{Codes-u8, Codes-u16, Codes-u32, Codes-u64, Codes-blob}
use ckmux.Proto.Enums.RoundTrip.{Codes-printer_scope, Codes-printer_mode, Codes-printer_state}
use ckmux.Proto.Shapes.RoundTrip.{FitsPrintJobInfo, Codes-print_job_info}
use ckmux.Proto.Printing.{
  SetPrinterPolicy, write_set_printer_policy, read_set_printer_policy, PrintState,
  write_print_state, read_print_state, PrintJobAdded, write_print_job_added, read_print_job_added,
  PrintJobFetch, write_print_job_fetch, read_print_job_fetch, PrintJobData, write_print_job_data,
  read_print_job_data, PrintJobDiscard, write_print_job_discard, read_print_job_discard,
}

pub record FitsSetPrinterPolicy (m : SetPrinterPolicy) : Type 0 where
  pub target : m.target < 2 ^ 64
  pub ask_cache : m.ask_cache < 2 ^ 32
  pub spool_limit : m.spool_limit < 2 ^ 32

pub Codes-set_printer_policy :
    (m : SetPrinterPolicy)
    → FitsSetPrinterPolicy m
    → Codes (write_set_printer_policy m) read_set_printer_policy m (1 + (8 + (1 + (4 + (4)))))
unfolding write_set_printer_policy read_set_printer_policy
Codes-set_printer_policy m h =
    (Codes-seq _ (Codes-printer_scope m.scope) (
      Codes-seq _ (Codes-u64 m.target h.target) (
        Codes-seq _ (Codes-printer_mode m.mode) (
          Codes-seq _ (Codes-u32 m.ask_cache h.ask_cache)
            (Codes-last _ (Codes-u32 m.spool_limit h.spool_limit))))))

pub record FitsPrintState (m : PrintState) : Type 0 where
  pub term : m.term < 2 ^ 64
  pub bytes : m.bytes < 2 ^ 32
  pub jobs : m.jobs < 2 ^ 16

pub Codes-print_state :
    (m : PrintState)
    → FitsPrintState m
    → Codes (write_print_state m) read_print_state m (8 + (1 + (1 + (4 + (2)))))
unfolding write_print_state read_print_state
Codes-print_state m h =
    (Codes-seq _ (Codes-u64 m.term h.term) (
      Codes-seq _ (Codes-printer_mode m.mode) (
        Codes-seq _ (Codes-printer_state m.state)
          (Codes-seq _ (Codes-u32 m.bytes h.bytes) (Codes-last _ (Codes-u16 m.jobs h.jobs))))))

pub record FitsPrintJobAdded (m : PrintJobAdded) : Type 0 where
  pub term : m.term < 2 ^ 64
  pub job : FitsPrintJobInfo m.job

pub Codes-print_job_added :
    (m : PrintJobAdded)
    → FitsPrintJobAdded m
    → Codes (write_print_job_added m) read_print_job_added m (8 + (25))
unfolding write_print_job_added read_print_job_added
Codes-print_job_added m h =
    (Codes-seq _ (Codes-u64 m.term h.term) (Codes-last _ (Codes-print_job_info m.job h.job)))

pub record FitsPrintJobFetch (m : PrintJobFetch) : Type 0 where
  pub term : m.term < 2 ^ 64
  pub job : m.job < 2 ^ 64

pub Codes-print_job_fetch :
    (m : PrintJobFetch)
    → FitsPrintJobFetch m
    → Codes (write_print_job_fetch m) read_print_job_fetch m (8 + (8))
unfolding write_print_job_fetch read_print_job_fetch
Codes-print_job_fetch m h =
    (Codes-seq _ (Codes-u64 m.term h.term) (Codes-last _ (Codes-u64 m.job h.job)))

pub record FitsPrintJobData (m : PrintJobData) : Type 0 where
  pub term : m.term < 2 ^ 64
  pub job : m.job < 2 ^ 64
  pub seq : m.seq < 2 ^ 32
  pub final_chunk : m.final_chunk < 256
  pub bytes : length m.bytes ≤ max_chunk_payload_bytes

pub Codes-print_job_data :
    (m : PrintJobData)
    → FitsPrintJobData m
    → Codes
        (write_print_job_data m)
        read_print_job_data
        m
        (8 + (8 + (4 + (1 + ((4 + length m.bytes))))))
unfolding write_print_job_data read_print_job_data
Codes-print_job_data m h =
    (Codes-seq _ (Codes-u64 m.term h.term) (
      Codes-seq _ (Codes-u64 m.job h.job) (
        Codes-seq _ (Codes-u32 m.seq h.seq) (
          Codes-seq _ (Codes-u8 m.final_chunk h.final_chunk)
            (Codes-last _ (Codes-blob max_chunk_payload_bytes m.bytes h.bytes (omega arith)))))))

pub record FitsPrintJobDiscard (m : PrintJobDiscard) : Type 0 where
  pub term : m.term < 2 ^ 64
  pub job : m.job < 2 ^ 64

pub Codes-print_job_discard :
    (m : PrintJobDiscard)
    → FitsPrintJobDiscard m
    → Codes (write_print_job_discard m) read_print_job_discard m (8 + (8))
unfolding write_print_job_discard read_print_job_discard
Codes-print_job_discard m h =
    (Codes-seq _ (Codes-u64 m.term h.term) (Codes-last _ (Codes-u64 m.job h.job)))
