-- ===== src/Proto/Enums/RoundTrip.antt =====
-- Every enumerator is read as it was written.
use ckmux.Prelude.{◌≤◌, ◌≡◌, refl, arith}
use ckmux.Proto.Writer
use ckmux.Proto.Reader
use ckmux.Proto.Codes.{Codes}
use ckmux.Proto.Codes.Numbers.{Codes-enum}
use ckmux.Proto.Enums.{
  ClientKind, client_kind_code, client_kind_of, DetachReason, detach_reason_code, detach_reason_of,
  DiagnosticKind, diagnostic_kind_code, diagnostic_kind_of, PrinterScope, printer_scope_code,
  printer_scope_of, PrinterMode, printer_mode_code, printer_mode_of, PrinterState,
  printer_state_code, printer_state_of, PrintJobKind, print_job_kind_code, print_job_kind_of,
  TermStatsState, term_stats_state_code, term_stats_state_of, TermStatsScope, term_stats_scope_code,
  term_stats_scope_of, TermStatsMemory, term_stats_memory_code, term_stats_memory_of, GridOpTag,
  grid_op_tag_code, grid_op_tag_of,
}

client_kind_code-le : (e : ClientKind) → client_kind_code e ≤ 1
unfolding client_kind_code
client_kind_code-le ClientKind.ui = omega arith
client_kind_code-le ClientKind.cli = omega arith

client_kind_of-client_kind_code : (e : ClientKind) → client_kind_of (client_kind_code e) ≡ e
unfolding client_kind_of client_kind_code
client_kind_of-client_kind_code ClientKind.ui = refl
client_kind_of-client_kind_code ClientKind.cli = refl

pub Codes-client_kind :
    (e : ClientKind) → Codes (Writer.u8 (client_kind_code e)) (Reader.enum_u8 client_kind_of 1) e 1
Codes-client_kind e =
    Codes-enum client_kind_code client_kind_of 1 e (client_kind_code-le e)
      (client_kind_of-client_kind_code e) (omega arith)

detach_reason_code-le : (e : DetachReason) → detach_reason_code e ≤ 3
unfolding detach_reason_code
detach_reason_code-le DetachReason.user = omega arith
detach_reason_code-le DetachReason.takeover = omega arith
detach_reason_code-le DetachReason.session_killed = omega arith
detach_reason_code-le DetachReason.server_shutdown = omega arith

detach_reason_of-detach_reason_code :
    (e : DetachReason) → detach_reason_of (detach_reason_code e) ≡ e
unfolding detach_reason_of detach_reason_code
detach_reason_of-detach_reason_code DetachReason.user = refl
detach_reason_of-detach_reason_code DetachReason.takeover = refl
detach_reason_of-detach_reason_code DetachReason.session_killed = refl
detach_reason_of-detach_reason_code DetachReason.server_shutdown = refl

pub Codes-detach_reason :
    (e : DetachReason)
    → Codes (Writer.u8 (detach_reason_code e)) (Reader.enum_u8 detach_reason_of 3) e 1
Codes-detach_reason e =
    Codes-enum detach_reason_code detach_reason_of 3 e (detach_reason_code-le e)
      (detach_reason_of-detach_reason_code e) (omega arith)

diagnostic_kind_code-le : (e : DiagnosticKind) → diagnostic_kind_code e ≤ 3
unfolding diagnostic_kind_code
diagnostic_kind_code-le DiagnosticKind.limit_exceeded = omega arith
diagnostic_kind_code-le DiagnosticKind.unsupported_sequence = omega arith
diagnostic_kind_code-le DiagnosticKind.malformed_sequence = omega arith
diagnostic_kind_code-le DiagnosticKind.child_exited = omega arith

diagnostic_kind_of-diagnostic_kind_code :
    (e : DiagnosticKind) → diagnostic_kind_of (diagnostic_kind_code e) ≡ e
unfolding diagnostic_kind_of diagnostic_kind_code
diagnostic_kind_of-diagnostic_kind_code DiagnosticKind.limit_exceeded = refl
diagnostic_kind_of-diagnostic_kind_code DiagnosticKind.unsupported_sequence = refl
diagnostic_kind_of-diagnostic_kind_code DiagnosticKind.malformed_sequence = refl
diagnostic_kind_of-diagnostic_kind_code DiagnosticKind.child_exited = refl

pub Codes-diagnostic_kind :
    (e : DiagnosticKind)
    → Codes (Writer.u8 (diagnostic_kind_code e)) (Reader.enum_u8 diagnostic_kind_of 3) e 1
Codes-diagnostic_kind e =
    Codes-enum diagnostic_kind_code diagnostic_kind_of 3 e (diagnostic_kind_code-le e)
      (diagnostic_kind_of-diagnostic_kind_code e) (omega arith)

printer_scope_code-le : (e : PrinterScope) → printer_scope_code e ≤ 2
unfolding printer_scope_code
printer_scope_code-le PrinterScope.terminal = omega arith
printer_scope_code-le PrinterScope.session = omega arith
printer_scope_code-le PrinterScope.global = omega arith

printer_scope_of-printer_scope_code :
    (e : PrinterScope) → printer_scope_of (printer_scope_code e) ≡ e
unfolding printer_scope_of printer_scope_code
printer_scope_of-printer_scope_code PrinterScope.terminal = refl
printer_scope_of-printer_scope_code PrinterScope.session = refl
printer_scope_of-printer_scope_code PrinterScope.global = refl

pub Codes-printer_scope :
    (e : PrinterScope)
    → Codes (Writer.u8 (printer_scope_code e)) (Reader.enum_u8 printer_scope_of 2) e 1
Codes-printer_scope e =
    Codes-enum printer_scope_code printer_scope_of 2 e (printer_scope_code-le e)
      (printer_scope_of-printer_scope_code e) (omega arith)

printer_mode_code-le : (e : PrinterMode) → printer_mode_code e ≤ 2
unfolding printer_mode_code
printer_mode_code-le PrinterMode.ask = omega arith
printer_mode_code-le PrinterMode.capture = omega arith
printer_mode_code-le PrinterMode.off = omega arith

printer_mode_of-printer_mode_code : (e : PrinterMode) → printer_mode_of (printer_mode_code e) ≡ e
unfolding printer_mode_of printer_mode_code
printer_mode_of-printer_mode_code PrinterMode.ask = refl
printer_mode_of-printer_mode_code PrinterMode.capture = refl
printer_mode_of-printer_mode_code PrinterMode.off = refl

pub Codes-printer_mode :
    (e : PrinterMode)
    → Codes (Writer.u8 (printer_mode_code e)) (Reader.enum_u8 printer_mode_of 2) e 1
Codes-printer_mode e =
    Codes-enum printer_mode_code printer_mode_of 2 e (printer_mode_code-le e)
      (printer_mode_of-printer_mode_code e) (omega arith)

printer_state_code-le : (e : PrinterState) → printer_state_code e ≤ 3
unfolding printer_state_code
printer_state_code-le PrinterState.idle = omega arith
printer_state_code-le PrinterState.capturing = omega arith
printer_state_code-le PrinterState.sunk = omega arith
printer_state_code-le PrinterState.full = omega arith

printer_state_of-printer_state_code :
    (e : PrinterState) → printer_state_of (printer_state_code e) ≡ e
unfolding printer_state_of printer_state_code
printer_state_of-printer_state_code PrinterState.idle = refl
printer_state_of-printer_state_code PrinterState.capturing = refl
printer_state_of-printer_state_code PrinterState.sunk = refl
printer_state_of-printer_state_code PrinterState.full = refl

pub Codes-printer_state :
    (e : PrinterState)
    → Codes (Writer.u8 (printer_state_code e)) (Reader.enum_u8 printer_state_of 3) e 1
Codes-printer_state e =
    Codes-enum printer_state_code printer_state_of 3 e (printer_state_code-le e)
      (printer_state_of-printer_state_code e) (omega arith)

print_job_kind_code-le : (e : PrintJobKind) → print_job_kind_code e ≤ 3
unfolding print_job_kind_code
print_job_kind_code-le PrintJobKind.screen = omega arith
print_job_kind_code-le PrintJobKind.line = omega arith
print_job_kind_code-le PrintJobKind.controller = omega arith
print_job_kind_code-le PrintJobKind.autoprint = omega arith

print_job_kind_of-print_job_kind_code :
    (e : PrintJobKind) → print_job_kind_of (print_job_kind_code e) ≡ e
unfolding print_job_kind_of print_job_kind_code
print_job_kind_of-print_job_kind_code PrintJobKind.screen = refl
print_job_kind_of-print_job_kind_code PrintJobKind.line = refl
print_job_kind_of-print_job_kind_code PrintJobKind.controller = refl
print_job_kind_of-print_job_kind_code PrintJobKind.autoprint = refl

pub Codes-print_job_kind :
    (e : PrintJobKind)
    → Codes (Writer.u8 (print_job_kind_code e)) (Reader.enum_u8 print_job_kind_of 3) e 1
Codes-print_job_kind e =
    Codes-enum print_job_kind_code print_job_kind_of 3 e (print_job_kind_code-le e)
      (print_job_kind_of-print_job_kind_code e) (omega arith)

term_stats_state_code-le : (e : TermStatsState) → term_stats_state_code e ≤ 4
unfolding term_stats_state_code
term_stats_state_code-le TermStatsState.unsupported = omega arith
term_stats_state_code-le TermStatsState.available = omega arith
term_stats_state_code-le TermStatsState.partial = omega arith
term_stats_state_code-le TermStatsState.gone = omega arith
term_stats_state_code-le TermStatsState.failed = omega arith

term_stats_state_of-term_stats_state_code :
    (e : TermStatsState) → term_stats_state_of (term_stats_state_code e) ≡ e
unfolding term_stats_state_of term_stats_state_code
term_stats_state_of-term_stats_state_code TermStatsState.unsupported = refl
term_stats_state_of-term_stats_state_code TermStatsState.available = refl
term_stats_state_of-term_stats_state_code TermStatsState.partial = refl
term_stats_state_of-term_stats_state_code TermStatsState.gone = refl
term_stats_state_of-term_stats_state_code TermStatsState.failed = refl

pub Codes-term_stats_state :
    (e : TermStatsState)
    → Codes (Writer.u8 (term_stats_state_code e)) (Reader.enum_u8 term_stats_state_of 4) e 1
Codes-term_stats_state e =
    Codes-enum term_stats_state_code term_stats_state_of 4 e (term_stats_state_code-le e)
      (term_stats_state_of-term_stats_state_code e) (omega arith)

term_stats_scope_code-le : (e : TermStatsScope) → term_stats_scope_code e ≤ 1
unfolding term_stats_scope_code
term_stats_scope_code-le TermStatsScope.live_process_tree = omega arith
term_stats_scope_code-le TermStatsScope.owned_job_lifetime = omega arith

term_stats_scope_of-term_stats_scope_code :
    (e : TermStatsScope) → term_stats_scope_of (term_stats_scope_code e) ≡ e
unfolding term_stats_scope_of term_stats_scope_code
term_stats_scope_of-term_stats_scope_code TermStatsScope.live_process_tree = refl
term_stats_scope_of-term_stats_scope_code TermStatsScope.owned_job_lifetime = refl

pub Codes-term_stats_scope :
    (e : TermStatsScope)
    → Codes (Writer.u8 (term_stats_scope_code e)) (Reader.enum_u8 term_stats_scope_of 1) e 1
Codes-term_stats_scope e =
    Codes-enum term_stats_scope_code term_stats_scope_of 1 e (term_stats_scope_code-le e)
      (term_stats_scope_of-term_stats_scope_code e) (omega arith)

term_stats_memory_code-le : (e : TermStatsMemory) → term_stats_memory_code e ≤ 1
unfolding term_stats_memory_code
term_stats_memory_code-le TermStatsMemory.platform_cost = omega arith
term_stats_memory_code-le TermStatsMemory.private_resident = omega arith

term_stats_memory_of-term_stats_memory_code :
    (e : TermStatsMemory) → term_stats_memory_of (term_stats_memory_code e) ≡ e
unfolding term_stats_memory_of term_stats_memory_code
term_stats_memory_of-term_stats_memory_code TermStatsMemory.platform_cost = refl
term_stats_memory_of-term_stats_memory_code TermStatsMemory.private_resident = refl

pub Codes-term_stats_memory :
    (e : TermStatsMemory)
    → Codes (Writer.u8 (term_stats_memory_code e)) (Reader.enum_u8 term_stats_memory_of 1) e 1
Codes-term_stats_memory e =
    Codes-enum term_stats_memory_code term_stats_memory_of 1 e (term_stats_memory_code-le e)
      (term_stats_memory_of-term_stats_memory_code e) (omega arith)

grid_op_tag_code-le : (e : GridOpTag) → grid_op_tag_code e ≤ 6
unfolding grid_op_tag_code
grid_op_tag_code-le GridOpTag.scroll = omega arith
grid_op_tag_code-le GridOpTag.cells = omega arith
grid_op_tag_code-le GridOpTag.cursor = omega arith
grid_op_tag_code-le GridOpTag.modes = omega arith
grid_op_tag_code-le GridOpTag.title = omega arith
grid_op_tag_code-le GridOpTag.scrollback_push = omega arith
grid_op_tag_code-le GridOpTag.resize = omega arith

grid_op_tag_of-grid_op_tag_code : (e : GridOpTag) → grid_op_tag_of (grid_op_tag_code e) ≡ e
unfolding grid_op_tag_of grid_op_tag_code
grid_op_tag_of-grid_op_tag_code GridOpTag.scroll = refl
grid_op_tag_of-grid_op_tag_code GridOpTag.cells = refl
grid_op_tag_of-grid_op_tag_code GridOpTag.cursor = refl
grid_op_tag_of-grid_op_tag_code GridOpTag.modes = refl
grid_op_tag_of-grid_op_tag_code GridOpTag.title = refl
grid_op_tag_of-grid_op_tag_code GridOpTag.scrollback_push = refl
grid_op_tag_of-grid_op_tag_code GridOpTag.resize = refl

pub Codes-grid_op_tag :
    (e : GridOpTag) → Codes (Writer.u8 (grid_op_tag_code e)) (Reader.enum_u8 grid_op_tag_of 6) e 1
Codes-grid_op_tag e =
    Codes-enum grid_op_tag_code grid_op_tag_of 6 e (grid_op_tag_code-le e)
      (grid_op_tag_of-grid_op_tag_code e) (omega arith)
