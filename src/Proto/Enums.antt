-- ===== src/Proto/Enums.antt =====
-- The enums of src/common/proto.hpp and src/common/proto.cpp that go over the wire. `x_code` is the
-- value of an enumerator, and `x_of` the `static_cast` of a value that `enum_of` has checked.
pub mod RoundTrip
use ckmux.Prelude.{ℕ, ◌==◌, if◌then◌else◌}

pub data ClientKind : Type 0 where
  ui cli : ClientKind

unfoldable pub client_kind_code : ClientKind → ℕ
client_kind_code ClientKind.ui = 0
client_kind_code ClientKind.cli = 1

unfoldable pub client_kind_of : ℕ → ClientKind
client_kind_of value = if value == 0 then ClientKind.ui else ClientKind.cli

pub data DetachReason : Type 0 where
  user takeover session_killed server_shutdown : DetachReason

unfoldable pub detach_reason_code : DetachReason → ℕ
detach_reason_code DetachReason.user = 0
detach_reason_code DetachReason.takeover = 1
detach_reason_code DetachReason.session_killed = 2
detach_reason_code DetachReason.server_shutdown = 3

unfoldable pub detach_reason_of : ℕ → DetachReason
detach_reason_of value =
    if value == 0
    then DetachReason.user
    else if value == 1
    then DetachReason.takeover
    else if value == 2
    then DetachReason.session_killed
    else DetachReason.server_shutdown

pub data DiagnosticKind : Type 0 where
  limit_exceeded unsupported_sequence malformed_sequence child_exited : DiagnosticKind

unfoldable pub diagnostic_kind_code : DiagnosticKind → ℕ
diagnostic_kind_code DiagnosticKind.limit_exceeded = 0
diagnostic_kind_code DiagnosticKind.unsupported_sequence = 1
diagnostic_kind_code DiagnosticKind.malformed_sequence = 2
diagnostic_kind_code DiagnosticKind.child_exited = 3

unfoldable pub diagnostic_kind_of : ℕ → DiagnosticKind
diagnostic_kind_of value =
    if value == 0
    then DiagnosticKind.limit_exceeded
    else if value == 1
    then DiagnosticKind.unsupported_sequence
    else if value == 2
    then DiagnosticKind.malformed_sequence
    else DiagnosticKind.child_exited

pub data PrinterScope : Type 0 where
  terminal session global : PrinterScope

unfoldable pub printer_scope_code : PrinterScope → ℕ
printer_scope_code PrinterScope.terminal = 0
printer_scope_code PrinterScope.session = 1
printer_scope_code PrinterScope.global = 2

unfoldable pub printer_scope_of : ℕ → PrinterScope
printer_scope_of value =
    if value == 0
    then PrinterScope.terminal
    else if value == 1
    then PrinterScope.session
    else PrinterScope.global

pub data PrinterMode : Type 0 where
  ask capture off : PrinterMode

unfoldable pub printer_mode_code : PrinterMode → ℕ
printer_mode_code PrinterMode.ask = 0
printer_mode_code PrinterMode.capture = 1
printer_mode_code PrinterMode.off = 2

unfoldable pub printer_mode_of : ℕ → PrinterMode
printer_mode_of value =
    if value == 0
    then PrinterMode.ask
    else if value == 1
    then PrinterMode.capture
    else PrinterMode.off

pub data PrinterState : Type 0 where
  idle capturing sunk full : PrinterState

unfoldable pub printer_state_code : PrinterState → ℕ
printer_state_code PrinterState.idle = 0
printer_state_code PrinterState.capturing = 1
printer_state_code PrinterState.sunk = 2
printer_state_code PrinterState.full = 3

unfoldable pub printer_state_of : ℕ → PrinterState
printer_state_of value =
    if value == 0
    then PrinterState.idle
    else if value == 1
    then PrinterState.capturing
    else if value == 2
    then PrinterState.sunk
    else PrinterState.full

pub data PrintJobKind : Type 0 where
  screen line controller autoprint : PrintJobKind

unfoldable pub print_job_kind_code : PrintJobKind → ℕ
print_job_kind_code PrintJobKind.screen = 0
print_job_kind_code PrintJobKind.line = 1
print_job_kind_code PrintJobKind.controller = 2
print_job_kind_code PrintJobKind.autoprint = 3

unfoldable pub print_job_kind_of : ℕ → PrintJobKind
print_job_kind_of value =
    if value == 0
    then PrintJobKind.screen
    else if value == 1
    then PrintJobKind.line
    else if value == 2
    then PrintJobKind.controller
    else PrintJobKind.autoprint

pub data TermStatsState : Type 0 where
  unsupported available partial gone failed : TermStatsState

unfoldable pub term_stats_state_code : TermStatsState → ℕ
term_stats_state_code TermStatsState.unsupported = 0
term_stats_state_code TermStatsState.available = 1
term_stats_state_code TermStatsState.partial = 2
term_stats_state_code TermStatsState.gone = 3
term_stats_state_code TermStatsState.failed = 4

unfoldable pub term_stats_state_of : ℕ → TermStatsState
term_stats_state_of value =
    if value == 0
    then TermStatsState.unsupported
    else if value == 1
    then TermStatsState.available
    else if value == 2
    then TermStatsState.partial
    else if value == 3
    then TermStatsState.gone
    else TermStatsState.failed

pub data TermStatsScope : Type 0 where
  live_process_tree owned_job_lifetime : TermStatsScope

unfoldable pub term_stats_scope_code : TermStatsScope → ℕ
term_stats_scope_code TermStatsScope.live_process_tree = 0
term_stats_scope_code TermStatsScope.owned_job_lifetime = 1

unfoldable pub term_stats_scope_of : ℕ → TermStatsScope
term_stats_scope_of value =
    if value == 0 then TermStatsScope.live_process_tree else TermStatsScope.owned_job_lifetime

pub data TermStatsMemory : Type 0 where
  platform_cost private_resident : TermStatsMemory

unfoldable pub term_stats_memory_code : TermStatsMemory → ℕ
term_stats_memory_code TermStatsMemory.platform_cost = 0
term_stats_memory_code TermStatsMemory.private_resident = 1

unfoldable pub term_stats_memory_of : ℕ → TermStatsMemory
term_stats_memory_of value =
    if value == 0 then TermStatsMemory.platform_cost else TermStatsMemory.private_resident

pub data GridOpTag : Type 0 where
  scroll cells cursor modes title scrollback_push resize : GridOpTag

unfoldable pub grid_op_tag_code : GridOpTag → ℕ
grid_op_tag_code GridOpTag.scroll = 0
grid_op_tag_code GridOpTag.cells = 1
grid_op_tag_code GridOpTag.cursor = 2
grid_op_tag_code GridOpTag.modes = 3
grid_op_tag_code GridOpTag.title = 4
grid_op_tag_code GridOpTag.scrollback_push = 5
grid_op_tag_code GridOpTag.resize = 6

unfoldable pub grid_op_tag_of : ℕ → GridOpTag
grid_op_tag_of value =
    if value == 0
    then GridOpTag.scroll
    else if value == 1
    then GridOpTag.cells
    else if value == 2
    then GridOpTag.cursor
    else if value == 3
    then GridOpTag.modes
    else if value == 4
    then GridOpTag.title
    else if value == 5
    then GridOpTag.scrollback_push
    else GridOpTag.resize
