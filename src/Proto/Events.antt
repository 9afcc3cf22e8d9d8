-- ===== src/Proto/Events.antt =====
-- The messages that tell what happened to a terminal (src/common/proto.hpp), as src/common/proto.cpp
-- writes and reads them.
pub mod RoundTrip
pub mod Oversize
use ckmux.Prelude.{ℕ, List}
use ckmux.Prelude.Int.{ℤ}
use ckmux.Proto.Wire.{Put, ◌▸◌, Get, ◌>>=◌, pure}
use ckmux.Proto.Writer
use ckmux.Proto.Reader
use ckmux.Proto.Limits.{max_string_bytes}
use ckmux.Proto.Enums.{
  DiagnosticKind, diagnostic_kind_code, diagnostic_kind_of, TermStatsState, term_stats_state_code,
  term_stats_state_of, TermStatsScope, term_stats_scope_code, term_stats_scope_of, TermStatsMemory,
  term_stats_memory_code, term_stats_memory_of,
}
use ckmux.Proto.Shapes.{Rect, write_rect, read_rect}

pub record TermOpened : Type 0 where
  pub term : ℕ
  pub session : ℕ
  pub index : ℕ
  pub rect : Rect
  pub title : List ℕ
  pub columns : ℕ
  pub rows : ℕ

unfoldable pub write_term_opened : TermOpened → Put
write_term_opened m =
    Writer.u64 m.term
    ▸ Writer.u64 m.session
    ▸ Writer.u16 m.index
    ▸ write_rect m.rect
    ▸ Writer.str m.title
    ▸ Writer.u16 m.columns
    ▸ Writer.u16 m.rows

unfoldable pub read_term_opened : Get TermOpened
read_term_opened = do
  term ← Reader.u64
  session ← Reader.u64
  index ← Reader.u16
  rect ← read_rect
  title ← Reader.str
  columns ← Reader.u16
  rows ← Reader.u16
  pure (record {
    term = term;
    session = session;
    index = index;
    rect = rect;
    title = title;
    columns = columns;
    rows = rows;
  })

pub record TermClosed : Type 0 where
  pub term : ℕ
  pub exited : ℕ
  pub exit_status : ℤ
  pub hold : ℕ

unfoldable pub write_term_closed : TermClosed → Put
write_term_closed m =
    Writer.u64 m.term ▸ Writer.u8 m.exited ▸ Writer.i32 m.exit_status ▸ Writer.u8 m.hold

unfoldable pub read_term_closed : Get TermClosed
read_term_closed = do
  term ← Reader.u64
  exited ← Reader.u8
  exit_status ← Reader.i32
  hold ← Reader.u8
  pure (record { term = term; exited = exited; exit_status = exit_status; hold = hold })

pub record TermMeta : Type 0 where
  pub term : ℕ
  pub index : ℕ
  pub title : List ℕ
  pub custom_title : List ℕ
  pub flags : ℕ
  pub bell_serial : ℕ
  pub activity_serial : ℕ

unfoldable pub write_term_meta : TermMeta → Put
write_term_meta m =
    Writer.u64 m.term
    ▸ Writer.u16 m.index
    ▸ Writer.str m.title
    ▸ Writer.str m.custom_title
    ▸ Writer.u8 m.flags
    ▸ Writer.u32 m.bell_serial
    ▸ Writer.u32 m.activity_serial

unfoldable pub read_term_meta : Get TermMeta
read_term_meta = do
  term ← Reader.u64
  index ← Reader.u16
  title ← Reader.str
  custom_title ← Reader.str
  flags ← Reader.u8
  bell_serial ← Reader.u32
  activity_serial ← Reader.u32
  pure (record {
    term = term;
    index = index;
    title = title;
    custom_title = custom_title;
    flags = flags;
    bell_serial = bell_serial;
    activity_serial = activity_serial;
  })

pub record ClipboardSet : Type 0 where
  pub term : ℕ
  pub text : List ℕ

unfoldable pub write_clipboard_set : ClipboardSet → Put
write_clipboard_set m = Writer.u64 m.term ▸ Writer.blob m.text

unfoldable pub read_clipboard_set : Get ClipboardSet
read_clipboard_set = do
  term ← Reader.u64
  text ← Reader.blob max_string_bytes
  pure (record { term = term; text = text })

pub record TermDiagnostic : Type 0 where
  pub term : ℕ
  pub kind : DiagnosticKind
  pub text : List ℕ

unfoldable pub write_term_diagnostic : TermDiagnostic → Put
write_term_diagnostic m =
    Writer.u64 m.term ▸ Writer.u8 (diagnostic_kind_code m.kind) ▸ Writer.str m.text

unfoldable pub read_term_diagnostic : Get TermDiagnostic
read_term_diagnostic = do
  term ← Reader.u64
  kind ← Reader.enum_u8 diagnostic_kind_of 3
  text ← Reader.str
  pure (record { term = term; kind = kind; text = text })

pub record TermStats : Type 0 where
  pub term : ℕ
  pub cpu_permille : ℕ
  pub rss_bytes : ℕ
  pub real_bytes : ℕ
  pub flags : ℕ
  pub state : TermStatsState
  pub cpu_scope : TermStatsScope
  pub real_kind : TermStatsMemory
  pub live_processes : ℕ
  pub unreadable_processes : ℕ
  pub system_error : ℕ

unfoldable pub write_term_stats : TermStats → Put
write_term_stats m =
    Writer.u64 m.term
    ▸ Writer.u32 m.cpu_permille
    ▸ Writer.u64 m.rss_bytes
    ▸ Writer.u64 m.real_bytes
    ▸ Writer.u8 m.flags
    ▸ Writer.u8 (term_stats_state_code m.state)
    ▸ Writer.u8 (term_stats_scope_code m.cpu_scope)
    ▸ Writer.u8 (term_stats_memory_code m.real_kind)
    ▸ Writer.u32 m.live_processes
    ▸ Writer.u32 m.unreadable_processes
    ▸ Writer.u32 m.system_error

unfoldable pub read_term_stats : Get TermStats
read_term_stats = do
  term ← Reader.u64
  cpu_permille ← Reader.u32
  rss_bytes ← Reader.u64
  real_bytes ← Reader.u64
  flags ← Reader.u8
  state ← Reader.enum_u8 term_stats_state_of 4
  cpu_scope ← Reader.enum_u8 term_stats_scope_of 1
  real_kind ← Reader.enum_u8 term_stats_memory_of 1
  live_processes ← Reader.u32
  unreadable_processes ← Reader.u32
  system_error ← Reader.u32
  pure (record {
    term = term;
    cpu_permille = cpu_permille;
    rss_bytes = rss_bytes;
    real_bytes = real_bytes;
    flags = flags;
    state = state;
    cpu_scope = cpu_scope;
    real_kind = real_kind;
    live_processes = live_processes;
    unreadable_processes = unreadable_processes;
    system_error = system_error;
  })
