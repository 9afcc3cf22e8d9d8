-- ===== src/Proto/Events/RoundTrip.antt =====
-- The messages that tell what happened to a terminal are read as they were written.
use ckmux.Prelude.{◌+◌, ◌^◌, ◌≤◌, ◌<◌, length, arith}
use ckmux.Prelude.Int.{magnitude}
use ckmux.Proto.Limits.{max_string_bytes}
use ckmux.Proto.Codes.{Codes, Codes-seq, Codes-last}
use ckmux.Proto.Codes.Numbers.{
  Codes-u8, Codes-u16, Codes-u32, Codes-u64, Codes-i32, Codes-str, Codes-blob,
}
use ckmux.Proto.Enums.RoundTrip.{
  Codes-diagnostic_kind, Codes-term_stats_state, Codes-term_stats_scope, Codes-term_stats_memory,
}
use ckmux.Proto.Shapes.RoundTrip.{FitsRect, Codes-rect}
use ckmux.Proto.Events.{
  TermOpened, write_term_opened, read_term_opened, TermClosed, write_term_closed, read_term_closed,
  TermMeta, write_term_meta, read_term_meta, ClipboardSet, write_clipboard_set, read_clipboard_set,
  TermDiagnostic, write_term_diagnostic, read_term_diagnostic, TermStats, write_term_stats,
  read_term_stats,
}

pub record FitsTermOpened (m : TermOpened) : Type 0 where
  pub term : m.term < 2 ^ 64
  pub session : m.session < 2 ^ 64
  pub index : m.index < 2 ^ 16
  pub rect : FitsRect m.rect
  pub title : length m.title < 2 ^ 16
  pub columns : m.columns < 2 ^ 16
  pub rows : m.rows < 2 ^ 16

pub Codes-term_opened :
    (m : TermOpened)
    → FitsTermOpened m
    → Codes
        (write_term_opened m)
        read_term_opened
        m
        (8 + (8 + (2 + (8 + ((2 + length m.title) + (2 + (2)))))))
unfolding write_term_opened read_term_opened
Codes-term_opened m h =
    (Codes-seq _ (Codes-u64 m.term h.term) (
      Codes-seq _ (Codes-u64 m.session h.session) (
        Codes-seq _ (Codes-u16 m.index h.index) (
          Codes-seq _ (Codes-rect m.rect h.rect) (
            Codes-seq _ (Codes-str m.title h.title) (
              Codes-seq _ (Codes-u16 m.columns h.columns)
                (Codes-last _ (Codes-u16 m.rows h.rows))))))))

pub record FitsTermClosed (m : TermClosed) : Type 0 where
  pub term : m.term < 2 ^ 64
  pub exited : m.exited < 256
  pub exit_status : magnitude m.exit_status < 2 ^ 31
  pub hold : m.hold < 256

pub Codes-term_closed :
    (m : TermClosed)
    → FitsTermClosed m
    → Codes (write_term_closed m) read_term_closed m (8 + (1 + (4 + (1))))
unfolding write_term_closed read_term_closed
Codes-term_closed m h =
    (Codes-seq _ (Codes-u64 m.term h.term) (
      Codes-seq _ (Codes-u8 m.exited h.exited) (
        Codes-seq _ (Codes-i32 m.exit_status h.exit_status)
          (Codes-last _ (Codes-u8 m.hold h.hold)))))

pub record FitsTermMeta (m : TermMeta) : Type 0 where
  pub term : m.term < 2 ^ 64
  pub index : m.index < 2 ^ 16
  pub title : length m.title < 2 ^ 16
  pub custom_title : length m.custom_title < 2 ^ 16
  pub flags : m.flags < 256
  pub bell_serial : m.bell_serial < 2 ^ 32
  pub activity_serial : m.activity_serial < 2 ^ 32

pub Codes-term_meta :
    (m : TermMeta)
    → FitsTermMeta m
    → Codes
        (write_term_meta m)
        read_term_meta
        m
        (8 + (2 + ((2 + length m.title) + ((2 + length m.custom_title) + (1 + (4 + (4)))))))
unfolding write_term_meta read_term_meta
Codes-term_meta m h =
    (Codes-seq _ (Codes-u64 m.term h.term) (
      Codes-seq _ (Codes-u16 m.index h.index) (
        Codes-seq _ (Codes-str m.title h.title) (
          Codes-seq _ (Codes-str m.custom_title h.custom_title) (
            Codes-seq _ (Codes-u8 m.flags h.flags) (
              Codes-seq _ (Codes-u32 m.bell_serial h.bell_serial)
                (Codes-last _ (Codes-u32 m.activity_serial h.activity_serial))))))))

pub record FitsClipboardSet (m : ClipboardSet) : Type 0 where
  pub term : m.term < 2 ^ 64
  pub text : length m.text ≤ max_string_bytes

pub Codes-clipboard_set :
    (m : ClipboardSet)
    → FitsClipboardSet m
    → Codes (write_clipboard_set m) read_clipboard_set m (8 + ((4 + length m.text)))
unfolding write_clipboard_set read_clipboard_set
Codes-clipboard_set m h =
    (Codes-seq _ (Codes-u64 m.term h.term)
      (Codes-last _ (Codes-blob max_string_bytes m.text h.text (omega arith))))

pub record FitsTermDiagnostic (m : TermDiagnostic) : Type 0 where
  pub term : m.term < 2 ^ 64
  pub text : length m.text < 2 ^ 16

pub Codes-term_diagnostic :
    (m : TermDiagnostic)
    → FitsTermDiagnostic m
    → Codes (write_term_diagnostic m) read_term_diagnostic m (8 + (1 + ((2 + length m.text))))
unfolding write_term_diagnostic read_term_diagnostic
Codes-term_diagnostic m h =
    (Codes-seq _ (Codes-u64 m.term h.term)
      (Codes-seq _ (Codes-diagnostic_kind m.kind) (Codes-last _ (Codes-str m.text h.text))))

pub record FitsTermStats (m : TermStats) : Type 0 where
  pub term : m.term < 2 ^ 64
  pub cpu_permille : m.cpu_permille < 2 ^ 32
  pub rss_bytes : m.rss_bytes < 2 ^ 64
  pub real_bytes : m.real_bytes < 2 ^ 64
  pub flags : m.flags < 256
  pub live_processes : m.live_processes < 2 ^ 32
  pub unreadable_processes : m.unreadable_processes < 2 ^ 32
  pub system_error : m.system_error < 2 ^ 32

pub Codes-term_stats :
    (m : TermStats)
    → FitsTermStats m
    → Codes
        (write_term_stats m)
        read_term_stats
        m
        (8 + (4 + (8 + (8 + (1 + (1 + (1 + (1 + (4 + (4 + (4)))))))))))
unfolding write_term_stats read_term_stats
Codes-term_stats m h =
    (Codes-seq _ (Codes-u64 m.term h.term) (
      Codes-seq _ (Codes-u32 m.cpu_permille h.cpu_permille) (
        Codes-seq _ (Codes-u64 m.rss_bytes h.rss_bytes) (
          Codes-seq _ (Codes-u64 m.real_bytes h.real_bytes) (
            Codes-seq _ (Codes-u8 m.flags h.flags) (
              Codes-seq _ (Codes-term_stats_state m.state) (
                Codes-seq _ (Codes-term_stats_scope m.cpu_scope) (
                  Codes-seq _ (Codes-term_stats_memory m.real_kind) (
                    Codes-seq _ (Codes-u32 m.live_processes h.live_processes) (
                      Codes-seq _ (Codes-u32 m.unreadable_processes h.unreadable_processes)
                        (Codes-last _ (Codes-u32 m.system_error h.system_error))))))))))))
