-- ===== src/Proto/Terminals/RoundTrip.antt =====
-- The messages that act on one terminal are read as they were written.
use ckmux.Prelude.{◌+◌, ◌^◌, ◌≤◌, ◌<◌, length, arith}
use ckmux.Proto.Limits.{max_string_bytes}
use ckmux.Proto.Codes.{Codes, Codes-seq, Codes-last}
use ckmux.Proto.Codes.Numbers.{Codes-u8, Codes-u16, Codes-u32, Codes-u64, Codes-str, Codes-blob}
use ckmux.Proto.Shapes.RoundTrip.{FitsRect, Codes-rect}
use ckmux.Proto.Terminals.{
  TerminalRef, write_terminal_ref, read_terminal_ref, NewTerminal, write_new_terminal,
  read_new_terminal, MoveTerminal, write_move_terminal, read_move_terminal, CloseTerminal,
  write_close_terminal, read_close_terminal, MoveResize, write_move_resize, read_move_resize,
  ZoomTerm, write_zoom_term, read_zoom_term, RenameTerminal, write_rename_terminal,
  read_rename_terminal, Input, write_input, read_input, PasteChunk, write_paste_chunk,
  read_paste_chunk, PasteAck, write_paste_ack, read_paste_ack, WatchStats, write_watch_stats,
  read_watch_stats,
}

pub record FitsTerminalRef (m : TerminalRef) : Type 0 where
  pub term : m.term < 2 ^ 64

pub Codes-terminal_ref :
    (m : TerminalRef) → FitsTerminalRef m → Codes (write_terminal_ref m) read_terminal_ref m (8)
unfolding write_terminal_ref read_terminal_ref
Codes-terminal_ref m h = (Codes-last _ (Codes-u64 m.term h.term))

pub record FitsNewTerminal (m : NewTerminal) : Type 0 where
  pub session : m.session < 2 ^ 64
  pub command : length m.command < 2 ^ 16
  pub rect : FitsRect m.rect
  pub host_sixel : m.host_sixel < 256

pub Codes-new_terminal :
    (m : NewTerminal)
    → FitsNewTerminal m
    → Codes (write_new_terminal m) read_new_terminal m (8 + ((2 + length m.command) + (8 + (1))))
unfolding write_new_terminal read_new_terminal
Codes-new_terminal m h =
    (Codes-seq _ (Codes-u64 m.session h.session) (
      Codes-seq _ (Codes-str m.command h.command) (
        Codes-seq _ (Codes-rect m.rect h.rect)
          (Codes-last _ (Codes-u8 m.host_sixel h.host_sixel)))))

pub record FitsMoveTerminal (m : MoveTerminal) : Type 0 where
  pub term : m.term < 2 ^ 64
  pub destination_session : m.destination_session < 2 ^ 64
  pub to_new_session : m.to_new_session < 256

pub Codes-move_terminal :
    (m : MoveTerminal)
    → FitsMoveTerminal m
    → Codes (write_move_terminal m) read_move_terminal m (8 + (8 + (1)))
unfolding write_move_terminal read_move_terminal
Codes-move_terminal m h =
    (Codes-seq _ (Codes-u64 m.term h.term) (
      Codes-seq _ (Codes-u64 m.destination_session h.destination_session)
        (Codes-last _ (Codes-u8 m.to_new_session h.to_new_session))))

pub record FitsCloseTerminal (m : CloseTerminal) : Type 0 where
  pub term : m.term < 2 ^ 64
  pub force : m.force < 256
  pub grace_seconds : m.grace_seconds < 2 ^ 16

pub Codes-close_terminal :
    (m : CloseTerminal)
    → FitsCloseTerminal m
    → Codes (write_close_terminal m) read_close_terminal m (8 + (1 + (2)))
unfolding write_close_terminal read_close_terminal
Codes-close_terminal m h =
    (Codes-seq _ (Codes-u64 m.term h.term) (
      Codes-seq _ (Codes-u8 m.force h.force)
        (Codes-last _ (Codes-u16 m.grace_seconds h.grace_seconds))))

pub record FitsMoveResize (m : MoveResize) : Type 0 where
  pub term : m.term < 2 ^ 64
  pub rect : FitsRect m.rect

pub Codes-move_resize :
    (m : MoveResize) → FitsMoveResize m → Codes (write_move_resize m) read_move_resize m (8 + (8))
unfolding write_move_resize read_move_resize
Codes-move_resize m h =
    (Codes-seq _ (Codes-u64 m.term h.term) (Codes-last _ (Codes-rect m.rect h.rect)))

pub record FitsZoomTerm (m : ZoomTerm) : Type 0 where
  pub term : m.term < 2 ^ 64
  pub on : m.on < 256

pub Codes-zoom_term :
    (m : ZoomTerm) → FitsZoomTerm m → Codes (write_zoom_term m) read_zoom_term m (8 + (1))
unfolding write_zoom_term read_zoom_term
Codes-zoom_term m h = (Codes-seq _ (Codes-u64 m.term h.term) (Codes-last _ (Codes-u8 m.on h.on)))

pub record FitsRenameTerminal (m : RenameTerminal) : Type 0 where
  pub id : m.id < 2 ^ 64
  pub name : length m.name < 2 ^ 16

pub Codes-rename_terminal :
    (m : RenameTerminal)
    → FitsRenameTerminal m
    → Codes (write_rename_terminal m) read_rename_terminal m (8 + ((2 + length m.name)))
unfolding write_rename_terminal read_rename_terminal
Codes-rename_terminal m h =
    (Codes-seq _ (Codes-u64 m.id h.id) (Codes-last _ (Codes-str m.name h.name)))

pub record FitsInput (m : Input) : Type 0 where
  pub term : m.term < 2 ^ 64
  pub bytes : length m.bytes ≤ max_string_bytes

pub Codes-input :
    (m : Input) → FitsInput m → Codes (write_input m) read_input m (8 + ((4 + length m.bytes)))
unfolding write_input read_input
Codes-input m h =
    (Codes-seq _ (Codes-u64 m.term h.term)
      (Codes-last _ (Codes-blob max_string_bytes m.bytes h.bytes (omega arith))))

pub record FitsPasteChunk (m : PasteChunk) : Type 0 where
  pub term : m.term < 2 ^ 64
  pub seq : m.seq < 2 ^ 32
  pub final_chunk : m.final_chunk < 256
  pub bytes : length m.bytes ≤ max_string_bytes

pub Codes-paste_chunk :
    (m : PasteChunk)
    → FitsPasteChunk m
    → Codes (write_paste_chunk m) read_paste_chunk m (8 + (4 + (1 + ((4 + length m.bytes)))))
unfolding write_paste_chunk read_paste_chunk
Codes-paste_chunk m h =
    (Codes-seq _ (Codes-u64 m.term h.term) (
      Codes-seq _ (Codes-u32 m.seq h.seq) (
        Codes-seq _ (Codes-u8 m.final_chunk h.final_chunk)
          (Codes-last _ (Codes-blob max_string_bytes m.bytes h.bytes (omega arith))))))

pub record FitsPasteAck (m : PasteAck) : Type 0 where
  pub seq : m.seq < 2 ^ 32

pub Codes-paste_ack :
    (m : PasteAck) → FitsPasteAck m → Codes (write_paste_ack m) read_paste_ack m (4)
unfolding write_paste_ack read_paste_ack
Codes-paste_ack m h = (Codes-last _ (Codes-u32 m.seq h.seq))

pub record FitsWatchStats (m : WatchStats) : Type 0 where
  pub on : m.on < 256

pub Codes-watch_stats :
    (m : WatchStats) → FitsWatchStats m → Codes (write_watch_stats m) read_watch_stats m (1)
unfolding write_watch_stats read_watch_stats
Codes-watch_stats m h = (Codes-last _ (Codes-u8 m.on h.on))
