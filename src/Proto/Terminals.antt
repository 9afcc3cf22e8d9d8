-- ===== src/Proto/Terminals.antt =====
-- The messages that act on one terminal (src/common/proto.hpp), as src/common/proto.cpp
-- writes and reads them.
pub mod RoundTrip
use ckmux.Prelude.{ℕ, List}
use ckmux.Proto.Wire.{Put, ◌▸◌, Get, ◌>>=◌, pure}
use ckmux.Proto.Writer
use ckmux.Proto.Reader
use ckmux.Proto.Limits.{max_string_bytes}
use ckmux.Proto.Shapes.{Rect, write_rect, read_rect}

pub record TerminalRef : Type 0 where
  pub term : ℕ

unfoldable pub write_terminal_ref : TerminalRef → Put
write_terminal_ref m = Writer.u64 m.term

unfoldable pub read_terminal_ref : Get TerminalRef
read_terminal_ref = do term ← Reader.u64; pure (record { term = term })

pub record NewTerminal : Type 0 where
  pub session : ℕ
  pub command : List ℕ
  pub rect : Rect
  pub host_sixel : ℕ

unfoldable pub write_new_terminal : NewTerminal → Put
write_new_terminal m =
    Writer.u64 m.session ▸ Writer.str m.command ▸ write_rect m.rect ▸ Writer.u8 m.host_sixel

unfoldable pub read_new_terminal : Get NewTerminal
read_new_terminal = do
  session ← Reader.u64
  command ← Reader.str
  rect ← read_rect
  host_sixel ← Reader.u8
  pure (record { session = session; command = command; rect = rect; host_sixel = host_sixel })

pub record MoveTerminal : Type 0 where
  pub term : ℕ
  pub destination_session : ℕ
  pub to_new_session : ℕ

unfoldable pub write_move_terminal : MoveTerminal → Put
write_move_terminal m =
    Writer.u64 m.term ▸ Writer.u64 m.destination_session ▸ Writer.u8 m.to_new_session

unfoldable pub read_move_terminal : Get MoveTerminal
read_move_terminal = do
  term ← Reader.u64
  destination_session ← Reader.u64
  to_new_session ← Reader.u8
  pure (record {
    term = term;
    destination_session = destination_session;
    to_new_session = to_new_session;
  })

pub record CloseTerminal : Type 0 where
  pub term : ℕ
  pub force : ℕ
  pub grace_seconds : ℕ

unfoldable pub write_close_terminal : CloseTerminal → Put
write_close_terminal m = Writer.u64 m.term ▸ Writer.u8 m.force ▸ Writer.u16 m.grace_seconds

unfoldable pub read_close_terminal : Get CloseTerminal
read_close_terminal = do
  term ← Reader.u64
  force ← Reader.u8
  grace_seconds ← Reader.u16
  pure (record { term = term; force = force; grace_seconds = grace_seconds })

pub record MoveResize : Type 0 where
  pub term : ℕ
  pub rect : Rect

unfoldable pub write_move_resize : MoveResize → Put
write_move_resize m = Writer.u64 m.term ▸ write_rect m.rect

unfoldable pub read_move_resize : Get MoveResize
read_move_resize = do
  term ← Reader.u64
  rect ← read_rect
  pure (record { term = term; rect = rect })

pub record ZoomTerm : Type 0 where
  pub term : ℕ
  pub on : ℕ

unfoldable pub write_zoom_term : ZoomTerm → Put
write_zoom_term m = Writer.u64 m.term ▸ Writer.u8 m.on

unfoldable pub read_zoom_term : Get ZoomTerm
read_zoom_term = do term ← Reader.u64; on ← Reader.u8; pure (record { term = term; on = on })

pub record RenameTerminal : Type 0 where
  pub id : ℕ
  pub name : List ℕ

unfoldable pub write_rename_terminal : RenameTerminal → Put
write_rename_terminal m = Writer.u64 m.id ▸ Writer.str m.name

unfoldable pub read_rename_terminal : Get RenameTerminal
read_rename_terminal = do id ← Reader.u64; name ← Reader.str; pure (record { id = id; name = name })

pub record Input : Type 0 where
  pub term : ℕ
  pub bytes : List ℕ

unfoldable pub write_input : Input → Put
write_input m = Writer.u64 m.term ▸ Writer.blob m.bytes

unfoldable pub read_input : Get Input
read_input = do
  term ← Reader.u64
  bytes ← Reader.blob max_string_bytes
  pure (record { term = term; bytes = bytes })

pub record PasteChunk : Type 0 where
  pub term : ℕ
  pub seq : ℕ
  pub final_chunk : ℕ
  pub bytes : List ℕ

unfoldable pub write_paste_chunk : PasteChunk → Put
write_paste_chunk m =
    Writer.u64 m.term ▸ Writer.u32 m.seq ▸ Writer.u8 m.final_chunk ▸ Writer.blob m.bytes

unfoldable pub read_paste_chunk : Get PasteChunk
read_paste_chunk = do
  term ← Reader.u64
  seq ← Reader.u32
  final_chunk ← Reader.u8
  bytes ← Reader.blob max_string_bytes
  pure (record { term = term; seq = seq; final_chunk = final_chunk; bytes = bytes })

pub record PasteAck : Type 0 where
  pub seq : ℕ

unfoldable pub write_paste_ack : PasteAck → Put
write_paste_ack m = Writer.u32 m.seq

unfoldable pub read_paste_ack : Get PasteAck
read_paste_ack = do seq ← Reader.u32; pure (record { seq = seq })

pub record WatchStats : Type 0 where
  pub on : ℕ

unfoldable pub write_watch_stats : WatchStats → Put
write_watch_stats m = Writer.u8 m.on

unfoldable pub read_watch_stats : Get WatchStats
read_watch_stats = do on ← Reader.u8; pure (record { on = on })
