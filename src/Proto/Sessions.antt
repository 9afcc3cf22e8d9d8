-- ===== src/Proto/Sessions.antt =====
-- The messages about sessions and readers (src/common/proto.hpp), as src/common/proto.cpp
-- writes and reads them.
pub mod RoundTrip
use ckmux.Prelude.{ℕ, List}
use ckmux.Prelude.Int.{ℤ}
use ckmux.Proto.Wire.{Put, ◌▸◌, Get, ◌>>=◌, pure}
use ckmux.Proto.Writer
use ckmux.Proto.Reader
use ckmux.Proto.Enums.{DetachReason, detach_reason_code, detach_reason_of}

pub record NewSession : Type 0 where
  pub name : List ℕ
  pub spawn_first : ℕ
  pub command : List ℕ

unfoldable pub write_new_session : NewSession → Put
write_new_session m = Writer.str m.name ▸ Writer.u8 m.spawn_first ▸ Writer.str m.command

unfoldable pub read_new_session : Get NewSession
read_new_session = do
  name ← Reader.str
  spawn_first ← Reader.u8
  command ← Reader.str
  pure (record { name = name; spawn_first = spawn_first; command = command })

pub record Attach : Type 0 where
  pub session : ℕ
  pub columns : ℕ
  pub rows : ℕ
  pub pixel_width : ℕ
  pub pixel_height : ℕ
  pub mode : ℕ
  pub host_sixel : ℕ

unfoldable pub write_attach : Attach → Put
write_attach m =
    Writer.u64 m.session
    ▸ Writer.u16 m.columns
    ▸ Writer.u16 m.rows
    ▸ Writer.u16 m.pixel_width
    ▸ Writer.u16 m.pixel_height
    ▸ Writer.u8 m.host_sixel
    ▸ Writer.u8 m.mode

unfoldable pub read_attach : Get Attach
read_attach = do
  session ← Reader.u64
  columns ← Reader.u16
  rows ← Reader.u16
  pixel_width ← Reader.u16
  pixel_height ← Reader.u16
  host_sixel ← Reader.u8
  mode ← Reader.u8
  pure (record {
    session = session;
    columns = columns;
    rows = rows;
    pixel_width = pixel_width;
    pixel_height = pixel_height;
    host_sixel = host_sixel;
    mode = mode;
  })

pub record ClientResize : Type 0 where
  pub columns : ℕ
  pub rows : ℕ
  pub pixel_width : ℕ
  pub pixel_height : ℕ

unfoldable pub write_client_resize : ClientResize → Put
write_client_resize m =
    Writer.u16 m.columns ▸ Writer.u16 m.rows ▸ Writer.u16 m.pixel_width ▸ Writer.u16 m.pixel_height

unfoldable pub read_client_resize : Get ClientResize
read_client_resize = do
  columns ← Reader.u16
  rows ← Reader.u16
  pixel_width ← Reader.u16
  pixel_height ← Reader.u16
  pure (record {
    columns = columns;
    rows = rows;
    pixel_width = pixel_width;
    pixel_height = pixel_height;
  })

pub record RenameSession : Type 0 where
  pub id : ℕ
  pub name : List ℕ

unfoldable pub write_rename_session : RenameSession → Put
write_rename_session m = Writer.u64 m.id ▸ Writer.str m.name

unfoldable pub read_rename_session : Get RenameSession
read_rename_session = do id ← Reader.u64; name ← Reader.str; pure (record { id = id; name = name })

pub record KillSession : Type 0 where
  pub session : ℕ
  pub force : ℕ
  pub grace_seconds : ℕ

unfoldable pub write_kill_session : KillSession → Put
write_kill_session m = Writer.u64 m.session ▸ Writer.u8 m.force ▸ Writer.u16 m.grace_seconds

unfoldable pub read_kill_session : Get KillSession
read_kill_session = do
  session ← Reader.u64
  force ← Reader.u8
  grace_seconds ← Reader.u16
  pure (record { session = session; force = force; grace_seconds = grace_seconds })

pub record SessionInfo : Type 0 where
  pub id : ℕ
  pub name : List ℕ
  pub terminals : ℕ
  pub attached : ℕ
  pub created : ℤ
  pub last_attached : ℤ

unfoldable pub write_session_info : SessionInfo → Put
write_session_info m =
    Writer.u64 m.id
    ▸ Writer.str m.name
    ▸ Writer.u16 m.terminals
    ▸ Writer.u8 m.attached
    ▸ Writer.i64 m.created
    ▸ Writer.i64 m.last_attached

unfoldable pub read_session_info : Get SessionInfo
read_session_info = do
  id ← Reader.u64
  name ← Reader.str
  terminals ← Reader.u16
  attached ← Reader.u8
  created ← Reader.i64
  last_attached ← Reader.i64
  pure (record {
    id = id;
    name = name;
    terminals = terminals;
    attached = attached;
    created = created;
    last_attached = last_attached;
  })

pub record Detached : Type 0 where
  pub reason : DetachReason
  pub text : List ℕ

unfoldable pub write_detached : Detached → Put
write_detached m = Writer.u8 (detach_reason_code m.reason) ▸ Writer.str m.text

unfoldable pub read_detached : Get Detached
read_detached = do
  reason ← Reader.enum_u8 detach_reason_of 3
  text ← Reader.str
  pure (record { reason = reason; text = text })

pub record SetDesktopSize : Type 0 where
  pub columns : ℕ
  pub rows : ℕ

unfoldable pub write_set_desktop_size : SetDesktopSize → Put
write_set_desktop_size m = Writer.u16 m.columns ▸ Writer.u16 m.rows

unfoldable pub read_set_desktop_size : Get SetDesktopSize
read_set_desktop_size = do
  columns ← Reader.u16
  rows ← Reader.u16
  pure (record { columns = columns; rows = rows })

pub record SetReaderMode : Type 0 where
  pub scope : ℕ
  pub mode : ℕ

unfoldable pub write_set_reader_mode : SetReaderMode → Put
write_set_reader_mode m = Writer.u8 m.scope ▸ Writer.u8 m.mode

unfoldable pub read_set_reader_mode : Get SetReaderMode
read_set_reader_mode = do
  scope ← Reader.u8
  mode ← Reader.u8
  pure (record { scope = scope; mode = mode })

pub record ReaderMode : Type 0 where
  pub mode : ℕ

unfoldable pub write_reader_mode : ReaderMode → Put
write_reader_mode m = Writer.u8 m.mode

unfoldable pub read_reader_mode : Get ReaderMode
read_reader_mode = do mode ← Reader.u8; pure (record { mode = mode })

unfoldable pub write_session_infos : List SessionInfo → Put
write_session_infos = Writer.counted write_session_info

unfoldable pub read_session_infos : Get (List SessionInfo)
read_session_infos = do entries ← Reader.count 29; Reader.repeat entries read_session_info
