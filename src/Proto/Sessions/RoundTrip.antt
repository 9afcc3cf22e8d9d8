-- ===== src/Proto/Sessions/RoundTrip.antt =====
-- The messages about sessions and readers are read as they were written.
use ckmux.Prelude.{◌+◌, ◌^◌, ◌<◌, List, length, arith, All, All-map, All-all}
use ckmux.Prelude.Int.{magnitude}
use ckmux.Proto.Codes.{Codes, Codes-seq, Codes-last}
use ckmux.Proto.Codes.Numbers.{Codes-u8, Codes-u16, Codes-u64, Codes-i64, Codes-str}
use ckmux.Proto.Codes.Entries.{Codes-each, Codes-count, total}
use ckmux.Proto.Enums.RoundTrip.{Codes-detach_reason}
use ckmux.Proto.Sessions.{
  NewSession, write_new_session, read_new_session, Attach, write_attach, read_attach, ClientResize,
  write_client_resize, read_client_resize, RenameSession, write_rename_session, read_rename_session,
  KillSession, write_kill_session, read_kill_session, SessionInfo, write_session_info,
  read_session_info, Detached, write_detached, read_detached, SetDesktopSize,
  write_set_desktop_size, read_set_desktop_size, SetReaderMode, write_set_reader_mode,
  read_set_reader_mode, ReaderMode, write_reader_mode, read_reader_mode,
}
use ckmux.Proto.Sessions.{write_session_infos, read_session_infos}

pub record FitsNewSession (m : NewSession) : Type 0 where
  pub name : length m.name < 2 ^ 16
  pub spawn_first : m.spawn_first < 256
  pub command : length m.command < 2 ^ 16

pub Codes-new_session :
    (m : NewSession)
    → FitsNewSession m
    → Codes
        (write_new_session m)
        read_new_session
        m
        ((2 + length m.name) + (1 + ((2 + length m.command))))
unfolding write_new_session read_new_session
Codes-new_session m h =
    (Codes-seq _ (Codes-str m.name h.name) (
      Codes-seq _ (Codes-u8 m.spawn_first h.spawn_first)
        (Codes-last _ (Codes-str m.command h.command))))

pub record FitsAttach (m : Attach) : Type 0 where
  pub session : m.session < 2 ^ 64
  pub columns : m.columns < 2 ^ 16
  pub rows : m.rows < 2 ^ 16
  pub pixel_width : m.pixel_width < 2 ^ 16
  pub pixel_height : m.pixel_height < 2 ^ 16
  pub host_sixel : m.host_sixel < 256
  pub mode : m.mode < 256

pub Codes-attach :
    (m : Attach)
    → FitsAttach m
    → Codes (write_attach m) read_attach m (8 + (2 + (2 + (2 + (2 + (1 + (1)))))))
unfolding write_attach read_attach
Codes-attach m h =
    (Codes-seq _ (Codes-u64 m.session h.session) (
      Codes-seq _ (Codes-u16 m.columns h.columns) (
        Codes-seq _ (Codes-u16 m.rows h.rows) (
          Codes-seq _ (Codes-u16 m.pixel_width h.pixel_width) (
            Codes-seq _ (Codes-u16 m.pixel_height h.pixel_height) (
              Codes-seq _ (Codes-u8 m.host_sixel h.host_sixel)
                (Codes-last _ (Codes-u8 m.mode h.mode))))))))

pub record FitsClientResize (m : ClientResize) : Type 0 where
  pub columns : m.columns < 2 ^ 16
  pub rows : m.rows < 2 ^ 16
  pub pixel_width : m.pixel_width < 2 ^ 16
  pub pixel_height : m.pixel_height < 2 ^ 16

pub Codes-client_resize :
    (m : ClientResize)
    → FitsClientResize m
    → Codes (write_client_resize m) read_client_resize m (2 + (2 + (2 + (2))))
unfolding write_client_resize read_client_resize
Codes-client_resize m h =
    (Codes-seq _ (Codes-u16 m.columns h.columns) (
      Codes-seq _ (Codes-u16 m.rows h.rows) (
        Codes-seq _ (Codes-u16 m.pixel_width h.pixel_width)
          (Codes-last _ (Codes-u16 m.pixel_height h.pixel_height)))))

pub record FitsRenameSession (m : RenameSession) : Type 0 where
  pub id : m.id < 2 ^ 64
  pub name : length m.name < 2 ^ 16

pub Codes-rename_session :
    (m : RenameSession)
    → FitsRenameSession m
    → Codes (write_rename_session m) read_rename_session m (8 + ((2 + length m.name)))
unfolding write_rename_session read_rename_session
Codes-rename_session m h =
    (Codes-seq _ (Codes-u64 m.id h.id) (Codes-last _ (Codes-str m.name h.name)))

pub record FitsKillSession (m : KillSession) : Type 0 where
  pub session : m.session < 2 ^ 64
  pub force : m.force < 256
  pub grace_seconds : m.grace_seconds < 2 ^ 16

pub Codes-kill_session :
    (m : KillSession)
    → FitsKillSession m
    → Codes (write_kill_session m) read_kill_session m (8 + (1 + (2)))
unfolding write_kill_session read_kill_session
Codes-kill_session m h =
    (Codes-seq _ (Codes-u64 m.session h.session) (
      Codes-seq _ (Codes-u8 m.force h.force)
        (Codes-last _ (Codes-u16 m.grace_seconds h.grace_seconds))))

pub record FitsSessionInfo (m : SessionInfo) : Type 0 where
  pub id : m.id < 2 ^ 64
  pub name : length m.name < 2 ^ 16
  pub terminals : m.terminals < 2 ^ 16
  pub attached : m.attached < 256
  pub created : magnitude m.created < 2 ^ 63
  pub last_attached : magnitude m.last_attached < 2 ^ 63

pub Codes-session_info :
    (m : SessionInfo)
    → FitsSessionInfo m
    → Codes
        (write_session_info m)
        read_session_info
        m
        (8 + ((2 + length m.name) + (2 + (1 + (8 + (8))))))
unfolding write_session_info read_session_info
Codes-session_info m h =
    (Codes-seq _ (Codes-u64 m.id h.id) (
      Codes-seq _ (Codes-str m.name h.name) (
        Codes-seq _ (Codes-u16 m.terminals h.terminals) (
          Codes-seq _ (Codes-u8 m.attached h.attached) (
            Codes-seq _ (Codes-i64 m.created h.created)
              (Codes-last _ (Codes-i64 m.last_attached h.last_attached)))))))

pub record FitsDetached (m : Detached) : Type 0 where
  pub text : length m.text < 2 ^ 16

pub Codes-detached :
    (m : Detached)
    → FitsDetached m
    → Codes (write_detached m) read_detached m (1 + ((2 + length m.text)))
unfolding write_detached read_detached
Codes-detached m h =
    (Codes-seq _ (Codes-detach_reason m.reason) (Codes-last _ (Codes-str m.text h.text)))

pub record FitsSetDesktopSize (m : SetDesktopSize) : Type 0 where
  pub columns : m.columns < 2 ^ 16
  pub rows : m.rows < 2 ^ 16

pub Codes-set_desktop_size :
    (m : SetDesktopSize)
    → FitsSetDesktopSize m
    → Codes (write_set_desktop_size m) read_set_desktop_size m (2 + (2))
unfolding write_set_desktop_size read_set_desktop_size
Codes-set_desktop_size m h =
    (Codes-seq _ (Codes-u16 m.columns h.columns) (Codes-last _ (Codes-u16 m.rows h.rows)))

pub record FitsSetReaderMode (m : SetReaderMode) : Type 0 where
  pub scope : m.scope < 256
  pub mode : m.mode < 256

pub Codes-set_reader_mode :
    (m : SetReaderMode)
    → FitsSetReaderMode m
    → Codes (write_set_reader_mode m) read_set_reader_mode m (1 + (1))
unfolding write_set_reader_mode read_set_reader_mode
Codes-set_reader_mode m h =
    (Codes-seq _ (Codes-u8 m.scope h.scope) (Codes-last _ (Codes-u8 m.mode h.mode)))

pub record FitsReaderMode (m : ReaderMode) : Type 0 where
  pub mode : m.mode < 256

pub Codes-reader_mode :
    (m : ReaderMode) → FitsReaderMode m → Codes (write_reader_mode m) read_reader_mode m (1)
unfolding write_reader_mode read_reader_mode
Codes-reader_mode m h = (Codes-last _ (Codes-u8 m.mode h.mode))

pub record FitsSessionInfos (xs : List SessionInfo) : Type 0 where
  pub count : length xs < 2 ^ 32
  pub each : All FitsSessionInfo xs

pub Codes-session_infos :
    (xs : List SessionInfo)
    → FitsSessionInfos xs
    → Codes
        (write_session_infos xs)
        read_session_infos
        xs
        (4 + total (λ (m : SessionInfo). 8 + ((2 + length m.name) + (2 + (1 + (8 + 8))))) xs)
unfolding write_session_infos read_session_infos
Codes-session_infos xs h =
    Codes-count _ _ _ 29 xs h.count (omega arith) (All-all (λ x. omega arith) xs)
      (Codes-each _ _ _ xs (All-map (Codes-session_info) xs h.each))
