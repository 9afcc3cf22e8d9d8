-- ===== src/Proto/SessionLists.antt =====
-- The list of sessions (src/common/proto.hpp), as src/common/proto.cpp writes and reads it.
pub mod RoundTrip
use ckmux.Prelude.{List}
use ckmux.Proto.Wire.{Put, Get, ◌>>=◌, pure}
use ckmux.Proto.Sessions.{SessionInfo, write_session_infos, read_session_infos}

pub record SessionList : Type 0 where
  pub sessions : List SessionInfo

unfoldable pub write_session_list : SessionList → Put
write_session_list m = write_session_infos m.sessions

unfoldable pub read_session_list : Get SessionList
read_session_list = do sessions ← read_session_infos; pure (record { sessions = sessions })
