-- ===== src/Proto/SessionLists/RoundTrip.antt =====
-- A list of sessions is read as it was written.
use ckmux.Prelude.{◌+◌, length}
use ckmux.Proto.Codes.{Codes, Codes-last}
use ckmux.Proto.Codes.Entries.{total}
use ckmux.Proto.Sessions.{SessionInfo}
use ckmux.Proto.Sessions.RoundTrip.{FitsSessionInfos, Codes-session_infos}
use ckmux.Proto.SessionLists.{SessionList, write_session_list, read_session_list}

pub record FitsSessionList (m : SessionList) : Type 0 where
  pub sessions : FitsSessionInfos m.sessions

pub Codes-session_list :
    (m : SessionList)
    → FitsSessionList m
    → Codes (write_session_list m) read_session_list m (
        (4
          + total
              (λ (m : SessionInfo). 8 + ((2 + length m.name) + (2 + (1 + (8 + 8)))))
              m.sessions))
unfolding write_session_list read_session_list
Codes-session_list m h = (Codes-last _ (Codes-session_infos m.sessions h.sessions))
