-- ===== src/Proto/DecodeError.antt =====
-- What `decode` of src/common/proto.hpp answers.
use ckmux.Prelude.{ℕ}

pub data DecodeError : Type 0 where
  none incomplete payload_too_large unknown_type reserved_flags malformed trailing_bytes :
      DecodeError

pub record DecodeResult : Type 0 where
  pub error : DecodeError
  pub consumed : ℕ
