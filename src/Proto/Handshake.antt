-- ===== src/Proto/Handshake.antt =====
-- The messages that open a connection (src/common/proto.hpp), as src/common/proto.cpp
-- writes and reads them.
pub mod RoundTrip
use ckmux.Prelude.{ℕ, List}
use ckmux.Proto.Wire.{Put, ◌▸◌, Get, ◌>>=◌, pure}
use ckmux.Proto.Writer
use ckmux.Proto.Reader
use ckmux.Proto.Enums.{ClientKind, client_kind_code, client_kind_of}

pub record Nonce : Type 0 where
  pub nonce : ℕ

unfoldable pub write_nonce : Nonce → Put
write_nonce m = Writer.u64 m.nonce

unfoldable pub read_nonce : Get Nonce
read_nonce = do nonce ← Reader.u64; pure (record { nonce = nonce })

pub record Hello : Type 0 where
  pub proto_version : ℕ
  pub build : List ℕ
  pub client_kind : ClientKind

unfoldable pub write_hello : Hello → Put
write_hello m =
    Writer.u32 m.proto_version ▸ Writer.str m.build ▸ Writer.u8 (client_kind_code m.client_kind)

unfoldable pub read_hello : Get Hello
read_hello = do
  proto_version ← Reader.u32
  build ← Reader.str
  client_kind ← Reader.enum_u8 client_kind_of 1
  pure (record { proto_version = proto_version; build = build; client_kind = client_kind })

pub record HelloAck : Type 0 where
  pub proto_version : ℕ
  pub build : List ℕ

unfoldable pub write_hello_ack : HelloAck → Put
write_hello_ack m = Writer.u32 m.proto_version ▸ Writer.str m.build

unfoldable pub read_hello_ack : Get HelloAck
read_hello_ack = do
  proto_version ← Reader.u32
  build ← Reader.str
  pure (record { proto_version = proto_version; build = build })

pub record Refuse : Type 0 where
  pub reason : List ℕ

unfoldable pub write_refuse : Refuse → Put
write_refuse m = Writer.str m.reason

unfoldable pub read_refuse : Get Refuse
read_refuse = do reason ← Reader.str; pure (record { reason = reason })

pub record Error : Type 0 where
  pub code : ℕ
  pub context : List ℕ
  pub human : List ℕ

unfoldable pub write_error : Error → Put
write_error m = Writer.u16 m.code ▸ Writer.str m.context ▸ Writer.str m.human

unfoldable pub read_error : Get Error
read_error = do
  code ← Reader.u16
  context ← Reader.str
  human ← Reader.str
  pure (record { code = code; context = context; human = human })
