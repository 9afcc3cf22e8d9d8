-- ===== src/Proto/Handshake/RoundTrip.antt =====
-- The messages that open a connection are read as they were written.
use ckmux.Prelude.{◌+◌, ◌^◌, ◌<◌, length}
use ckmux.Proto.Codes.{Codes, Codes-seq, Codes-last}
use ckmux.Proto.Codes.Numbers.{Codes-u16, Codes-u32, Codes-u64, Codes-str}
use ckmux.Proto.Enums.RoundTrip.{Codes-client_kind}
use ckmux.Proto.Handshake.{
  Nonce, write_nonce, read_nonce, Hello, write_hello, read_hello, HelloAck, write_hello_ack,
  read_hello_ack, Refuse, write_refuse, read_refuse, Error, write_error, read_error,
}

pub record FitsNonce (m : Nonce) : Type 0 where
  pub nonce : m.nonce < 2 ^ 64

pub Codes-nonce : (m : Nonce) → FitsNonce m → Codes (write_nonce m) read_nonce m (8)
unfolding write_nonce read_nonce
Codes-nonce m h = (Codes-last _ (Codes-u64 m.nonce h.nonce))

pub record FitsHello (m : Hello) : Type 0 where
  pub proto_version : m.proto_version < 2 ^ 32
  pub build : length m.build < 2 ^ 16

pub Codes-hello :
    (m : Hello)
    → FitsHello m
    → Codes (write_hello m) read_hello m (4 + ((2 + length m.build) + (1)))
unfolding write_hello read_hello
Codes-hello m h =
    (Codes-seq _ (Codes-u32 m.proto_version h.proto_version)
      (Codes-seq _ (Codes-str m.build h.build) (Codes-last _ (Codes-client_kind m.client_kind))))

pub record FitsHelloAck (m : HelloAck) : Type 0 where
  pub proto_version : m.proto_version < 2 ^ 32
  pub build : length m.build < 2 ^ 16

pub Codes-hello_ack :
    (m : HelloAck)
    → FitsHelloAck m
    → Codes (write_hello_ack m) read_hello_ack m (4 + ((2 + length m.build)))
unfolding write_hello_ack read_hello_ack
Codes-hello_ack m h =
    (Codes-seq _ (Codes-u32 m.proto_version h.proto_version)
      (Codes-last _ (Codes-str m.build h.build)))

pub record FitsRefuse (m : Refuse) : Type 0 where
  pub reason : length m.reason < 2 ^ 16

pub Codes-refuse :
    (m : Refuse) → FitsRefuse m → Codes (write_refuse m) read_refuse m ((2 + length m.reason))
unfolding write_refuse read_refuse
Codes-refuse m h = (Codes-last _ (Codes-str m.reason h.reason))

pub record FitsError (m : Error) : Type 0 where
  pub code : m.code < 2 ^ 16
  pub context : length m.context < 2 ^ 16
  pub human : length m.human < 2 ^ 16

pub Codes-error :
    (m : Error)
    → FitsError m
    → Codes (write_error m) read_error m (2 + ((2 + length m.context) + ((2 + length m.human))))
unfolding write_error read_error
Codes-error m h =
    (Codes-seq _ (Codes-u16 m.code h.code)
      (Codes-seq _ (Codes-str m.context h.context) (Codes-last _ (Codes-str m.human h.human))))
