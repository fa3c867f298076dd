-- ===== src/Endpoints.antt =====
-- Where a client connects and how it talks: host, port, and the transport and the protocol of Thrift
-- that it puts over the socket.
use apache_thrift_benchmarki.Prelude.{ℕ}
use apache_thrift_benchmarki.Format.{Text}

-- TFramedTransport or TBufferedTransport
pub data Framing : Type 0 where
  framed buffered : Framing

-- TJSONProtocol or TCompactProtocol
pub data Codec : Type 0 where
  json compact : Codec

pub record Endpoint : Type 0 where
  pub host : Text
  pub port : ℕ
  pub framing : Framing
  pub codec : Codec
