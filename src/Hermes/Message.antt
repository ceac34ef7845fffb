-- ===== src/Hermes/Message.antt =====
-- hermes/hproto/wsmessages.pb.go: the messages, as far as the broker reads or builds them.
use godev.Prelude.{Option, none, some, Bytes, ℤ, List}

-- `RpcFrameType`
pub data FrameType : Type 0 where
  unspecified request error_response success_response : FrameType

-- `error_info` is the text of the `RpcErrorInfo`.
pub record RpcHeader : Type 0 where
  pub correlation_id : Bytes
  pub end_point : Bytes
  pub frame_type : FrameType
  pub error_info : Option Bytes

-- `ContentType`
pub data ContentType : Type 0 where
  unspecified_content protobuf json binary text_content : ContentType

pub record MessageHeader : Type 0 where
  pub sender : Bytes
  pub content_type : ContentType
  pub rpc_header : Option RpcHeader

-- `data_bytes` is `Data`; `created` is the time of the `SenderEnvelope`.
pub record Message : Type 0 where
  pub header : Option MessageHeader
  pub created : Option ℤ
  pub data_bytes : Bytes

-- `GetHeader().GetRpcHeader()`
abbrev pub rpc_header_of : Option MessageHeader → Option RpcHeader
rpc_header_of none = none
rpc_header_of (some h) = h.rpc_header

pub record SendMessageRequest : Type 0 where
  pub to : List Bytes
  pub message : Option Message
  pub channel : Bytes
  pub idempotent_id : Bytes

pub record SendMessageError : Type 0 where
  pub to : Bytes
  pub message : Bytes

pub record SendMessageResponse : Type 0 where
  pub idempotent_id : Bytes
  pub errors : List SendMessageError
  pub duplicates : List Bytes
  pub correlation_id : Bytes

pub record SendReceipt : Type 0 where
  pub request : SendMessageRequest
  pub response : SendMessageResponse
