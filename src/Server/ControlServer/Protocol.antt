-- ===== src/Server/ControlServer/Protocol.antt =====
-- Protocol/protocol.proto, as far as the control server reads and writes it.
use ip_cam_box.Prelude.{String, Bool, Option, List}
use ip_cam_box.Server.Config.{SourceId, Source}
use ip_cam_box.Server.ControlServer.Sessions.{StreamDst}

pub data MessageType : Type 0 where
  empty_message client_greeting_message server_greeting_message client_config_request_message
        client_config_reply_message client_config_updated_message client_ready_message
        request_stream_message stream_status_message stop_stream_message :
      MessageType

pub record StreamStatus : Type 0 where
  pub source_id : SourceId
  pub success : Bool

pub data ServerMessage : Type 0 where
  server_greeting : ServerMessage
  client_config_reply : String → List Source → ServerMessage
  request_stream : SourceId → StreamDst → ServerMessage
  stop_stream : SourceId → ServerMessage

-- `ParseFromString` of the messages that a device sends; the first three have no fields.
pub record Protobuf : Type 0 where
  pub client_greeting : String → Bool
  pub client_config_request : String → Bool
  pub client_ready : String → Bool
  pub stream_status : String → Option StreamStatus
