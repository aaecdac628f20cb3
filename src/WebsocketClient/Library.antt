-- ===== src/WebsocketClient/Library.antt =====
-- What include/WebsocketClient.hpp calls: the client library esp_websocket_client, which is not in
-- the repository. Its answers are arbitrary functions of the history: the calls of the library, its
-- events and the callbacks of the application, latest first.
use base_utilities_esp.Base.{ℕ, String, Bool, Option, List, ℤ}

-- The fields of `esp_websocket_client_config_t` that `connect` sets.
pub record Config : Type 0 where
  pub uri : String
  pub reconnect_timeout_ms : ℕ
  pub network_timeout_ms : ℕ
  pub subprotocol : Option String
  pub cert_pem : Option (List ℕ)
  pub cert_len : ℕ
  pub crt_bundle_attach : Bool
  pub skip_cert_common_name_check : Bool

-- `event_id` with the part of `event_data` that the handler reads.
pub data Event : Type 0 where
  connected : Event
  disconnected : Event
  data_received : (op_code : ℕ) (data_ptr : List ℕ) (data_len : ℕ) → Event
  error : (error_handle : ℕ) → Event
  other : (event_id : ℕ) → Event

-- `sent` stands for a send with an opcode: esp_websocket_client_send_text and _send_bin are the
-- library's names for two of the opcodes of esp_websocket_client_send_with_opcode.
pub data Entry : Type 0 where
  init : Config → Option ℕ → Entry
  register : ℕ → Entry
  start : ℕ → (ok : Bool) → Entry
  stop : ℕ → Entry
  destroy : ℕ → Entry
  asked : ℕ → (answer : Bool) → Entry
  sent : ℕ → (opcode : ℕ) (bytes : List ℕ) → Entry
  event : ℕ → Event → Entry
  ran_connected : Entry
  ran_disconnected : Entry
  ran_message : (opcode : ℕ) (bytes : List ℕ) (len : ℕ) → Entry
  ran_error : (code : ℕ) → Entry

-- The answers of the library: esp_websocket_client_init, whether _start gives ESP_OK,
-- _is_connected, and the count that a send function returns.
pub record EspWebsocket : Type 0 where
  pub init : List Entry → Config → Option ℕ
  pub start : List Entry → ℕ → Bool
  pub is_connected : List Entry → ℕ → Bool
  pub send : List Entry → ℕ → ℤ
