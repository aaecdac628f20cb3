-- ===== src/WebsocketClient/Calls.antt =====
-- The public methods of WebsocketClient that change the object or call the library.
use base_utilities_esp.Base.{ℕ, String, Bool, Option, List}

-- A call of a public method; disconnect is also what the destructor does.
pub data Method : Type 0 where
  connect : String → Bool → ℕ → Option String → Method
  disconnect : Method
  is_connected : Method
  send : List ℕ → ℕ → ℕ → Method
  send_text : List ℕ → Method
  send_binary : List ℕ → ℕ → Method
  send_frame : Bool → ℕ → List ℕ → ℕ → Method
  send_text_frame : Bool → List ℕ → ℕ → Method
  send_binary_frame : Bool → List ℕ → ℕ → Method
  on_connected : Bool → Method
  on_disconnected : Bool → Method
  on_message : Bool → Method
  on_error : Bool → Method
  set_auto_reconnect : Bool → ℕ → Method
  set_server_cert : Option (List ℕ) → Method
  set_server_cert_len : Option (List ℕ) → ℕ → Method
  clear_server_cert : Method
  set_skip_cert_common_name_check : Bool → Method
