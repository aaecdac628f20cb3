-- ===== src/WebsocketClient.antt =====
-- include/WebsocketClient.hpp: the class WebsocketClient. A method returns its result and the new
-- object. A callback of the application is the last thing that a branch of the event handler does, so
-- what the application does in it is among the steps that follow.
pub mod Library
pub mod History
pub mod Events
pub mod Protocol
pub mod Calls
pub mod Reach
pub mod Steps
pub mod Interleaving
pub mod WholeCalls
pub mod Callbacks
pub mod Sending
mod Tests
use base_utilities_esp.Base.{
  ℕ, String, Bool, true, false, not, ◌&&◌, Option, none, some, List, [], ◌∷◌, length, take, ◌==◌,
  ltb, if◌then◌else◌, ◌%◌, ◌^◌, ℤ, eqb_ℤ, bits_i32, is_empty, str_eq,
}
use Library.{Config, Event, Entry, EspWebsocket}

pub record Client : Type 0 where
  pub handle : Option ℕ
  pub url : String
  pub connected : Bool
  pub auto_reconnect : Bool
  pub reconnect_delay_ms : ℕ
  -- Whether a callback is set.
  pub connected_callback : Bool
  pub disconnected_callback : Bool
  pub message_callback : Bool
  pub error_callback : Bool
  pub server_cert : List ℕ
  pub skip_cert_common_name_check : Bool
  -- The history behind the object.
  pub past : List Entry

abbrev pub make : Client
make = record {
  handle = none;
  url = "";
  connected = false;
  auto_reconnect = false;
  reconnect_delay_ms = 5000;
  connected_callback = false;
  disconnected_callback = false;
  message_callback = false;
  error_callback = false;
  server_cert = [];
  skip_cert_common_name_check = false;
  past = [];
}

-- ws_transport_opcodes_t
abbrev pub opcode_text : ℕ
opcode_text = 1

abbrev pub opcode_binary : ℕ
opcode_binary = 2

-- The next entry of the history.
abbrev pub log : Entry → Client → Client
log e s = record s { past = e ∷ s.past }

-- The body of `if (m_client != nullptr)`.
close_handle : Option ℕ → Client → Client
close_handle none s = s
close_handle (some h) s = record (log (Entry.destroy h) (log (Entry.stop h) s)) {
  handle = none;
  connected = false;
}

unfoldable pub disconnect : Client → Client
unfolding close_handle
disconnect s = close_handle s.handle s

-- `if (subprotocol != nullptr && subprotocol[0] != '\0')`
set_subprotocol : Option String → Option String
set_subprotocol none = none
set_subprotocol (some p) = if str_eq p "" then none else some p

unfoldable pub make_config : Client → Option String → Config
unfolding set_subprotocol
make_config s subprotocol =
    let custom : Bool = not (is_empty s.server_cert) in
    record {
      uri = s.url;
      reconnect_timeout_ms = s.reconnect_delay_ms;
      network_timeout_ms = 10000;
      subprotocol = set_subprotocol subprotocol;
      cert_pem = if custom then some s.server_cert else none;
      cert_len = if custom then length s.server_cert else 0;
      crt_bundle_attach = not custom;
      skip_cert_common_name_check = s.skip_cert_common_name_check;
    }

module _ (W : EspWebsocket) where
  -- `connect` from the call of esp_websocket_client_start on.
  start_handle : ℕ → Client → Bool × Client
  start_handle h s =
      let ok : Bool = W.start s.past h in
      let s₁ : Client = log (Entry.start h ok) s in
      if ok then (true, s₁) else (false, record (log (Entry.destroy h) s₁) { handle = none })

  -- `connect` from the result of esp_websocket_client_init on.
  open_handle : Config → Option ℕ → Client → Bool × Client
  unfolding start_handle
  open_handle config none s = (false, record (log (Entry.init config none) s) { handle = none })
  open_handle config (some h) s =
      start_handle h
        (log (Entry.register h) (record (log (Entry.init config (some h)) s) { handle = some h }))

  unfoldable pub connect : Client → String → Bool → ℕ → Option String → Bool × Client
  unfolding open_handle
  connect s url auto_reconnect reconnect_delay_ms subprotocol =
      let s₁ : Client = record (disconnect s) {
        auto_reconnect = auto_reconnect;
        reconnect_delay_ms = reconnect_delay_ms;
        url = url;
      } in
      let config : Config = make_config s₁ subprotocol in
      open_handle config (W.init s₁.past config) s₁

  ask_connected : Option ℕ → Client → Bool × Client
  ask_connected none s = (false, s)
  ask_connected (some h) s =
      let answer : Bool = W.is_connected s.past h in
      (answer && s.connected, log (Entry.asked h answer) s)

  unfoldable pub is_connected : Client → Bool × Client
  unfolding ask_connected
  is_connected s = ask_connected s.handle s

  -- A send function of the library, and `sent == (int)len`.
  send_call : Option ℕ → Client → ℕ → List ℕ → ℕ → Bool × Client
  send_call none s opcode bytes len = (false, s)
  send_call (some h) s opcode bytes len = (
    eqb_ℤ (W.send s.past h) (bits_i32 (len % 2 ^ 32)),
    log (Entry.sent h opcode (take len bytes)) s,
  )

  unfoldable pub send : Client → List ℕ → ℕ → ℕ → Bool × Client
  unfolding send_call
  send s bytes len opcode =
      let (up, s₁) = is_connected s in
      if not up
      then (false, s₁)
      else if opcode == opcode_binary
      then send_call s₁.handle s₁ opcode_binary bytes len
      else if opcode == opcode_text
      then send_call s₁.handle s₁ opcode_text bytes len
      else (false, s₁)

  -- Both `send_text`: a C string, of which strlen counts the bytes, and a std::string.
  unfoldable pub send_text : Client → List ℕ → Bool × Client
  send_text s text = send s text (length text) opcode_text

  unfoldable pub send_binary : Client → List ℕ → ℕ → Bool × Client
  send_binary s bytes len = send s bytes len opcode_binary

  -- `fin` is not used.
  unfoldable pub send_frame : Client → Bool → ℕ → List ℕ → ℕ → Bool × Client
  unfolding send_call
  send_frame s fin opcode bytes len =
      let (up, s₁) = is_connected s in
      if not up then (false, s₁) else send_call s₁.handle s₁ opcode bytes len

  unfoldable pub send_text_frame : Client → Bool → List ℕ → ℕ → Bool × Client
  send_text_frame s fin bytes len = send_frame s fin opcode_text bytes len

  unfoldable pub send_binary_frame : Client → Bool → List ℕ → ℕ → Bool × Client
  send_binary_frame s fin bytes len = send_frame s fin opcode_binary bytes len

-- `on_connected` and the like; the argument tells whether the callback given is callable.
unfoldable pub on_connected : Client → Bool → Client
on_connected s callback = record s { connected_callback = callback }

unfoldable pub on_disconnected : Client → Bool → Client
on_disconnected s callback = record s { disconnected_callback = callback }

unfoldable pub on_message : Client → Bool → Client
on_message s callback = record s { message_callback = callback }

unfoldable pub on_error : Client → Bool → Client
on_error s callback = record s { error_callback = callback }

unfoldable pub set_auto_reconnect : Client → Bool → ℕ → Client
set_auto_reconnect s enable delay_ms = record s {
  auto_reconnect = enable;
  reconnect_delay_ms = delay_ms;
}

-- `set_server_cert(cert_pem)` and `set_server_cert(cert_pem, len)`.
unfoldable pub set_server_cert : Client → Option (List ℕ) → Client
set_server_cert s none = record s { server_cert = [] }
set_server_cert s (some cert_pem) = record s { server_cert = cert_pem }

unfoldable pub set_server_cert_len : Client → Option (List ℕ) → ℕ → Client
set_server_cert_len s none len = record s { server_cert = [] }
set_server_cert_len s (some cert_pem) len = record s {
  server_cert = if ltb 0 len then take len cert_pem else [];
}

unfoldable pub clear_server_cert : Client → Client
clear_server_cert s = record s { server_cert = [] }

unfoldable pub set_skip_cert_common_name_check : Client → Bool → Client
set_skip_cert_common_name_check s skip = record s { skip_cert_common_name_check = skip }
