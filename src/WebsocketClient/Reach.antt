-- ===== src/WebsocketClient/Reach.antt =====
-- The objects of WebsocketClient that the application's calls and the library's events lead to.
use base_utilities_esp.Base.{ℕ, ◌≡◌, Option, none, some, List}
use base_utilities_esp.WebsocketClient.Library.{Event, EspWebsocket}
use base_utilities_esp.WebsocketClient.Calls.{Method}
use base_utilities_esp.WebsocketClient.{
  Client, make, disconnect, connect, is_connected, send, send_text, send_binary, send_frame,
  send_text_frame, send_binary_frame, on_connected, on_disconnected, on_message, on_error,
  set_auto_reconnect, set_server_cert, set_server_cert_len, clear_server_cert,
  set_skip_cert_common_name_check,
}
use base_utilities_esp.WebsocketClient.Events.{websocket_event_handler}
use base_utilities_esp.WebsocketClient.Protocol.{
  IsSound, make-IsSound, disconnect-IsSound, connect-IsSound, is_connected-IsSound, send-IsSound,
  send_frame-IsSound, dispatch-IsSound,
}

unfoldable pub run : EspWebsocket → Method → Client → Client
run W (Method.connect url auto delay sub) s = (connect W s url auto delay sub).1
run W Method.disconnect s = disconnect s
run W Method.is_connected s = (is_connected W s).1
run W (Method.send bytes len opcode) s = (send W s bytes len opcode).1
run W (Method.send_text text) s = (send_text W s text).1
run W (Method.send_binary bytes len) s = (send_binary W s bytes len).1
run W (Method.send_frame fin opcode bytes len) s = (send_frame W s fin opcode bytes len).1
run W (Method.send_text_frame fin bytes len) s = (send_text_frame W s fin bytes len).1
run W (Method.send_binary_frame fin bytes len) s = (send_binary_frame W s fin bytes len).1
run W (Method.on_connected c) s = on_connected s c
run W (Method.on_disconnected c) s = on_disconnected s c
run W (Method.on_message c) s = on_message s c
run W (Method.on_error c) s = on_error s c
run W (Method.set_auto_reconnect enable delay) s = set_auto_reconnect s enable delay
run W (Method.set_server_cert cert) s = set_server_cert s cert
run W (Method.set_server_cert_len cert len) s = set_server_cert_len s cert len
run W Method.clear_server_cert s = clear_server_cert s
run W (Method.set_skip_cert_common_name_check skip) s = set_skip_cert_common_name_check s skip

-- The library delivers an event only for the client that the object holds.
pub data Reachable (W : EspWebsocket) : Client → Type 0 where
  constructed : Reachable W make
  called : (m : Method) (s : Client) → Reachable W s → Reachable W (run W m s)
  notified :
      (h : ℕ) (e : Event) (s : Client)
      → s.handle ≡ some h
      → Reachable W s
      → Reachable W (websocket_event_handler h e s)

set_server_cert-IsSound :
    (s : Client) (c : Option (List ℕ)) → IsSound s → IsSound (set_server_cert s c)
unfolding set_server_cert
set_server_cert-IsSound s none sound = sound
set_server_cert-IsSound s (some c) sound = sound

set_server_cert_len-IsSound :
    (s : Client) (c : Option (List ℕ)) (len : ℕ) → IsSound s → IsSound (set_server_cert_len s c len)
unfolding set_server_cert_len
set_server_cert_len-IsSound s none len sound = sound
set_server_cert_len-IsSound s (some c) len sound = sound

pub run-IsSound : (W : EspWebsocket) (m : Method) (s : Client) → IsSound s → IsSound (run W m s)
unfolding run send_text send_binary send_text_frame send_binary_frame on_connected on_disconnected
    on_message on_error set_auto_reconnect clear_server_cert set_skip_cert_common_name_check
run-IsSound W (Method.connect url auto delay sub) s sound =
    connect-IsSound W s url auto delay sub sound
run-IsSound W Method.disconnect s sound = disconnect-IsSound s sound
run-IsSound W Method.is_connected s sound = is_connected-IsSound W s sound
run-IsSound W (Method.send bytes len opcode) s sound = send-IsSound W s bytes len opcode sound
run-IsSound W (Method.send_text text) s sound = send-IsSound W s _ _ _ sound
run-IsSound W (Method.send_binary bytes len) s sound = send-IsSound W s _ _ _ sound
run-IsSound W (Method.send_frame fin opcode bytes len) s sound =
    send_frame-IsSound W s fin _ _ _ sound
run-IsSound W (Method.send_text_frame fin bytes len) s sound =
    send_frame-IsSound W s fin _ _ _ sound
run-IsSound W (Method.send_binary_frame fin bytes len) s sound =
    send_frame-IsSound W s fin _ _ _ sound
run-IsSound W (Method.on_connected c) s sound = sound
run-IsSound W (Method.on_disconnected c) s sound = sound
run-IsSound W (Method.on_message c) s sound = sound
run-IsSound W (Method.on_error c) s sound = sound
run-IsSound W (Method.set_auto_reconnect enable delay) s sound = sound
run-IsSound W (Method.set_server_cert cert) s sound = set_server_cert-IsSound s cert sound
run-IsSound W (Method.set_server_cert_len cert len) s sound =
    set_server_cert_len-IsSound s cert len sound
run-IsSound W Method.clear_server_cert s sound = sound
run-IsSound W (Method.set_skip_cert_common_name_check skip) s sound = sound

-- However the application calls the methods and whatever the library answers and reports: the calls
-- of the library keep its protocol (a client is registered, started, stopped and destroyed in that
-- order, none is created while another lives, nothing is sent over a connection that is not up), a
-- callback runs only right after its event, the disconnected one only if the connection was up,
-- `m_client` is the library's client, and `m_connected` tells whether its connection is up, which it
-- is not without a client.
pub Reachable-IsSound : (W : EspWebsocket) (s : Client) → Reachable W s → IsSound s
unfolding websocket_event_handler
Reachable-IsSound W s Reachable.constructed = make-IsSound
Reachable-IsSound W s (Reachable.called m t r) = run-IsSound W m t (Reachable-IsSound W t r)
Reachable-IsSound W s (Reachable.notified h e t live r) =
    dispatch-IsSound h e t live (Reachable-IsSound W t r)
