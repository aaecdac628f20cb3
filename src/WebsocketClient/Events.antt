-- ===== src/WebsocketClient/Events.antt =====
-- The event handler of WebsocketClient.
use base_utilities_esp.Base.{ℕ, Bool, true, false, ◌&&◌, ltb, if◌then◌else◌}
use base_utilities_esp.WebsocketClient.Library.{Event, Entry}
use base_utilities_esp.WebsocketClient.{Client, log}

-- A callback runs if it is set.
abbrev pub run_if : Bool → Entry → Client → Client
run_if set e s = if set then log e s else s

-- The `switch` of the event handler.
unfoldable pub dispatch : Event → Client → Client
dispatch Event.connected s =
    run_if s.connected_callback Entry.ran_connected (record s { connected = true })
dispatch Event.disconnected s =
    run_if (s.connected && s.disconnected_callback) Entry.ran_disconnected
      (record s { connected = false })
dispatch (Event.data_received op_code data_ptr data_len) s =
    run_if (s.message_callback && ltb 0 data_len) (Entry.ran_message op_code data_ptr data_len) s
dispatch (Event.error error_handle) s = run_if s.error_callback (Entry.ran_error error_handle) s
dispatch (Event.other event_id) s = s

-- `websocket_event_handler` for an event of the library's client `h`.
unfoldable pub websocket_event_handler : ℕ → Event → Client → Client
unfolding dispatch
websocket_event_handler h e s = dispatch e (log (Entry.event h e) s)
