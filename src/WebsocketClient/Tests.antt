-- ===== src/WebsocketClient/Tests.antt =====
-- Runs of the model of WebsocketClient, and the theorems applied to them.
use base_utilities_esp.Base.{
  ◌≤◌, true, false, ◌≡◌, refl, inl, none, some, [], ◌∷◌, pos, arith, is_some,
}
use base_utilities_esp.WebsocketClient.Library.{Event, Entry, EspWebsocket}
use base_utilities_esp.WebsocketClient.{
  Client, make, log, connect, disconnect, send, send_frame, on_disconnected,
}
use base_utilities_esp.WebsocketClient.Events.{websocket_event_handler, dispatch}
use base_utilities_esp.WebsocketClient.History.{Phase, phase, link}
use base_utilities_esp.WebsocketClient.Protocol.{IsSound, resting}
use base_utilities_esp.WebsocketClient.Calls.{Method}
use base_utilities_esp.WebsocketClient.Reach.{Reachable, Reachable-IsSound, run}
use base_utilities_esp.WebsocketClient.Callbacks.{
  times_up, times_down_called, times_down_called-Reachable,
}
use base_utilities_esp.WebsocketClient.Sending.{
  phase-disconnect, connect_lem, send_lem, send_down, times_sent,
}

-- A library whose client has the handle 7, starts, and takes five bytes at a time.
abbrev five_bytes : EspWebsocket
five_bytes = record {
  init = λ past config. some 7;
  start = λ past h. true;
  is_connected = λ past h. true;
  send = λ past h. pos 5;
}

-- A callback is set, the client is opened, and the connection comes up.
abbrev listening : Client
listening = run five_bytes (Method.on_disconnected true) make

abbrev opened : Client
opened = run five_bytes (Method.connect "ws://host" false 5000 none) listening

abbrev up : Client
up = websocket_event_handler 7 Event.connected opened

-- It goes down, which is reported twice.
abbrev down : Client
down = websocket_event_handler 7 Event.disconnected up

abbrev down_again : Client
down_again = websocket_event_handler 7 Event.disconnected down

opened_handle : opened.handle ≡ some 7
unfolding run on_disconnected disconnect connect
opened_handle = refl

opened-Reachable : Reachable five_bytes opened
opened-Reachable =
    Reachable.called (Method.connect "ws://host" false 5000 none) _
      (Reachable.called (Method.on_disconnected true) _ Reachable.constructed)

up-Reachable : Reachable five_bytes up
up-Reachable = Reachable.notified 7 Event.connected _ opened_handle opened-Reachable

up_handle : up.handle ≡ some 7
unfolding run on_disconnected disconnect connect websocket_event_handler dispatch
up_handle = refl

up_connected : up.connected ≡ true
unfolding run on_disconnected disconnect connect websocket_event_handler dispatch
up_connected = refl

down-Reachable : Reachable five_bytes down
down-Reachable = Reachable.notified 7 Event.disconnected _ up_handle up-Reachable

down_handle : down.handle ≡ some 7
unfolding run on_disconnected disconnect connect websocket_event_handler dispatch
down_handle = refl

down_link : link down.past ≡ false
unfolding run on_disconnected disconnect connect websocket_event_handler dispatch link
down_link = refl

down_again-Reachable : Reachable five_bytes down_again
down_again-Reachable = Reachable.notified 7 Event.disconnected _ down_handle down-Reachable

-- The callback ran once.
down_again_calls : times_down_called down_again.past ≡ 1
unfolding run on_disconnected disconnect connect websocket_event_handler dispatch
down_again_calls = refl

Reachable-IsSound_example : IsSound down_again
Reachable-IsSound_example = Reachable-IsSound five_bytes down_again down_again-Reachable

times_down_called-Reachable_example : times_down_called down_again.past ≤ times_up down_again.past
times_down_called-Reachable_example =
    times_down_called-Reachable five_bytes down_again down_again-Reachable

phase-disconnect_instance :
    (phase (disconnect up).past ≡ Phase.idle)
    × ((disconnect up).handle ≡ none)
    × ((disconnect up).connected ≡ false)
phase-disconnect_instance = phase-disconnect five_bytes up up-Reachable

connect_lem_example :
    let (ok, t) = connect five_bytes up "ws://other" true 100 none in
    (ok ≡ is_some t.handle)
    × (phase t.past ≡ resting t.handle)
    × (ok ≡ false → (phase t.past ≡ Phase.idle) × (t.connected ≡ false))
connect_lem_example = connect_lem five_bytes up "ws://other" true 100 none up-Reachable

send_lem_example :
    send five_bytes up (104 ∷ 101 ∷ 108 ∷ 108 ∷ 111 ∷ []) 5 1
    ≡ (true, log (Entry.sent 7 1 (104 ∷ 101 ∷ 108 ∷ 108 ∷ 111 ∷ [])) (log (Entry.asked 7 true) up))
send_lem_example =
    send_lem five_bytes up 7 (104 ∷ 101 ∷ 108 ∷ 108 ∷ 111 ∷ []) 1 up_handle refl up_connected
      (inl refl) (omega arith)

send_down_example :
    ((send five_bytes down (1 ∷ []) 1 2).0 ≡ false)
    × (times_sent (send five_bytes down (1 ∷ []) 1 2).1.past ≡ times_sent down.past)
    × ((send_frame five_bytes down true 2 (1 ∷ []) 1).0 ≡ false)
    × (times_sent (send_frame five_bytes down true 2 (1 ∷ []) 1).1.past ≡ times_sent down.past)
send_down_example = send_down five_bytes down (1 ∷ []) 1 2 true down-Reachable down_link
