-- ===== src/WebsocketClient/Interleaving/Tests.antt =====
-- An event between the call of `disconnect` and the stop of the library's client, and after it.
use base_utilities_esp.Base.{true, false, ◌≡◌, refl, none, some, pos}
use base_utilities_esp.WebsocketClient.Library.{Event, EspWebsocket}
use base_utilities_esp.WebsocketClient.{Client, make, connect, disconnect}
use base_utilities_esp.WebsocketClient.Events.{websocket_event_handler, dispatch}
use base_utilities_esp.WebsocketClient.History.{Phase, phase}
use base_utilities_esp.WebsocketClient.Steps.{
  Request, Point, step, steps, Interleaved, Interleaved-steps,
}
use base_utilities_esp.WebsocketClient.Interleaving.{
  IsSoundAt, Interleaved-IsSoundAt, handle-Interleaved,
}
use base_utilities_esp.WebsocketClient.WholeCalls.{steps-connect, returned}

-- A library whose client has the handle 7 and starts.
abbrev starts : EspWebsocket
starts = record {
  init = λ past config. some 7;
  start = λ past h. true;
  is_connected = λ past h. true;
  send = λ past h. pos 0;
}

abbrev request : Request
request = record {
  url = "ws://host";
  auto_reconnect = true;
  reconnect_delay_ms = 5000;
  subprotocol = none;
}

-- The object where `connect` has set up the library's client, with its history.
abbrev started_client : Client
started_client = record make {
  url = "ws://host";
  auto_reconnect = true;
  handle = some 7;
  past = (steps starts 5 (Point.test_client (some request)) make).1.past;
}

started_lem :
    steps starts 5 (Point.test_client (some request)) make ≡ (Point.rest true, started_client)
unfolding steps step
started_lem = refl

started-Interleaved : Interleaved starts (Point.rest true) started_client
unfolding steps step
started-Interleaved =
    Interleaved-steps starts 5 (Point.test_client (some request)) make
      (Interleaved.connects request true make Interleaved.constructed)

-- `disconnect` has begun, and the connection comes up before the library's client is stopped.
abbrev late : Client
late = websocket_event_handler 7 Event.connected started_client

late-Interleaved : Interleaved starts (Point.stop_client 7 none) late
unfolding steps step phase
late-Interleaved = Interleaved.notified 7 Event.connected _ started_client refl (
    Interleaved.advanced _ started_client
      (Interleaved.disconnects true started_client started-Interleaved))

late-phase : phase late.past ≡ Phase.started 7
unfolding websocket_event_handler dispatch steps step phase
late-phase = refl

Interleaved-IsSoundAt_example : IsSoundAt (Point.stop_client 7 none) late
Interleaved-IsSoundAt_example =
    Interleaved-IsSoundAt starts (Point.stop_client 7 none) late late-Interleaved

handle-Interleaved_instance : late.handle ≡ some 7
handle-Interleaved_instance =
    handle-Interleaved starts (Point.stop_client 7 none) late 7 late-Interleaved late-phase

-- The rest of `disconnect` leaves no connection behind.
late_closed : (steps starts 4 (Point.stop_client 7 none) late).1.connected ≡ false
unfolding websocket_event_handler dispatch steps step
late_closed = refl

steps-connect_instance :
    (steps starts 5 (Point.test_client none) late ≡ (Point.rest true, disconnect late))
    × (steps starts 11 (Point.test_client (some request)) late
        ≡ returned (connect starts late "ws://host" true 5000 none))
steps-connect_instance = steps-connect starts late request
