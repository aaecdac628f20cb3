-- ===== src/WebsocketClient/Steps.antt =====
-- connect and disconnect of WebsocketClient one call of the library or assignment at a time, so that
-- the task of the library can report an event between any two of them.
use base_utilities_esp.Base.{ℕ, suc, zero, String, Bool, true, false, Option, none, some, ◌≡◌}
use base_utilities_esp.WebsocketClient.Library.{Config, Event, Entry, EspWebsocket}
use base_utilities_esp.WebsocketClient.{Client, make, make_config, log}
use base_utilities_esp.WebsocketClient.Events.{websocket_event_handler}
use base_utilities_esp.WebsocketClient.History.{Phase, phase}
use base_utilities_esp.WebsocketClient.Calls.{Method}
use base_utilities_esp.WebsocketClient.Reach.{run}

-- The arguments of `connect`.
pub record Request : Type 0 where
  pub url : String
  pub auto_reconnect : Bool
  pub reconnect_delay_ms : ℕ
  pub subprotocol : Option String

-- What comes next in the task of the application. Inside `disconnect`, the argument is the call of
-- `connect` that it belongs to, if it does. `rest` has what the last method returned.
pub data Point : Type 0 where
  rest : Bool → Point
  test_client : Option Request → Point
  stop_client : ℕ → Option Request → Point
  destroy_client : ℕ → Option Request → Point
  clear_client : Option Request → Point
  clear_connected : Option Request → Point
  set_fields : Request → Point
  init_client : Request → Point
  register_events : ℕ → Point
  start_client : ℕ → Point
  destroy_failed : ℕ → Point
  clear_failed : Point

-- The end of `disconnect`.
abbrev pub after_disconnect : Option Request → Point
after_disconnect none = Point.rest true
after_disconnect (some r) = Point.set_fields r

abbrev pub after_test : Option ℕ → Option Request → Point
after_test none a = after_disconnect a
after_test (some h) a = Point.stop_client h a

abbrev pub after_init : Option ℕ → Point
after_init none = Point.rest false
after_init (some h) = Point.register_events h

abbrev pub after_start : ℕ → Bool → Point
after_start h true = Point.rest true
after_start h false = Point.destroy_failed h

unfoldable pub step : EspWebsocket → Point → Client → Point × Client
step W (Point.rest b) s = (Point.rest b, s)
step W (Point.test_client a) s = (after_test s.handle a, s)
step W (Point.stop_client h a) s = (Point.destroy_client h a, log (Entry.stop h) s)
step W (Point.destroy_client h a) s = (Point.clear_client a, log (Entry.destroy h) s)
step W (Point.clear_client a) s = (Point.clear_connected a, record s { handle = none })
step W (Point.clear_connected a) s = (after_disconnect a, record s { connected = false })
step W (Point.set_fields r) s = (
  Point.init_client r,
  record s {
    auto_reconnect = r.auto_reconnect;
    reconnect_delay_ms = r.reconnect_delay_ms;
    url = r.url;
  },
)
step W (Point.init_client r) s =
    let config : Config = make_config s r.subprotocol in
    let answer : Option ℕ = W.init s.past config in
    (after_init answer, record (log (Entry.init config answer) s) { handle = answer })
step W (Point.register_events h) s = (Point.start_client h, log (Entry.register h) s)
step W (Point.start_client h) s =
    let ok : Bool = W.start s.past h in (after_start h ok, log (Entry.start h ok) s)
step W (Point.destroy_failed h) s = (Point.clear_failed, log (Entry.destroy h) s)
step W Point.clear_failed s = (Point.rest false, record s { handle = none })

unfoldable pub steps : EspWebsocket → ℕ → Point → Client → Point × Client
unfolding step
steps W zero p s = (p, s)
steps W (suc n) p s = let (q, t) = step W p s in steps W n q t

-- The application calls one method after another, and `connect` and `disconnect` step by step; the
-- library reports an event whenever its client is started, wherever the application stands.
pub data Interleaved (W : EspWebsocket) : Point → Client → Type 0 where
  constructed : Interleaved W (Point.rest true) make
  called :
      (m : Method) (b : Bool) (s : Client)
      → Interleaved W (Point.rest b) s
      → Interleaved W (Point.rest b) (run W m s)
  disconnects :
      (b : Bool) (s : Client)
      → Interleaved W (Point.rest b) s
      → Interleaved W (Point.test_client none) s
  connects :
      (r : Request) (b : Bool) (s : Client)
      → Interleaved W (Point.rest b) s
      → Interleaved W (Point.test_client (some r)) s
  advanced :
      (p : Point) (s : Client) → Interleaved W p s → Interleaved W (step W p s).0 (step W p s).1
  notified :
      (h : ℕ) (e : Event) (p : Point) (s : Client)
      → phase s.past ≡ Phase.started h
      → Interleaved W p s
      → Interleaved W p (websocket_event_handler h e s)

pub Interleaved-steps :
    (W : EspWebsocket) (n : ℕ) (p : Point) (s : Client)
    → Interleaved W p s
    → Interleaved W (steps W n p s).0 (steps W n p s).1
unfolding steps
Interleaved-steps W zero p s r = r
Interleaved-steps W (suc n) p s r = Interleaved-steps W n _ _ (Interleaved.advanced p s r)
