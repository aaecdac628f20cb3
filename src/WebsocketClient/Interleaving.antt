-- ===== src/WebsocketClient/Interleaving.antt =====
-- What holds of a WebsocketClient at each point of connect and disconnect, with events in between.
mod Tests
use base_utilities_esp.Base.{
  ℕ, String, ap, sym, ◌∙◌, Bool, true, false, ◌≡◌, refl, ◌&&◌, ◌==◌, ==_iff, Option, none, some,
  List, arith, Bool-cases, inl, inr, subst, ◌≢◌,
}
use base_utilities_esp.WebsocketClient.Library.{Config, Event, Entry, EspWebsocket}
use base_utilities_esp.WebsocketClient.{
  Client, make, log, connect, disconnect, open_handle, start_handle, close_handle,
}
use base_utilities_esp.WebsocketClient.Events.{run_if, dispatch, websocket_event_handler}
use base_utilities_esp.WebsocketClient.History.{Phase, phase, link, disciplined, allowed}
use base_utilities_esp.WebsocketClient.Protocol.{
  IsSound, make-IsSound, resting, dispatch-IsSound, phase-handle, same_handle,
}
use base_utilities_esp.WebsocketClient.Reach.{run-IsSound}
use base_utilities_esp.WebsocketClient.Steps.{
  Request, Point, after_disconnect, after_test, after_init, after_start, step, steps, Interleaved,
}

-- The library's client is in the phase, its connection is not up, and the history is disciplined.
abbrev pub Stands : Phase → Client → Type 0
Stands p s = (phase s.past ≡ p) × (link s.past ≡ false) × (disciplined s.past ≡ true)

abbrev pub IsSoundAt : Point → Client → Type 0
IsSoundAt (Point.rest b) s = IsSound s
IsSoundAt (Point.test_client a) s = IsSound s
IsSoundAt (Point.stop_client h a) s = IsSound s × (s.handle ≡ some h)
IsSoundAt (Point.destroy_client h a) s =
    (phase s.past ≡ Phase.stopped h) × (s.handle ≡ some h) × (disciplined s.past ≡ true)
IsSoundAt (Point.clear_client a) s = Stands Phase.idle s
IsSoundAt (Point.clear_connected a) s = Stands Phase.idle s × (s.handle ≡ none)
IsSoundAt (Point.set_fields r) s = IsSound s × (s.handle ≡ none)
IsSoundAt (Point.init_client r) s = IsSound s × (s.handle ≡ none)
IsSoundAt (Point.register_events h) s =
    Stands (Phase.created h) s × (s.handle ≡ some h) × (s.connected ≡ false)
IsSoundAt (Point.start_client h) s =
    Stands (Phase.registered h) s × (s.handle ≡ some h) × (s.connected ≡ false)
IsSoundAt (Point.destroy_failed h) s =
    Stands (Phase.registered h) s × (s.handle ≡ some h) × (s.connected ≡ false)
IsSoundAt Point.clear_failed s = Stands Phase.idle s × (s.connected ≡ false)

handle-run_if : (b : Bool) (e : Entry) (s : Client) → (run_if b e s).handle ≡ s.handle
handle-run_if true e s = refl
handle-run_if false e s = refl

handle-dispatch : (e : Event) (s : Client) → (dispatch e s).handle ≡ s.handle
unfolding dispatch
handle-dispatch Event.connected s = handle-run_if _ _ _
handle-dispatch Event.disconnected s = handle-run_if _ _ _
handle-dispatch (Event.data_received c d n) s = handle-run_if _ _ _
handle-dispatch (Event.error c) s = handle-run_if _ _ _
handle-dispatch (Event.other c) s = refl

after_disconnect-IsSoundAt :
    (a : Option Request) (s : Client)
    → IsSound s
    → s.handle ≡ none
    → IsSoundAt (after_disconnect a) s
after_disconnect-IsSoundAt none s sound e = sound
after_disconnect-IsSoundAt (some r) s sound e = (sound, e)

after_test-IsSoundAt :
    (o : Option ℕ) (a : Option Request) (s : Client)
    → s.handle ≡ o
    → IsSound s
    → IsSoundAt (after_test o a) s
after_test-IsSoundAt none a s e sound = after_disconnect-IsSoundAt a s sound e
after_test-IsSoundAt (some h) a s e sound = (sound, e)

after_init-IsSoundAt :
    (c : Config) (o : Option ℕ) (s : Client)
    → IsSound s
    → s.handle ≡ none
    → IsSoundAt (after_init o) (record (log (Entry.init c o) s) { handle = o })
unfolding phase link disciplined allowed
after_init-IsSoundAt c none s (at, up, closed, ok) e =
    (at ∙ ap resting e, up, λ z. closed e, rw (at, e, ok) refl)
after_init-IsSoundAt c (some h) s (at, up, closed, ok) e =
    ((refl, up ∙ closed e, rw (at, e, ok) refl), refl, closed e)

after_start-IsSoundAt :
    (h : ℕ) (ok : Bool) (s : Client)
    → IsSoundAt (Point.start_client h) s
    → IsSoundAt (after_start h ok) (log (Entry.start h ok) s)
unfolding phase link disciplined allowed
after_start-IsSoundAt h true s ((at, up, ok), e, down) =
    (ap resting (sym e), up ∙ sym down, λ z. down, rw (at, same_handle h, ok) refl)
after_start-IsSoundAt h false s ((at, up, ok), e, down) =
    ((at, up, rw (at, same_handle h, ok) refl), e, down)

step-IsSoundAt :
    (W : EspWebsocket) (p : Point) (s : Client)
    → IsSoundAt p s
    → IsSoundAt (step W p s).0 (step W p s).1
unfolding step phase link disciplined allowed
step-IsSoundAt W (Point.rest b) s i = i
step-IsSoundAt W (Point.test_client a) s i = after_test-IsSoundAt s.handle a s refl i
step-IsSoundAt W (Point.stop_client h a) s (sound, e) =
    (refl, e, rw (phase-handle s h e sound, sound.3, same_handle h) refl)
step-IsSoundAt W (Point.destroy_client h a) s (at, e, ok) =
    (refl, refl, rw (at, ok, same_handle h) refl)
step-IsSoundAt W (Point.clear_client a) s i = (i, refl)
step-IsSoundAt W (Point.clear_connected a) s ((at, up, ok), e) =
    after_disconnect-IsSoundAt a _ (at ∙ ap resting (sym e), up, λ z. refl, ok) e
step-IsSoundAt W (Point.set_fields r) s i = i
step-IsSoundAt W (Point.init_client r) s (sound, e) = after_init-IsSoundAt _ _ s sound e
step-IsSoundAt W (Point.register_events h) s ((at, up, ok), e, down) =
    ((refl, up, rw (at, ok, same_handle h) refl), e, down)
step-IsSoundAt W (Point.start_client h) s i = after_start-IsSoundAt h (W.start s.past h) s i
step-IsSoundAt W (Point.destroy_failed h) s ((at, up, ok), e, down) =
    ((refl, refl, rw (at, ok, same_handle h) refl), down)
step-IsSoundAt W Point.clear_failed s ((at, up, ok), down) = (at, up ∙ sym down, λ z. down, ok)

-- Where a client is started, the object holds it.
resting-started : (o : Option ℕ) (h : ℕ) → resting o ≡ Phase.started h → o ≡ some h
resting-started none h e = absurd (ground arith)
resting-started (some k) h e = ground arith

handle-IsSound :
    (s : Client) (h : ℕ) → phase s.past ≡ Phase.started h → IsSound s → s.handle ≡ some h
handle-IsSound s h e sound = resting-started s.handle h (sym sound.0 ∙ e)

handle-IsSoundAt :
    (p : Point) (s : Client) (h : ℕ)
    → phase s.past ≡ Phase.started h
    → IsSoundAt p s
    → IsSound s × (s.handle ≡ some h)
handle-IsSoundAt (Point.rest b) s h e i = (i, handle-IsSound s h e i)
handle-IsSoundAt (Point.test_client a) s h e i = (i, handle-IsSound s h e i)
handle-IsSoundAt (Point.stop_client k a) s h e i = (i.0, handle-IsSound s h e i.0)
handle-IsSoundAt (Point.destroy_client k a) s h e i = absurd (ground (arith, sym i.0 ∙ e))
handle-IsSoundAt (Point.clear_client a) s h e i = absurd (ground (arith, sym i.0 ∙ e))
handle-IsSoundAt (Point.clear_connected a) s h e i = absurd (ground (arith, sym i.0.0 ∙ e))
handle-IsSoundAt (Point.set_fields r) s h e i = (i.0, handle-IsSound s h e i.0)
handle-IsSoundAt (Point.init_client r) s h e i = (i.0, handle-IsSound s h e i.0)
handle-IsSoundAt (Point.register_events k) s h e i = absurd (ground (arith, sym i.0.0 ∙ e))
handle-IsSoundAt (Point.start_client k) s h e i = absurd (ground (arith, sym i.0.0 ∙ e))
handle-IsSoundAt (Point.destroy_failed k) s h e i = absurd (ground (arith, sym i.0.0 ∙ e))
handle-IsSoundAt Point.clear_failed s h e i = absurd (ground (arith, sym i.0.0 ∙ e))

-- An event changes neither the handle nor what holds at the point.
notified-IsSoundAt :
    (p : Point) (s t : Client) (h : ℕ)
    → phase s.past ≡ Phase.started h
    → IsSoundAt p s
    → t.handle ≡ s.handle
    → IsSound t
    → IsSoundAt p t
notified-IsSoundAt (Point.rest b) s t h e i same sound = sound
notified-IsSoundAt (Point.test_client a) s t h e i same sound = sound
notified-IsSoundAt (Point.stop_client k a) s t h e i same sound = (sound, same ∙ i.1)
notified-IsSoundAt (Point.set_fields r) s t h e i same sound = (sound, same ∙ i.1)
notified-IsSoundAt (Point.init_client r) s t h e i same sound = (sound, same ∙ i.1)
notified-IsSoundAt (Point.destroy_client k a) s t h e i same sound =
    absurd (ground (arith, sym i.0 ∙ e))
notified-IsSoundAt (Point.clear_client a) s t h e i same sound =
    absurd (ground (arith, sym i.0 ∙ e))
notified-IsSoundAt (Point.clear_connected a) s t h e i same sound =
    absurd (ground (arith, sym i.0.0 ∙ e))
notified-IsSoundAt (Point.register_events k) s t h e i same sound =
    absurd (ground (arith, sym i.0.0 ∙ e))
notified-IsSoundAt (Point.start_client k) s t h e i same sound =
    absurd (ground (arith, sym i.0.0 ∙ e))
notified-IsSoundAt (Point.destroy_failed k) s t h e i same sound =
    absurd (ground (arith, sym i.0.0 ∙ e))
notified-IsSoundAt Point.clear_failed s t h e i same sound = absurd (ground (arith, sym i.0.0 ∙ e))

-- Wherever in `connect` and `disconnect` the application stands and whenever the library reports
-- events of its started client: the calls of the library keep its protocol, the callbacks follow
-- their events, and the object agrees with the history as far as the point says; whenever no method
-- runs, `m_client` is the library's client and `m_connected` tells whether its connection is up.
pub Interleaved-IsSoundAt :
    (W : EspWebsocket) (p : Point) (s : Client) → Interleaved W p s → IsSoundAt p s
unfolding websocket_event_handler
Interleaved-IsSoundAt W p s Interleaved.constructed = make-IsSound
Interleaved-IsSoundAt W p s (Interleaved.called m b t r) =
    run-IsSound W m t (Interleaved-IsSoundAt W _ t r)
Interleaved-IsSoundAt W p s (Interleaved.disconnects b t r) = Interleaved-IsSoundAt W _ t r
Interleaved-IsSoundAt W p s (Interleaved.connects q b t r) = Interleaved-IsSoundAt W _ t r
Interleaved-IsSoundAt W p s (Interleaved.advanced q t r) =
    step-IsSoundAt W q t (Interleaved-IsSoundAt W q t r)
Interleaved-IsSoundAt W p s (Interleaved.notified h e q t live r) =
    let before = Interleaved-IsSoundAt W q t r in
    let (sound, held) = handle-IsSoundAt q t h live before in
    notified-IsSoundAt q t _ h live before (handle-dispatch e (log (Entry.event h e) t))
      (dispatch-IsSound h e t held sound)

-- An event that comes in the middle of `connect` or `disconnect` finds the client it is about in
-- `m_client`; so none comes while `m_client` names a client that is stopped or destroyed.
pub handle-Interleaved :
    (W : EspWebsocket) (p : Point) (s : Client) (h : ℕ)
    → Interleaved W p s
    → phase s.past ≡ Phase.started h
    → s.handle ≡ some h
handle-Interleaved W p s h r e = (handle-IsSoundAt p s h e (Interleaved-IsSoundAt W p s r)).1
