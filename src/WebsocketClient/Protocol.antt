-- ===== src/WebsocketClient/Protocol.antt =====
-- The life of a WebsocketClient as steps, and what holds of its history after any of them.
use base_utilities_esp.Base.{
  ℕ, String, ap, sym, ◌∙◌, Bool, true, false, ◌≡◌, refl, ◌&&◌, ltb, ◌==◌, ==_iff, Option, none,
  some, List, arith, Bool-cases, inl, inr,
}
use base_utilities_esp.WebsocketClient.Library.{Config, Event, Entry, EspWebsocket}
use base_utilities_esp.WebsocketClient.{
  Client, make, opcode_text, opcode_binary, log, disconnect, close_handle, connect, open_handle,
  start_handle, is_connected, ask_connected, send_call, send, send_frame,
}
use base_utilities_esp.WebsocketClient.Events.{run_if, dispatch}
use base_utilities_esp.WebsocketClient.History.{
  Phase, phase, link, disciplined, allowed, is_started,
}

-- The library's client while no method runs.
abbrev pub resting : Option ℕ → Phase
resting none = Phase.idle
resting (some h) = Phase.started h

-- The object agrees with its history.
abbrev pub IsSound : Client → Type 0
IsSound s =
    (phase s.past ≡ resting s.handle)
    × (link s.past ≡ s.connected)
    × (s.handle ≡ none → s.connected ≡ false)
    × (disciplined s.past ≡ true)

pub same_handle : (h : ℕ) → (h == h) ≡ true
same_handle h = (==_iff h h).1 refl

pub make-IsSound : IsSound make
unfolding phase link disciplined
make-IsSound = (refl, refl, λ h. refl, refl)

-- A handle that is set names a started client.
pub phase-handle :
    (s : Client) (h : ℕ) → s.handle ≡ some h → IsSound s → phase s.past ≡ Phase.started h
phase-handle s h e (at, up, closed, ok) = at ∙ ap resting e

-- What the library allows only on a started client, it allows on the one that the object holds.
live_entry :
    (s : Client) (h : ℕ)
    → s.handle ≡ some h
    → IsSound s
    → (is_started h (phase s.past) && disciplined s.past) ≡ true
live_entry s h live sound = rw (phase-handle s h live sound, sound.3, same_handle h) refl

close_handle-IsSound :
    (s : Client) (o : Option ℕ) → s.handle ≡ o → IsSound s → IsSound (close_handle o s)
unfolding close_handle phase link disciplined allowed
close_handle-IsSound s none e sound = sound
close_handle-IsSound s (some h) e sound =
    (refl, refl, λ z. refl, rw (phase-handle s h e sound, sound.3, same_handle h) refl)

pub disconnect-IsSound : (s : Client) → IsSound s → IsSound (disconnect s)
unfolding disconnect
disconnect-IsSound s = close_handle-IsSound s s.handle refl

handle-close_handle : (o : Option ℕ) (s : Client) → s.handle ≡ o → (close_handle o s).handle ≡ none
unfolding close_handle
handle-close_handle none s e = e
handle-close_handle (some h) s e = refl

-- After `disconnect` there is no client, in the object and in the library.
pub handle-disconnect : (s : Client) → (disconnect s).handle ≡ none
unfolding disconnect
handle-disconnect s = handle-close_handle s.handle s refl

module _ (W : EspWebsocket) where
  start_handle-IsSound :
      (h : ℕ) (s : Client)
      → s.handle ≡ some h
      → phase s.past ≡ Phase.registered h
      → link s.past ≡ s.connected
      → s.connected ≡ false
      → disciplined s.past ≡ true
      → IsSound (start_handle W h s).1
  unfolding start_handle phase link disciplined allowed
  start_handle-IsSound h s e at up down ok = elim (Bool-cases (W.start s.past h)) [
    | inl y ↦ rw (y, at, ok, same_handle h, e, up) (refl, refl, λ z. down, refl)
    | inr n ↦ rw (n, at, ok, same_handle h) (refl, sym down, λ z. down, refl)
  ]

  open_handle-IsSound :
      (c : Config) (o : Option ℕ) (s : Client)
      → s.handle ≡ none
      → IsSound s
      → IsSound (open_handle W c o s).1
  unfolding open_handle phase link disciplined allowed
  open_handle-IsSound c none s e (at, up, closed, ok) =
      (rw (at, e) refl, up, λ z. closed e, rw (at, e, ok) refl)
  open_handle-IsSound c (some h) s e (at, up, closed, ok) =
      start_handle-IsSound h _ refl refl up (closed e) (rw (same_handle h, at, e, ok) refl)

  pub connect-IsSound :
      (s : Client) (url : String) (auto : Bool) (delay : ℕ) (sub : Option String)
      → IsSound s
      → IsSound (connect W s url auto delay sub).1
  unfolding connect
  connect-IsSound s url auto delay sub sound =
      open_handle-IsSound _ _ _ (handle-disconnect s) (disconnect-IsSound s sound)

  ask_connected-IsSound :
      (s : Client) (o : Option ℕ) → s.handle ≡ o → IsSound s → IsSound (ask_connected W o s).1
  unfolding ask_connected phase link disciplined allowed
  ask_connected-IsSound s none e sound = sound
  ask_connected-IsSound s (some h) e sound = (sound.0, sound.1, sound.2, live_entry s h e sound)

  pub is_connected-IsSound : (s : Client) → IsSound s → IsSound (is_connected W s).1
  unfolding is_connected
  is_connected-IsSound s = ask_connected-IsSound s s.handle refl

  connected-ask_connected :
      (s : Client) (o : Option ℕ)
      → (ask_connected W o s).0 ≡ true
      → (ask_connected W o s).1.connected ≡ true
  unfolding ask_connected
  connected-ask_connected s none answer = ground arith
  connected-ask_connected s (some h) answer = ground arith

  -- A positive answer of `is_connected` means that the object is connected.
  pub connected-is_connected :
      (s : Client) → (is_connected W s).0 ≡ true → (is_connected W s).1.connected ≡ true
  unfolding is_connected
  connected-is_connected s = connected-ask_connected s s.handle

  send_call-IsSound :
      (s : Client) (o : Option ℕ) (opcode : ℕ) (bytes : List ℕ) (len : ℕ)
      → s.handle ≡ o
      → s.connected ≡ true
      → IsSound s
      → IsSound (send_call W o s opcode bytes len).1
  unfolding send_call phase link disciplined allowed
  send_call-IsSound s none opcode bytes len e up sound = sound
  send_call-IsSound s (some h) opcode bytes len e up sound = (
    sound.0,
    sound.1,
    sound.2,
    rw (phase-handle s h e sound, sound.3, same_handle h, sound.1, up) refl,
  )

  pub send-IsSound :
      (s : Client) (bytes : List ℕ) (len opcode : ℕ)
      → IsSound s
      → IsSound (send W s bytes len opcode).1
  unfolding send
  send-IsSound s bytes len opcode sound = elim (Bool-cases (is_connected W s).0) [
    | inl up ↦ elim (Bool-cases (opcode == opcode_binary)) [
      | inl b ↦ rw (up, b) (sent up opcode_binary)
      | inr b ↦ elim (Bool-cases (opcode == opcode_text)) [
        | inl t ↦ rw (up, b, t) (sent up opcode_text)
        | inr t ↦ rw (up, b, t) (is_connected-IsSound s sound)
      ]
    ]
    | inr down ↦ rw down (is_connected-IsSound s sound)
  ]
    where
      sent :
          (is_connected W s).0 ≡ true
          → (opcode : ℕ)
          → IsSound
              (send_call W (is_connected W s).1.handle (is_connected W s).1 opcode bytes len).1
      sent up opcode =
          send_call-IsSound _ _ opcode bytes len refl (connected-is_connected s up)
            (is_connected-IsSound s sound)

  pub send_frame-IsSound :
      (s : Client) (fin : Bool) (opcode : ℕ) (bytes : List ℕ) (len : ℕ)
      → IsSound s
      → IsSound (send_frame W s fin opcode bytes len).1
  unfolding send_frame
  send_frame-IsSound s fin opcode bytes len sound = elim (Bool-cases (is_connected W s).0) [
    | inl up ↦ rw up (
        send_call-IsSound _ _ opcode bytes len refl (connected-is_connected s up)
          (is_connected-IsSound s sound))
    | inr down ↦ rw down (is_connected-IsSound s sound)
  ]

-- A callback that may run leaves the object sound.
run_if-IsSound :
    (set : Bool) (e : Entry) (s : Client)
    → (set ≡ true → IsSound (log e s))
    → IsSound s
    → IsSound (run_if set e s)
run_if-IsSound true e s ran sound = ran refl
run_if-IsSound false e s ran sound = sound

pub dispatch-IsSound :
    (h : ℕ) (e : Event) (s : Client)
    → s.handle ≡ some h
    → IsSound s
    → IsSound (dispatch e (log (Entry.event h e) s))
unfolding dispatch phase link disciplined allowed
dispatch-IsSound h Event.connected s live sound =
    let ok = live_entry s h live sound in
    run_if-IsSound s.connected_callback Entry.ran_connected
      (record (log (Entry.event h Event.connected) s) { connected = true })
      (λ set. (sound.0, refl, λ z. cc, ok)) (sound.0, refl, λ z. cc, ok)
dispatch-IsSound h Event.disconnected s live sound =
    let ok = live_entry s h live sound in
    run_if-IsSound (s.connected && s.disconnected_callback) Entry.ran_disconnected
      (record (log (Entry.event h Event.disconnected) s) { connected = false })
      (λ set. (sound.0, refl, λ z. refl, ground (arith, sound.1))) (sound.0, refl, λ z. refl, ok)
dispatch-IsSound h (Event.data_received c b n) s live sound =
    let ok = live_entry s h live sound in
    run_if-IsSound (s.message_callback && ltb 0 n) (Entry.ran_message c b n)
      (log (Entry.event h (Event.data_received c b n)) s) (λ set. (sound.0, sound.1, sound.2, ok))
      (sound.0, sound.1, sound.2, ok)
dispatch-IsSound h (Event.error c) s live sound =
    let ok = live_entry s h live sound in
    run_if-IsSound s.error_callback (Entry.ran_error c) (log (Entry.event h (Event.error c)) s)
      (λ set. (sound.0, sound.1, sound.2, ok)) (sound.0, sound.1, sound.2, ok)
dispatch-IsSound h (Event.other i) s live sound =
    (sound.0, sound.1, sound.2, live_entry s h live sound)
