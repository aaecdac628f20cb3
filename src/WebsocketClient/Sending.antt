-- ===== src/WebsocketClient/Sending.antt =====
-- What the methods of WebsocketClient that open, close and send report.
use base_utilities_esp.Base.{
  ℕ, suc, ◌<◌, ◌^◌, String, Bool, true, false, ◌≡◌, refl, ◌⊎◌, inl, inr, Option, none, some, List,
  [], ◌∷◌, arith, is_some, ap, ◌∙◌, sym, eqb_ℤ, pos, length, take_all, bits_i32-pos,
}
use base_utilities_esp.WebsocketClient.Library.{Config, Entry, EspWebsocket}
use base_utilities_esp.WebsocketClient.{
  Client, log, disconnect, connect, open_handle, start_handle, is_connected, ask_connected, send,
  send_call, send_frame, opcode_text, opcode_binary,
}
use base_utilities_esp.WebsocketClient.History.{Phase, phase, link}
use base_utilities_esp.WebsocketClient.Protocol.{
  connect-IsSound, resting, disconnect-IsSound, handle-disconnect,
}
use base_utilities_esp.WebsocketClient.Reach.{Reachable, Reachable-IsSound}

-- How many messages were handed to the library.
abbrev pub times_sent : List Entry → ℕ
times_sent [] = 0
times_sent (Entry.sent h opcode bytes ∷ t) = suc (times_sent t)
times_sent (e ∷ t) = times_sent t

-- `disconnect` leaves no client behind, in the object and in the library, whatever came before it.
pub phase-disconnect :
    (W : EspWebsocket) (s : Client)
    → Reachable W s
    → (phase (disconnect s).past ≡ Phase.idle)
      × ((disconnect s).handle ≡ none)
      × ((disconnect s).connected ≡ false)
phase-disconnect W s r =
    let sound = disconnect-IsSound s (Reachable-IsSound W s r) in
    let closed = handle-disconnect s in (sound.0 ∙ ap resting closed, closed, sound.2 closed)

is_some-false : (o : Option ℕ) → is_some o ≡ false → o ≡ none
is_some-false none e = refl
is_some-false (some h) e = absurd (ground arith)

module _ (W : EspWebsocket) where
  start_handle_lem :
      (h : ℕ) (s : Client)
      → s.handle ≡ some h
      → (start_handle W h s).0 ≡ is_some (start_handle W h s).1.handle
  unfolding start_handle
  start_handle_lem h s e = ground arith

  open_handle_lem :
      (c : Config) (o : Option ℕ) (s : Client)
      → (open_handle W c o s).0 ≡ is_some (open_handle W c o s).1.handle
  unfolding open_handle
  open_handle_lem c none s = refl
  open_handle_lem c (some h) s = start_handle_lem h _ refl

  connect-handle :
      (s : Client) (url : String) (auto : Bool) (delay : ℕ) (sub : Option String)
      → let (ok, t) = connect W s url auto delay sub in ok ≡ is_some t.handle
  unfolding connect
  connect-handle s url auto delay sub = open_handle_lem _ _ _

  -- `connect` on any object that can come about reports success exactly when the object then holds a
  -- client; the library's client is then started, and after a failure there is none in the library, and
  -- the object is not connected.
  pub connect_lem :
      (s : Client) (url : String) (auto : Bool) (delay : ℕ) (sub : Option String)
      → Reachable W s
      → let (ok, t) = connect W s url auto delay sub in
        (ok ≡ is_some t.handle)
        × (phase t.past ≡ resting t.handle)
        × (ok ≡ false → (phase t.past ≡ Phase.idle) × (t.connected ≡ false))
  connect_lem s url auto delay sub r =
      let sound = connect-IsSound W s url auto delay sub (Reachable-IsSound W s r) in
      let reported = connect-handle s url auto delay sub in
      (
        reported,
        sound.0,
        λ failed.
            let gone =
              is_some-false (connect W s url auto delay sub).1.handle (sym reported ∙ failed) in
            (sound.0 ∙ ap resting gone, sound.2 gone),
      )

  ask_connected-up :
      (s : Client) (o : Option ℕ) (h : ℕ)
      → o ≡ some h
      → W.is_connected s.past h ≡ true
      → s.connected ≡ true
      → ask_connected W o s ≡ (true, log (Entry.asked h true) s)
  unfolding ask_connected
  ask_connected-up s o h e up ready = rw (e, up, ready) refl

  is_connected-up :
      (s : Client) (h : ℕ)
      → s.handle ≡ some h
      → W.is_connected s.past h ≡ true
      → s.connected ≡ true
      → is_connected W s ≡ (true, log (Entry.asked h true) s)
  unfolding is_connected
  is_connected-up s = ask_connected-up s s.handle

  send_call-up :
      (s : Client) (o : Option ℕ) (h opcode : ℕ) (bytes : List ℕ)
      → o ≡ some h
      → length bytes < 2 ^ 31
      → send_call W o s opcode bytes (length bytes)
        ≡ (eqb_ℤ (W.send s.past h) (pos (length bytes)), log (Entry.sent h opcode bytes) s)
  unfolding send_call
  send_call-up s o h opcode bytes e small =
      rw (e, take_all (length bytes) bytes (omega arith), bits_i32-pos (length bytes) small) refl

  -- On an object that holds a client, whose connection is up in its own and in the library's view, a
  -- text or binary message of less than 2^31 bytes is handed to the library whole, after one question
  -- whether the connection is up, and send reports whether the library took all its bytes.
  pub send_lem :
      (s : Client) (h : ℕ) (bytes : List ℕ) (opcode : ℕ)
      → s.handle ≡ some h
      → W.is_connected s.past h ≡ true
      → s.connected ≡ true
      → (opcode ≡ opcode_text) ⊎ (opcode ≡ opcode_binary)
      → length bytes < 2 ^ 31
      → let s₁ = log (Entry.asked h true) s in
        send W s bytes (length bytes) opcode
        ≡ (eqb_ℤ (W.send s₁.past h) (pos (length bytes)), log (Entry.sent h opcode bytes) s₁)
  unfolding send
  send_lem s h bytes opcode e up ready (inl text) small =
      rw (is_connected-up s h e up ready, text)
        (send_call-up _ s.handle h opcode_text bytes e small)
  send_lem s h bytes opcode e up ready (inr binary) small =
      rw (is_connected-up s h e up ready, binary)
        (send_call-up _ s.handle h opcode_binary bytes e small)

  ask_connected-down :
      (s : Client) (o : Option ℕ)
      → s.connected ≡ false
      → ((ask_connected W o s).0 ≡ false)
        × (times_sent (ask_connected W o s).1.past ≡ times_sent s.past)
  unfolding ask_connected
  ask_connected-down s none down = (refl, refl)
  ask_connected-down s (some h) down = (ground arith, refl)

  is_connected-down :
      (s : Client)
      → s.connected ≡ false
      → ((is_connected W s).0 ≡ false) × (times_sent (is_connected W s).1.past ≡ times_sent s.past)
  unfolding is_connected
  is_connected-down s = ask_connected-down s s.handle

  -- While the last event about the connection of the present client does not say that it is up, send
  -- and send_frame fail and hand nothing to the library, whatever the message and its opcode.
  pub send_down :
      (s : Client) (bytes : List ℕ) (len opcode : ℕ) (fin : Bool)
      → Reachable W s
      → link s.past ≡ false
      → ((send W s bytes len opcode).0 ≡ false)
        × (times_sent (send W s bytes len opcode).1.past ≡ times_sent s.past)
        × ((send_frame W s fin opcode bytes len).0 ≡ false)
        × (times_sent (send_frame W s fin opcode bytes len).1.past ≡ times_sent s.past)
  unfolding send send_frame
  send_down s bytes len opcode fin r down =
      let (refused, same) = is_connected-down s (sym (Reachable-IsSound W s r).1 ∙ down) in
      rw refused (refl, same, refl, same)
