-- ===== src/WebsocketClient/WholeCalls.antt =====
-- connect and disconnect of WebsocketClient, run to their end without an event in between.
use base_utilities_esp.Base.{
  ℕ, suc, zero, ◌∙◌, sym, Bool, true, false, ◌≡◌, refl, Option, none, some,
}
use base_utilities_esp.WebsocketClient.Library.{Config, Entry, EspWebsocket}
use base_utilities_esp.WebsocketClient.{
  Client, log, connect, disconnect, open_handle, start_handle, close_handle, make_config,
}
use base_utilities_esp.WebsocketClient.Steps.{
  Request, Point, after_disconnect, after_test, after_init, after_start, step, steps,
}

-- The end of a method.
abbrev pub returned : Bool × Client → Point × Client
returned (b, s) = (Point.rest b, s)

-- `connect` from the assignment of its arguments on.
unfoldable connect_to : EspWebsocket → Request → Client → Bool × Client
unfolding open_handle
connect_to W r s =
    let s₁ : Client = record s {
      auto_reconnect = r.auto_reconnect;
      reconnect_delay_ms = r.reconnect_delay_ms;
      url = r.url;
    } in
    let config : Config = make_config s₁ r.subprotocol in
    open_handle W config (W.init s₁.past config) s₁

module _ (W : EspWebsocket) where
  steps-rest : (n : ℕ) (b : Bool) (s : Client) → steps W n (Point.rest b) s ≡ (Point.rest b, s)
  unfolding steps step
  steps-rest zero b s = refl
  steps-rest (suc n) b s = steps-rest n b s

  start-steps :
      (n h : ℕ) (s : Client) (ok : Bool)
      → W.start s.past h ≡ ok
      → steps W (suc (suc n)) (after_start h ok) (log (Entry.start h ok) s)
        ≡ returned (start_handle W h s)
  unfolding steps step start_handle
  start-steps n h s true e = rw e (steps-rest n true _)
  start-steps n h s false e = rw e (steps-rest n false _)

  open-steps :
      (n : ℕ) (c : Config) (o : Option ℕ) (s : Client)
      → steps W
          (suc (suc (suc (suc n))))
          (after_init o)
          (record (log (Entry.init c o) s) { handle = o })
        ≡ returned (open_handle W c o s)
  unfolding steps step open_handle
  open-steps n c none s = steps-rest n false _
  open-steps n c (some h) s = start-steps n h _ _ refl

  connect-steps :
      (n : ℕ) (r : Request) (s : Client)
      → steps W (suc (suc (suc (suc (suc (suc n)))))) (Point.set_fields r) s
        ≡ returned (connect_to W r s)
  unfolding steps step connect_to
  connect-steps n r s = open-steps n _ _ _

  disconnect-steps :
      (n : ℕ) (a : Option Request) (s : Client) (o : Option ℕ)
      → s.handle ≡ o
      → steps W (suc (suc (suc (suc n)))) (after_disconnect a) s ≡ steps W n (after_disconnect a) s
      → steps W (suc (suc (suc (suc n)))) (after_test o a) s
        ≡ steps W n (after_disconnect a) (close_handle o s)
  unfolding steps step close_handle
  disconnect-steps n a s none e idle = idle
  disconnect-steps n a s (some h) e idle = refl

  -- Five steps carry out `disconnect`, and eleven `connect`: without events in between they do what
  -- the methods do as a whole.
  pub steps-connect :
      (s : Client) (r : Request)
      → (steps W 5 (Point.test_client none) s ≡ (Point.rest true, disconnect s))
        × (steps W 11 (Point.test_client (some r)) s
            ≡ returned (connect W s r.url r.auto_reconnect r.reconnect_delay_ms r.subprotocol))
  unfolding connect disconnect steps step connect_to
  steps-connect s r = (
    disconnect-steps 0 none s s.handle refl (steps-rest 4 true s) ∙ steps-rest 0 true _,
    disconnect-steps 6 (some r) s s.handle refl (connect-steps 4 r s ∙ sym (connect-steps 0 r s))
        ∙ connect-steps 0 r (close_handle s.handle s),
  )
