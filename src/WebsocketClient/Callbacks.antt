-- ===== src/WebsocketClient/Callbacks.antt =====
-- The callbacks of WebsocketClient in a history.
use base_utilities_esp.Base.{
  ℕ, suc, ◌+◌, ◌≤◌, true, false, ◌≡◌, refl, ◌||◌, List, [], ◌∷◌, arith, if◌then◌else◌,
}
use base_utilities_esp.WebsocketClient.Library.{Event, Entry, EspWebsocket}
use base_utilities_esp.WebsocketClient.{Client}
use base_utilities_esp.WebsocketClient.History.{link, disciplined, allowed, ends_link}
use base_utilities_esp.WebsocketClient.Reach.{Reachable, Reachable-IsSound}

-- How often the connection came up, and how often the disconnected callback ran.
abbrev pub times_up : List Entry → ℕ
times_up [] = 0
times_up (Entry.event h Event.connected ∷ t) = suc (times_up t)
times_up (e ∷ t) = times_up t

abbrev pub times_down_called : List Entry → ℕ
times_down_called [] = 0
times_down_called (Entry.ran_disconnected ∷ t) = suc (times_down_called t)
times_down_called (e ∷ t) = times_down_called t

-- One if a connection is up, or ended with the latest event.
abbrev owed : List Entry → ℕ
owed t = if link t || ends_link t then 1 else 0

no_link : (t : List Entry) → ends_link t ≡ true → link t ≡ false
unfolding link
no_link (Entry.event h Event.disconnected ∷ t) e = refl
no_link t e = ground arith

times_down_called-le :
    (t : List Entry) → disciplined t ≡ true → times_down_called t + owed t ≤ times_up t
unfolding disciplined allowed link
times_down_called-le [] ok = omega arith
times_down_called-le (Entry.ran_disconnected ∷ t) ok =
    ground (arith, no_link t, times_down_called-le t)
times_down_called-le (Entry.event h Event.connected ∷ t) ok = ground (arith, times_down_called-le t)
times_down_called-le (e ∷ t) ok = ground (arith, times_down_called-le t)

-- In any history of a client, the disconnected callback has run at most once for each time that the
-- connection came up.
pub times_down_called-Reachable :
    (W : EspWebsocket) (s : Client) → Reachable W s → times_down_called s.past ≤ times_up s.past
times_down_called-Reachable W s r =
    omega (arith, times_down_called-le s.past (Reachable-IsSound W s r).3)
