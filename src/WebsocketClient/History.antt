-- ===== src/WebsocketClient/History.antt =====
-- Histories of a WebsocketClient: where the library's client stands after one, and which entries may
-- come next.
use base_utilities_esp.Base.{ℕ, Bool, true, false, ◌&&◌, some, List, [], ◌∷◌, ◌==◌}
use base_utilities_esp.WebsocketClient.Library.{Event, Entry}

-- The client of the library in its life: not there, or in one of four states.
pub data Phase : Type 0 where
  idle : Phase
  created : ℕ → Phase
  registered : ℕ → Phase
  started : ℕ → Phase
  stopped : ℕ → Phase

unfoldable pub phase : List Entry → Phase
phase [] = Phase.idle
phase (Entry.init config (some h) ∷ t) = Phase.created h
phase (Entry.register h ∷ t) = Phase.registered h
phase (Entry.start h true ∷ t) = Phase.started h
phase (Entry.stop h ∷ t) = Phase.stopped h
phase (Entry.destroy h ∷ t) = Phase.idle
phase (e ∷ t) = phase t

-- Whether the last event about the connection of the present client says that it is up.
unfoldable pub link : List Entry → Bool
link [] = false
link (Entry.event h Event.connected ∷ t) = true
link (Entry.event h Event.disconnected ∷ t) = false
link (Entry.destroy h ∷ t) = false
link (e ∷ t) = link t

abbrev is_idle : Phase → Bool
is_idle Phase.idle = true
is_idle p = false

abbrev is_created : ℕ → Phase → Bool
is_created h (Phase.created k) = h == k
is_created h p = false

abbrev is_registered : ℕ → Phase → Bool
is_registered h (Phase.registered k) = h == k
is_registered h p = false

abbrev pub is_started : ℕ → Phase → Bool
is_started h (Phase.started k) = h == k
is_started h p = false

-- A client is destroyed when it was stopped, or when its start failed.
abbrev is_down : ℕ → Phase → Bool
is_down h (Phase.stopped k) = h == k
is_down h (Phase.registered k) = h == k
is_down h p = false

-- The disconnected callback follows an event that ends a connection that was up.
abbrev pub ends_link : List Entry → Bool
ends_link (Entry.event h Event.disconnected ∷ t) = link t
ends_link t = false

abbrev follows_connected : List Entry → Bool
follows_connected (Entry.event h Event.connected ∷ t) = true
follows_connected t = false

abbrev follows_data : List Entry → Bool
follows_data (Entry.event h (Event.data_received c d n) ∷ t) = true
follows_data t = false

abbrev follows_error : List Entry → Bool
follows_error (Entry.event h (Event.error c) ∷ t) = true
follows_error t = false

-- Whether an entry may follow a history.
unfoldable pub allowed : Entry → List Entry → Bool
allowed (Entry.init config answer) t = is_idle (phase t)
allowed (Entry.register h) t = is_created h (phase t)
allowed (Entry.start h ok) t = is_registered h (phase t)
allowed (Entry.stop h) t = is_started h (phase t)
allowed (Entry.destroy h) t = is_down h (phase t)
allowed (Entry.asked h answer) t = is_started h (phase t)
allowed (Entry.sent h opcode bytes) t = is_started h (phase t) && link t
allowed (Entry.event h e) t = is_started h (phase t)
allowed Entry.ran_connected t = follows_connected t
allowed Entry.ran_disconnected t = ends_link t
allowed (Entry.ran_message opcode bytes len) t = follows_data t
allowed (Entry.ran_error code) t = follows_error t

unfoldable pub disciplined : List Entry → Bool
disciplined [] = true
disciplined (e ∷ t) = allowed e t && disciplined t
