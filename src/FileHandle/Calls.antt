-- ===== src/FileHandle/Calls.antt =====
-- Calls on a FileHandle that is open, and their replies; and all methods that act on the system.
use base_utilities_esp.Base.{ℕ, ◌+◌, Bool, List, [], ◌∷◌, length, ℤ, String}

-- `getline` has the caller's string, `extract` the object that it reads into, as bytes.
pub data Call : Type 0 where
  read : ℕ → Call
  getline : (delimiter : ℕ) → (line : List ℕ) → Call
  extract_string : Call
  extract : (value : List ℕ) → Call
  read_all : Call
  rewind : Call
  tell : Call
  size : Call
  available : Call
  has_available : Call
  write : List ℕ → Call
  insert : List ℕ → Call

pub data Reply : Type 0 where
  no_reply : Reply
  count : ℤ → Reply
  flag : Bool → Reply
  text : List ℕ → Reply
  counted : ℤ → List ℕ → Reply
  line : Bool → List ℕ → Reply

-- The bytes that the calls are given to write.
abbrev pub to_write : List Call → ℕ
to_write [] = 0
to_write (Call.write bytes ∷ cs) = length bytes + to_write cs
to_write (Call.insert bytes ∷ cs) = length bytes + to_write cs
to_write (c ∷ cs) = to_write cs

-- The methods that act on the system; the destructor is `close`.
pub data Method : Type 0 where
  start : String → ℕ → ℕ → Method
  close : Method
  sync : Method
  seek : ℤ → ℕ → Method
  writeline : List ℕ → Method
  call : Call → Method
