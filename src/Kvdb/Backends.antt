-- ===== src/Kvdb/Backends.antt =====
-- The backends of KVDB against the specification, and against each other.
mod Tests
use base_utilities_esp.Base.{ℕ, ◌≡◌, ap, Option, none, some, List, String}
use base_utilities_esp.Flash.{FlashDb, FlashLaws}
use base_utilities_esp.Nvs.{Nvs, Entry, NvsLaws}
use base_utilities_esp.Nvs.Map.{NvsMapLaws}
use base_utilities_esp.Kvdb.Impl.{ImplBase, FlashdbState, nvs_impl, flashdb_impl}
use base_utilities_esp.Kvdb.Encoding.{Encoding}
use base_utilities_esp.Kvdb.Calls.{Call, Reply, run}
use base_utilities_esp.Kvdb.Spec.{Contents, choices, Explains-determined}
use base_utilities_esp.Kvdb.Refine.{Answered, AllWrite, Holds, run-refines}
use base_utilities_esp.Kvdb.Proxy.{object}
use base_utilities_esp.Kvdb.NvsEncoding.{nvs_impl-Encoding, entry}
use base_utilities_esp.Kvdb.FlashdbEncoding.{flashdb_impl-Encoding, object_bytes}

-- The replies of a run that the specification leaves open.
abbrev pub open_replies : Contents → List Call → Option (List Reply) → Option (List Reply)
open_replies m cs none = none
open_replies m cs (some rs) = some (choices m cs rs)

Answered-determined :
    (m : Contents) (cs : List Call) (o p : Option (List Reply))
    → Answered m cs o
    → Answered m cs p
    → open_replies m cs o ≡ open_replies m cs p
    → o ≡ p
Answered-determined m cs none p a b e = absurd a
Answered-determined m cs (some rs) none a b e = absurd b
Answered-determined m cs (some rs) (some qs) a b e = ap some (Explains-determined m cs rs qs a b cc)

-- An open NVS namespace holds the contents, by what it keeps under the keys.
abbrev pub NvsHolds : (N : Nvs) → (N.State → String → Option Entry) → Contents → N.State → Type 0
NvsHolds N held = Holds (nvs_impl N) Entry held entry

-- An open FlashDB database holds the contents.
abbrev pub FlashdbHolds :
    (F : FlashDb) → (F.Db → String → Option (List ℕ)) → Contents → FlashdbState F → Type 0
FlashdbHolds F lookup = Holds (flashdb_impl F) (List ℕ) (λ t. lookup t.kv.kvdb) object_bytes

-- Any sequence of writes, reads, questions for a key, erases and commits on an open KVDB over NVS that
-- holds the contents does not fault, if the values written are in the range of their types, and each
-- reply is one that the specification, a map from keys to typed values, allows.
pub run-nvs :
    (N : Nvs) (held : N.State → String → Option Entry) (L : NvsLaws N held) (M : NvsMapLaws N held)
    (cs : List Call) (m : Contents) (s : N.State)
    → AllWrite cs
    → NvsHolds N held m s
    → Answered m cs (run (some (object (nvs_impl N) s)) cs)
run-nvs N held L M = run-refines (nvs_impl N) Entry held entry (nvs_impl-Encoding N held L M)

-- Any sequence of writes, reads, questions for a key, erases and commits on an open KVDB over FlashDB
-- that holds the contents does not fault, if the values written are in the range of their types, and
-- each reply is one that the specification allows: a read of the type that a key was last written
-- with gives the value, a read of a missing key the default, `has` tells which keys hold a value, a
-- missing key cannot be erased, and no call changes another key.
pub run-flashdb :
    (F : FlashDb) (lookup : F.Db → String → Option (List ℕ)) (K : FlashLaws F lookup)
    (cs : List Call) (m : Contents) (t : FlashdbState F)
    → AllWrite cs
    → FlashdbHolds F lookup m t
    → Answered m cs (run (some (object (flashdb_impl F) t)) cs)
run-flashdb F lookup K =
    run-refines (flashdb_impl F) (List ℕ) (λ t. lookup t.kv.kvdb) object_bytes
      (flashdb_impl-Encoding F lookup K)

module _ (N : Nvs) (held : N.State → String → Option Entry) (L : NvsLaws N held)
    (M : NvsMapLaws N held) (F : FlashDb) (lookup : F.Db → String → Option (List ℕ))
    (K : FlashLaws F lookup) where
  -- The same calls of a KVDB over NVS and of one over FlashDB, both open and with the same contents,
  -- get the same replies, provided that they get the same ones where the specification leaves the
  -- reply open: whether a write, an erase or a commit succeeds, and what a read gives of a key whose
  -- last write failed or was of another type.
  pub run-backends :
      (cs : List Call) (m : Contents) (s : N.State) (t : FlashdbState F)
      → AllWrite cs
      → NvsHolds N held m s
      → FlashdbHolds F lookup m t
      → open_replies m cs (run (some (object (nvs_impl N) s)) cs)
        ≡ open_replies m cs (run (some (object (flashdb_impl F) t)) cs)
      → run (some (object (nvs_impl N) s)) cs ≡ run (some (object (flashdb_impl F) t)) cs
  run-backends cs m s t r h k =
      Answered-determined m cs _ _ (run-nvs N held L M cs m s r h)
        (run-flashdb F lookup K cs m t r k)
