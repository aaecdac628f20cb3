-- ===== src/KvHandle/Foreach.antt =====
-- KVHandle::foreach. The callback is a function on the state that it changes. The loop runs on
-- fuel, and `none` means that the fuel ran out.
use base_utilities_esp.Base.{
  ℕ, zero, suc, ◌<◌, String, ◌≡◌, not, Option, none, some, List, [], ◌∷◌, arith, length,
  if◌then◌else◌,
}
use base_utilities_esp.Flash.{FdbErr, FlashDb, is_ok}
use base_utilities_esp.KvHandle.{Handle}

module _ (F : FlashDb) {S : Type 0} (callback : S → String → List ℕ → S) where
  foreach_loop : ℕ → Option F.Node → S → Option S
  foreach_loop zero cursor s = none
  foreach_loop (suc fuel) none s = some s
  foreach_loop (suc fuel) (some node) s =
      let (err, key, value) = F.node_kv node in
      foreach_loop fuel (F.next_node node) (if is_ok err then callback s key value else s)

  pub foreach : ℕ → Handle F → S → Option S
  unfolding foreach_loop
  foreach fuel h s = if not h.initialized then some s else foreach_loop fuel (F.head_node h.kvdb) s

  -- What the callback has done after the entries, in their order; unreadable ones are passed over.
  abbrev pub visit : List (FdbErr × String × List ℕ) → S → S
  visit [] s = s
  visit ((err, key, value) ∷ entries) s =
      visit entries (if is_ok err then callback s key value else s)

-- The nodes from `cursor` on, in the order of their links, are `nodes`, and there the list ends.
abbrev pub Links : (F : FlashDb) → Option F.Node → List F.Node → Type 0
Links F cursor [] = cursor ≡ none
Links F cursor (n ∷ nodes) = (cursor ≡ some n) × Links F (F.next_node n) nodes

abbrev pub entries : (F : FlashDb) → List F.Node → List (FdbErr × String × List ℕ)
entries F [] = []
entries F (n ∷ nodes) = F.node_kv n ∷ entries F nodes

module _ (F : FlashDb) {S : Type 0} (callback : S → String → List ℕ → S) where
  foreach_loop_lem :
      (fuel : ℕ) (cursor : Option F.Node) (nodes : List F.Node) (s : S)
      → Links F cursor nodes
      → length nodes < fuel
      → foreach_loop F callback fuel cursor s ≡ some (visit F callback (entries F nodes) s)
  unfolding foreach_loop
  foreach_loop_lem zero cursor nodes s links enough = absurd (omega arith)
  foreach_loop_lem (suc fuel) cursor [] s links enough = rw links
  foreach_loop_lem (suc fuel) cursor (n ∷ nodes) s links enough =
      rw links.0 (foreach_loop_lem fuel (F.next_node n) nodes _ links.1 (omega arith))

  -- With a list of nodes that ends and fuel for its length, `foreach` on an open handle returns, and
  -- has called the callback on the entries that can be read, once each and in order. On a handle
  -- that is not open it has called nothing.
  pub foreach_lem :
      (fuel : ℕ) (h : Handle F) (nodes : List F.Node) (s : S)
      → Links F (F.head_node h.kvdb) nodes
      → length nodes < fuel
      → foreach F callback fuel h s
        ≡ some (if h.initialized then visit F callback (entries F nodes) s else s)
  unfolding foreach
  foreach_lem fuel h nodes s links enough =
      ground (arith, foreach_loop_lem fuel (F.head_node h.kvdb) nodes s links enough)
