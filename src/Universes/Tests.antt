-- ===== src/Universes/Tests.antt =====
-- A configuration with a cycle, and one that intersects two lists.
use rpc_state_indexer.Prelude.{
  ℕ, ◌+◌, ◌≡◌, refl, List, [], ◌∷◌, ◌++◌, replicate, length, ok, err, RaisesOnly,
}
use rpc_state_indexer.Prelude.Text.{Text, text, text_eq}
use rpc_state_indexer.Prelude.{if◌then◌else◌}
use rpc_state_indexer.Universes.{
  Selector, union, intersect, explicit_list, selector_cycle, Sources, Members, resolve_map,
}
use rpc_state_indexer.Universes.Cycles.{Other, resolve_map-terminates}

abbrev address : ℕ → Text
address d = text "0x" ++ replicate 40 d

abbrev sources : Sources
sources = record {
  holder_members = λ token. [];
  explicit_addresses =
      λ name. if text_eq name (text "p") then address 97 ∷ address 98 ∷ [] else address 98 ∷ [];
  seed_holders = λ token. [];
  universe_aliases = λ token. [];
}

abbrev cyclic : List (Text × Selector)
cyclic =
    (text "a", union (text "b" ∷ text "b" ∷ [])) ∷ (text "b", union (text "a" ∷ text "a" ∷ [])) ∷ []

refuses_cycle : resolve_map sources (address 99) cyclic 3 (text "a") [] ≡ err selector_cycle
unfolding resolve_map
refuses_cycle = refl

abbrev lists : List (Text × Selector)
lists =
    (text "p", explicit_list (text "vendored/p.csv"))
    ∷ (text "q", explicit_list (text "vendored/q.csv"))
    ∷ (text "both", intersect (text "p" ∷ text "q" ∷ []))
    ∷ []

abbrev both : Members
both =
    (address 98, text "explicit_list:p:vendored/p.csv" ∷ text "explicit_list:q:vendored/q.csv" ∷ [])
    ∷ []

intersects : resolve_map sources (address 99) lists 4 (text "both") [] ≡ ok both
unfolding resolve_map rpc_state_indexer.Hex.strip_0x rpc_state_indexer.Hex.is_hex
    rpc_state_indexer.Hex.lower_char rpc_state_indexer.Discovery.Holders.insert_holders
intersects = refl

resolve_map-terminates_example :
    RaisesOnly Other (resolve_map sources (address 99) cyclic (length cyclic + 1) (text "a") [])
resolve_map-terminates_example = resolve_map-terminates sources (address 99) cyclic (text "a")
