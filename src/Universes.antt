-- ===== src/Universes.antt =====
-- `UniverseResolver._resolve_map` of core/universes.py. The holder table, the loader of address
-- lists and the two configured maps are the record `Sources`; a set of labels is a sorted list.
pub mod Cycles
mod Tests
use rpc_state_indexer.Prelude.{
  ℕ, zero, suc, Bool, true, false, not, ◌&&◌, Option, none, some, List, [], ◌∷◌, ◌++◌, Result, ok,
  err, ◌>>=◌, ◌>>◌, raise_if, length, all, ◌==◌, if◌then◌else◌,
}
use rpc_state_indexer.Prelude.Text.{Text, text, text_eq, text_in}
use rpc_state_indexer.Hex.{is_hex, after_0x, strip_0x, lower}
use rpc_state_indexer.Discovery.Holders.{insert_holder, insert_holders}

pub data Selector : Type 0 where
  full_holders : Selector
  explicit_list : Text → Selector
  union : List Text → Selector
  intersect : List Text → Selector

-- `ConfigError` and `ValueError`, and last what stands for a recursion without fuel.
pub data UniverseFault : Type 0 where
  selector_cycle unknown_selector no_provenance empty_provenance no_children : UniverseFault
  invalid_address out_of_fuel : UniverseFault

-- Addresses with their labels, each address once.
abbrev pub Members : Type 0
Members = List (Text × List Text)

pub record Sources : Type 0 where
  pub holder_members : Text → List (Text × List Text)
  pub explicit_addresses : Text → List Text
  pub seed_holders : Text → List Text
  pub universe_aliases : Text → List Text

unfoldable pub normalize_address : Text → Result UniverseFault Text
normalize_address value =
    if after_0x (λ body. length body == 40 && all is_hex body) (strip_0x value)
    then ok (lower value)
    else err invalid_address

-- `self.universes[name]`.
abbrev pub selector_of : Text → List (Text × Selector) → Option Selector
selector_of name [] = none
selector_of name ((n, s) ∷ rest) = if text_eq n name then some s else selector_of name rest

-- `output.setdefault(address, set()).update(labels)`.
unfoldable pub add_labels : Text → List Text → Members → Members
add_labels address labels [] = (address, insert_holders labels []) ∷ []
add_labels address labels ((a, ls) ∷ rest) =
    let later = add_labels address labels rest in
    if text_eq a address then (a, insert_holders labels ls) ∷ rest else (a, ls) ∷ later

abbrev pub is_blank : Text → Bool
is_blank [] = true
is_blank (c ∷ t) = false

-- `{f"full_holders:{name}:{source}" for source in sources if source}`.
abbrev pub holder_labels : Text → List Text → List Text
holder_labels name [] = []
holder_labels name (source ∷ sources) =
    let rest = holder_labels name sources in
    if is_blank source
    then rest
    else insert_holder (text "full_holders:" ++ name ++ text ":" ++ source) rest

abbrev pub no_texts : List Text → Bool
no_texts [] = true
no_texts (t ∷ ts) = false

-- The loop over the members that the holder table has.
unfoldable pub add_members : Text → List (Text × List Text) → Members → Result UniverseFault Members
unfolding normalize_address add_labels
add_members name [] output = ok output
add_members name ((holder, sources) ∷ rest) output = do
  address ← normalize_address holder
  raise_if (no_texts sources) no_provenance
  let labels = holder_labels name sources
  raise_if (not (length labels == length (insert_holders sources []))) empty_provenance
  add_members name rest (add_labels address labels output)

abbrev pub add_seeds : List Text → Members → Members
add_seeds [] output = output
add_seeds (address ∷ rest) output =
    add_seeds rest (add_labels address (text "full_holders:config_seed" ∷ []) output)

abbrev pub members_of : (Text → List (Text × List Text)) → List Text → List (Text × List Text)
members_of holder_members [] = []
members_of holder_members (ledger ∷ rest) = holder_members ledger ++ members_of holder_members rest

unfoldable pub add_listed : Text → Text → List Text → Members → Result UniverseFault Members
unfolding normalize_address add_labels
add_listed name source [] output = ok output
add_listed name source (listed ∷ rest) output = do
  address ← normalize_address listed
  add_listed name source rest
      (add_labels address ((text "explicit_list:" ++ name ++ text ":" ++ source) ∷ []) output)

abbrev pub merge_members : Members → Members → Members
merge_members [] output = output
merge_members ((address, labels) ∷ rest) output =
    merge_members rest (add_labels address labels output)

abbrev pub union_of : List Members → Members → Members
union_of [] output = output
union_of (child ∷ children) output = union_of children (merge_members child output)

abbrev pub labels_in : Text → Members → Option (List Text)
labels_in address [] = none
labels_in address ((a, labels) ∷ rest) =
    if text_eq a address then some labels else labels_in address rest

-- The labels of an address over the children, where all of them have it.
abbrev pub shared_labels : Text → List Members → List Text → Option (List Text)
shared_labels address [] labels = some labels
shared_labels address (child ∷ children) labels = elim (labels_in address child) [
  | none ↦ none
  | some more ↦ shared_labels address children (insert_holders more labels)
]

abbrev pub intersect_of : Members → List Members → Members
intersect_of [] children = []
intersect_of ((address, labels) ∷ rest) children =
    let later = intersect_of rest children in
    elim (shared_labels address children labels) [ none ↦ later | some ls ↦ (address, ls) ∷ later ]

abbrev pub combine : Bool → List Members → Result UniverseFault Members
combine is_union [] = err no_children
combine true (child ∷ children) = ok (union_of (child ∷ children) [])
combine false (child ∷ children) = ok (intersect_of child children)

abbrev pub resolve_children :
    (Text → Result UniverseFault Members) → List Text → Result UniverseFault (List Members)
resolve_children resolve [] = ok []
resolve_children resolve (child ∷ rest) =
    resolve child >>= λ members. resolve_children resolve rest >>= λ more. ok (members ∷ more)

module _ (sources : Sources) (token_address : Text) where
  unfoldable pub resolve_selector :
      (Text → Result UniverseFault Members) → Text → Selector → Result UniverseFault Members
  unfolding add_members add_listed
  resolve_selector resolve name full_holders =
      add_members name
        (members_of sources.holder_members (token_address ∷ sources.universe_aliases token_address))
        []
      >>= λ output. ok (add_seeds (sources.seed_holders token_address) output)
  resolve_selector resolve name (explicit_list source) =
      add_listed name source (sources.explicit_addresses name) []
  resolve_selector resolve name (union children) =
      resolve_children resolve children >>= λ members. combine true members
  resolve_selector resolve name (intersect children) =
      resolve_children resolve children >>= λ members. combine false members

  abbrev pub or_unknown :
      Option Selector → (Selector → Result UniverseFault Members) → Result UniverseFault Members
  or_unknown none rest = err unknown_selector
  or_unknown (some selector) rest = rest selector

  unfoldable pub resolve_map :
      List (Text × Selector) → ℕ → Text → List Text → Result UniverseFault Members
  unfolding resolve_selector
  resolve_map universes zero name stack = err out_of_fuel
  resolve_map universes (suc fuel) name stack =
      let rest = or_unknown (selector_of name universes) (λ selector.
        resolve_selector (λ child. resolve_map universes fuel child (name ∷ stack)) name
          selector) in
      if text_in name stack then err selector_cycle else rest
