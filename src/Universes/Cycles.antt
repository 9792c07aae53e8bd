-- ===== src/Universes/Cycles.antt =====
-- The resolution of a universe ends, on any configuration.
use rpc_state_indexer.Prelude.{
  ℕ, zero, suc, ◌+◌, ◌<◌, ◌≤◌, ◌≡◌, ◌≢◌, Bool, true, false, not, inl, inr, some, List, [], ◌∷◌,
  Result, RaisesOnly, RaisesOnly-ok, RaisesOnly-err, RaisesOnly-bind, RaisesOnly-raise_if, length,
  if◌then◌else◌, Bool-cases, Option-cases, ◌==◌, arith,
}
use rpc_state_indexer.Prelude.Text.{Text, text_eq, text_in, text_eq_iff}
use rpc_state_indexer.Discovery.Holders.{insert_holders}
use rpc_state_indexer.Universes.{
  Selector, full_holders, explicit_list, union, intersect, UniverseFault, selector_cycle,
  unknown_selector, no_provenance, empty_provenance, no_children, invalid_address, out_of_fuel,
  Members, Sources, normalize_address, selector_of, add_labels, holder_labels, no_texts,
  add_members, add_listed, combine, resolve_children, resolve_selector, resolve_map,
}

-- The universes that the stack does not hold.
abbrev remaining : List Text → List (Text × Selector) → ℕ
remaining stack [] = 0
remaining stack ((n, s) ∷ rest) =
    let later = remaining stack rest in if text_in n stack then later else suc later

remaining_le :
    (name : Text) (stack : List Text) (us : List (Text × Selector))
    → remaining (name ∷ stack) us ≤ remaining stack us
remaining_le name stack [] = omega arith
remaining_le name stack ((n, s) ∷ rest) = ground (arith, remaining_le name stack rest)

remaining_lt :
    (name : Text) (stack : List Text) (us : List (Text × Selector)) (selector : Selector)
    → selector_of name us ≡ some selector
    → text_in name stack ≡ false
    → remaining (name ∷ stack) us < remaining stack us
remaining_lt name stack [] selector found fresh = absurd (cc found)
remaining_lt name stack ((n, s) ∷ rest) selector found fresh = elim (Bool-cases (text_eq n name)) [
  | inl e ↦
      let same : n ≡ name = (text_eq_iff n name).0 e in
      let out : text_in n stack ≡ false = rw same fresh in
      let le = remaining_le name stack rest in rw (e, out) (omega arith)
  | inr e ↦
      let lt = remaining_lt name stack rest selector (rw e at found) fresh in
      elim (Bool-cases (text_in n stack)) [ inl t ↦ rw (e, t) lt | inr t ↦ rw (e, t) (omega arith) ]
]

-- Raised by the program, and not for want of fuel.
abbrev pub Other : UniverseFault → Type 0
Other fault = fault ≢ out_of_fuel

either-Other :
    {A : Type 0} (b : Bool) (x y : Result UniverseFault A)
    → RaisesOnly Other x
    → RaisesOnly Other y
    → RaisesOnly Other (if b then x else y)
either-Other true x y p q = p
either-Other false x y p q = q

normalize_address-Other : (value : Text) → RaisesOnly Other (normalize_address value)
unfolding normalize_address
normalize_address-Other value =
    either-Other _ _ _ (RaisesOnly-ok _) (RaisesOnly-err invalid_address (λ h. cc))

add_members-Other :
    (name : Text) (members : List (Text × List Text)) (output : Members)
    → RaisesOnly Other (add_members name members output)
unfolding add_members
add_members-Other name [] output = RaisesOnly-ok output
add_members-Other name ((holder, sources) ∷ rest) output =
    RaisesOnly-bind _ _ (normalize_address-Other holder) (λ address.
      RaisesOnly-bind _ _ (RaisesOnly-raise_if (no_texts sources) no_provenance (λ h. cc)) (λ u.
        RaisesOnly-bind _ _
          (RaisesOnly-raise_if
            (not (length (holder_labels name sources) == length (insert_holders sources [])))
            empty_provenance (λ h. cc))
          (λ v.
            add_members-Other name rest (add_labels address (holder_labels name sources) output))))

add_listed-Other :
    (name source : Text) (listed : List Text) (output : Members)
    → RaisesOnly Other (add_listed name source listed output)
unfolding add_listed
add_listed-Other name source [] output = RaisesOnly-ok output
add_listed-Other name source (address ∷ rest) output =
    RaisesOnly-bind _ _ (normalize_address-Other address) (λ a. add_listed-Other name source rest _)

combine-Other :
    (is_union : Bool) (children : List Members) → RaisesOnly Other (combine is_union children)
combine-Other true [] = RaisesOnly-err no_children (λ h. cc)
combine-Other false [] = RaisesOnly-err no_children (λ h. cc)
combine-Other true (child ∷ children) = RaisesOnly-ok _
combine-Other false (child ∷ children) = RaisesOnly-ok _

resolve_children-Other :
    (resolve : Text → Result UniverseFault Members) (children : List Text)
    → ((child : Text) → RaisesOnly Other (resolve child))
    → RaisesOnly Other (resolve_children resolve children)
resolve_children-Other resolve [] each = RaisesOnly-ok _
resolve_children-Other resolve (child ∷ rest) each = RaisesOnly-bind _ _ (each child) (λ members.
    RaisesOnly-bind _ _ (resolve_children-Other resolve rest each) (λ more. RaisesOnly-ok _))

module _ (sources : Sources) (token_address : Text) where
  resolve_selector-Other :
      (resolve : Text → Result UniverseFault Members) (name : Text) (selector : Selector)
      → ((child : Text) → RaisesOnly Other (resolve child))
      → RaisesOnly Other (resolve_selector sources token_address resolve name selector)
  unfolding resolve_selector
  resolve_selector-Other resolve name full_holders each =
      RaisesOnly-bind _ _ (add_members-Other name _ []) (λ output. RaisesOnly-ok _)
  resolve_selector-Other resolve name (explicit_list source) each =
      add_listed-Other name source _ []
  resolve_selector-Other resolve name (union children) each =
      RaisesOnly-bind _ _ (resolve_children-Other resolve children each) (combine-Other true)
  resolve_selector-Other resolve name (intersect children) each =
      RaisesOnly-bind _ _ (resolve_children-Other resolve children each) (combine-Other false)

  resolve_map-Other :
      (universes : List (Text × Selector)) (fuel : ℕ) (name : Text) (stack : List Text)
      → remaining stack universes < fuel
      → RaisesOnly Other (resolve_map sources token_address universes fuel name stack)
  unfolding resolve_map
  resolve_map-Other universes zero name stack enough = absurd (omega arith)
  resolve_map-Other universes (suc fuel) name stack enough =
      elim (Bool-cases (text_in name stack)) [
        | inl e ↦ rw (resolve_map, e) (RaisesOnly-err selector_cycle (λ h. cc))
        | inr e ↦ elim (Option-cases (selector_of name universes)) [
          | inl gone ↦ rw (resolve_map, e, gone) (RaisesOnly-err unknown_selector (λ h. cc))
          | inr (selector, found) ↦
              rw (resolve_map, e, found)
                (resolve_selector-Other
                  (λ child. resolve_map sources token_address universes fuel child (name ∷ stack))
                  name selector
                  (λ child.
                    resolve_map-Other universes fuel child (name ∷ stack)
                      (let lt = remaining_lt name stack universes selector found e in omega arith)))
        ]
      ]

  remaining-length :
      (universes : List (Text × Selector)) → remaining [] universes ≤ length universes
  remaining-length [] = omega arith
  remaining-length ((n, s) ∷ rest) = let le = remaining-length rest in omega arith

  -- The resolution of a universe ends on any configuration, a cyclic one too: fuel for one level
  -- more than there are universes is enough, and with it every exception is one of the program's.
  pub resolve_map-terminates :
      (universes : List (Text × Selector)) (name : Text)
      → RaisesOnly Other
          (resolve_map sources token_address universes (length universes + 1) name [])
  resolve_map-terminates universes name =
      resolve_map-Other universes (length universes + 1) name []
        (let le = remaining-length universes in omega arith)
