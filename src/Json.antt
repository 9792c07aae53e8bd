-- ===== src/Json.antt =====
-- JSON values as `response.json()` returns them, and the reads that the clients make of them. An
-- integer and a real number are told apart, as `type(x) is int` does; booleans are no integers.
use rpc_state_indexer.Prelude.{Bool, Option, none, some, List, [], ◌∷◌, if◌then◌else◌}
use rpc_state_indexer.Prelude.Int.{ℤ}
use rpc_state_indexer.Prelude.Text.{Text, text_eq}

mutual
  pub data Json : Type 0 where
    null : Json
    bool : Bool → Json
    int : ℤ → Json
    real : Text → Json
    str : Text → Json
    arr : Elements → Json
    obj : Fields → Json

  pub data Elements : Type 0 where
    nil : Elements
    cons : Json → Elements → Elements

  pub data Fields : Type 0 where
    end : Fields
    field : Text → Json → Fields → Fields

abbrev pub elements : Elements → List Json
elements nil = []
elements (cons v vs) = v ∷ elements vs

-- `key in value`, with what stands there.
abbrev pub find : Text → Fields → Option Json
find key end = none
find key (field k v rest) = if text_eq k key then some v else find key rest

abbrev pub or_null : Option Json → Json
or_null none = null
or_null (some v) = v

-- `value.get(key)`.
abbrev pub get : Text → Fields → Json
get key fields = or_null (find key fields)
