-- ===== src/Database/Values.antt =====
-- JSON values, as the `Json` columns and the parsed documents hold them. `uuid` is a string that
-- holds an identifier, `date` one that holds a time, and `key_id did version` the text
-- `<did>#key-<version>`.
use ssi_academic_credential.Common.{ℕ, String, Bool, List, [], ◌∷◌}

mutual
  pub data Json : Type 0 where
    null : Json
    bool : Bool → Json
    num uuid date : ℕ → Json
    key_id : (did version : ℕ) → Json
    str : String → Json
    arr : Items → Json
    obj : Fields → Json

  pub data Items : Type 0 where
    nil : Items
    cons : Json → Items → Items

  pub data Fields : Type 0 where
    end : Fields
    field : String → Json → Fields → Fields

-- An object literal.
abbrev pub fields : List (String × Json) → Fields
fields [] = end
fields ((k, v) ∷ kvs) = field k v (fields kvs)

abbrev pub items : List Json → Items
items [] = nil
items (v ∷ vs) = cons v (items vs)

abbrev pub object : List (String × Json) → Json
object kvs = obj (fields kvs)
