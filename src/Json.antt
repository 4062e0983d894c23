-- ===== src/Json.antt =====
-- `JsonValue` of src/butterbot/application/operations/ports.py, without floats: the values that the
-- program puts in transport payloads and fingerprints.
use butterbot.Base.{ℤ, String, Bool, List, [], ◌∷◌}

mutual
  pub data Json : Type 0 where
    null : Json
    bool : Bool → Json
    int : ℤ → Json
    text : String → Json
    array : Items → Json
    object : Fields → Json

  pub data Items : Type 0 where
    no_item : Items
    item : Json → Items → Items

  pub data Fields : Type 0 where
    no_field : Fields
    field : String → Json → Fields → Fields

abbrev pub empty_object : Json
empty_object = object no_field

-- `[int(x) for x in xs]` as a JSON array.
abbrev pub int_items : List ℤ → Items
int_items [] = no_item
int_items (n ∷ ns) = item (int n) (int_items ns)
