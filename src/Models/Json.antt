-- ===== src/Models/Json.antt =====
-- JSON values, as Python's dictionaries, lists and scalars hold them, over a type `F` of floating
-- point numbers. Whole numbers are numbers too.
use solprobe.Prelude.{String, Bool, List, [], ◌∷◌}
use solprobe.Prelude.Dict.{Dict}

mutual
  pub data Json (F : Type 0) : Type 0 where
    null : Json F
    flag : Bool → Json F
    number : F → Json F
    text : String → Json F
    array : Elements F → Json F
    object : Members F → Json F

  pub data Elements (F : Type 0) : Type 0 where
    nil : Elements F
    cons : Json F → Elements F → Elements F

  pub data Members (F : Type 0) : Type 0 where
    end : Members F
    member : String → Json F → Members F → Members F

abbrev pub elements : {F : Type 0} → Elements F → List (Json F)
elements nil = []
elements (cons x xs) = x ∷ elements xs

abbrev pub members : {F : Type 0} → Members F → Dict String (Json F)
members end = []
members (member k v ms) = (k, v) ∷ members ms
