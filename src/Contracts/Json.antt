-- ===== src/Contracts/Json.antt =====
-- The values that the code hands to `JSON.stringify`: audit details and inspected payloads.
use real_ming.Base.{ℕ, String, Bool, List, [], ◌∷◌, Option, none, some}

mutual
  pub data Json : Type 0 where
    null : Json
    text : String → Json
    number : ℕ → Json
    flag : Bool → Json
    array : Items → Json
    object : Members → Json

  pub data Items : Type 0 where
    nil : Items
    cons : Json → Items → Items

  pub data Members : Type 0 where
    end : Members
    member : String → Json → Members → Members

-- `Record<string, unknown>`: an object's fields, in order.
abbrev pub Details : Type 0
Details = List (String × Json)

abbrev pub items : List Json → Items
items [] = nil
items (v ∷ vs) = cons v (items vs)

abbrev pub members : Details → Members
members [] = end
members ((k, v) ∷ fs) = member k v (members fs)

abbrev pub fields : Details → Json
fields fs = object (members fs)

abbrev pub text_or_null : Option String → Json
text_or_null none = null
text_or_null (some s) = text s
