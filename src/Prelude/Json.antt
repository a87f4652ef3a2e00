-- ===== src/Prelude/Json.antt =====
-- What Python's `json` reads: the values and the operations on them. The numbers are floats.
use schedcore.Prelude.{
  String, Bool, true, false, not, ◌==◌, string_eq, if◌then◌else◌, Option, none, some, [], ◌∷◌,
}
use schedcore.Prelude.Dict.{Dict}
use schedcore.Prelude.Float.{Float}
use schedcore.Prelude.Result.{
  Result, ok, raise, key_error, type_error, value_error, attribute_error,
}

mutual
  pub data Json (F : Type 0) : Type 0 where
    null : Json F
    boolean : Bool → Json F
    number : F → Json F
    text : String → Json F
    array : Array F → Json F
    object : Object F → Json F

  pub data Array (F : Type 0) : Type 0 where
    end : Array F
    item : Json F → Array F → Array F

  pub data Object (F : Type 0) : Type 0 where
    empty : Object F
    entry : String → Json F → Object F → Object F

module _ {F : Type 0} where
  -- The value of a key, or a default.
  unfoldable pub lookup_or : Json F → String → Object F → Json F
  lookup_or default key empty = default
  lookup_or default key (entry k v rest) =
      let later = lookup_or default key rest in if key == k then v else later

  -- `value.get(key, default)`
  abbrev pub get : String → Json F → Json F → Result (Json F)
  get key default (object o) = ok (lookup_or default key o)
  get key default null = raise attribute_error
  get key default (boolean b) = raise attribute_error
  get key default (number x) = raise attribute_error
  get key default (text s) = raise attribute_error
  get key default (array a) = raise attribute_error

  unfoldable pub at_key : String → Object F → Result (Json F)
  at_key key empty = raise (key_error key)
  at_key key (entry k v rest) = let later = at_key key rest in if key == k then ok v else later

  -- `value[key]`
  abbrev pub subscript : Json F → String → Result (Json F)
  subscript (object o) key = at_key key o
  subscript null key = raise type_error
  subscript (boolean b) key = raise type_error
  subscript (number x) key = raise type_error
  subscript (text s) key = raise type_error
  subscript (array a) key = raise type_error

  -- A dict of optional values, as `json.dump` writes it: `null` for `None`.
  abbrev or_null : Option (Json F) → Json F
  or_null none = null
  or_null (some v) = v

  unfoldable pub saved : Dict String (Option (Json F)) → Object F
  saved [] = empty
  saved ((k, v) ∷ rest) = entry k (or_null v) (saved rest)

module _ (float : Float) where
  open float use {F, is_zero, format, ratio}

  -- `bool(value)`
  abbrev pub truthy : Json F → Bool
  truthy null = false
  truthy (boolean b) = b
  truthy (number x) = not (is_zero x)
  truthy (text s) = not (s == "")
  truthy (array end) = false
  truthy (array (item v rest)) = true
  truthy (object empty) = false
  truthy (object (entry k v rest)) = true

  -- `f"{value:.1f}"`
  abbrev pub formatted : Json F → Result String
  formatted (number x) = ok (format 1 x)
  formatted (boolean b) = ok (format 1 (ratio (if b then 1 else 0) 1))
  formatted (text s) = raise value_error
  formatted null = raise type_error
  formatted (array a) = raise type_error
  formatted (object o) = raise type_error
