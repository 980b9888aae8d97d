-- ===== src/Foundation/Json.antt =====
-- The JSON values that the durable records are written as (ci_failure_orchestrator/foundation/durable.py),
-- and what `dict.get`, `str`, `int` and `dict` of Python make of one. Numbers are natural numbers.
use ci_failure_orchestrator.Common.{
  ℕ, String, Bool, true, false, not, Option, none, some, str_eq, ◌==◌, if◌then◌else◌,
}

mutual
  pub data Json : Type 0 where
    null : Json
    bool : Bool → Json
    number : ℕ → Json
    text : String → Json
    array : Items → Json
    object : Members → Json

  pub data Items : Type 0 where
    stop : Items
    item : Json → Items → Items

  pub data Members : Type 0 where
    end : Members
    member : String → Json → Members → Members

-- The values whose conversion the model leaves open: `str(value)` of one that is no text,
-- `int(value)` of a text and `dict(value)` of an array; `none` is the TypeError or ValueError.
pub record Builtins : Type 0 where
  pub repr : Json → String
  pub parse_int : String → Option ℕ
  pub dict_of : Items → Option Members

-- `data.get(key)`: a missing key reads as `None`.
unfoldable pub get : String → Members → Json
get key end = null
get key (member k v rest) = let later = get key rest in if str_eq k key then v else later

-- `data[key]`; `none` is the KeyError.
unfoldable pub require : String → Members → Option Json
require key end = none
require key (member k v rest) =
    let later = require key rest in if str_eq k key then some v else later

-- `bool(value)`.
unfoldable pub truthy : Json → Bool
truthy null = false
truthy (bool b) = b
truthy (number n) = not (n == 0)
truthy (text s) = not (str_eq s "")
truthy (array stop) = false
truthy (array (item v vs)) = true
truthy (object end) = false
truthy (object (member k v ms)) = true

-- `value or default`.
unfoldable pub or_else : Json → Json → Json
unfolding truthy
or_else v d = if truthy v then v else d

-- How the decoding of a record ends: with the record, with an exception that the reader catches
-- (KeyError, TypeError, ValueError), or with the AttributeError of a `.get` on a value without one.
pub data Decoded {ℓ} (A : Type ℓ) : Type ℓ where
  decoded : A → Decoded A
  rejected attribute_error : Decoded A

infixl 10 ◌>>=◌
abbrev pub ◌>>=◌ {ℓ} : {A B : Type ℓ} → Decoded A → (A → Decoded B) → Decoded B
decoded a >>= f = f a
rejected >>= f = rejected
attribute_error >>= f = attribute_error

-- An exception that the reader catches.
abbrev pub caught {ℓ} : {A : Type ℓ} → Option A → Decoded A
caught none = rejected
caught (some a) = decoded a

module _ (py : Builtins) where
  -- `str(value)`.
  unfoldable pub str : Json → String
  str (text s) = s
  str v = py.repr v

  -- `int(value)`.
  unfoldable pub int : Json → Option ℕ
  int (number n) = some n
  int (bool true) = some 1
  int (bool false) = some 0
  int (text s) = py.parse_int s
  int _ = none

  -- `dict(value)`.
  unfoldable pub dict : Json → Option Members
  dict (object ms) = some ms
  dict (array vs) = py.dict_of vs
  dict (text s) = if str_eq s "" then some end else none
  dict _ = none
