-- ===== src/Json.antt =====
-- The JSON values that a packet's payload is made of, as Python reads them, and the built-in
-- conversions that the agent applies to them. Numbers are integers: a float in a payload is outside
-- the model.
use iddo_harness.Prelude.{
  ℕ, String, Bool, true, false, Option, none, some, List, [], ◌∷◌, ◌==◌, eqb, if◌then◌else◌, not,
}

pub data ℤ : Type 0 where
  pos : ℕ → ℤ
  negsuc : ℕ → ℤ

mutual
  pub data Value : Type 0 where
    null : Value
    boolean : Bool → Value
    number : ℤ → Value
    text : String → Value
    array : Items → Value
    object : Fields → Value

  pub data Items : Type 0 where
    nil : Items
    cons : Value → Items → Items

  pub data Fields : Type 0 where
    end : Fields
    field : String → Value → Fields → Fields

abbrev pub to_list : Items → List Value
to_list nil = []
to_list (cons v vs) = v ∷ to_list vs

-- payload.get(key): `none` where the key is missing
unfoldable pub get : String → Fields → Option Value
get k end = none
get k (field j v fs) = let rest = get k fs in if j == k then some v else rest

-- payload.get(key), with Python's `None` for a missing key
abbrev pub or_null : Option Value → Value
or_null none = null
or_null (some v) = v

-- bool(value)
unfoldable pub truthy : Value → Bool
truthy null = false
truthy (boolean b) = b
truthy (number (pos n)) = not (eqb n 0)
truthy (number (negsuc n)) = true
truthy (text s) = not (s == "")
truthy (array nil) = false
truthy (array (cons v vs)) = true
truthy (object end) = false
truthy (object (field k v fs)) = true

-- An instant: one with an offset, or the wall clock of one without, each on the UTC time line.
pub data Moment : Type 0 where
  aware naive : ℕ → Moment

-- What Python's run-time library does for the agent: the printed form of a value that is not a
-- text, `int()` and `float()` of a value (`none` where they raise), and `datetime.fromisoformat`.
pub record Python : Type 0 where
  pub repr : Value → String
  pub to_int : Value → Option ℤ
  pub to_float : Value → Option ℕ
  pub from_iso_format : String → Option Moment

-- str(value)
unfoldable pub str : Python → Value → String
str py (text s) = s
str py v = py.repr v
