-- ===== src/Json.antt =====
-- JSON values as Python holds them, and the operations of `dict`, `list`, `str`, `int` and truth
-- tests that the adapters apply to a decoded body.
use ai_developer_copilot_pla.Prelude.{
  ℕ, zero, ◌^◌, ◌≡◌, refl, Bool, true, false, not, ◌||◌, List, [], ◌∷◌, Option, none, some, ℤ, pos,
  ◌==◌, if◌then◌else◌, arith,
}
use ai_developer_copilot_pla.Text.{Text, codes, eq_text, is_empty, show_int}
use ai_developer_copilot_pla.Exn.{
  Result, ok, raised, json_decode, key_error, index_error, type_error, attribute_error, value_error,
}

-- A float is its 64-bit pattern.
abbrev pub Float : Type 0
Float = ℕ

mutual
  pub data Json : Type 0 where
    null : Json
    boolean : Bool → Json
    int : ℤ → Json
    float : Float → Json
    str : Text → Json
    array : Items → Json
    object : Fields → Json

  pub data Items : Type 0 where
    nil : Items
    cons : Json → Items → Items

  pub data Fields : Type 0 where
    end : Fields
    field : Text → Json → Fields → Fields

-- What the interpreter computes on values: `json.loads` (`none` is a `JSONDecodeError`), `str` of a
-- float, a list or a dict, `int` of a float, and `int` of a text (`none` is a `ValueError`).
pub record Runtime : Type 0 where
  pub loads : Text → Option Json
  pub repr : Json → Text
  pub trunc : Float → Result ℤ
  pub parse_int : Text → Option ℤ

-- `d[k]` and `d.get(k)` of a dict.
abbrev pub get_field : Text → Fields → Option Json
get_field k end = none
get_field k (field j v fs) = if eq_text j k then some v else get_field k fs

abbrev pub found_or : Result Json → Option Json → Result Json
found_or r none = r
found_or r (some v) = ok v

-- `x[k]` with a text `k`.
abbrev pub at_key : Json → Text → Result Json
at_key (object fs) k = found_or (raised key_error) (get_field k fs)
at_key _ k = raised type_error

-- `x[0]`. The keys of a decoded object are texts.
abbrev pub at_zero : Json → Result Json
at_zero (array nil) = raised index_error
at_zero (array (cons v xs)) = ok v
at_zero (str []) = raised index_error
at_zero (str (c ∷ s)) = ok (str (c ∷ []))
at_zero (object fs) = raised key_error
at_zero _ = raised type_error

-- `x.get(k, default)`.
abbrev pub get_or : Json → Text → Json → Result Json
get_or (object fs) k default = found_or (ok default) (get_field k fs)
get_or _ k default = raised attribute_error

-- `if x`. The two zeros among the floats are false.
abbrev pub truthy : Json → Bool
truthy null = false
truthy (boolean b) = b
truthy (int (pos zero)) = false
truthy (int n) = true
truthy (float x) = not (x == 0 || x == 2 ^ 63)
truthy (str s) = not (is_empty s)
truthy (array nil) = false
truthy (array (cons v xs)) = true
truthy (object end) = false
truthy (object (field k v fs)) = true

abbrev pub decode_or_raise : Option Json → Result Json
decode_or_raise none = raised json_decode
decode_or_raise (some v) = ok v

module _ (rt : Runtime) where
  -- `json.loads(text)`.
  abbrev pub loads : Text → Result Json
  loads text = decode_or_raise (rt.loads text)

  -- `str(x)`.
  abbrev pub to_str : Json → Text
  to_str (str s) = s
  to_str null = codes "None"
  to_str (boolean true) = codes "True"
  to_str (boolean false) = codes "False"
  to_str (int n) = show_int n
  to_str v = rt.repr v

  abbrev pub found_int : Option ℤ → Result ℤ
  found_int none = raised value_error
  found_int (some n) = ok n

  -- `int(x)`.
  abbrev pub to_int : Json → Result ℤ
  to_int (int n) = ok n
  to_int (boolean true) = ok (pos 1)
  to_int (boolean false) = ok (pos 0)
  to_int (float x) = rt.trunc x
  to_int (str s) = found_int (rt.parse_int s)
  to_int _ = raised type_error

-- A Python list of values.
abbrev pub to_items : List Json → Items
to_items [] = nil
to_items (v ∷ vs) = cons v (to_items vs)

abbrev pub from_items : Items → List Json
from_items nil = []
from_items (cons v xs) = v ∷ from_items xs

-- A Python dict of texts.
abbrev pub to_fields : List (Text × Text) → Fields
to_fields [] = end
to_fields ((k, v) ∷ entries) = field k (str v) (to_fields entries)

pub from_items-to_items : (vs : List Json) → from_items (to_items vs) ≡ vs
from_items-to_items [] = refl
from_items-to_items (v ∷ vs) = rw (from_items-to_items vs)

-- What a successful access says of the value.
pub at_key-ok :
    (x : Json) (k : Text) (v : Json)
    → at_key x k ≡ ok v
    → (fs : Fields) × (x ≡ object fs) × (get_field k fs ≡ some v)
at_key-ok (object fs) k v h = (fs, refl, ground arith)
at_key-ok null k v h = cc
at_key-ok _ k v h = cc

pub at_zero-object :
    (x : Json) (fs : Fields)
    → at_zero x ≡ ok (object fs)
    → (others : Items) × (x ≡ array (cons (object fs) others))
at_zero-object (array nil) fs h = cc
at_zero-object (array (cons v xs)) fs h = (xs, cc)
at_zero-object (str []) fs h = cc
at_zero-object (str (c ∷ s)) fs h = cc
at_zero-object _ fs h = cc
