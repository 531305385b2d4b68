-- ===== src/Stdlib/Json.antt =====
-- JSON values, the subscripts `data["k"]` that read them, and the json module as a parameter.
use decentralized_idp.Prelude.{
  ℕ, ◌==◌, not, ◌≡◌, Bool, true, false, List, [], ◌∷◌, Option, none, some, Result, ok, err,
  key_error, type_error, ◌>>=◌, if◌then◌else◌,
}
use decentralized_idp.Stdlib.Bytes.{Bytes, Str, bytes_eq}
use decentralized_idp.Stdlib.Hex.{from_hex}

mutual
  pub data Json : Type 0 where
    null : Json
    num : ℕ → Json
    text : Str → Json
    array : Items → Json
    object : Fields → Json

  pub data Items : Type 0 where
    stop : Items
    item : Json → Items → Items

  pub data Fields : Type 0 where
    end : Fields
    field : Str → Json → Fields → Fields

-- Python's truth value: what is empty or zero is false.
unfoldable pub is_truthy : Json → Bool
is_truthy null = false
is_truthy (num n) = not (n == 0)
is_truthy (text []) = false
is_truthy (text (c ∷ s)) = true
is_truthy (array stop) = false
is_truthy (array (item j js)) = true
is_truthy (object end) = false
is_truthy (object (field k j fs)) = true

unfoldable pub get_field : Str → Fields → Option Json
get_field k end = none
get_field k (field j v rest) = if bytes_eq k j then some v else get_field k rest

abbrev pub or_key_error : Option Json → Result Json
or_key_error none = err key_error
or_key_error (some v) = ok v

-- `data[k]`
unfoldable pub subscript : Str → Json → Result Json
subscript k (object fs) = or_key_error (get_field k fs)
subscript k null = err type_error
subscript k (num n) = err type_error
subscript k (text s) = err type_error
subscript k (array js) = err type_error

-- A value used where the code needs a text.
unfoldable pub as_text : Json → Result Str
as_text (text s) = ok s
as_text null = err type_error
as_text (num n) = err type_error
as_text (array js) = err type_error
as_text (object fs) = err type_error

-- `[bytes.fromhex(c) for c in value]`
unfoldable pub hex_items : Items → Result (List Bytes)
hex_items stop = ok []
hex_items (item j rest) = do s ← as_text j; b ← from_hex s; bs ← hex_items rest; ok (b ∷ bs)

unfoldable pub hex_array : Json → Result (List Bytes)
hex_array (array js) = hex_items js
hex_array null = err type_error
hex_array (num n) = err type_error
hex_array (text s) = err type_error
hex_array (object fs) = err type_error

-- `json.dumps` with `sort_keys=True` and without it, `json.loads`, and the `repr` of a float timestamp.
pub record Codec : Type 0 where
  pub dumps : Json → Str
  pub dumps_unsorted : Json → Str
  pub loads : Str → Result Json
  pub repr_float : ℕ → Str

-- Reading back a written object gives an object with the same value under every key.
pub record IsCodec (c : Codec) : Type 0 where
  pub loads-dumps :
      (fs : Fields)
      → (gs : Fields) × (c.loads (c.dumps (object fs)) ≡ ok (object gs))
        × ((k : Str) → get_field k gs ≡ get_field k fs)
  pub loads-dumps_unsorted :
      (fs : Fields)
      → (gs : Fields) × (c.loads (c.dumps_unsorted (object fs)) ≡ ok (object gs))
        × ((k : Str) → get_field k gs ≡ get_field k fs)
