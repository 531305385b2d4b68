-- ===== src/Tests/Serial.antt =====
-- A concrete serializer for the JSON values, in place of the json module: `dumps` writes the nodes of
-- a value in postfix order, two numbers each, and `loads` runs them on a stack.
use decentralized_idp.Prelude.{
  ℕ, ◌≡◌, refl, ◌∙◌, ap, List, [], ◌∷◌, Result, ok, err, value_error, ◌==◌, if◌then◌else◌,
}
use decentralized_idp.Stdlib.Bytes.{Str}
use decentralized_idp.Stdlib.Json.{
  Json, null, num, text, array, object, Items, stop, item, Fields, end, field, Codec, IsCodec,
}

-- What the stack holds.
pub data Cell : Type 0 where
  value : Json → Cell
  items : Items → Cell
  fields : Fields → Cell

abbrev push_char : ℕ → List Cell → List Cell
push_char c (value (text s) ∷ st) = value (text (c ∷ s)) ∷ st
push_char c st = st

abbrev push_item : List Cell → List Cell
push_item (value j ∷ items js ∷ st) = items (item j js) ∷ st
push_item st = st

abbrev close_array : List Cell → List Cell
close_array (items js ∷ st) = value (array js) ∷ st
close_array st = st

abbrev push_field : List Cell → List Cell
push_field (value (text k) ∷ value v ∷ fields fs ∷ st) = fields (field k v fs) ∷ st
push_field st = st

abbrev close_object : List Cell → List Cell
close_object (fields fs ∷ st) = value (object fs) ∷ st
close_object st = st

abbrev step : ℕ → ℕ → List Cell → List Cell
step op n st =
    if op == 0
    then value null ∷ st
    else if op == 1
    then value (num n) ∷ st
    else if op == 2
    then value (text []) ∷ st
    else if op == 3
    then push_char n st
    else if op == 4
    then items stop ∷ st
    else if op == 5
    then push_item st
    else if op == 6
    then close_array st
    else if op == 7
    then fields end ∷ st
    else if op == 8
    then push_field st
    else close_object st

abbrev run : List ℕ → List Cell → List Cell
run [] st = st
run (op ∷ []) st = st
run (op ∷ n ∷ rest) st = run rest (step op n st)

abbrev write_text : Str → List ℕ → List ℕ
write_text [] out = 2 ∷ 0 ∷ out
write_text (c ∷ s) out = write_text s (3 ∷ c ∷ out)

abbrev mutual
  write : Json → List ℕ → List ℕ
  write null out = 0 ∷ 0 ∷ out
  write (num n) out = 1 ∷ n ∷ out
  write (text s) out = write_text s out
  write (array js) out = write_items js (6 ∷ 0 ∷ out)
  write (object fs) out = write_fields fs (9 ∷ 0 ∷ out)

  write_items : Items → List ℕ → List ℕ
  write_items stop out = 4 ∷ 0 ∷ out
  write_items (item j js) out = write_items js (write j (5 ∷ 0 ∷ out))

  write_fields : Fields → List ℕ → List ℕ
  write_fields end out = 7 ∷ 0 ∷ out
  write_fields (field k v fs) out = write_fields fs (write v (write_text k (8 ∷ 0 ∷ out)))

run-write_text :
    (s : Str) (out : List ℕ) (st : List Cell)
    → run (write_text s out) st ≡ run out (value (text s) ∷ st)
run-write_text [] out st = refl
run-write_text (c ∷ s) out st = run-write_text s (3 ∷ c ∷ out) st

mutual
  run-write :
      (j : Json) (out : List ℕ) (st : List Cell) → run (write j out) st ≡ run out (value j ∷ st)
  run-write null out st = refl
  run-write (num n) out st = refl
  run-write (text s) out st = run-write_text s out st
  run-write (array js) out st = run-write_items js (6 ∷ 0 ∷ out) st
  run-write (object fs) out st = run-write_fields fs (9 ∷ 0 ∷ out) st

  run-write_items :
      (js : Items) (out : List ℕ) (st : List Cell)
      → run (write_items js out) st ≡ run out (items js ∷ st)
  run-write_items stop out st = refl
  run-write_items (item j js) out st =
      run-write_items js (write j (5 ∷ 0 ∷ out)) st ∙ run-write j (5 ∷ 0 ∷ out) (items js ∷ st)

  run-write_fields :
      (fs : Fields) (out : List ℕ) (st : List Cell)
      → run (write_fields fs out) st ≡ run out (fields fs ∷ st)
  run-write_fields end out st = refl
  run-write_fields (field k v fs) out st =
      run-write_fields fs (write v (write_text k (8 ∷ 0 ∷ out))) st
      ∙ run-write v (write_text k (8 ∷ 0 ∷ out)) (fields fs ∷ st)
      ∙ run-write_text k (8 ∷ 0 ∷ out) (value v ∷ fields fs ∷ st)

abbrev top : List Cell → Result Json
top (value j ∷ st) = ok j
top st = err value_error

-- A timestamp is written as one character.
abbrev pub serial : Codec
serial = record {
  dumps = λ j. write j [];
  dumps_unsorted = λ j. write j [];
  loads = λ s. top (run s []);
  repr_float = λ n. n ∷ [];
}

pub serial-IsCodec : IsCodec serial
serial-IsCodec = record {
  loads-dumps = λ fs. (fs, ap top (run-write (object fs) [] []), λ k. refl);
  loads-dumps_unsorted = λ fs. (fs, ap top (run-write (object fs) [] []), λ k. refl);
}
