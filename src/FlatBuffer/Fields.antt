-- ===== src/FlatBuffer/Fields.antt =====
-- What a handler puts into a packet, field by field: integers of some width, and texts.
use cplus_server_core_model.Bytes.{encode, length-encode, decode-encode}
use cplus_server_core_model.FlatBuffer.{
  Writer, Reader, write, write_wstring, read_int, read_wstring, units, from_units, ℕ, List, Bool,
  ◌∷◌, Outcome, length, ok,
}
use cplus_server_core_model.Prelude.{
  ℕ, List, ◌<◌, Bool, ◌^◌, ◌*◌, Outcome, length, ◌≡◌, ◌++◌, ok, arith, take-length, length-append,
  drop-length, [], ◌>>=◌, refl,
}

pub data Field : Type 0 where
  int : (width value : ℕ) → Field
  text : (wstr : List ℕ) → Field

pub data Shape : Type 0 where
  int : (width : ℕ) → Shape
  text : Shape

abbrev pub shape : Field → Shape
shape (Field.int w v) = Shape.int w
shape (Field.text t) = Shape.text

abbrev pub bytes_of : Field → List ℕ
bytes_of (Field.int w v) = encode w v
bytes_of (Field.text t) = encode 2 (2 * length t) ++ units t

abbrev pub body : List Field → List ℕ
body [] = []
body (f ∷ fs) = bytes_of f ++ body fs

abbrev pub AreUnits : List ℕ → Type 0
AreUnits [] = Unit
AreUnits (c ∷ cs) = (c < 65536) × AreUnits cs

-- A value of its width; a text whose length in bytes is a uint16.
abbrev pub IsField : Field → Type 0
IsField (Field.int w v) = v < 256 ^ w
IsField (Field.text t) = (length t < 32768) × AreUnits t

abbrev pub AreFields : List Field → Type 0
AreFields [] = Unit
AreFields (f ∷ fs) = IsField f × AreFields fs

unfoldable pub write_field : Bool → Field → Writer → Outcome Writer
write_field debug (Field.int w v) = write debug (encode w v)
write_field debug (Field.text t) = write_wstring debug t

unfoldable pub write_all : Bool → List Field → Writer → Outcome Writer
write_all debug [] w = ok w
write_all debug (f ∷ fs) w = do w' ← write_field debug f w; write_all debug fs w'

unfoldable pub read_field : Bool → Shape → Reader → Outcome (Field × Reader)
read_field debug (Shape.int w) r = do (v, r') ← read_int debug w r; ok (Field.int w v, r')
read_field debug Shape.text r = do (t, r') ← read_wstring debug r; ok (Field.text t, r')

unfoldable pub read_all : Bool → List Shape → Reader → Outcome (List Field × Reader)
read_all debug [] r = ok ([], r)
read_all debug (s ∷ ss) r = do
  (f, r') ← read_field debug s r
  (fs, r'') ← read_all debug ss r'
  ok (f ∷ fs, r'')

pub length-units : (cs : List ℕ) → length (units cs) ≡ 2 * length cs
length-units [] = refl
length-units (c ∷ cs) =
    omega (arith, length-append (encode 2 c) (units cs), length-encode 2 c, length-units cs)

pub from_units-units : (cs : List ℕ) → AreUnits cs → from_units (length cs) (units cs) ≡ cs
from_units-units [] h = refl
from_units-units (c ∷ cs) (lt, h) =
    let two = length-encode 2 c in
    let front = rw two at (take-length (encode 2 c) (units cs)) in
    let behind = rw two at (drop-length (encode 2 c) (units cs)) in
    rw (front, behind, from_units-units cs h, decode-encode 2 c (omega arith)) refl
