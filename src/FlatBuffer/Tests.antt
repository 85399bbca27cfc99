-- ===== src/FlatBuffer/Tests.antt =====
-- A packet with a byte, and a text of two units, in a buffer of 16 bytes.
use cplus_server_core_model.FlatBuffer.Fields.{Field, shape, AreFields, read_all}
use cplus_server_core_model.FlatBuffer.{open_reader, List, ℕ, [], ok, length}
use cplus_server_core_model.FlatBuffer.Writing.{write_packet}
use cplus_server_core_model.FlatBuffer.Reading.{read-write}
use cplus_server_core_model.Bytes.{encode}
use cplus_server_core_model.Prelude.{
  List, arith, true, ◌>>=◌, ◌≡◌, false, ◌∷◌, ℕ, replicate, map, [], ok, ◌++◌, length,
}

abbrev fields : List Field
fields = Field.int 1 255 ∷ Field.text (72 ∷ 1000 ∷ []) ∷ []

abbrev buffer : List ℕ
buffer = replicate 16 0

fields-AreFields : AreFields fields
fields-AreFields = (omega arith, ((omega arith, (omega arith, (omega arith, tt))), tt))

read-write_example :
    (do
      sent ← write_packet true 16 8 fields buffer
      (fs, r) ← read_all false (map shape fields) (open_reader (sent ++ 1 ∷ []) (length sent))
      ok fs)
    ≡ ok fields
unfolding encode
read-write_example =
    read-write true false 8 fields buffer (1 ∷ []) fields-AreFields (omega arith) (omega arith)
