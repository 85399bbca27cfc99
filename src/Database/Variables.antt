-- ===== src/Database/Variables.antt =====
-- The overloads of BindParam and BindCol in ServerCore/DBConnection.cpp and ServerCore/DBBind.h: what they hand to ODBC
-- for a variable of each type.
use cplus_server_core_model.Prelude.{ℕ, ◌*◌, ◌-◌, ◌+◌, if◌then◌else◌, ltb}

-- The SQL_C_... and SQL_... types that the code names.
pub data CType : Type 0 where
  c_tinyint c_float c_double c_short c_long c_sbigint c_timestamp c_type_timestamp c_wchar
        c_binary :
      CType

pub data SqlType : Type 0 where
  sql_tinyint sql_real sql_double sql_smallint sql_integer sql_bigint sql_type_timestamp : SqlType
  sql_wvarchar sql_wlongvarchar sql_binary sql_longvarbinary : SqlType

-- A variable of the program: one of the types with an overload of their own, or an array with its
-- length (of WCHAR, or of values of some size).
pub data Variable : Type 0 where
  bool float double int8 int16 int32 int64 timestamp : Variable
  wchars : (n : ℕ) → Variable
  values : (size n : ℕ) → Variable

-- `sizeof`.
abbrev pub size_of : Variable → ℕ
size_of Variable.bool = 1
size_of Variable.float = 4
size_of Variable.double = 8
size_of Variable.int8 = 1
size_of Variable.int16 = 2
size_of Variable.int32 = 4
size_of Variable.int64 = 8
size_of Variable.timestamp = 16
size_of (Variable.wchars n) = 2 * n
size_of (Variable.values size n) = size * n

-- `BindCol` of DBBind and then of DBConnection: the C type, and the length of the buffer.
unfoldable pub column : Variable → CType × ℕ
column Variable.bool = (CType.c_tinyint, 1)
column Variable.float = (CType.c_float, 4)
column Variable.double = (CType.c_double, 8)
column Variable.int8 = (CType.c_tinyint, 1)
column Variable.int16 = (CType.c_short, 2)
column Variable.int32 = (CType.c_long, 4)
column Variable.int64 = (CType.c_sbigint, 8)
column Variable.timestamp = (CType.c_timestamp, 16)
column (Variable.wchars n) = (CType.c_wchar, n - 1)
column (Variable.values size n) = (CType.c_binary, size * n)

-- What `*index` gets: nothing, SQL_NTSL, SQL_NULL_DATA, or a length.
pub data Indicator : Type 0 where
  unset ntsl null_data : Indicator
  given_length : (n : ℕ) → Indicator

-- `column_size` is the length that BindParam hands on; the length of the buffer is 0, and `index` says how long the
-- value is, or keeps what it had.
pub record Parameter : Type 0 where
  pub c_type : CType
  pub sql_type : SqlType
  pub column_size : ℕ
  pub index : Indicator

abbrev pub wvarchar_max : ℕ
wvarchar_max = 4000

abbrev pub binary_max : ℕ
binary_max = 8000

abbrev plain : CType → SqlType → ℕ → Parameter
plain c s size = record { c_type = c; sql_type = s; column_size = size; index = Indicator.unset }

-- What a parameter is bound to: a variable of one of those types, a text of so many units before
-- its null, bytes, or a null pointer.
pub data Source : Type 0 where
  variable : Variable → Source
  text : (units : ℕ) → Source
  bytes : (size : ℕ) → Source
  nothing : Source

unfoldable pub text_parameter : ℕ → Parameter
text_parameter units =
    let size = (units + 1) * 2 in
    record {
      c_type = CType.c_wchar;
      sql_type = if ltb wvarchar_max size then SqlType.sql_wlongvarchar else SqlType.sql_wvarchar;
      column_size = size;
      index = Indicator.ntsl;
    }

unfoldable pub bytes_parameter : ℕ → Indicator → Parameter
bytes_parameter size index = record {
  c_type = CType.c_binary;
  sql_type = if ltb binary_max size then SqlType.sql_longvarbinary else SqlType.sql_binary;
  column_size = size;
  index = index;
}

-- `BindParam`. An array goes through the overload of bytes: `DBBind::BindParam` of an array hands
-- its size in bytes on, also for WCHAR.
unfoldable pub parameter : Source → Parameter
unfolding text_parameter bytes_parameter
parameter (Source.variable Variable.bool) = plain CType.c_tinyint SqlType.sql_tinyint 1
parameter (Source.variable Variable.float) = plain CType.c_float SqlType.sql_real 0
parameter (Source.variable Variable.double) = plain CType.c_double SqlType.sql_double 0
parameter (Source.variable Variable.int8) = plain CType.c_tinyint SqlType.sql_tinyint 1
parameter (Source.variable Variable.int16) = plain CType.c_short SqlType.sql_smallint 2
parameter (Source.variable Variable.int32) = plain CType.c_long SqlType.sql_integer 4
parameter (Source.variable Variable.int64) = plain CType.c_sbigint SqlType.sql_bigint 8
parameter (Source.variable Variable.timestamp) =
    plain CType.c_type_timestamp SqlType.sql_type_timestamp 16
parameter (Source.variable (Variable.wchars n)) =
    bytes_parameter (2 * n) (Indicator.given_length (2 * n))
parameter (Source.variable (Variable.values size n)) =
    bytes_parameter (size * n) (Indicator.given_length (size * n))
parameter (Source.text units) = text_parameter units
parameter (Source.bytes size) = bytes_parameter size (Indicator.given_length size)
parameter Source.nothing = bytes_parameter 1 Indicator.null_data
