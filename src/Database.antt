-- ===== src/Database.antt =====
-- ServerCore/DBBind.h, ServerCore/DBConnection.{h,cpp} and ServerCore/DBConnectionPool.{h,cpp}: the parameters and columns
-- that are bound before a query runs, and the connections that threads take and give back. What
-- ODBC answers is a parameter.
pub mod Bound
pub mod Connections
pub mod Leaks
pub mod Variables
pub mod Tests
use cplus_server_core_model.Prelude.{
  ℕ, List, Outcome, Bool, Option, ◌∷◌, [], if◌then◌else◌, suc, ◌++◌, ◌==◌, true, none, ◌>>◌, ◌%◌,
  ltb, ◌+◌, ◌&&◌, false, assert_that, some, zero, ◌*◌, ok, ◌/◌, ◌^◌, ◌-◌,
}

-- `flag | (1 << i)`, from the lowest bit on.
unfoldable pub set_bit : ℕ → ℕ → ℕ
set_bit zero flag = if flag % 2 == 1 then flag else flag + 1
set_bit (suc i) flag = 2 * set_bit i (flag / 2) + flag % 2

-- The bits of `FullBits<C>`.
unfoldable pub low_bits : ℕ → ℕ
unfolding set_bit
low_bits zero = 0
low_bits (suc c) = set_bit c (low_bits c)

-- `FullBits<C>`, an int, as it is compared with a uint64: with 32 bits it is -1. More do not compile.
unfoldable pub full_bits : ℕ → ℕ
unfolding low_bits
full_bits c = if ltb c 32 then low_bits c else low_bits c + (2 ^ 64 - 2 ^ 32)

-- `_paramFlag |= (1LL << idx)` in a uint64, for an index below 64.
unfoldable pub set_flag : ℕ → ℕ → ℕ
unfolding set_bit
set_flag idx flag = set_bit idx flag

-- `params` and `columns` are the numbers that were handed to ODBC.
pub record Binding : Type 0 where
  pub param_flag : ℕ
  pub column_flag : ℕ
  pub params : List ℕ
  pub columns : List ℕ

-- The constructor, with `Unbind` of the connection.
abbrev pub make : Binding
make = record { param_flag = 0; column_flag = 0; params = []; columns = [] }

-- All overloads do this, whatever ODBC answers.
unfoldable pub bind_param : ℕ → Binding → Binding
unfolding set_flag
bind_param idx b = record b {
  param_flag = set_flag idx b.param_flag;
  params = b.params ++ (idx + 1) ∷ [];
}

unfoldable pub bind_col : ℕ → Binding → Binding
unfolding set_flag
bind_col idx b = record b {
  column_flag = set_flag idx b.column_flag;
  columns = b.columns ++ (idx + 1) ∷ [];
}

unfoldable pub validate : ℕ → ℕ → Binding → Bool
unfolding full_bits
validate param_count column_count b =
    b.param_flag == full_bits param_count && b.column_flag == full_bits column_count

-- SQLRETURN.
pub data SqlReturn : Type 0 where
  success success_with_info no_data error other : SqlReturn

abbrev pub is_success : SqlReturn → Bool
is_success success = true
is_success success_with_info = true
is_success no_data = false
is_success error = false
is_success other = false

-- `DBConnection::Execute`, and `DBBind::Execute` with its assertion.
unfoldable pub execute : ℕ → ℕ → SqlReturn → Binding → Outcome Bool
unfolding validate
execute param_count column_count answer b = do
  assert_that (validate param_count column_count b)
  ok (is_success answer)

-- `DBConnection::Fetch`.
unfoldable fetch : SqlReturn → Bool
fetch success = true
fetch success_with_info = true
fetch no_data = false
fetch error = false
fetch other = true

-- `DBConnectionPool`: `_connections`, by their pointers.
unfoldable pop : List ℕ → Option ℕ × List ℕ
pop [] = (none, [])
pop (c ∷ []) = (some c, [])
pop (c ∷ d ∷ cs) = let rest = pop (d ∷ cs) in (rest.0, c ∷ rest.1)

unfoldable push : ℕ → List ℕ → List ℕ
push connection connections = connections ++ connection ∷ []
