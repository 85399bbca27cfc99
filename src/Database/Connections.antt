-- ===== src/Database/Connections.antt =====
-- ServerCore/DBConnection.{h,cpp} and ServerCore/DBConnectionPool.{h,cpp}: the handles of ODBC that a connection and the
-- pool hold. A handle is a number, and null is `none`.
use cplus_server_core_model.Database.{SqlReturn, is_success}
use cplus_server_core_model.Prelude.{
  ℕ, List, Bool, Option, none, some, true, false, [], ◌∷◌, ◌≡◌, ◌++◌, if◌then◌else◌, ◌≢◌, ◌%◌, ◌^◌,
}

-- `SQLFreeHandle`, by its documentation: a handle is not freed, and nothing else changes, as long as
-- another one is allocated on it, and the free of a handle leaves the others as they are.
pub record Odbc {ℓ} (S : Type ℓ) : Type ℓ where
  pub allocated : ℕ → S → Bool
  pub stands_on : ℕ → ℕ → S → Bool
  pub free : ℕ → S → S
  pub free_busy : (child parent : ℕ) (s : S) → stands_on child parent s ≡ true → free parent s ≡ s
  pub free_other :
      (h other : ℕ) (s : S) → h ≢ other → allocated other (free h s) ≡ allocated other s

pub record Connection : Type 0 where
  pub connection : Option ℕ
  pub statement : Option ℕ

abbrev pub no_connection : Connection
no_connection = record { connection = none; statement = none }

-- What `SQLAllocHandle`, `SQLDriverConnect` and `SQLAllocHandle` answer.
pub record Answers : Type 0 where
  pub allocated_connection : Option ℕ
  pub driver_connect : SqlReturn
  pub allocated_statement : Option ℕ

unfoldable pub connect : Answers → Connection → Connection × Bool
connect a c = elim a.allocated_connection [
  | none ↦ (c, false)
  | some dbc ↦ elim a.allocated_statement [
    | none ↦ (record c { connection = some dbc }, false)
    | some stmt ↦
        (record { connection = some dbc; statement = some stmt }, is_success a.driver_connect)
  ]
]

module _ {ℓ} {S : Type ℓ} (odbc : Odbc S) where
  -- `if (handle != SQL_NULL_HANDLE) ::SQLFreeHandle(handle)`.
  abbrev pub free_handle : Option ℕ → S → S
  free_handle none s = s
  free_handle (some h) s = odbc.free h s

  -- `DBConnection::Clear`.
  unfoldable pub clear : Connection → S → Connection × S
  clear c s = (no_connection, free_handle c.statement (free_handle c.connection s))

-- `DBConnectionPool`; a connection that is popped or pushed is its pointer, and here its handles.
pub record ConnectionPool : Type 0 where
  pub environment : Option ℕ
  pub connections : List Connection

abbrev pub make : ConnectionPool
make = record { environment = none; connections = [] }

-- The loop of Connect; a connection that fails is not kept.
unfoldable pub connect_all : List Answers → ConnectionPool → ConnectionPool × Bool
unfolding connect
connect_all [] p = (p, true)
connect_all (a ∷ answers) p =
    let made = connect a no_connection in
    let rest = connect_all answers (record p { connections = p.connections ++ made.0 ∷ [] }) in
    if made.1 then rest else (p, false)

-- `DBConnectionPool::Connect`, with the handle of the environment, the success of `SQLSetEnvAttr`,
-- and what the calls for each of the connections answer.
unfoldable pub connect_pool :
    Option ℕ → Bool → List Answers → ConnectionPool → ConnectionPool × Bool
unfolding connect_all
connect_pool none attr answers p = (p, false)
connect_pool (some env) attr answers p =
    let opened = record p { environment = some env } in
    let connected = connect_all answers opened in if attr then connected else (opened, false)

-- `DBConnectionPool::Clear` and the destructor. A DBConnection has no destructor of its own.
unfoldable pub clear_pool {ℓ} : {S : Type ℓ} → Odbc S → ConnectionPool → S → ConnectionPool × S
clear_pool odbc p s = (make, free_handle odbc p.environment s)

-- `GetRowCount`, an int32; -1 is `none`.
unfoldable row_count : SqlReturn → ℕ → Option ℕ
row_count answer count = if is_success answer then some (count % 2 ^ 32) else none

-- `HandleError`: the messages that it prints, of the records that `SQLGetDiagRec` has for the
-- statement, from the first one on.
abbrev diagnostics : List (SqlReturn × List ℕ) → List (List ℕ)
diagnostics [] = []
diagnostics ((answer, message) ∷ records) =
    if is_success answer then message ∷ diagnostics records else []

unfoldable handle_error : SqlReturn → List (SqlReturn × List ℕ) → List (List ℕ)
handle_error SqlReturn.success records = []
handle_error SqlReturn.success_with_info records = diagnostics records
handle_error SqlReturn.no_data records = diagnostics records
handle_error SqlReturn.error records = diagnostics records
handle_error SqlReturn.other records = diagnostics records
