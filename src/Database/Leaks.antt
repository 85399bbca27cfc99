-- ===== src/Database/Leaks.antt =====
-- What stays allocated in ODBC when connections and the pool are cleared.
use cplus_server_core_model.Database.Connections.{
  Odbc, Connection, ConnectionPool, no_connection, clear, clear_pool, make,
}
use cplus_server_core_model.Prelude.{ℕ, some, true, ◌≡◌, ◌≢◌, ◌∙◌, ap, refl}

module _ {ℓ} {S : Type ℓ} (odbc : Odbc S) where
  -- `Clear` of a connection frees the connection before the statement that stands on it, which ODBC
  -- refuses: the handle of the connection is still allocated afterwards, and the object has forgotten
  -- both. The pool, cleared while a connection stands on its environment, frees nothing at all and
  -- forgets everything.
  pub clear-leaks :
      (dbc stmt env : ℕ) (s : S) (p : ConnectionPool)
      → odbc.stands_on stmt dbc s ≡ true
      → odbc.stands_on dbc env s ≡ true
      → odbc.allocated dbc s ≡ true
      → stmt ≢ dbc
      → p.environment ≡ some env
      → let c : Connection = record { connection = some dbc; statement = some stmt } in
        ((clear odbc c s).0 ≡ no_connection)
        × (odbc.allocated dbc (clear odbc c s).1 ≡ true)
        × (clear_pool odbc p s ≡ (make, s))
  unfolding clear clear_pool
  clear-leaks dbc stmt env s p on_dbc on_env here apart e = (
    refl,
    odbc.free_other stmt dbc (odbc.free dbc s) apart
        ∙ (ap (odbc.allocated dbc) (odbc.free_busy stmt dbc s on_dbc) ∙ here),
    rw e (ap (λ s'. (make, s')) (odbc.free_busy dbc env s on_env)),
  )
