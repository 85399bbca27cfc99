-- ===== src/Database/Bound.antt =====
-- What the flags of DBBind say: which parameters and columns were bound.
use cplus_server_core_model.Database.{Binding, bind_param, bind_col, false, ltb, ok, assert_that}
use cplus_server_core_model.Prelude.{
  ℕ, List, Bool, [], ◌∷◌, zero, suc, ◌%◌, ◌==◌, false, ltb, ◌/◌, ◌<◌, ok, assert_that,
}

abbrev bit : ℕ → ℕ → Bool
bit zero flag = flag % 2 == 1
bit (suc j) flag = bit j (flag / 2)

-- The calls of BindParam, and those of BindCol, in order.
abbrev pub bind_params : List ℕ → Binding → Binding
bind_params [] b = b
bind_params (idx ∷ ps) b = bind_params ps (bind_param idx b)

abbrev pub bind_cols : List ℕ → Binding → Binding
bind_cols [] b = b
bind_cols (idx ∷ cs) b = bind_cols cs (bind_col idx b)

-- Indices that a uint64 has a bit for.
abbrev pub AreIndices : List ℕ → Type 0
AreIndices [] = Unit
AreIndices (idx ∷ ps) = (idx < 64) × AreIndices ps
