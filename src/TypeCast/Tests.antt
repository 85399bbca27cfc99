-- ===== src/TypeCast/Tests.antt =====
-- Three types, one of them twice; and two types, the second made from the first.
use cplus_server_core_model.TypeCast.{index_of, ◌∷◌}
use cplus_server_core_model.TypeCast.Convert.{can_cast, type_cast, can_cast-exists}
use cplus_server_core_model.Prelude.{◌∷◌, [], ℕ, some, Bool, ◌≡◌, leb, ok, true, refl, ◌+◌, ◌*◌}

abbrev is_derived : ℕ → ℕ → Bool
is_derived from to = leb to from

-- An object of type 4 stands 8 bytes into the object that is made from it.
abbrev shifted : ℕ → ℕ → ℕ
shifted to address = address + 2 * to

can_cast-exists_example :
    (can_cast is_derived (4 ∷ 7 ∷ []) 4 (some (100, index_of (4 ∷ 7 ∷ []) 7)) ≡ ok true)
    × (type_cast is_derived (4 ∷ 7 ∷ []) shifted 4 (some (100, index_of (4 ∷ 7 ∷ []) 7))
        ≡ ok (some 108))
unfolding index_of
can_cast-exists_example = can_cast-exists is_derived shifted (4 ∷ 7 ∷ []) 7 4 1 0 100 refl refl
