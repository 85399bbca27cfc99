-- ===== src/TypeCast.antt =====
-- ServerCore/TypeCast.h: lists of types that the compiler counts and searches. A type is a number,
-- and a recursion of templates a recursive function; `none` is -1 in IndexOf, and in TypeAt a
-- program that does not compile.
pub mod Places
pub mod Convert
pub mod Tests
use cplus_server_core_model.Prelude.{
  List, Option, ℕ, ◌∷◌, none, some, ◌+◌, suc, if◌then◌else◌, ◌==◌, [], zero,
}

-- Length.
unfoldable pub length_of : List ℕ → ℕ
length_of [] = 0
length_of (t ∷ ts) = 1 + length_of ts

-- TypeAt.
unfoldable pub type_at : List ℕ → ℕ → Option ℕ
type_at [] index = none
type_at (head ∷ tail) zero = some head
type_at (head ∷ tail) (suc index) = type_at tail index

abbrev pub next : Option ℕ → Option ℕ
next none = none
next (some temp) = some (temp + 1)

-- IndexOf; its first case is that of a list that starts with the type.
unfoldable pub index_of : List ℕ → ℕ → Option ℕ
index_of [] t = none
index_of (head ∷ tail) t = let temp = index_of tail t in if head == t then some 0 else next temp
