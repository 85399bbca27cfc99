-- ===== src/RefCounting/Tests.antt =====
-- Object 5 in a variable, a copy of the variable, and the first one destroyed.
use cplus_server_core_model.RefCounting.{Store, make, release, construct, construct_copy, some}
use cplus_server_core_model.RefCounting.Counting.{IsCounted, holders}
use cplus_server_core_model.RefCounting.Kept.{Step, Reach, Reach-IsCounted, release-deletes}
use cplus_server_core_model.Prelude.{some, ◌≡◌, arith, if◌then◌else◌, ◌==◌, refl}

abbrev two : Store
two = construct_copy 0 (construct (some 5) make)

two-Reach : Reach two
unfolding construct
two-Reach =
    Reach.later (Reach.later Reach.start (Step.constructs (some 5) refl (omega arith)))
      (Step.copies 0 (omega arith))

abbrev one : Store
one = release 1 two

one-Reach : Reach one
one-Reach = Reach.later two-Reach (Step.destroys 1)

Reach-IsCounted_example : IsCounted one
Reach-IsCounted_example = Reach-IsCounted one-Reach

release-deletes_example :
    (release 0 one).deletions 5 ≡ (if holders 5 one.handles == 1 then 1 else 0)
unfolding construct construct_copy release
release-deletes_example = release-deletes one-Reach 0 5 refl
