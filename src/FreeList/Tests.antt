-- ===== src/FreeList/Tests.antt =====
-- Concrete free lists for base/free_list.h.
use whisperlib.Prelude.{List, [], ◌∷◌}
use whisperlib.FreeList.Lists.{new_free_list}
use whisperlib.FreeList.Reuse.{
  Use, take_object, give_back, give_back_all, use_all, IsKept, use_all-IsKept,
}

abbrev uses : List Use
uses =
    take_object
    ∷ take_object
    ∷ take_object
    ∷ give_back 1
    ∷ give_back 0
    ∷ take_object
    ∷ give_back 0
    ∷ take_object
    ∷ give_back_all
    ∷ []

use_all-IsKept_example : IsKept (use_all uses (record { list = new_free_list 1; taken = [] }))
use_all-IsKept_example = use_all-IsKept 1 uses
