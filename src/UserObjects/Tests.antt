-- ===== src/UserObjects/Tests.antt =====
-- User objects of objects with and without an allocator, and uses of the theorems on them.
use vsg.Base.{
  ◌≡◌, refl, none, some, [], ◌∷◌, if◌then◌else◌, ◌==◌, ==_iff, Bool-cases, inl, inr, sym, ap,
}
use vsg.Base.Word.{add32}
use vsg.Base.Entries.{find, assign, erase}
use vsg.RefPtr.{then_do}
use vsg.UserObjects.{
  Store, at, point, attach, unref, is_connected, get_or_create_unique_auxiliary, change, set_object,
  get_object, remove_object, assign_object, copy_object, share, destroy,
}
use vsg.UserObjects.Maps.{ascending}
use vsg.UserObjects.Alone.{Alone}
use vsg.UserObjects.Steps.{Sets, Copies, set_remove_lem, copy_lem}

abbrev no_objects : Store
no_objects = record { auxiliaries = []; auxiliary = λ o. none }

-- An object keeps what is set, and removes it.
get-set_object : then_do (set_object 3 7 21 no_objects) (get_object 3 7) ≡ some 21
unfolding set_object get_object get_or_create_unique_auxiliary attach change at point find assign
get-set_object = refl

get-remove_object :
    then_do (then_do (set_object 3 7 21 no_objects) (remove_object 3 7)) (get_object 3 7) ≡ some 0
unfolding set_object get_object remove_object get_or_create_unique_auxiliary attach change at point
    find assign erase
get-remove_object = refl

get-assign_object :
    then_do (then_do (set_object 3 7 21 no_objects) (assign_object 4 3)) (get_object 4 7) ≡ some 21
unfolding set_object get_object assign_object get_or_create_unique_auxiliary attach change at point
    find assign is_connected add32
get-assign_object = refl

-- Two objects of an allocator: the end of the first deletes the Auxiliary that the second has.
abbrev shared : Store
shared = share 1 0 (
    share 0 0 (record {
      auxiliaries =
          some (record { count = 0; connected = none; allocator = some 9; objects = [] }) ∷ [];
      auxiliary = λ o. none;
    }))

destroy_first : then_do (destroy 0 shared) (λ s. at s 0) ≡ none
unfolding destroy share unref at point
destroy_first = refl

destroy_second : then_do (destroy 0 shared) (destroy 1) ≡ none
unfolding destroy share unref at point
destroy_second = refl

-- Object 3 has the user object 21.
abbrev one : Store
one = record {
  auxiliaries =
      some (record { count = 1; connected = some 3; allocator = none; objects = (7, 21) ∷ [] })
      ∷ [];
  auxiliary = λ o. if 3 == o then some 0 else none;
}

one-Alone : Alone one
unfolding at ascending
one-Alone o a h = elim (Bool-cases (3 == o)) [
  | inl q ↦
      let zeroth : 0 ≡ a = cc (rw q at h) in
      rw (sym zeroth) (
        record { count = 1; connected = some 3; allocator = none; objects = (7, 21) ∷ [] },
        refl,
        ap some ((==_iff 3 o).0 q),
        refl,
        refl,
      )
  | inr q ↦ cc (rw q at h)
]

set_remove_lem_example :
    Sets (set_object 3 7 22 one) one 3 7 22 × Sets (remove_object 3 7 one) one 3 7 0
set_remove_lem_example = set_remove_lem 3 7 22 one one-Alone

copy_lem_example : Copies (assign_object 4 3 one) one 4 3 × Copies (copy_object 5 3 one) one 5 3
copy_lem_example = copy_lem 4 5 3 one one-Alone refl
