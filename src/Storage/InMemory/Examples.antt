-- ===== src/Storage/InMemory/Examples.antt =====
-- Tests of pkg/storage/inmemorystore.go, and concrete cases of what was proved of it.
use kubemate.Base.Decimal.{decimal}
use kubemate.Base.{◌≡◌, refl, none, some, List, [], ◌∷◌, arith}
use kubemate.Base.Dict.{put, remove, get}
use kubemate.Resource.{version}
use kubemate.Storage.Fixtures.{note_type, note, env, two_notes}
use kubemate.Storage.InMemory.{
  store_created, emit, store_deleted, store_modified, in_memory, create, update, delete,
}
use kubemate.Storage.InMemory.Versions.{
  IsNumbered, IsNumbered-in_memory, run-IsNumbered, update_of_latest, Call, creates, deletes, run,
}

-- Another note is created and one is removed in the meantime.
abbrev meanwhile : List (Call note_type)
meanwhile = creates env "c" (note "" "" "z") ∷ deletes env "b" (note "" "" "") (λ r. none) ∷ []

update_of_latest_example :
    get "a" (run note_type two_notes meanwhile).items ≡ some (note "a" "1" "x")
unfolding version get create update delete decimal store_created emit put store_deleted remove
    store_modified
update_of_latest_example =
    update_of_latest note_type two_notes meanwhile env "a" (note "a" "1" "x") (note "a" "1" "new") 1
      refl refl (omega arith) (omega arith) refl refl

run-IsNumbered_example : IsNumbered (run note_type in_memory meanwhile)
unfolding in_memory
run-IsNumbered_example =
    run-IsNumbered note_type in_memory meanwhile (omega arith) IsNumbered-in_memory
