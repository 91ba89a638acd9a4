-- ===== src/Storage/FileStore/Examples.antt =====
-- Concrete cases of what was proved of pkg/storage/filestore.go, with a codec that writes the body.
use kubemate.Storage.InMemory
use kubemate.Base.{
  Bool-cases, List, arith, String, ◌≡◌, ◌∙◌, refl, sym, inl, inr, Bool-cases, Bool, true, false,
  Option, none, some, [], ◌∷◌, ◌==◌, eq_iff, ap,
}
use kubemate.Base.Dict.{Dict, get}
use kubemate.Resource.{Resource, Error, conflict}
use kubemate.Storage.Fixtures.{note_type, note, env, two_notes}
use kubemate.Storage.FileStore.{
  in_memory, load_from_files, Store, DirEntry, has_suffix, FileStore, Os, update, write_file, strip,
}
use kubemate.Storage.InMemory.{in_memory, Store}
use kubemate.Storage.Interface.Memory.{memory}
use kubemate.Storage.FileStore.Refines.{Refines, perform, creation, files, perform-Refines}
use kubemate.Storage.FileStore.Loading.{entry, other, file, done}
use kubemate.Storage.FileStore.Restart.{load_from_files-Restores, IsRestored}
use kubemate.Storage.FileStore.Consistency.{Consistent}
use kubemate.Storage.FileStore.Updates.{Codec, update-IsConsistent, update_conflict_written}

abbrev encode_body : Resource String → Option String
encode_body r = some r.body

abbrev same_body : Resource String → Resource String → Bool
same_body r q = r.body == q.body

abbrev all_fine : Os
all_fine = record { creates = true; syncs = true; closes = true; renames = true; removes = true }

abbrev no_rename : Os
no_rename = record { creates = true; syncs = true; closes = true; renames = false; removes = true }

abbrev stored_notes : FileStore String String
stored_notes = record {
  inmemory = two_notes;
  shared = [];
  disk = record { files = ("b", "y") ∷ ("a", "x") ∷ []; temps = 0 };
}

body_codec : Codec note_type encode_body same_body
unfolding strip
body_codec = record {
  kind_free = λ r v k. refl;
  equal_encoded = λ r q e. ap some ((eq_iff r.body q.body).0 e);
}

stored_notes-Consistent : Consistent note_type encode_body stored_notes
unfolding strip get
stored_notes-Consistent = record {
  held = λ k r h. (r.body, ground arith, refl);
  free = λ k h. ground (arith);
}

abbrev change_a : Resource String → Resource String × Option Error
change_a r = (note "a" "1" "new", none)

update-IsConsistent_example :
    Consistent note_type encode_body
      (update note_type encode_body same_body stored_notes env all_fine "a"
        (note "" "" "")
        change_a).state
unfolding get
update-IsConsistent_example =
    update-IsConsistent note_type encode_body same_body stored_notes env all_fine "a" change_a
      body_codec (note "" "" "") (λ old h. ground arith) stored_notes-Consistent

abbrev outdated_a : Resource String → Resource String × Option Error
outdated_a r = (note "a" "0" "new", none)

update_conflict_written_example :
    let o =
      update note_type encode_body same_body stored_notes env all_fine "a"
        (note "" "" "")
        outdated_a in
    (o.err ≡ some (conflict "notes" "a"))
    × (get "a" o.state.inmemory.items ≡ some (note "a" "1" "x"))
    × (get "a" o.state.disk.files ≡ some "new")
unfolding get write_file strip
update_conflict_written_example =
    update_conflict_written note_type encode_body same_body stored_notes env all_fine "a" outdated_a
      (note "a" "1" "x") (note "a" "0" "new") (note "" "" "") "new" refl refl
      (λ e. cc ((eq_iff "1" "0").1 e)) refl refl refl

-- A codec that writes the object itself.
abbrev encode_all : Resource String → Option (Resource String)
encode_all r = some r

abbrev decode_all : Resource String → Option (Resource String)
decode_all b = some b

abbrev left_files : Dict (Resource String)
left_files = ("b", note "b" "" "y") ∷ ("a", note "a" "" "x") ∷ []

abbrev left_notes : FileStore (Resource String) String
left_notes = record {
  inmemory = two_notes;
  disk = record { files = left_files; temps = 1 };
  shared = [];
}

abbrev temporary : DirEntry (Resource String)
temporary = record { name = ".tmp-1"; is_dir = false; content = none }

abbrev listed : List (DirEntry (Resource String))
listed = temporary ∷ entry "b" (note "b" "" "y") ∷ entry "a" (note "a" "" "x") ∷ []

abbrev stripped : Option (Resource String) → Option (Resource String)
stripped o = elim o [ none ↦ none | some r ↦ some (strip note_type r) ]

stripped_files : (k : String) → stripped (get k two_notes.items) ≡ get k left_files
unfolding strip get
stripped_files k = elim (Bool-cases ("b" == k)) [
  | inl b ↦ rw b refl
  | inr b ↦ elim (Bool-cases ("a" == k)) [ inl a ↦ rw (b, a) refl | inr a ↦ rw (b, a) refl ]
]

left_notes-Consistent : Consistent note_type encode_all left_notes
unfolding strip get
left_notes-Consistent = record {
  held = λ k r h. (strip note_type r, sym (stripped_files k) ∙ ap (λ o. stripped o) h, refl);
  free = λ k h. ground (arith);
}

load_from_files-Restores_example :
    (t : Store String) × (load_from_files note_type decode_all in_memory env listed ≡ some t)
    × ((k : String) (r : Resource String)
        → get k two_notes.items ≡ some r
        → (q : Resource String) × (get k t.items ≡ some q)
          × IsRestored note_type encode_all decode_all k r q)
    × ((k : String) → get k two_notes.items ≡ none → get k t.items ≡ none)
unfolding get has_suffix
load_from_files-Restores_example =
    load_from_files-Restores note_type encode_all decode_all left_notes env listed left_files
      (record { decoded = λ r b e. (r, sym e, refl, refl) }) left_notes-Consistent
      (other temporary _ _ refl (file "b" _ _ _ refl (file "a" _ _ _ refl done))) (λ k. refl)

perform-Refines_example :
    Refines note_type encode_body same_body env two_notes
      (perform note_type encode_body same_body env
        (memory note_type env)
        two_notes
        (creation "c" (note "" "" "z")))
      (perform note_type encode_body same_body env
        (files note_type encode_body same_body env no_rename)
        stored_notes
        (creation "c" (note "" "" "z")))
perform-Refines_example =
    perform-Refines note_type encode_body same_body env stored_notes no_rename
      (creation "c" (note "" "" "z"))

abbrev rewritten : Resource String → Resource String
rewritten r = record r { body = "rewritten" }
