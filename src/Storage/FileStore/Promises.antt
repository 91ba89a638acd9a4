-- ===== src/Storage/FileStore/Promises.antt =====
-- pkg/storage/filestore.go keeps what storage.Interface promises, since it implements the in-memory store.
use kubemate.Base.{Bool, String, ◌≡◌, refl, ap, ◌∙◌, Option}
use kubemate.Base.Dict.{get}
use kubemate.Resource.{Resource, ResourceType, Outcome, Env}
use kubemate.Storage.InMemory.{Store, get_item}
use kubemate.Storage.Interface.{StoreLaws, Effect, Unchanged, refused, held}
use kubemate.Storage.Interface.Memory.{memory_laws}
use kubemate.Storage.FileStore.{FileStore, Os}
use kubemate.Storage.FileStore.Refines.{
  files, Refines, did, failed, creation, change, removal, perform-Refines,
}

module _ {Bytes B : Type 0} (T : ResourceType B) (encode : Resource B → Option Bytes)
    (deep_equal : Resource B → Resource B → Bool) (env : Env) (os : Os) where
  abbrev pub look : Store B → String → Option (Resource B)
  look s k = get k s.items

  abbrev pub Implements : Store B → Outcome (Store B) B → Outcome (FileStore Bytes B) B → Type 0
  Implements s m o = Refines T encode deep_equal env s m o

  module _ (s : Store B) (m : Outcome (Store B) B) (o : Outcome (FileStore Bytes B) B) where
    pub Implements-Unchanged :
        Implements s m o
        → Unchanged (look s) (look m.state) m.err
        → Unchanged (look s) (look o.state.inmemory) o.err
    Implements-Unchanged (did fine mfine out st) (e, bad, same) = cc
    Implements-Unchanged (failed e bad items) u = (e, bad, λ k. ap (λ is. get k is) items)

    pub Implements-Effect :
        (key : String) (Told : B → Type 0)
        → Implements s m o
        → Effect (look s) (look m.state) key Told m.err
        → Effect (look s) (look o.state.inmemory) key Told o.err
    Implements-Effect key Told (failed e bad items) u =
        refused (e, bad, λ k. ap (λ is. get k is) items)
    Implements-Effect key Told (did fine mfine out st) (refused (e, bad, same)) = cc
    Implements-Effect key Told (did fine mfine out st) (held r ok told there elsewhere) =
        held r fine told (ap (λ t. look t key) st ∙ there)
          (λ k ne. ap (λ t. look t k) st ∙ elsewhere k ne)

    pub Implements-elsewhere :
        (k : String)
        → Implements s m o
        → look m.state k ≡ look s k
        → look o.state.inmemory k ≡ look s k
    Implements-elsewhere k (did fine mfine out st) e = ap (λ t. look t k) st ∙ e
    Implements-elsewhere k (failed e bad items) u = ap (λ is. get k is) items

  -- The file store keeps every promise of the interface, whatever the system calls and the codec do.
  unfoldable pub file_laws : StoreLaws T.group_resource (files T encode deep_equal env os)
  unfolding get_item memory_laws
  file_laws = record {
    lookup = λ s k. get k s.inmemory.items;
    get_found = λ s key o r e. rw (e, get_item) refl;
    get_missing = λ s key o e. rw (e, get_item) refl;
    create_free = λ s key o e.
        Implements-Effect s.inmemory _ _ key (λ b. b ≡ o.body)
          (perform-Refines T encode deep_equal env s os (creation key o))
          ((memory_laws T env).create_free s.inmemory key o e);
    create_used = λ s key o r e.
        Implements-Unchanged s.inmemory _ _
          (perform-Refines T encode deep_equal env s os (creation key o))
          ((memory_laws T env).create_used s.inmemory key o r e);
    update_found = λ s key o r f e.
        Implements-Effect s.inmemory _ _ key (λ b. b ≡ (f r).0.body)
          (perform-Refines T encode deep_equal env s os (change key o f))
          ((memory_laws T env).update_found s.inmemory key o r f e);
    update_missing = λ s key o f e.
        Implements-Unchanged s.inmemory _ _
          (perform-Refines T encode deep_equal env s os (change key o f))
          ((memory_laws T env).update_missing s.inmemory key o f e);
    delete_elsewhere = λ s key o v k ne.
        Implements-elsewhere s.inmemory _ _ k
          (perform-Refines T encode deep_equal env s os (removal key o v))
          ((memory_laws T env).delete_elsewhere s.inmemory key o v k ne);
  }
