-- ===== src/Storage/FileStore/Restart.antt =====
-- pkg/storage/filestore.go: what `loadFromFiles` makes of the directory that a store has left.
use kubemate.Base.{
  ℕ, String, ◌≡◌, refl, sym, ap, ◌∙◌, inl, inr, Option, none, some, List, Option-cases,
}
use kubemate.Base.Dict.{Dict, get}
use kubemate.Resource.{Resource, ResourceType, Env}
use kubemate.Storage.InMemory.{Store, in_memory}
use kubemate.Storage.FileStore.{FileStore, DirEntry, strip, load_from_files}
use kubemate.Storage.FileStore.Loading.{Listing, IsLoaded, load-Listing}
use kubemate.Storage.FileStore.Consistency.{Consistent}

module _ {Bytes B : Type 0} (T : ResourceType B) (encode : Resource B → Option Bytes)
    (decode : Bytes → Option (Resource B)) where
  -- What the codec promises: it reads back what it wrote, but for the kind, which it writes itself.
  -- Times are in seconds, which is what it keeps of them.
  pub record RoundTrip : Type 0 where
    pub decoded :
        (r : Resource B) (b : Bytes)
        → encode r ≡ some b
        → (q : Resource B) × (decode b ≡ some q)
          × (q.creation_timestamp ≡ r.creation_timestamp)
          × (q.body ≡ r.body)

  -- An object after a restart: its name is its key, and its body and time of creation are what they
  -- were, without the status.
  pub record IsRestored (k : String) (r q : Resource B) : Type 0 where
    pub same_body : q.body ≡ T.clear_status r.body
    pub named : q.name ≡ k
    pub same_creation : (t : ℕ) → r.creation_timestamp ≡ some t → q.creation_timestamp ≡ some t

  restored :
      (env : Env) (k : String) (r p q : Resource B)
      → p.creation_timestamp ≡ (strip T r).creation_timestamp
      → p.body ≡ (strip T r).body
      → IsLoaded T decode env k p q
      → IsRestored k r q
  unfolding strip
  restored env k r p q time body l = record {
    same_body = l.same_body ∙ body;
    named = l.named;
    same_creation = λ t e. l.same_creation t (time ∙ e);
  }

  files-AllDecode :
      (s : FileStore Bytes B) (fs : Dict Bytes)
      → RoundTrip
      → Consistent T encode s
      → ((k : String) → get k fs ≡ get k s.disk.files)
      → (k : String) (b : Bytes) → get k fs ≡ some b
      → (q : Resource B) × (decode b ≡ some q)
  files-AllDecode s fs codec c same k b e = elim (Option-cases (get k s.inmemory.items)) [
    | inl x ↦ cc (same k, c.free k x, e)
    | inr (r, x) ↦
        let (b', f, enc) = c.held k r x in
        let (q, d, time, body) = codec.decoded (strip T r) b' enc in
        let content : b' ≡ b = cc (same k, f, e) in (q, ap (λ y. decode y) (sym content) ∙ d)
  ]

  -- A restart brings every object back: if memory and directory are consistent and the directory is
  -- listed in any order, among other files, then the files are loaded without an error, every object
  -- has its name, body and time of creation again but not its status, and no other key is in use.
  pub load_from_files-Restores :
      (s : FileStore Bytes B) (env : Env) (es : List (DirEntry Bytes)) (fs : Dict Bytes)
      → RoundTrip
      → Consistent T encode s
      → Listing es fs
      → ((k : String) → get k fs ≡ get k s.disk.files)
      → (t : Store B) × (load_from_files T decode in_memory env es ≡ some t)
        × ((k : String) (r : Resource B)
            → get k s.inmemory.items ≡ some r
            → (q : Resource B) × (get k t.items ≡ some q) × IsRestored k r q)
        × ((k : String) → get k s.inmemory.items ≡ none → get k t.items ≡ none)
  unfolding in_memory get
  load_from_files-Restores s env es fs codec c l same =
      let all : (k : String) (b : Bytes)
          → get k fs ≡ some b
          → (q : Resource B) × (decode b ≡ some q) =
        files-AllDecode s fs codec c same in
      let (t, e, h) = load-Listing T decode env es fs in_memory l all (λ k b x. refl) in
      (
        t,
        e,
        λ k r x.
            let (b, f, enc) = c.held k r x in
            let (p, d, time, body) = codec.decoded (strip T r) b enc in
            let (q, at, loaded) = h.loaded k b p (same k ∙ f) d in
            (q, at, restored env k r p q time body loaded),
        λ k x. h.kept k (same k ∙ c.free k x),
      )
