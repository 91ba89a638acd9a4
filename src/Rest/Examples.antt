-- ===== src/Rest/Examples.antt =====
-- Concrete cases of what was proved of pkg/rest, over the in-memory store.
use kubemate.Base.{◌⊎◌, Bool, String, ◌≡◌, refl, true, false, Option, none, some, [], ◌∷◌, eq_iff}
use kubemate.Base.Dict.{get, put}
use kubemate.Resource.{Resource, ResourceType, not_found}
use kubemate.PubSub
use kubemate.Storage.Fixtures.{env}
use kubemate.Storage.InMemory.{get_item, Store, in_memory}
use kubemate.Storage.FileStore
use kubemate.Storage.FileStore.{FileStore, Os, write_file}
use kubemate.Storage.FileStore.Refines.{files}
use kubemate.Storage.FileStore.Promises.{file_laws}
use kubemate.Storage.Interface.Memory.{memory, memory_laws}
use kubemate.Reconciler.Node.{Node, server}
use kubemate.Rest.Tokens.{regenerate_cluster_join_token, TokenBody, token_of, new_device_token_rest}
use kubemate.Rest.Tokens.Kept
use kubemate.Rest.Tokens.Kept.{HasToken, serve_new-HasToken}
use kubemate.Rest.Accounts.{AccountBody, account_create, update_validation}
use kubemate.Rest.Accounts.Hashed.{
  NoPlain, IsHashed, account_create-IsHashed, update_validation_endless,
}
use kubemate.Rest.Devices.{DeviceBody}

abbrev a_type : {B : Type 0} → B → ResourceType B
a_type b = record {
  group_resource = "things";
  go_type = "*Thing";
  zero_body = b;
  clear_status = λ x. x;
  object_kind = some ("v1", "Thing");
}

abbrev thing : {B : Type 0} → String → B → Resource B
thing name b = record {
  api_version = "v1";
  kind = "Thing";
  meta = record {
    name = name;
    namespace = "";
    generate_name = "";
    resource_version = "1";
    creation_timestamp = some 5;
  };
  body = b;
}

abbrev with_thing : {B : Type 0} → String → B → Store B
with_thing name b = record { items = (name, thing name b) ∷ []; pubsub = PubSub.new; seq = 1 }

abbrev token_type : ResourceType TokenBody
token_type = a_type (token_of "")

-- The tokens are kept in files, as the server keeps them.
abbrev fine_disk : Os
fine_disk = record { creates = true; syncs = true; closes = true; renames = true; removes = true }

abbrev write_body : Resource TokenBody → Option TokenBody
write_body r = some r.body

abbrev never_same : Resource TokenBody → Resource TokenBody → Bool
never_same r q = false

abbrev no_tokens : FileStore TokenBody TokenBody
no_tokens = record { inmemory = in_memory; disk = record { files = []; temps = 0 }; shared = [] }

serve_new-HasToken_example :
    HasToken token_type
      (files token_type write_body never_same env fine_disk)
      "d"
      "things"
      (file_laws token_type write_body never_same env fine_disk)
      (Kept.serve token_type
        (files token_type write_body never_same env fine_disk)
        "d"
        "things"
        (file_laws token_type write_body never_same env fine_disk)
        (new_device_token_rest token_type
          (files token_type write_body never_same env fine_disk)
          "d"
          no_tokens
          (some "t1")).0
        (Kept.deletes "d" (λ r. none) (some "t2")
          ∷ Kept.creates (λ r g. none) (thing "d" (token_of "mine")) (λ r. none)
          ∷ []))
unfolding new_device_token_rest get_item get in_memory regenerate_cluster_join_token
    FileStore.create write_file
serve_new-HasToken_example =
    serve_new-HasToken token_type (files token_type write_body never_same env fine_disk) "d"
      "things" (file_laws token_type write_body never_same env fine_disk) no_tokens "t1"
      (Kept.deletes "d" (λ r. none) (some "t2")
        ∷ Kept.creates (λ r g. none) (thing "d" (token_of "mine")) (λ r. none)
        ∷ [])
      (λ e. cc) refl ((λ e. cc), (tt, tt))

abbrev password_type : ResourceType String
password_type = a_type ""

abbrev hash : String → Option String
hash p = some "hash"

abbrev account_type : ResourceType AccountBody
account_type = a_type (record { password_string = ""; password = "" })

abbrev joe : Resource AccountBody
joe = record (thing "joe" (record { password_string = ""; password = "hash" })) {
  meta = record {
    name = "joe";
    namespace = "";
    generate_name = "";
    resource_version = "1";
    creation_timestamp = some 5;
  };
}

account_create-IsHashed_example :
    let s =
      (account_create hash account_type
        (memory account_type env)
        (λ r g. none)
        in_memory
        (thing "joe" (record { password_string = "secret"; password = "" }))
        (λ r. none)).state in
    NoPlain hash account_type (memory account_type env) "things" (memory_laws account_type env) s
    × (((memory_laws account_type env).lookup in_memory "joe" ≡ some joe)
        ⊎ IsHashed hash (thing "joe" (record { password_string = "secret"; password = "" })) joe)
unfolding account_create in_memory get memory_laws kubemate.Rest.Accounts.bcrypt_account_password
    kubemate.Rest.rest_create kubemate.Storage.InMemory.create
    kubemate.Storage.InMemory.store_created kubemate.Storage.InMemory.emit put
    kubemate.Storage.InMemory.stamped kubemate.Resource.version kubemate.Base.Decimal.decimal
account_create-IsHashed_example =
    account_create-IsHashed hash account_type (memory account_type env) "things"
      (memory_laws account_type env) (λ r g. none) in_memory
      (thing "joe" (record { password_string = "secret"; password = "" })) (λ r. none) "joe" joe
      (record { hidden = λ k r h. cc }) refl

abbrev admin : AccountBody
admin = record { password_string = ""; password = "hash" }

update_validation_endless_example :
    update_validation hash 100 (thing "joe" admin) (thing "joe" admin) ≡ none
update_validation_endless_example =
    update_validation_endless hash 100 (thing "joe" admin) (thing "joe" admin)

abbrev device_type : ResourceType DeviceBody
device_type = a_type (record { mode = server; current = false; state = "" })

abbrev own_node : Node
own_node = record {
  name = "d";
  annotations = [];
  unschedulable = false;
  evictions = 0;
  shutdowns = 0;
}

abbrev device : DeviceBody
device = record { mode = server; current = true; state = "unknown" }
