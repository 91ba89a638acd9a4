-- ===== src/Storage/Fixtures.antt =====
-- Objects and stores that the tests of pkg/storage share: resources whose body is a text.
use kubemate.Base.{String, true, some, [], ◌∷◌}
use kubemate.PubSub
use kubemate.Resource.{Resource, ResourceType, Env}
use kubemate.Storage.InMemory.{Store}

abbrev pub note_type : ResourceType String
note_type = record {
  group_resource = "notes";
  go_type = "*Note";
  zero_body = "";
  clear_status = λ b. b;
  object_kind = some ("v1", "Note");
}

abbrev pub note : String → String → String → Resource String
note name v body = record {
  api_version = "v1";
  kind = "Note";
  meta = record {
    name = name;
    namespace = "";
    generate_name = "";
    resource_version = v;
    creation_timestamp = some 5;
  };
  body = body;
}

abbrev pub env : Env
env = record { now = 7; ready = λ k. true }

-- Two notes, of which the first was created last.
abbrev pub two_notes : Store String
two_notes = record {
  items = ("b", note "b" "2" "y") ∷ ("a", note "a" "1" "x") ∷ [];
  pubsub = PubSub.new;
  seq = 2;
}
