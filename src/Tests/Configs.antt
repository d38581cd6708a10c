-- ===== src/Tests/Configs.antt =====
-- A configuration in the environment and in a file, at concrete values.
use web_queue.Common.{
  Bytes, codes, [], ◌∷◌, none, some, ok, err, ◌≡◌, refl, map, arith, same, has_prefix,
}
use web_queue.Api.{ends_with}
use web_queue.Config.{Config, etcd}
use web_queue.Config.Env.{parts, split, is_empty}
use web_queue.Config.Sources.{get_config, from_str, Files}
use web_queue.Config.Written.{environment}
use web_queue.Config.RoundTrip.{IsWritable, get_config-environment}
use web_queue.Config.Acceptance.{is_ok}
use web_queue.Config.Accepted.{accepted_by, get_config-accepted}
use web_queue.Config.Serde.{
  Errors, text, number, sequence, fields, deserialize_secure, deserialize_service_discovery,
  deserialize_garbage_collector,
}
use web_queue.Config.Serde.ShortForms.{with_text, with_number, with_shards, deserialize-short_forms}

-- An address is its text here.
abbrev pub config : Config Bytes
config = record {
  addr = some (codes "0.0.0.0:8080");
  tls = none;
  secure = some (record { service_token = codes "key"; jwt_token_expiration = 90 });
  queue = record {
    default = codes "test1" ∷ codes "test" ∷ [];
    db_path = some (codes "/tmp/sonya");
    max_key_updates = some 10;
  };
  service_discovery = some (
      etcd none (codes "http://etcd:2379" ∷ []) (codes "sonya")
        (some (record { instance_id = none; instance_addr = codes "http://queue:80" })));
  websocket = record { version = codes "13"; key = codes "abc" };
  garbage_collector = record { interval = 60 };
}

config-IsWritable : IsWritable config
unfolding is_empty
config-IsWritable = record {
  expiration = omega arith;
  interval = omega arith;
  limit = omega arith;
  names = (refl, (refl, tt));
  discovery = (tt, (refl, tt));
}

-- There are no files.
abbrev pub files : Files Bytes Bytes
files = record { open_file = λ path. err path; yaml_from_reader = err; json_from_reader = err }

get_config-environment_example : get_config some files (environment (λ a. a) config) ≡ ok config
get_config-environment_example =
    get_config-environment (λ a. a) some (λ a. refl) files config config-IsWritable

-- Empty names between semicolons are dropped.
empty_parts : parts (codes "a;;b;") ≡ codes "a" ∷ codes "b" ∷ []
unfolding split is_empty
empty_parts = refl

by_extension : from_str (codes "config.toml") ≡ none
unfolding from_str same ends_with has_prefix
by_extension = refl

abbrev errors : Errors Bytes
errors = record {
  invalid_type = codes "invalid type";
  missing_field = λ f. f;
  unknown_variant = λ v. v;
}

deserialize-short_forms_example :
    (deserialize_secure errors (text (codes "key"))
      ≡ deserialize_secure errors (fields (with_text (codes "service_token") (codes "key"))))
    × (deserialize_garbage_collector errors (number 60)
        ≡ deserialize_garbage_collector errors (fields (with_number (codes "interval") 60)))
    × (deserialize_service_discovery errors (sequence (map ok (codes "http://a" ∷ [])))
        ≡ deserialize_service_discovery errors (fields (with_shards (codes "http://a" ∷ []))))
    × (deserialize_service_discovery errors (text (codes "http://b"))
        ≡ deserialize_service_discovery errors (fields (with_shards (codes "http://b" ∷ []))))
deserialize-short_forms_example =
    deserialize-short_forms errors (codes "key") 60 (codes "http://a" ∷ []) (codes "http://b")

get_config-accepted_example :
    is_ok (get_config some files (environment (λ a. a) config))
    ≡ accepted_by some files
        (environment (λ a. a) config)
        (environment (λ a. a) config (codes "CONFIG"))
get_config-accepted_example = get_config-accepted some files (environment (λ a. a) config)
