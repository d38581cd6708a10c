-- ===== src/Config/Serde.antt =====
-- The visitors of sonya-meta/src/config.rs, by which a part of a configuration file may have a short
-- form. What a format (serde_yaml, serde_json) finds in the file is a parameter.
pub mod ShortForms
use web_queue.Common.{
  ℕ, Bytes, codes, same, List, [], ◌∷◌, ◌++◌, Option, none, some, Result, ok, err, ◌>>?◌,
  if◌then◌else◌,
}
use web_queue.Api.{Secure}
use web_queue.Config.{
  GarbageCollector, ServiceDiscovery, api, etcd, ServiceDiscoveryInstanceOptions,
  default_jwt_token_expiration, default_sd_prefix, secure_from, garbage_collector_from,
  service_discovery_from,
}

-- The errors that serde makes.
pub record Errors (E : Type 0) : Type 0 where
  pub invalid_type : E
  pub missing_field : Bytes → E
  pub unknown_variant : Bytes → E

-- The fields of a map by their names, each read at the type that the struct asks for; a null counts
-- as no field.
pub record Fields (E : Type 0) : Type 0 where
  pub text_at : Bytes → Option (Result E Bytes)
  pub number_at : Bytes → Option (Result E ℕ)
  pub texts_at : Bytes → Option (Result E (List Bytes))
  pub options_at : Bytes → Option (Result E ServiceDiscoveryInstanceOptions)

-- What `deserialize_any` hands to a visitor.
pub data Input (E : Type 0) : Type 0 where
  text : Bytes → Input E
  number : ℕ → Input E
  sequence : List (Result E Bytes) → Input E
  fields : Fields E → Input E
  other : Input E

module _ {E : Type 0} where
  abbrev optional_field : {A : Type 0} → Option (Result E A) → Result E (Option A)
  optional_field none = ok none
  optional_field (some r) = r >>? λ a. ok (some a)

  -- `#[serde(default = …)]`
  abbrev field_or : {A : Type 0} → A → Option (Result E A) → Result E A
  field_or d none = ok d
  field_or d (some r) = r

  -- the loop of `visit_seq`
  unfoldable pub read_seq : List Bytes → List (Result E Bytes) → Result E (List Bytes)
  read_seq vec [] = ok vec
  read_seq vec (err e ∷ rest) = err e
  read_seq vec (ok elem ∷ rest) = read_seq (vec ++ elem ∷ []) rest

module _ {E : Type 0} (errors : Errors E) where
  open errors use {invalid_type, missing_field, unknown_variant}

  abbrev required_field : {A : Type 0} → Bytes → Option (Result E A) → Result E A
  required_field name none = err (missing_field name)
  required_field name (some r) = r

  -- `SecureDef`
  unfoldable pub secure_def : Fields E → Result E Secure
  secure_def f =
      required_field (codes "service_token") (f.text_at (codes "service_token"))
      >>? λ service_token.
          field_or default_jwt_token_expiration (f.number_at (codes "jwt_token_expiration"))
          >>? λ expiration.
              ok (record { service_token = service_token; jwt_token_expiration = expiration })

  -- `GarbageCollectorDef`
  unfoldable pub garbage_collector_def : Fields E → Result E GarbageCollector
  garbage_collector_def f =
      required_field (codes "interval") (f.number_at (codes "interval")) >>? λ interval.
      ok (record { interval = interval })

  etcd_def : Option (List Bytes) → Fields E → Result E ServiceDiscovery
  etcd_def default f = required_field (codes "hosts") (f.texts_at (codes "hosts")) >>? λ hosts.
      field_or default_sd_prefix (f.text_at (codes "prefix")) >>? λ prefix.
      optional_field (f.options_at (codes "instance_opts")) >>? λ instance_opts.
      ok (etcd default hosts prefix instance_opts)

  -- `ServiceDiscoveryDef`, an enum by its tag `type`
  unfoldable pub service_discovery_def : Fields E → Result E ServiceDiscovery
  unfolding etcd_def
  service_discovery_def f = required_field (codes "type") (f.text_at (codes "type")) >>? λ type.
      (if same type (codes "api")
        then (optional_field (f.texts_at (codes "default")) >>? λ default. ok (api default))
        else (if same type (codes "etcd")
            then (optional_field (f.texts_at (codes "default")) >>? λ default. etcd_def default f)
            else err (unknown_variant type)))

  -- `string_or_struct_impl!(Secure, SecureDef)`
  unfoldable pub deserialize_secure : Input E → Result E Secure
  deserialize_secure (text value) = ok (secure_from value)
  deserialize_secure (fields map) = secure_def map
  deserialize_secure _ = err invalid_type

  -- `vec_or_struct_impl!(ServiceDiscovery, ServiceDiscoveryDef)`
  unfoldable pub deserialize_service_discovery : Input E → Result E ServiceDiscovery
  deserialize_service_discovery (text value) = ok (service_discovery_from (value ∷ []))
  deserialize_service_discovery (sequence seq) =
      read_seq [] seq >>? λ vec. ok (service_discovery_from vec)
  deserialize_service_discovery (fields map) = service_discovery_def map
  deserialize_service_discovery _ = err invalid_type

  -- `u64_or_struct!(GarbageCollector, GarbageCollectorDef)`
  unfoldable pub deserialize_garbage_collector : Input E → Result E GarbageCollector
  deserialize_garbage_collector (number value) = ok (garbage_collector_from value)
  deserialize_garbage_collector (fields map) = garbage_collector_def map
  deserialize_garbage_collector _ = err invalid_type
