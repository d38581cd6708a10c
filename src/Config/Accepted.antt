-- ===== src/Config/Accepted.antt =====
-- Which environments give a configuration (sonya-meta/src/config.rs); any other ends in a panic.
use web_queue.Common.{
  Bytes, codes, same, Bool, true, false, ◌&&◌, Option, none, some, Result, ok, err, ◌≡◌, refl,
  arith, ap, ◌∙◌, unwrap_or, if◌then◌else◌, ◌>>?◌,
}
use web_queue.Common.Decimal.{parse_u64}
use web_queue.Config.{Config}
use web_queue.Config.Env.{
  Var, present, not_present, not_unicode, Environment, var_error, panic, Load, required, expect,
  map_some, parts, tls_from_env, secure_from_env, garbage_collector_from_env, websocket_from_env,
  queue_from_env, instance_opts_from_env, etcd_from_env, service_discovery_from_env, from_env,
}
use web_queue.Config.Sources.{
  Files, ConfigParsingStrategy, env_strategy, yaml, json, from_str, from_yaml, from_json,
  by_strategy, unwrap_load, unwrap_text, or_env, get_config,
}
use web_queue.Config.Acceptance.{
  is_ok, is_readable, is_present, parses, tls_accepted, secure_accepted, queue_accepted,
  websocket_accepted, etcd_accepted, typed_accepted, discovery_accepted, accepted, readable_bind,
  typed_bind, chosen_ok, is_ok-bind, parsed_bind,
}

module _ (env : Environment) where
  tls_ok : is_ok (tls_from_env env) ≡ tls_accepted env
  unfolding tls_from_env
  tls_ok =
      readable_bind env (codes "TLS_PRIVATE_KEY") _ (is_readable (env (codes "TLS_CERT")))
        λ p. readable_bind env (codes "TLS_CERT") _ true (λ c. refl) ∙ ground arith

  secure_ok : is_ok (secure_from_env env) ≡ secure_accepted env
  unfolding secure_from_env
  secure_ok =
      parsed_bind env (codes "SECURE_JWT_EXPIRATION_TIME") parse_u64
        (codes "invalid jwt expiration time") _ (is_readable (env (codes "SECURE_SERVICE_TOKEN")))
        λ p. readable_bind env (codes "SECURE_SERVICE_TOKEN") _ true (λ c. refl) ∙ ground arith

  garbage_collector_ok :
      is_ok (garbage_collector_from_env env)
      ≡ parses parse_u64 (env (codes "GARBAGE_COLLECTOR_INTERVAL"))
  unfolding garbage_collector_from_env
  garbage_collector_ok =
      parsed_bind env (codes "GARBAGE_COLLECTOR_INTERVAL") parse_u64
        (codes "invalid garbage interval") _ true (λ i. refl)
      ∙ ground arith

  websocket_ok : is_ok (websocket_from_env env) ≡ websocket_accepted env
  unfolding websocket_from_env
  websocket_ok =
      readable_bind env (codes "WEBSOCKET_KEY") _ (is_readable (env (codes "WEBSOCKET_VERSION")))
        λ p. readable_bind env (codes "WEBSOCKET_VERSION") _ true (λ c. refl) ∙ ground arith

  queue_ok : is_ok (queue_from_env env) ≡ queue_accepted env
  unfolding queue_from_env
  queue_ok =
      readable_bind env (codes "QUEUE_DEFAULT") _
        (is_readable (env (codes "QUEUE_DB_PATH"))
          && parses parse_u64 (env (codes "QUEUE_MAX_KEY_UPDATES")))
        λ d.
          readable_bind env (codes "QUEUE_DB_PATH") _
            (parses parse_u64 (env (codes "QUEUE_MAX_KEY_UPDATES")))
            λ p.
              parsed_bind env (codes "QUEUE_MAX_KEY_UPDATES") parse_u64
                (codes "invalid max keys updates value") _ true (λ c. refl)
              ∙ ground arith

  instance_opts_ok :
      is_ok (instance_opts_from_env env)
      ≡ is_readable (env (codes "SERVICE_DISCOVERY_INSTANCE_ADDR"))
        && is_readable (env (codes "SERVICE_DISCOVERY_INSTANCE_id"))
  unfolding instance_opts_from_env
  instance_opts_ok =
      readable_bind env (codes "SERVICE_DISCOVERY_INSTANCE_ADDR") _
        (is_readable (env (codes "SERVICE_DISCOVERY_INSTANCE_id")))
        λ p.
          readable_bind env (codes "SERVICE_DISCOVERY_INSTANCE_id") _ true (λ c. refl)
          ∙ ground arith

  required_ok : (message : Bytes) (x : Var) → is_ok (required message x) ≡ is_present x
  required_ok message (present s) = refl
  required_ok message not_present = refl
  required_ok message (not_unicode b) = refl

  etcd_ok : (default : Option _) → is_ok (etcd_from_env env default) ≡ etcd_accepted env
  unfolding etcd_from_env
  etcd_ok default =
      is_ok-bind
        (required (codes "empty service discovery hosts") (env (codes "SERVICE_DISCOVERY_HOSTS"))) _
        _ _
        (required_ok (codes "empty service discovery hosts")
          (env (codes "SERVICE_DISCOVERY_HOSTS")))
        λ hosts. readable_bind env (codes "SERVICE_DISCOVERY_PREFIX") _ _ λ prefix.
          is_ok-bind (instance_opts_from_env env) _ _ true instance_opts_ok (λ o. refl)
          ∙ ground arith

  discovery_ok : is_ok (service_discovery_from_env env) ≡ discovery_accepted env
  unfolding service_discovery_from_env
  discovery_ok =
      typed_bind env (codes "SERVICE_DISCOVERY_TYPE") _
        (λ type.
          is_readable (env (codes "SERVICE_DISCOVERY_DEFAULT_SHARDS")) && typed_accepted env type)
        λ type.
          readable_bind env (codes "SERVICE_DISCOVERY_DEFAULT_SHARDS") _
            (typed_accepted env (unwrap_or type (codes "API")))
            λ shards.
              chosen_ok (same (unwrap_or type (codes "API")) (codes "API"))
                (same (unwrap_or type (codes "API")) (codes "ETCD")) _
                (etcd_from_env env (map_some parts shards)) _
              ∙ ap
                  (λ b.
                    if same (unwrap_or type (codes "API")) (codes "API")
                    then true
                    else (if same (unwrap_or type (codes "API")) (codes "ETCD") then b else false))
                  (etcd_ok (map_some parts shards))

module _ {SocketAddr : Type 0} (parse_addr : Bytes → Option SocketAddr) (env : Environment) where
  from_env_ok : is_ok (from_env parse_addr env) ≡ accepted env parse_addr
  unfolding from_env accepted
  from_env_ok = parsed_bind env (codes "ADDR") parse_addr (codes "invalid addr") _ _ λ addr.
      is_ok-bind (tls_from_env env) _ _ _ (tls_ok env) λ tls.
        is_ok-bind (secure_from_env env) _ _ _ (secure_ok env) λ secure.
          is_ok-bind (queue_from_env env) _ _ _ (queue_ok env) λ queue.
            is_ok-bind (service_discovery_from_env env) _ _ _ (discovery_ok env) λ discovery.
              is_ok-bind (websocket_from_env env) _ _ _ (websocket_ok env) λ websocket.
                is_ok-bind (garbage_collector_from_env env) _ _ true (garbage_collector_ok env)
                  (λ g. refl)
                ∙ ground arith

module _ {File SocketAddr : Type 0} (parse_addr : Bytes → Option SocketAddr)
    (files : Files File SocketAddr) (env : Environment) where
  -- Where the configuration is to come from, and whether it can be read there.
  abbrev accepted_from : Option ConfigParsingStrategy → Bool
  accepted_from none = false
  accepted_from (some env_strategy) = accepted env parse_addr
  accepted_from (some (yaml path)) = is_ok (from_yaml files path)
  accepted_from (some (json path)) = is_ok (from_json files path)

  abbrev pub accepted_by : Var → Bool
  accepted_by (present path) = accepted_from (from_str path)
  accepted_by not_present = accepted env parse_addr
  accepted_by (not_unicode b) = false

  unwrap_load_ok : (l : Load (Config SocketAddr)) → is_ok (unwrap_load l) ≡ is_ok l
  unwrap_load_ok (ok c) = refl
  unwrap_load_ok (err (var_error b)) = refl
  unwrap_load_ok (err (panic message)) = refl

  unwrap_text_ok : (r : Result Bytes (Config SocketAddr)) → is_ok (unwrap_text r) ≡ is_ok r
  unwrap_text_ok (ok c) = refl
  unwrap_text_ok (err e) = refl

  strategy_ok :
      (o : Option ConfigParsingStrategy)
      → is_ok (expect (codes "invalid config type") o >>? by_strategy parse_addr files env)
        ≡ accepted_from o
  strategy_ok none = refl
  strategy_ok (some env_strategy) =
      unwrap_load_ok (from_env parse_addr env) ∙ from_env_ok parse_addr env
  strategy_ok (some (yaml path)) = unwrap_text_ok (from_yaml files path)
  strategy_ok (some (json path)) = unwrap_text_ok (from_json files path)

  source_ok :
      (x : Var)
      → is_ok (
          or_env x >>? λ config_path.
          expect (codes "invalid config type") (from_str config_path)
          >>? by_strategy parse_addr files env)
        ≡ accepted_by x
  source_ok (present path) = strategy_ok (from_str path)
  source_ok not_present = unfold from_str same in strategy_ok (some env_strategy)
  source_ok (not_unicode b) = refl

  -- A configuration is read exactly where it can be: from the environment, when CONFIG is "ENV" or
  -- not set, if every variable that is looked at is a text or missing, the address and the numbers
  -- are parsed, and the service discovery is of the type API, or of the type ETCD with hosts; from
  -- the file that CONFIG names, if the file is read; for any other CONFIG never.
  pub get_config-accepted :
      is_ok (get_config parse_addr files env) ≡ accepted_by (env (codes "CONFIG"))
  unfolding get_config
  get_config-accepted = source_ok (env (codes "CONFIG"))
