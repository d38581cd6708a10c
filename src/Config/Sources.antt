-- ===== src/Config/Sources.antt =====
-- Where the configuration is read from: the environment or a file (sonya-meta/src/config.rs).
use web_queue.Common.{Bytes, codes, same, Option, none, some, Result, ok, err, if◌then◌else◌, ◌>>?◌}
use web_queue.Api.{ends_with}
use web_queue.Config.{Config}
use web_queue.Config.Env.{
  Var, present, not_present, not_unicode, Environment, Load, var_error, panic, expect, from_env,
}

pub data ConfigParsingStrategy : Type 0 where
  env_strategy : ConfigParsingStrategy
  yaml : Bytes → ConfigParsingStrategy
  json : Bytes → ConfigParsingStrategy

-- `FromStr`
unfoldable pub from_str : Bytes → Option ConfigParsingStrategy
from_str s =
    if same s (codes "ENV")
    then some env_strategy
    else (if ends_with (codes ".yaml") s
        then some (yaml s)
        else (if ends_with (codes ".json") s then some (json s) else none))

-- Opening a file, and the formats' readers, with their errors as texts.
pub record Files (File SocketAddr : Type 0) : Type 0 where
  pub open_file : Bytes → Result Bytes File
  pub yaml_from_reader : File → Result Bytes (Config SocketAddr)
  pub json_from_reader : File → Result Bytes (Config SocketAddr)

module _ {File SocketAddr : Type 0} (files : Files File SocketAddr) where
  unfoldable pub from_yaml : Bytes → Result Bytes (Config SocketAddr)
  from_yaml path = files.open_file path >>? files.yaml_from_reader

  unfoldable pub from_json : Bytes → Result Bytes (Config SocketAddr)
  from_json path = files.open_file path >>? files.json_from_reader

-- `unwrap` panics with the error
abbrev pub unwrap_text : {A : Type 0} → Result Bytes A → Load A
unwrap_text (ok a) = ok a
unwrap_text (err e) = err (panic e)

abbrev pub unwrap_load : {A : Type 0} → Load A → Load A
unwrap_load (ok a) = ok a
unwrap_load (err (var_error b)) = err (panic b)
unwrap_load (err (panic m)) = err (panic m)

abbrev pub or_env : Var → Load Bytes
or_env (present s) = ok s
or_env not_present = ok (codes "ENV")
or_env (not_unicode b) = err (panic b)

module _ {File SocketAddr : Type 0} (parse_addr : Bytes → Option SocketAddr)
    (files : Files File SocketAddr) where
  abbrev pub by_strategy : Environment → ConfigParsingStrategy → Load (Config SocketAddr)
  by_strategy env env_strategy = unwrap_load (from_env parse_addr env)
  by_strategy env (yaml path) = unwrap_text (from_yaml files path)
  by_strategy env (json path) = unwrap_text (from_json files path)

  unfoldable pub get_config : Environment → Load (Config SocketAddr)
  get_config env = or_env (env (codes "CONFIG")) >>? λ config_path.
      expect (codes "invalid config type") (from_str config_path) >>? by_strategy env
