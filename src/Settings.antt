-- ===== src/Settings.antt =====
-- The settings that src/environment.h and src/dcap_provider.cpp read from the environment, on Linux.
pub mod Fallback
use azure_dcap_client.Prelude.{
  ℕ, Bool, true, false, ◌&&◌, ◌||◌, [], List, Option, none, some, Bytes, codes, bytes_eq, leb, ◌==◌,
  if◌then◌else◌, length, is_empty,
}
use Prim.Native.Nat.{min}
use azure_dcap_client.Host.{Host}

abbrev pub max_env_var_length : ℕ
max_env_var_length = 2000

-- The two error messages of `get_env_variable_no_log`; the second holds the length.
pub data EnvError : Type 0 where
  not_retrieved : EnvError
  bad_length : ℕ → EnvError

-- The value and the error message, one of which is empty.
unfoldable pub get_env_variable_no_log : Host → Bytes → Bytes × Option EnvError
get_env_variable_no_log h name = elim (h.getenv name) [
  | none ↦ ([], some not_retrieved)
  | some value ↦
      let length = min (length value) max_env_var_length in
      if leb length 0 || length == max_env_var_length
      then ([], some (bad_length length))
      else (value, none)
]

unfoldable pub get_env_variable : Host → Bytes → Bytes
unfolding get_env_variable_no_log
get_env_variable h name = (get_env_variable_no_log h name).0

abbrev pub env_azdcap_base_url : Bytes
env_azdcap_base_url = codes "AZDCAP_BASE_CERT_URL"

abbrev pub env_azdcap_client_id : Bytes
env_azdcap_client_id = codes "AZDCAP_CLIENT_ID"

abbrev pub env_azdcap_collateral_ver : Bytes
env_azdcap_collateral_ver = codes "AZDCAP_COLLATERAL_VERSION"

abbrev pub env_azdcap_debug_log : Bytes
env_azdcap_debug_log = codes "AZDCAP_DEBUG_LOG_LEVEL"

abbrev pub env_azdcap_disable_ondemand : Bytes
env_azdcap_disable_ondemand = codes "AZDCAP_DISABLE_ONDEMAND"

abbrev pub cert_base_url : Bytes
cert_base_url = codes "https://global.acccache.azure.net/sgx/certificates"

abbrev pub prod_client_id : Bytes
prod_client_id = codes "production_client"

abbrev pub default_collateral_version : Bytes
default_collateral_version = codes "v2"

unfoldable pub get_collateral_version : Host → Bytes
unfolding get_env_variable bytes_eq
get_collateral_version h =
    let collateral_version = get_env_variable h env_azdcap_collateral_ver in
    if is_empty collateral_version
    then default_collateral_version
    else if bytes_eq collateral_version (codes "v1") && bytes_eq collateral_version (codes "v2")
    then default_collateral_version
    else collateral_version

unfoldable pub get_base_url : Host → Bytes
unfolding get_env_variable
get_base_url h =
    let env_base_url = get_env_variable h env_azdcap_base_url in
    if is_empty env_base_url then cert_base_url else env_base_url

unfoldable pub get_client_id : Host → Bytes
unfolding get_env_variable
get_client_id h =
    let env_client_id = get_env_variable h env_azdcap_client_id in
    if is_empty env_client_id then prod_client_id else env_client_id
