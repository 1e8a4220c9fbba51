-- ===== src/Settings/Fallback.antt =====
-- When a setting falls back to its default.
use azure_dcap_client.Prelude.{◌<◌, ◌≡◌, ◌≢◌, arith, some, [], Bytes, codes, bytes_eq_sound, length}
use azure_dcap_client.Host.{Host}
use azure_dcap_client.Settings.{
  get_env_variable, get_collateral_version, max_env_var_length, env_azdcap_collateral_ver,
}

-- A variable's value is used exactly if it is set and has between 1 and 1999 bytes.
pub get_env_variable_value :
    (h : Host) (name value : Bytes)
    → h.getenv name ≡ some value
    → 0 < length value
    → length value < max_env_var_length
    → get_env_variable h name ≡ value
unfolding get_env_variable
get_env_variable_value h name value e lo hi = ground arith

-- Every collateral version that is set, is not empty and has fewer than 2000 bytes is taken as it
-- stands: none is rejected.
pub get_collateral_version_unchecked :
    (h : Host) (value : Bytes)
    → h.getenv env_azdcap_collateral_ver ≡ some value
    → 0 < length value
    → length value < max_env_var_length
    → get_collateral_version h ≡ value
unfolding get_collateral_version
get_collateral_version_unchecked h value e lo hi = ground (
  arith,
  get_env_variable_value h env_azdcap_collateral_ver value e lo hi,
  bytes_eq_sound value (codes "v1"),
  bytes_eq_sound value (codes "v2"),
)

-- The version is never empty, so each URL has a version component.
pub get_collateral_version-ne-nil : (h : Host) → get_collateral_version h ≢ []
unfolding get_collateral_version
get_collateral_version-ne-nil h = ground (
  arith,
  bytes_eq_sound (get_env_variable h env_azdcap_collateral_ver) (codes "v1"),
  bytes_eq_sound (get_env_variable h env_azdcap_collateral_ver) (codes "v2"),
)
