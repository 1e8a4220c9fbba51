-- ===== src/Cache/Linux/Refinement.antt =====
-- src/Linux/local_cache.cpp as a map with entries that expire.
use azure_dcap_client.Cache.FileSystem.{FileSystem}
