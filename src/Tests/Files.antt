-- ===== src/Tests/Files.antt =====
-- Runs of the cache on the file system in memory.
use azure_dcap_client.Prelude.{
  ◌≡◌, ◌≢◌, refl, arith, [], Option, none, some, ok, fault, Bytes, codes, lookup, insert, bytes_eq,
}
use azure_dcap_client.Cache.Linux.{CacheStore, init, local_cache_add, local_cache_get}
use azure_dcap_client.Cache.Linux.Init.{init-ne-fault}
use azure_dcap_client.Cache.{LocalCache}
use azure_dcap_client.Cache.Linux.Laws.{linux_cache, linux_get-add}
use azure_dcap_client.Tests.Calls.{hello}
use azure_dcap_client.Tests.Setup.{memory, memory_writes_whole}

-- No variable is set, and a text stands for its digest.
abbrev no_variables : Bytes → Option Bytes
no_variables name = none

abbrev text_digest : Bytes → Bytes
text_digest text = text

abbrev Store : Type 0
Store = CacheStore memory no_variables text_digest

abbrev empty_store : Store
empty_store = record { files = []; cache_dirname = [] }

abbrev with_entry : Store
with_entry = (local_cache_add memory no_variables text_digest (codes "a") 1000 hello empty_store).1

linux_get-add_example :
    (local_cache_get memory no_variables text_digest 999 (codes "a") with_entry).0 ≡ ok (some hello)
unfolding local_cache_add lookup insert bytes_eq
linux_get-add_example =
    linux_get-add memory no_variables text_digest memory_writes_whole (codes "a") 1000 999 hello
      empty_store with_entry refl (omega arith) (omega arith) (omega arith)

init-ne-fault_example : (init memory no_variables text_digest empty_store).0 ≢ fault
init-ne-fault_example = init-ne-fault memory no_variables text_digest empty_store

abbrev files_cache : LocalCache
files_cache = linux_cache memory no_variables text_digest memory_writes_whole
