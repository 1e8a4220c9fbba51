-- ===== src/Tests/WindowsFiles.antt =====
-- Runs of the Windows cache on files in memory.
use azure_dcap_client.Prelude.{
  ℕ, ◌<◌, ◌≡◌, ◌≢◌, refl, arith, sym, ◌∙◌, inl, inr, Bool, true, [], ◌∷◌, none, some, ok, fault,
  codes, lookup, insert, erase, bytes_eq, length, leb, zero, suc,
}
use azure_dcap_client.Hex.{format_as_hex_string}
use azure_dcap_client.Cache.{LocalCache}
use azure_dcap_client.Cache.Contract.{expected, run, IsAccepted, IsApart}
use azure_dcap_client.Cache.Windows.Api.{WindowsApi}
use azure_dcap_client.Cache.Windows.{
  CacheStore, init, local_cache_add, local_cache_get, local_cache_clear, load_entry, open_handle,
}
use azure_dcap_client.Cache.Windows.Format.{sha256}
use azure_dcap_client.Cache.Windows.Clear.{clear_lem, clear_reads_beyond, AreGone, AreDeletable}
use azure_dcap_client.Cache.Windows.Laws.{windows_cache}
use azure_dcap_client.Cache.Windows.Open.{open_handle_lem, IsRefused, after_attempts}
use azure_dcap_client.Cache.Windows.Refinement.{windows_refines}
use azure_dcap_client.Cache.Windows.Reading.{live, load_entry_lem}
use azure_dcap_client.Tests.Setup.{MemoryFiles}
use azure_dcap_client.Tests.Calls.{hello, a_or_b, a_or_b-cases, a_or_b-is_empty, calls}
use azure_dcap_client.Tests.Disk.{memory_api, memory_laws}

abbrev api : WindowsApi
api = memory_api 0

abbrev empty_store : CacheStore api
empty_store = record { os = []; cache_dirname = [] }

abbrev windows_files : LocalCache
windows_files = windows_cache api (memory_laws 0)

names_differ : windows_files.name (codes "a") ≢ windows_files.name (codes "b")
unfolding sha256 format_as_hex_string
names_differ h = ground (arith, h)

files_apart : IsApart windows_files a_or_b
files_apart a b known known' same = elim (a_or_b-cases a known) [
  | inl e ↦ elim (a_or_b-cases b known') [
    | inl e' ↦ sym e ∙ e'
    | inr e' ↦ absurd (names_differ (rw (e, e') same))
  ]
  | inr e ↦ elim (a_or_b-cases b known') [
    | inl e' ↦ absurd (names_differ (sym (rw (e, e') same)))
    | inr e' ↦ sym e ∙ e'
  ]
]

calls-IsAccepted : IsAccepted windows_files a_or_b 0 calls empty_store
unfolding IsAccepted local_cache_get local_cache_add local_cache_clear lookup insert erase bytes_eq
calls-IsAccepted = (
  omega arith,
  refl,
  omega arith,
  omega arith,
  refl,
  (
    omega arith,
    refl,
    (
      omega arith,
      refl,
      (
        omega arith,
        refl,
        (
          omega arith,
          refl,
          omega arith,
          omega arith,
          refl,
          (omega arith, refl, (omega arith, refl, tt)),
        ),
      ),
    ),
  ),
)

windows_refines_example :
    (run windows_files calls empty_store).0 ≡ ok (none ∷ some hello ∷ none ∷ none ∷ [])
unfolding expected init lookup insert bytes_eq sha256
windows_refines_example =
    windows_refines api (memory_laws 0) a_or_b a_or_b-is_empty (λ id known. (_, refl)) files_apart
      calls empty_store (init api empty_store).1 refl (λ id p known named. refl) calls-IsAccepted

-- The header of an entry that expires at 1000, and the data behind it.
abbrev one_file : CacheStore api
one_file = (local_cache_add api (codes "a") 1000 hello empty_store).1

load_entry_lem_example :
    (load_entry api 5 (codes "C:\\.az-dcap-client\\61") one_file).0 ≡ ok (some hello)
unfolding lookup local_cache_add insert bytes_eq
load_entry_lem_example =
    load_entry_lem api (memory_laws 0) 5 (codes "C:\\.az-dcap-client\\61") one_file
      (ok (some hello)) (live 1 0 api.padding 1000 hello (omega arith) (omega arith) (omega arith))

-- The first two attempts fail.
abbrev third_time : MemoryFiles → Bool × MemoryFiles
third_time f = (leb 2 (length f), ([], []) ∷ f)

IsRefused-twice : (k : ℕ) → k < 2 → IsRefused (memory_api 32) third_time [] k
unfolding after_attempts
IsRefused-twice zero h = (refl, refl)
IsRefused-twice (suc zero) h = (refl, refl)
IsRefused-twice (suc (suc k)) h = absurd (omega arith)

open_handle_lem_example :
    open_handle (memory_api 32) third_time [] ≡ (true, ([], []) ∷ ([], []) ∷ ([], []) ∷ [])
unfolding after_attempts
open_handle_lem_example =
    open_handle_lem (memory_api 32) third_time 2 [] (omega arith) IsRefused-twice (inl (inl refl))

abbrev opened_directory : CacheStore api
opened_directory = record { os = (codes "C:\\.az-dcap-client\\e", hello) ∷ []; cache_dirname = [] }

clear_lem_example :
    (s' : CacheStore api) × (local_cache_clear api opened_directory ≡ (ok tt, s'))
    × AreGone api (memory_laws 0) s' (codes "." ∷ codes "e" ∷ [])
unfolding init AreDeletable bytes_eq
clear_lem_example =
    clear_lem api (memory_laws 0) opened_directory (init api opened_directory).1 refl
      (refl, omega arith, omega arith, tt)

abbrev already_there : CacheStore (memory_api 183)
already_there = record { os = (codes "C:\\.az-dcap-client\\e", hello) ∷ []; cache_dirname = [] }

clear_reads_beyond_example : (local_cache_clear (memory_api 183) already_there).0 ≡ fault
unfolding init bytes_eq
clear_reads_beyond_example =
    clear_reads_beyond (memory_api 183) already_there (init (memory_api 183) already_there).1
      (codes "." ∷ []) (codes "e") [] refl refl (refl, tt) refl (omega arith) (omega arith)
