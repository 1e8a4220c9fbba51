-- ===== src/Lib.antt =====
-- The Azure DCAP client: a provider library that the Intel SGX DCAP library loads, and that fetches
-- platform certificates, revocation lists, TCB info and enclave identities from the Azure caching
-- service, keeps them in a cache on disk, and hands them over in memory blocks of its own layout.
--
-- The program's parts and the files that model them:
--   Errors, Settings, Safe, Hex, Url: the small parts of src/dcap_provider.cpp and src/environment.h:
--     error codes, settings from the environment, checked arithmetic, hexadecimal text, URLs and the
--     request body. A function has the name that it has in the source.
--   Curl: the class `curl_easy` of src/Linux/curl_easy.cpp: `create` and `set_headers` collect the
--     options of a handle, `perform` runs the callbacks that libcurl calls, `header_callback` and
--     `write_callback`, and `throw_on_error` turns codes into exceptions.
--   Cache: the interface of src/local_cache.h as a record of operations and laws; Cache.Linux is
--     src/Linux/local_cache.cpp over a file system, and Cache.Linux.Laws makes it the interface;
--     Cache.Linux.Sharing has its system calls as steps of many calls at once on one file.
--     Cache.Windows is src/Windows/local_cache.cpp over the calls of Windows, and meets the same
--     interface. Cache.Contract is what the interface promises, as a map with entries that expire
--     and that can be cleared.
--   Provider: the entry points of src/dcap_provider.cpp over any cache that fulfils the interface:
--     Collateral is `get_collateral`, Config `sgx_ql_get_quote_config`, Revocation
--     `sgx_ql_get_revocation_info`, QeIdentity `sgx_get_qe_identity_info`, Verification
--     `sgx_ql_get_quote_verification_collateral`, QveIdentity and RootCrl the two that are left, and
--     Free the functions that free what these return.
--   Windows: src/Windows/curl_easy.cpp: Escape has `escape` and `unescape`, which the Windows class
--     implements itself, Perform the retries of `perform`, Session the rest of the class, all over
--     WinHTTP; EventLog is src/Windows/dll/evtx_logging.cpp.
--   Logging: the callback and the level filter of src/logging.cpp.
--   Prelude: numbers, lists, byte texts, and the monad of the model: an action takes a state and
--     returns a value, a C++ exception or `fault` beside the state that it leaves. `fault` stands for
--     undefined behaviour of the source, such as a read through a null pointer, and for an assertion
--     that fails: the Linux build, which does not define NDEBUG, has the assertions.
--   Tests: concrete parameters, and the theorems applied to them.
--
-- What is a parameter: the environment, the byte order, the allocator, libcurl (Host); the POSIX file
-- calls with their documented effect on what files hold (Cache.FileSystem); the calls of Windows on
-- files and theirs (Cache.Windows.Api), WinHTTP (Windows.Perform, Windows.Session), the registry and
-- the event log (Windows.EventLog); the SHA-256 digest; the layout of the one structure of the Intel
-- headers whose bytes are stored (Provider.Config). A `write` may be short, and
-- the code does not look at its count: that no write is short is a condition, `WritesWhole`, of
-- what Cache.Linux.Laws and Cache.Linux.Refinement state, and a part of the steps of
-- Cache.Linux.Sharing.
--
-- Bounds: a `size_t` has 64 bits, a `uint32_t` 32 and an `int` 31 and a sign; conversions are written
-- out as remainders. The loops are structural recursion on lists; only the retries of the Windows
-- `perform` run on fuel, 7 rounds, and the development shows that they suffice; `OpenHandle` of the
-- Windows cache counts its 10000 attempts down.
-- The clock stands still during a call, and `get_cache_expiration_time` assumes a zone whose offset is
-- constant on the first day of 1970. Calls do not overlap, but in Cache.Linux.Sharing.
--
-- What is not modelled: the calls of `log` in the other parts and the text of their messages, the
-- entry point of the Windows library (src/Windows/dll/dllmain.cpp), the global initialisation of libcurl
-- (src/Linux/init.cpp), and the unit tests.
pub mod Prelude
pub mod Errors
pub mod Hex
pub mod Safe
pub mod Host
pub mod Settings
pub mod Url
pub mod Curl
pub mod Cache
pub mod Provider
pub mod Windows
pub mod Logging
pub mod Tests
