-- ===== src/Tests/Setup.antt =====
-- A file system in memory, a cache in memory, and a server that gives one answer: the parameters of
-- the development, as concrete functions.
use azure_dcap_client.Prelude.{
  ℕ, suc, sym, In, first, behind, Bool-cases, inl, inr, bytes_eq, bytes_eq_sound, take, take-length,
  ◌<◌, ◌≤◌, ◌^◌, ◌+◌, ◌*◌, ◌≡◌, ◌≢◌, arith, true, List, [], ◌∷◌, ◌++◌, Option, none, some, Bytes,
  codes, lookup, insert, erase, lookup-insert_self, lookup-insert_ne, lookup-erase_ne,
  lookup-erase_self, Action, Outcome, ok, throw, fault, ⊤, curle_ok, length,
}
use azure_dcap_client.Host.{Host, CurlEvent, header_event, write_event}
use azure_dcap_client.Curl.Header.{header_line}
use azure_dcap_client.Cache.{LocalCache}
use azure_dcap_client.Cache.Contract.{Entry, unexpired}
use azure_dcap_client.Cache.FileSystem.{
  FileSystem, FileView, cannot_open, readable, TypeFlag, ftw_f,
}
use azure_dcap_client.Hex.{format_as_hex_string}

-- Files by their paths.
abbrev pub MemoryFiles : Type 0
MemoryFiles = List (Bytes × Bytes)

abbrev pub content_of : Option Bytes → FileView
content_of none = cannot_open
content_of (some bytes) = readable bytes

abbrev pub memory_write : MemoryFiles → Bytes → Bytes → Option Bytes → Option (ℕ × MemoryFiles)
memory_write f p bytes none = none
memory_write f p bytes (some old) = some (length bytes, insert p (old ++ bytes) f)

abbrev pub memory_open : MemoryFiles → Bytes → Option Bytes → Option MemoryFiles
memory_open f p none = some (insert p [] f)
memory_open f p (some old) = some f

pub memory_truncate_lem :
    (f f' : MemoryFiles) (p : Bytes)
    → some (insert p [] f) ≡ some f'
    → content_of (lookup p f') ≡ readable []
memory_truncate_lem f f' p e = ground (arith, lookup-insert_self p [] f)

pub memory_write_lem :
    (f f' : MemoryFiles) (p old bytes : Bytes) (n : ℕ)
    → memory_write f p bytes (lookup p f) ≡ some (n, f')
    → content_of (lookup p f) ≡ readable old
    → content_of (lookup p f') ≡ readable (old ++ take n bytes)
memory_write_lem f f' p old bytes n e v =
    ground (arith, lookup-insert_self p (old ++ bytes) f, take-length bytes)

pub memory_writes_whole :
    (f f' : MemoryFiles) (p bytes : Bytes) (n : ℕ)
    → memory_write f p bytes (lookup p f) ≡ some (n, f')
    → n ≡ length bytes
memory_writes_whole f f' p bytes n e = ground arith

pub memory_insert_other :
    (f f' : MemoryFiles) (p q bytes : Bytes)
    → some (insert p bytes f) ≡ some f'
    → p ≢ q
    → content_of (lookup q f') ≡ content_of (lookup q f)
memory_insert_other f f' p q bytes e ne = ground (arith, lookup-insert_ne p q bytes f ne)

pub memory_open_other :
    (f f' : MemoryFiles) (p q : Bytes)
    → memory_open f p (lookup p f) ≡ some f'
    → p ≢ q
    → content_of (lookup q f') ≡ content_of (lookup q f)
memory_open_other f f' p q e ne = ground (arith, lookup-insert_ne p q [] f ne)

pub memory_write_other :
    (f f' : MemoryFiles) (p q bytes : Bytes) (n : ℕ)
    → memory_write f p bytes (lookup p f) ≡ some (n, f')
    → p ≢ q
    → content_of (lookup q f') ≡ content_of (lookup q f)
memory_write_other f f' p q bytes n e ne =
    grind (arith, λ (old : Bytes). lookup-insert_ne p q (old ++ bytes) f ne)

pub memory_unlink_other :
    (f f' : MemoryFiles) (p q : Bytes)
    → some (erase p f) ≡ some f'
    → p ≢ q
    → content_of (lookup q f') ≡ content_of (lookup q f)
memory_unlink_other f f' p q e ne = ground (arith, lookup-erase_ne p q f ne)

pub memory_unlink_lem :
    (f f' : MemoryFiles) (p : Bytes)
    → some (erase p f) ≡ some f'
    → content_of (lookup p f') ≡ cannot_open
memory_unlink_lem f f' p e = ground (arith, lookup-erase_self p f)

-- The traversal of a directory comes by all files.
abbrev pub listed : MemoryFiles → List (Bytes × TypeFlag × ℕ)
listed [] = []
listed ((p, bytes) ∷ f) = (p, ftw_f, 1) ∷ listed f

listed_lem :
    (f : MemoryFiles) (p bytes : Bytes)
    → content_of (lookup p f) ≡ readable bytes
    → In (p, ftw_f, 1) (listed f)
unfolding lookup
listed_lem [] p bytes h = cc
listed_lem ((q, b) ∷ f) p bytes h = elim (Bool-cases (bytes_eq q p)) [
  | inl same ↦ rw (sym (bytes_eq_sound q p same)) first
  | inr apart ↦ behind (listed_lem f p bytes (rw apart at h))
]

pub memory_nftw :
    (f : MemoryFiles) (dirname digest bytes : Bytes)
    → content_of (lookup (dirname ++ b'/' ∷ format_as_hex_string digest) f) ≡ readable bytes
    → (path : Bytes) × (flag : TypeFlag) × (above : ℕ) × In (path, flag, suc above) (listed f)
      × ((f' : MemoryFiles)
          → content_of (lookup path f') ≡ cannot_open
          → content_of (lookup (dirname ++ b'/' ∷ format_as_hex_string digest) f') ≡ cannot_open)
memory_nftw f dirname digest bytes h =
    let p = dirname ++ b'/' ∷ format_as_hex_string digest in
    (p, ftw_f, 0, listed_lem f p bytes h, λ f' gone. gone)

-- Every path is a directory.
abbrev pub memory : FileSystem
memory = record {
  Files = MemoryFiles;
  view = λ f p. content_of (lookup p f);
  stat = λ f p. some true;
  mkdir = λ f p. some f;
  open_write = λ f p. memory_open f p (lookup p f);
  truncate = λ f p. some (insert p [] f);
  write = λ f p bytes. memory_write f p bytes (lookup p f);
  unlink = λ f p. some (erase p f);
  rmdir = λ f p. some (erase p f);
  nftw = λ f p. listed f;
  truncate_lem = memory_truncate_lem;
  write_lem = memory_write_lem;
  open_write_other = memory_open_other;
  truncate_other = λ f f' p q e ne. memory_insert_other f f' p q [] e ne;
  write_other = memory_write_other;
  unlink_other = memory_unlink_other;
  unlink_lem = memory_unlink_lem;
  rmdir_other = memory_unlink_other;
  rmdir_lem = memory_unlink_lem;
  nftw_lem = memory_nftw;
}

-- Entries by their names.
abbrev pub MemoryStore : Type 0
MemoryStore = List (Bytes × Entry)

abbrev pub memory_add : Bytes → ℕ → Bytes → Action MemoryStore ⊤
memory_add id expiry bytes s = (ok tt, insert {V = Entry} id (expiry, bytes) s)

abbrev pub memory_get : ℕ → Bytes → Action MemoryStore (Option Bytes)
memory_get now id s = (ok (unexpired now (lookup {V = Entry} id s)), s)

pub memory_get-add :
    (id : Bytes) (expiry now : ℕ) (bytes : Bytes) (s s' : MemoryStore)
    → memory_add id expiry bytes s ≡ (ok tt, s')
    → now < expiry
    → expiry < 2 ^ 63
    → length bytes + 16 < 2 ^ 31
    → (memory_get now id s').0 ≡ ok (some bytes)
memory_get-add id expiry now bytes s s' e live fits small =
    ground (arith, lookup-insert_self {V = Entry} id (expiry, bytes) s)

pub memory_get-add_expired :
    (id : Bytes) (expiry now : ℕ) (bytes : Bytes) (s s' : MemoryStore)
    → memory_add id expiry bytes s ≡ (ok tt, s')
    → expiry ≤ now
    → expiry < 2 ^ 63
    → (memory_get now id s').0 ≡ ok none
memory_get-add_expired id expiry now bytes s s' e late fits =
    ground (arith, lookup-insert_self {V = Entry} id (expiry, bytes) s)

pub memory_get-add_ne :
    (id other : Bytes) (expiry now : ℕ) (bytes : Bytes) (s s' : MemoryStore)
    → memory_add id expiry bytes s ≡ (ok tt, s')
    → id ≢ other
    → (memory_get now other s').0 ≡ (memory_get now other s).0
memory_get-add_ne id other expiry now bytes s s' e ne =
    ground (arith, lookup-insert_ne {V = Entry} id other (expiry, bytes) s ne)

pub memory_get-get :
    (id other : Bytes) (now later : ℕ) (found : Option Bytes) (s s' : MemoryStore)
    → now ≤ later
    → memory_get now id s ≡ (ok found, s')
    → (memory_get later other s').0 ≡ (memory_get later other s).0
memory_get-get id other now later found s s' le e = ground arith

abbrev pub memory_clear : Action MemoryStore ⊤
memory_clear s = (ok tt, [])

pub memory_get-clear :
    (id : Bytes) (now : ℕ) (found : Option Bytes) (s s' : MemoryStore)
    → memory_clear s ≡ (ok tt, s')
    → (memory_get now id s).0 ≡ ok found
    → (memory_get now id s').0 ≡ ok none
unfolding lookup
memory_get-clear id now found s s' e hit = ground arith

abbrev pub memory_cache : LocalCache
memory_cache = record {
  Store = MemoryStore;
  local_cache_add = memory_add;
  local_cache_get = memory_get;
  local_cache_clear = memory_clear;
  name = λ id. id;
  get-add = memory_get-add;
  get-add_expired = memory_get-add_expired;
  get-add_ne = memory_get-add_ne;
  get-get = memory_get-get;
  get-clear = memory_get-clear;
}

-- The call of the header callback for a header.
abbrev pub header_call : Bytes → Bytes → CurlEvent
header_call name content =
    let line = header_line name [] content in header_event 1 (length line) line

-- A server whose answer to each request has three headers and the body "{}".
abbrev pub server : Host
server = record {
  getenv = λ name. none;
  little_endian = true;
  new_block = λ n size. some (4096 * (n + 1));
  curl_easy_init = true;
  curl_easy_setopt = λ handle option. curle_ok;
  curl_easy_perform = λ sent handle. record {
    events =
        header_call (codes "SGX-PCK-CRL-Issuer-Chain") (codes "chain")
        ∷ header_call (codes "SGX-PCK-Certificate-Issuer-Chain") (codes "root")
        ∷ header_call (codes "SGX-TCBm") (codes "0102030405060708090A0B0C0D0E0F100201")
        ∷ write_event 1 2 (codes "{}")
        ∷ [];
    code = λ returned. curle_ok;
  };
  curl_escape = λ s. some s;
  curl_easy_unescape = λ s. s;
  curl_max_write_size = 16384;
  curl_max_http_header = 102400;
  sizeof_qve_collateral = 64;
}

-- The value of an action that returns, and a given one otherwise.
abbrev pub value_or : {A : Type 0} → Outcome A → A → A
value_or (ok a) default = a
value_or (throw e) default = default
value_or fault default = default
