-- ===== src/Cache/Linux/Sharing.antt =====
-- src/Linux/local_cache.cpp in several processes and threads at once, on the file of one entry: the
-- system calls of `local_cache_add` and `local_cache_get`, each a step of its own, in any order, and
-- the removal of the file by `local_cache_clear`. A descriptor is an inode, which stays when its name
-- is removed; `flock` waits by not being taken.
pub mod Invariant
pub mod Moves
pub mod Safety
use azure_dcap_client.Prelude.{
  ℕ, ◌+◌, ◌-◌, ◌^◌, ◌<◌, ◌≡◌, ◌≢◌, Bool, true, false, List, [], ◌∷◌, ◌++◌, Option, none, some,
  Bytes, ltb, leb, ◌==◌, if◌then◌else◌, length, take, drop, replicate,
}
use azure_dcap_client.Cache.Header.{
  header_bytes, cache_v1, header_size, read_header, read_into, is_expired,
}
use azure_dcap_client.Cache.Linux.{data_size_of}

-- Where a call stands. A writer has the inode, the expiration time and the data; a reader has the
-- inode, the time that it reads from the clock, the offset behind the header, and the size.
pub data Pc : Type 0 where
  idle : Pc
  add_opened add_locked add_truncated add_headed add_written : ℕ → ℕ → Bytes → Pc
  get_opened : ℕ → Pc
  get_locked : ℕ → Pc
  get_stale : ℕ → ℕ → Pc
  get_closed : Pc
  get_headed : ℕ → ℕ → ℕ → Pc
  get_sized : ℕ → ℕ → ℕ → ℕ → Pc

-- The inode that a call has locked with `LOCK_EX`.
abbrev pub excludes : Pc → Option ℕ
excludes (add_locked n e b) = some n
excludes (add_truncated n e b) = some n
excludes (add_headed n e b) = some n
excludes (add_written n e b) = some n
excludes p = none

-- The inode that a call has locked at all.
abbrev pub locks : Pc → Option ℕ
locks (add_locked n e b) = some n
locks (add_truncated n e b) = some n
locks (add_headed n e b) = some n
locks (add_written n e b) = some n
locks (get_locked n) = some n
locks (get_stale n now) = some n
locks (get_headed n now start) = some n
locks (get_sized n now start size) = some n
locks p = none

-- The inode that a call has open.
abbrev pub opens : Pc → Option ℕ
opens (add_opened n e b) = some n
opens (get_opened n) = some n
opens p = locks p

-- What is seen by all: the inode that the file's name stands for, and what each inode holds. Beside
-- it, the entries that have been written whole, the expiration times of those that were given up
-- behind their headers, and what look-ups have returned, each with its time.
pub record Shared : Type 0 where
  pub name : Option ℕ
  pub content : ℕ → Bytes
  pub finished : List (ℕ × Bytes)
  pub given_up : List ℕ
  pub returned : List (ℕ × Bytes)

pub record System : Type 0 where
  pub shared : Shared
  pub pc : ℕ → Pc

abbrev pub update {ℓ} : {A : Type ℓ} → (ℕ → A) → ℕ → A → ℕ → A
update f i a j = if i == j then a else f j

-- `write` at an offset.
abbrev pub write_at : ℕ → Bytes → Bytes → Bytes
write_at offset bytes old =
    take offset old
    ++ (replicate (offset - length old) 0 ++ (bytes ++ drop (offset + length bytes) old))

abbrev pub put : Shared → ℕ → Bytes → Shared
put m n bytes = record m { content = update m.content n bytes }

abbrev pub entry_header : ℕ → Bytes
entry_header expiry = header_bytes (record { version = cache_v1; expiry = expiry })

-- Where the file position stands once the header has been read.
abbrev pub start_of_data : Bytes → ℕ
start_of_data bytes = if ltb (length bytes) header_size then length bytes else header_size

-- A step of a call that has the other calls beside it. The calls add entries whose size and
-- expiration time fit their types. A call that fails, or whose process ends, closes its file; a write
-- that does not fail writes all of its bytes.
pub data Move (m : Shared) (pc : ℕ → Pc) : Pc → Shared → Pc → Type 0 where
  add_open :
      {n : ℕ} (expiry : ℕ) (bytes : Bytes)
      → expiry < 2 ^ 63
      → length bytes + 16 < 2 ^ 31
      → m.name ≡ some n
      → Move m pc idle m (add_opened n expiry bytes)
  add_create :
      (n expiry : ℕ) (bytes : Bytes)
      → expiry < 2 ^ 63
      → length bytes + 16 < 2 ^ 31
      → m.name ≡ none
      → ((j : ℕ) → opens (pc j) ≢ some n)
      → Move m pc idle (record (put m n []) { name = some n }) (add_opened n expiry bytes)
  add_lock :
      {n e : ℕ} {b : Bytes}
      → ((j : ℕ) → locks (pc j) ≢ some n)
      → Move m pc (add_opened n e b) m (add_locked n e b)
  add_truncate :
      {n e : ℕ} {b : Bytes} → Move m pc (add_locked n e b) (put m n []) (add_truncated n e b)
  add_header :
      {n e : ℕ} {b : Bytes}
      → Move m pc
          (add_truncated n e b)
          (put m n (write_at 0 (entry_header e) (m.content n)))
          (add_headed n e b)
  add_data :
      {n e : ℕ} {b : Bytes}
      → Move m pc
          (add_headed n e b)
          (record (put m n (write_at header_size b (m.content n))) {
            finished = (e, b) ∷ m.finished;
          })
          (add_written n e b)
  add_close : {n e : ℕ} {b : Bytes} → Move m pc (add_written n e b) m idle
  fail_opened : {n e : ℕ} {b : Bytes} → Move m pc (add_opened n e b) m idle
  fail_locked : {n e : ℕ} {b : Bytes} → Move m pc (add_locked n e b) m idle
  fail_truncated : {n e : ℕ} {b : Bytes} → Move m pc (add_truncated n e b) m idle
  fail_headed :
      {n e : ℕ} {b : Bytes}
      → Move m pc (add_headed n e b) (record m { given_up = e ∷ m.given_up }) idle
  get_open : {n : ℕ} → m.name ≡ some n → Move m pc idle m (get_opened n)
  get_lock :
      {n : ℕ} → ((j : ℕ) → excludes (pc j) ≢ some n) → Move m pc (get_opened n) m (get_locked n)
  get_expired :
      {n : ℕ} (now : ℕ)
      → is_expired (read_header (m.content n)) now ≡ true
      → Move m pc (get_locked n) m (get_stale n now)
  get_close : {n now : ℕ} → Move m pc (get_stale n now) m get_closed
  get_unlink : Move m pc get_closed (record m { name = none }) idle
  get_header :
      {n : ℕ} (now : ℕ)
      → is_expired (read_header (m.content n)) now ≡ false
      → Move m pc (get_locked n) m (get_headed n now (start_of_data (m.content n)))
  get_seek :
      {n now start : ℕ}
      → Move m pc
          (get_headed n now start)
          m
          (get_sized n now start (data_size_of start (length (m.content n))))
  get_read :
      {n now start size : ℕ}
      → leb (2 ^ 31) size ≡ false
      → Move m pc
          (get_sized n now start size)
          (record m { returned = (now, read_into size (drop start (m.content n))) ∷ m.returned })
          idle
  get_throw : {n now start size : ℕ} → Move m pc (get_sized n now start size) m idle
  fail_get_opened : {n : ℕ} → Move m pc (get_opened n) m idle
  fail_get_locked : {n : ℕ} → Move m pc (get_locked n) m idle
  fail_get_headed : {n now start : ℕ} → Move m pc (get_headed n now start) m idle
  clear_unlink : Move m pc idle (record m { name = none }) idle

pub data Step (s : System) : System → Type 0 where
  pick :
      (i : ℕ) {m : Shared} {p : Pc}
      → Move s.shared s.pc (s.pc i) m p
      → Step s (record { shared = m; pc = update s.pc i p })

-- No file, and no call.
abbrev pub at_rest : System
at_rest = record {
  shared = record { name = none; content = λ n. []; finished = []; given_up = []; returned = [] };
  pc = λ i. idle;
}

pub data Reach : System → Type 0 where
  at_start : Reach at_rest
  later : {s t : System} → Reach s → Step s t → Reach t

-- The steps of a run in their order: which call made the step, and where it stands behind it.
abbrev pub history : {s : System} → Reach s → List (ℕ × Pc)
history at_start = []
history (later r (pick i {m} {p} mv)) = history r ++ (i, p) ∷ []
