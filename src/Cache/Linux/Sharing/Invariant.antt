-- ===== src/Cache/Linux/Sharing/Invariant.antt =====
-- What holds of the file of an entry and of the calls on it, after every step.
use azure_dcap_client.Prelude.{
  ℕ, zero, suc, ◌+◌, ◌-◌, ◌^◌, ◌<◌, ◌≡◌, ◌⊎◌, refl, arith, false, [], ◌∷◌, ◌++◌, some, Bytes,
  take-length, append-nil, length, drop,
}
use azure_dcap_client.Cache.Header.{header_bytes, header_size, read_header, is_expired, entry_bytes}
use azure_dcap_client.Cache.Linux.{data_size_of}
use azure_dcap_client.Cache.Linux.Sharing.{
  Pc, idle, add_opened, add_locked, add_truncated, add_headed, add_written, get_opened, get_locked,
  get_stale, get_closed, get_headed, get_sized, excludes, locks, Shared, update, write_at,
  entry_header, start_of_data, Move, add_open, add_create, add_lock, add_truncate, add_header,
  add_data, add_close, fail_opened, fail_locked, fail_truncated, fail_headed, get_open, get_lock,
  get_expired, get_close, get_unlink, get_header, get_seek, get_read, get_throw, fail_get_opened,
  fail_get_locked, fail_get_headed, clear_unlink,
}
pub use azure_dcap_client.Prelude.{In, first, behind}

-- What an inode holds while nobody writes it.
pub data IsSettled (m : Shared) (bytes : Bytes) : Type 0 where
  blank : bytes ≡ [] → IsSettled m bytes
  header_only : (e : ℕ) → In e m.given_up → e < 2 ^ 63 → bytes ≡ entry_header e → IsSettled m bytes
  whole :
      (e : ℕ) (b : Bytes)
      → In (e, b) m.finished
      → e < 2 ^ 63
      → length b + 16 < 2 ^ 31
      → bytes ≡ entry_bytes e b
      → IsSettled m bytes

-- The calls add entries that fit their types.
abbrev pub Fits : ℕ → Bytes → Type 0
Fits e b = (e < 2 ^ 63) × (length b + 16 < 2 ^ 31)

-- What a call knows of the inode that it has locked.
abbrev pub Knows : Shared → Pc → Type 0
Knows m (add_opened n e b) = Fits e b
Knows m (add_locked n e b) = Fits e b × IsSettled m (m.content n)
Knows m (add_truncated n e b) = Fits e b × (m.content n ≡ [])
Knows m (add_headed n e b) = Fits e b × (m.content n ≡ entry_header e)
Knows m (add_written n e b) = IsSettled m (m.content n)
Knows m (get_headed n now start) =
    (is_expired (read_header (m.content n)) now ≡ false) × (start ≡ start_of_data (m.content n))
Knows m (get_sized n now start size) =
    (is_expired (read_header (m.content n)) now ≡ false)
    × (start ≡ start_of_data (m.content n))
    × (size ≡ data_size_of start (length (m.content n)))
Knows m p = Unit

pub record Inv (m : Shared) (pc : ℕ → Pc) : Type 0 where
  pub exclusive : (i j n : ℕ) → excludes (pc i) ≡ some n → locks (pc j) ≡ some n → i ≡ j
  pub knows : (i : ℕ) → Knows m (pc i)
  pub settled : (n : ℕ) → IsSettled m (m.content n) ⊎ ((i : ℕ) × (excludes (pc i) ≡ some n))

-- Entries and marks that are added keep what is settled.
abbrev pub Grows : Shared → Shared → Type 0
Grows m m' =
    ((x : ℕ × Bytes) → In x m.finished → In x m'.finished)
    × ((e : ℕ) → In e m.given_up → In e m'.given_up)

pub IsSettled-Grows :
    {m m' : Shared} {bytes : Bytes} → Grows m m' → IsSettled m bytes → IsSettled m' bytes
IsSettled-Grows g (blank e) = blank e
IsSettled-Grows g (header_only e h f q) = header_only e (g.1 e h) f q
IsSettled-Grows g (whole e b h f k q) = whole e b (g.0 (e, b) h) f k q

pub IsSettled-≡ : {m : Shared} {b b' : Bytes} → b' ≡ b → IsSettled m b → IsSettled m b'
IsSettled-≡ e h = rw e h

-- What a call knows stays true where its inode stays as it is.
pub Knows-frame :
    (m m' : Shared) (p : Pc)
    → Grows m m'
    → ((n : ℕ) → locks p ≡ some n → m'.content n ≡ m.content n)
    → Knows m p
    → Knows m' p
Knows-frame m m' idle g same h = tt
Knows-frame m m' (add_opened n e b) g same h = h
Knows-frame m m' (add_locked n e b) g same (f, h) =
    (f, IsSettled-≡ (same n refl) (IsSettled-Grows g h))
Knows-frame m m' (add_truncated n e b) g same (f, h) = (f, rw (same n refl) h)
Knows-frame m m' (add_headed n e b) g same (f, h) = (f, rw (same n refl) h)
Knows-frame m m' (add_written n e b) g same h = IsSettled-≡ (same n refl) (IsSettled-Grows g h)
Knows-frame m m' (get_opened n) g same h = tt
Knows-frame m m' (get_locked n) g same h = tt
Knows-frame m m' (get_stale n now) g same h = tt
Knows-frame m m' get_closed g same h = tt
Knows-frame m m' (get_headed n now from) g same (a, b) = (rw (same n refl) a, rw (same n refl) b)
Knows-frame m m' (get_sized n now from size) g same (a, b, c) =
    (rw (same n refl) a, rw (same n refl) b, rw (same n refl) c)

pub Move-Grows : {m m' : Shared} {pc : ℕ → Pc} {p p' : Pc} → Move m pc p m' p' → Grows m m'
Move-Grows add_data = (λ x h. behind h, λ e h. h)
Move-Grows fail_headed = (λ x h. h, λ e h. behind h)
Move-Grows (add_open e b f k q) = (λ x h. h, λ e h. h)
Move-Grows (add_create n e b f k q o) = (λ x h. h, λ e h. h)
Move-Grows (add_lock q) = (λ x h. h, λ e h. h)
Move-Grows add_truncate = (λ x h. h, λ e h. h)
Move-Grows add_header = (λ x h. h, λ e h. h)
Move-Grows add_close = (λ x h. h, λ e h. h)
Move-Grows fail_opened = (λ x h. h, λ e h. h)
Move-Grows fail_locked = (λ x h. h, λ e h. h)
Move-Grows fail_truncated = (λ x h. h, λ e h. h)
Move-Grows (get_open q) = (λ x h. h, λ e h. h)
Move-Grows (get_lock q) = (λ x h. h, λ e h. h)
Move-Grows (get_expired now q) = (λ x h. h, λ e h. h)
Move-Grows get_close = (λ x h. h, λ e h. h)
Move-Grows get_unlink = (λ x h. h, λ e h. h)
Move-Grows (get_header now q) = (λ x h. h, λ e h. h)
Move-Grows get_seek = (λ x h. h, λ e h. h)
Move-Grows (get_read q) = (λ x h. h, λ e h. h)
Move-Grows get_throw = (λ x h. h, λ e h. h)
Move-Grows fail_get_opened = (λ x h. h, λ e h. h)
Move-Grows fail_get_locked = (λ x h. h, λ e h. h)
Move-Grows fail_get_headed = (λ x h. h, λ e h. h)
Move-Grows clear_unlink = (λ x h. h, λ e h. h)

pub update_self : (f : ℕ → Bytes) (n : ℕ) (b : Bytes) → update f n b n ≡ b
update_self f n b = ground arith

length-entry_header : (e : ℕ) → length (entry_header e) ≡ 10
unfolding header_bytes
length-entry_header e = refl

-- The writes of `local_cache_add` into a file that was truncated.
pub write_at-zero : (e : ℕ) → write_at 0 (entry_header e) [] ≡ entry_header e
unfolding header_bytes
write_at-zero e = refl

drop_beyond : (xs : Bytes) (n : ℕ) → ◌≡◌ {A = Bytes} (drop (length xs + n) xs) []
drop_beyond [] zero = refl
drop_beyond [] (suc n) = let e : 0 + suc n ≡ suc n = omega arith in rw e refl
drop_beyond (x ∷ xs) n =
    let e : suc (length xs) + n ≡ suc (length xs + n) = omega arith in rw e (drop_beyond xs n)

-- Writing at the end of a file appends.
write_at-end : (h b : Bytes) → write_at (length h) b h ≡ h ++ b
write_at-end h b =
    let none_left : length h - length h ≡ 0 = omega arith in
    rw (take-length h, none_left, drop_beyond h (length b), append-nil b) refl

pub write_at-header :
    (e : ℕ) (b : Bytes) → write_at header_size b (entry_header e) ≡ entry_bytes e b
unfolding header_bytes
write_at-header e b = write_at-end (entry_header e) b
