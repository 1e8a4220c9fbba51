-- ===== src/Cache/Linux/Sharing/Safety.antt =====
-- What the locks of src/Linux/local_cache.cpp achieve between processes, and what they do not.
use azure_dcap_client.Prelude.{
  ℕ, ◌+◌, ◌∙◌, ◌^◌, ◌<◌, ◌≤◌, ◌≡◌, ◌⊎◌, inl, inr, refl, arith, true, false, List, [], ◌∷◌, none,
  some, Bytes, length, drop, append-nil, sym, ap, le→ltb,
}
use azure_dcap_client.Cache.Header.{
  read_header, read_into, is_expired, entry_bytes, is_expired-entry_bytes, length-entry_bytes,
  drop-entry_bytes,
}
use azure_dcap_client.Cache.Linux.{data_size_of}
use azure_dcap_client.Cache.Linux.Reading.{read_into_whole, data_size_lem}
use azure_dcap_client.Cache.Linux.Sharing.{
  Pc, idle, history, add_opened, add_locked, add_truncated, add_headed, add_written, get_opened,
  get_locked, get_stale, get_closed, excludes, locks, Shared, System, entry_header, start_of_data,
  Move, add_create, add_lock, add_truncate, add_header, add_data, add_close, get_open, get_lock,
  get_expired, get_close, get_unlink, get_read, get_sized, pick, Reach, at_start, later,
}
use azure_dcap_client.Cache.Linux.Sharing.Invariant.{
  In, first, behind, IsSettled, blank, header_only, whole, Inv, Grows, Move-Grows,
}
use azure_dcap_client.Cache.Linux.Sharing.Moves.{Reach-Inv}

-- What a look-up at a time may return: the data of an add that has been completed and has not
-- expired, or nothing at all, of an add that was given up between its two writes.
pub data IsGenuine (m : Shared) (now : ℕ) (b : Bytes) : Type 0 where
  of_add : (e : ℕ) → In (e, b) m.finished → now < e → IsGenuine m now b
  of_failure : (e : ℕ) → In e m.given_up → now < e → b ≡ [] → IsGenuine m now b

blank_expired : (now : ℕ) → is_expired (read_header []) now ≡ true
unfolding is_expired read_header read_into
blank_expired now = ground arith

not_expired :
    (e now : ℕ) (b : Bytes)
    → e < 2 ^ 63
    → is_expired (read_header (entry_bytes e b)) now ≡ false
    → now < e
not_expired e now b small live = let test = is_expired-entry_bytes e now b small in ground arith

start_of_entry : (bytes : Bytes) → 10 ≤ length bytes → start_of_data bytes ≡ 10
start_of_entry bytes h = rw (le→ltb (length bytes) 10 h) refl

read_whole :
    (e : ℕ) (b : Bytes)
    → length b + 16 < 2 ^ 31
    → read_into
        (data_size_of (start_of_data (entry_bytes e b)) (length (entry_bytes e b)))
        (drop (start_of_data (entry_bytes e b)) (entry_bytes e b))
      ≡ b
read_whole e b small =
    let size = length-entry_bytes e b in
    rw
      (
        start_of_entry (entry_bytes e b) (omega arith),
        data_size_lem (length b) (length (entry_bytes e b)) size small,
        drop-entry_bytes e b,
      )
      (read_into_whole b)

IsSettled-IsGenuine :
    {m : Shared} (bytes : Bytes) (now : ℕ)
    → IsSettled m bytes
    → is_expired (read_header bytes) now ≡ false
    → IsGenuine m now (
        read_into
          (data_size_of (start_of_data bytes) (length bytes))
          (drop (start_of_data bytes) bytes))
IsSettled-IsGenuine bytes now (blank none_left) live =
    absurd (let expired = blank_expired now in ground (arith, none_left))
IsSettled-IsGenuine bytes now (header_only e h small q) live =
    let alone : bytes ≡ entry_bytes e [] = q ∙ sym (append-nil (entry_header e)) in
    of_failure e h (not_expired e now [] small (rw (sym alone) live))
      (rw alone (read_whole e [] (omega arith)))
IsSettled-IsGenuine {m} bytes now (whole e b h small fits q) live =
    rw q (rw (read_whole e b fits) (of_add e h (not_expired e now b small (rw (sym q) live))))

In-cons : {A : Type 0} {x y : A} {l : List A} → In x (y ∷ l) → (x ≡ y) ⊎ In x l
In-cons first = inl refl
In-cons (behind h) = inr h

IsGenuine-Grows :
    {m m' : Shared} {now : ℕ} {b : Bytes} → Grows m m' → IsGenuine m now b → IsGenuine m' now b
IsGenuine-Grows {b} g (of_add e h l) = of_add e (g.0 (e, b) h) l
IsGenuine-Grows g (of_failure e h l q) = of_failure e (g.1 e h) l q

module _ {m : Shared} {pc : ℕ → Pc} (inv : Inv m pc) (i : ℕ) where
  -- A reader that is about to read has an inode that nobody writes.
  get_read-IsGenuine :
      {n now from size : ℕ}
      → pc i ≡ get_sized n now from size
      → IsGenuine m now (read_into size (drop from (m.content n)))
  get_read-IsGenuine {n} {now} {from} {size} here =
      let (live, at, measured) = known in
      elim (inv.settled n) [
        | inl st ↦ rw (measured, at) (IsSettled-IsGenuine (m.content n) now st live)
        | inr (j, held) ↦
            let same = inv.exclusive j i n held (ap locks here) in
            absurd (ground (arith, same, held, ap excludes here))
      ]
    where
      known :
          (is_expired (read_header (m.content n)) now ≡ false)
          × (from ≡ start_of_data (m.content n))
          × (size ≡ data_size_of from (length (m.content n)))
      known = rw here at (inv.knows i)

  Move-returned :
      {p p' : Pc} {m' : Shared}
      → Move m pc p m' p'
      → pc i ≡ p
      → ((now : ℕ) (b : Bytes) → In (now, b) m.returned → IsGenuine m now b)
      → (now : ℕ) (b : Bytes) → In (now, b) m'.returned
      → IsGenuine m' now b
  Move-returned (get_read fits) here old now b h = elim (In-cons h) [
    | inl e ↦
        rw (ap (λ x. x.0) e, ap (λ x. x.1) e)
          (IsGenuine-Grows (λ x k. k, λ x k. k) (get_read-IsGenuine here))
    | inr earlier ↦ IsGenuine-Grows (λ x k. k, λ x k. k) (old now b earlier)
  ]
  Move-returned mv here old now b h = IsGenuine-Grows (Move-Grows mv) (old now b h)

not-In-nil : {A : Type 0} {x : A} → In x [] → ⊥
not-In-nil h = elim h [ ]

-- Whatever processes and threads add and look up an entry at the same time, in whatever order their
-- system calls are made, and wherever calls fail: data that a look-up returns were written whole by
-- one add, which had been completed, and had not expired at the time of the look-up; or they are
-- empty, and an add was given up between its two writes.
pub returned-IsGenuine :
    {s : System}
    → Reach s
    → (now : ℕ) (b : Bytes) → In (now, b) s.shared.returned
    → IsGenuine s.shared now b
returned-IsGenuine at_start now b h = absurd (not-In-nil h)
returned-IsGenuine (later r (pick i mv)) now b h =
    Move-returned (Reach-Inv r) i mv refl (returned-IsGenuine r) now b h

-- An inode that one call has locked for writing is locked by no other call, whatever the order of
-- the steps.
pub writer_alone :
    {s : System}
    → Reach s
    → (i j n : ℕ) → excludes (s.pc i) ≡ some n
    → locks (s.pc j) ≡ some n
    → i ≡ j
writer_alone r = (Reach-Inv r).exclusive

-- One call adds an entry, and another looks it up at a time; the steps in which the entry is lost. The
-- look-up opens and locks the file that the add has created but not locked, takes it for expired, and
-- removes its name; then the add locks, truncates and writes the file.
abbrev pub losing_order : ℕ → Bytes → ℕ → List (ℕ × Pc)
losing_order e b now =
    (0, add_opened 0 e b)
    ∷ (1, get_opened 0)
    ∷ (1, get_locked 0)
    ∷ (1, get_stale 0 now)
    ∷ (1, get_closed)
    ∷ (1, idle)
    ∷ (0, add_locked 0 e b)
    ∷ (0, add_truncated 0 e b)
    ∷ (0, add_headed 0 e b)
    ∷ (0, add_written 0 e b)
    ∷ (0, idle)
    ∷ []

-- Every entry can be lost right after it was added, to a look-up at a time at which the entry has not
-- expired: one add and one look-up can take their steps in the order of `losing_order`, without any other step,
-- in particular without a `local_cache_clear`, after which the add has been completed, neither call has
-- failed or is under way, and yet the file has no name.
pub added_entry_lost :
    (e : ℕ) (b : Bytes) (now : ℕ)
    → e < 2 ^ 63
    → length b + 16 < 2 ^ 31
    → now < e
    → (s : System) × (r : Reach s) × (history r ≡ losing_order e b now)
      × In (e, b) s.shared.finished
      × (s.shared.name ≡ none)
      × (s.shared.given_up ≡ [])
      × ((i : ℕ) → s.pc i ≡ idle)
added_entry_lost e b now small fits live =
    let s1 = later at_start (pick 0 (add_create 0 e b small fits refl (λ j. cc))) in
    let s2 = later s1 (pick 1 (get_open refl)) in
    let s3 = later s2 (pick 1 (get_lock (λ j. ground arith))) in
    let s4 = later s3 (pick 1 (get_expired now (blank_expired now))) in
    let s5 = later s4 (pick 1 get_close) in
    let s6 = later s5 (pick 1 get_unlink) in
    let s7 = later s6 (pick 0 (add_lock (λ j. ground arith))) in
    let s8 = later s7 (pick 0 add_truncate) in
    let s9 = later s8 (pick 0 add_header) in
    let s10 = later s9 (pick 0 add_data) in
    let s11 = later s10 (pick 0 add_close) in (_, s11, refl, first, refl, refl, λ i. ground arith)
