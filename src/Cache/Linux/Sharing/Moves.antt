-- ===== src/Cache/Linux/Sharing/Moves.antt =====
-- Every step of a call of src/Linux/local_cache.cpp on a shared file keeps the invariant.
use azure_dcap_client.Prelude.{
  ℕ, ◌∙◌, ◌≡◌, ◌≢◌, ◌⊎◌, inl, inr, refl, arith, [], some, ◌==◌, Bool-cases, ap,
}
use azure_dcap_client.Cache.Header.{header_size}
use azure_dcap_client.Cache.Linux.Sharing.{
  Pc, excludes, locks, Shared, System, update, write_at, entry_header, Move, add_open, add_create,
  add_lock, add_truncate, add_header, add_data, add_close, fail_opened, fail_locked, fail_truncated,
  fail_headed, get_open, get_lock, get_expired, get_close, get_unlink, get_header, get_seek,
  get_read, get_throw, fail_get_opened, fail_get_locked, fail_get_headed, clear_unlink, pick,
  at_rest, Reach, at_start, later,
}
use azure_dcap_client.Cache.Linux.Sharing.Invariant.{
  first, IsSettled, blank, header_only, whole, Knows, Inv, IsSettled-Grows, IsSettled-≡,
  Knows-frame, Move-Grows, update_self, write_at-zero, write_at-header,
}

module _ {m : Shared} {pc : ℕ → Pc} (inv : Inv m pc) (i : ℕ) where
  open inv use {exclusive, knows, settled}

  Move-exclusive :
      {p p' : Pc} {m' : Shared}
      → Move m pc p m' p'
      → pc i ≡ p
      → (j k n : ℕ) → excludes (update pc i p' j) ≡ some n
      → locks (update pc i p' k) ≡ some n
      → j ≡ k
  Move-exclusive (add_lock free) e j k n = ground (arith, exclusive j k n, free j, free k)
  Move-exclusive (get_lock free) e j k n = ground (arith, exclusive j k n, free j, free k)
  Move-exclusive mv e j k n = ground (arith, exclusive j k n)

  -- The inodes that other calls have locked stay as they are.
  Move-content :
      {p p' : Pc} {m' : Shared}
      → Move m pc p m' p'
      → pc i ≡ p
      → (j k : ℕ) → i ≢ j
      → locks (pc j) ≡ some k
      → m'.content k ≡ m.content k
  Move-content (add_create n e b f z q o) h j k ne l = ground (arith, o j)
  Move-content add_truncate h j k ne l = ground (arith, exclusive i j k)
  Move-content add_header h j k ne l = ground (arith, exclusive i j k)
  Move-content add_data h j k ne l = ground (arith, exclusive i j k)
  Move-content mv h j k ne l = refl

  -- What the call itself knows behind its step.
  Move-Knows : {p p' : Pc} {m' : Shared} → Move m pc p m' p' → Knows m p → Knows m' p'
  Move-Knows (add_open e b f z q) h = (f, z)
  Move-Knows (add_create n e b f z q o) h = (f, z)
  Move-Knows (add_lock {n} free) h = elim (settled n) [
    | inl st ↦ (h, st)
    | inr (j, held) ↦ absurd (free j (ground (arith, held)))
  ]
  Move-Knows (add_truncate {n} {e} {b}) (f, h) = (f, update_self m.content n [])
  Move-Knows (add_header {n} {e} {b}) (f, h) = (
    f,
    update_self m.content n (write_at 0 (entry_header e) (m.content n))
        ∙ ap (write_at 0 (entry_header e)) h
        ∙ write_at-zero e,
  )
  Move-Knows (add_data {n} {e} {b}) (f, h) = whole e b first f.0 f.1 (
      update_self m.content n (write_at header_size b (m.content n))
      ∙ ap (write_at header_size b) h
      ∙ write_at-header e b)
  Move-Knows add_close h = tt
  Move-Knows fail_opened h = tt
  Move-Knows fail_locked h = tt
  Move-Knows fail_truncated h = tt
  Move-Knows fail_headed h = tt
  Move-Knows (get_open q) h = tt
  Move-Knows (get_lock q) h = tt
  Move-Knows (get_expired now q) h = tt
  Move-Knows get_close h = tt
  Move-Knows get_unlink h = tt
  Move-Knows (get_header now q) h = (q, refl)
  Move-Knows get_seek (a, b) = (a, b, refl)
  Move-Knows (get_read q) h = tt
  Move-Knows get_throw h = tt
  Move-Knows fail_get_opened h = tt
  Move-Knows fail_get_locked h = tt
  Move-Knows fail_get_headed h = tt
  Move-Knows clear_unlink h = tt

  -- An inode that is locked for writing stays so, or is settled when it is given free.
  Move-releases :
      {p p' : Pc} {m' : Shared} (k : ℕ)
      → Move m pc p m' p'
      → Knows m p
      → excludes p ≡ some k
      → IsSettled m' (m'.content k) ⊎ (excludes p' ≡ some k)
  Move-releases k add_truncate h l = inr l
  Move-releases k add_header h l = inr l
  Move-releases k add_data h l = inr l
  Move-releases k (add_close {n}) h l = inl (let same : k ≡ n = cc in rw same h)
  Move-releases k (fail_locked {n}) (f, h) l = inl (let same : k ≡ n = cc in rw same h)
  Move-releases k (fail_truncated {n}) (f, h) l = inl (blank (let same : k ≡ n = cc in rw same h))
  Move-releases k (fail_headed {n} {e}) (f, h) l =
      inl (header_only e first f.0 (let same : k ≡ n = cc in rw same h))
  Move-releases k mv h l = cc

  -- What a step changes in an inode, it has locked for writing, or has just created.
  Move-changes :
      {p p' : Pc} {m' : Shared} (k : ℕ)
      → Move m pc p m' p'
      → (m'.content k ≡ m.content k) ⊎ (m'.content k ≡ []) ⊎ (excludes p' ≡ some k)
  Move-changes k (add_create n e b f z q o) = elim (Bool-cases (n == k)) [
    | inl same ↦ inr (inl (ground (arith, same)))
    | inr other ↦ inl (ground (arith, other))
  ]
  Move-changes k (add_truncate {n}) = elim (Bool-cases (n == k)) [
    | inl same ↦ inr (inr (ground (arith, same)))
    | inr other ↦ inl (ground (arith, other))
  ]
  Move-changes k (add_header {n}) = elim (Bool-cases (n == k)) [
    | inl same ↦ inr (inr (ground (arith, same)))
    | inr other ↦ inl (ground (arith, other))
  ]
  Move-changes k (add_data {n}) = elim (Bool-cases (n == k)) [
    | inl same ↦ inr (inr (ground (arith, same)))
    | inr other ↦ inl (ground (arith, other))
  ]
  Move-changes k mv = inl refl

  Held : Shared → (ℕ → Pc) → ℕ → Type 0
  Held m' pc' k = IsSettled m' (m'.content k) ⊎ ((j : ℕ) × (excludes (pc' j) ≡ some k))

  by_mover :
      (p' : Pc) {m' : Shared} (k : ℕ)
      → IsSettled m' (m'.content k) ⊎ (excludes p' ≡ some k)
      → Held m' (update pc i p') k
  unfolding Held
  by_mover p' k (inl st) = inl st
  by_mover p' k (inr e) = inr (i, ground (arith, e))

  Move-settled :
      {p' : Pc} {m' : Shared} (k : ℕ) → Move m pc (pc i) m' p' → Held m' (update pc i p') k
  unfolding Held
  Move-settled {p'} {m'} k mv = elim (settled k) [
    | inl st ↦ elim (Move-changes k mv) [
      | inl same ↦ inl (IsSettled-≡ same (IsSettled-Grows (Move-Grows mv) st))
      | inr (inl none_left) ↦ inl (blank none_left)
      | inr (inr mine) ↦ by_mover p' k (inr mine)
    ]
    | inr (j, held) ↦ elim (Bool-cases (i == j)) [
      | inl same ↦ by_mover p' k (Move-releases k mv (knows i) (ground (arith, same, held)))
      | inr other ↦ inr (j, ground (arith, other, held))
    ]
  ]

  Move-Knows_all :
      {p' : Pc} {m' : Shared} → Move m pc (pc i) m' p' → (j : ℕ) → Knows m' (update pc i p' j)
  Move-Knows_all {p'} {m'} mv j = elim (Bool-cases (i == j)) [
    | inl same ↦ rw same (Move-Knows mv (knows i))
    | inr other ↦
        let ne : i ≢ j = ground (arith, other) in
        rw other
          (Knows-frame m m' (pc j) (Move-Grows mv) (λ k l. Move-content mv refl j k ne l) (knows j))
  ]

  -- Every step of a call keeps what holds.
  pub Move-Inv : {p' : Pc} {m' : Shared} → Move m pc (pc i) m' p' → Inv m' (update pc i p')
  unfolding Held
  Move-Inv mv = record {
    exclusive = Move-exclusive mv refl;
    knows = Move-Knows_all mv;
    settled = λ k. Move-settled k mv;
  }

at_rest-Inv : Inv at_rest.shared at_rest.pc
at_rest-Inv = record {
  exclusive = λ i j n e l. cc;
  knows = λ i. tt;
  settled = λ n. inl (blank refl);
}

-- Whatever calls are made, in whatever order their steps are taken: what holds at the start holds.
pub Reach-Inv : {s : System} → Reach s → Inv s.shared s.pc
Reach-Inv at_start = at_rest-Inv
Reach-Inv (later r (pick i mv)) = Move-Inv (Reach-Inv r) i mv
