-- ===== src/Tests/Races.antt =====
-- Two calls on one file, step by step.
use azure_dcap_client.Prelude.{ℕ, ◌≡◌, refl, arith, none, Bytes, codes, []}
use azure_dcap_client.Cache.Header.{is_expired, read_header, header_bytes, read_into}
use azure_dcap_client.Cache.Linux.{data_size_of}
use azure_dcap_client.Cache.Linux.Sharing.{
  System, Reach, history, at_start, later, pick, add_create, add_lock, add_truncate, add_header,
  add_data, add_close, get_open, get_lock, get_header, get_seek, get_read, idle,
}
use azure_dcap_client.Cache.Linux.Sharing.Invariant.{In, first}
use azure_dcap_client.Cache.Linux.Sharing.Safety.{
  IsGenuine, returned-IsGenuine, added_entry_lost, losing_order,
}

abbrev entry_data : Bytes
entry_data = codes "hello"

-- The first call adds, up to its first write.
abbrev writing : (s : System) × Reach s
writing =
    let s1 =
      later at_start
        (pick 0 (add_create 0 1000 entry_data (omega arith) (omega arith) refl (λ j. cc))) in
    let s2 = later s1 (pick 0 (add_lock (λ j. ground arith))) in
    let s3 = later s2 (pick 0 add_truncate) in let s4 = later s3 (pick 0 add_header) in (_, s4)

-- Then the first call ends, and another looks the entry up.
abbrev looked_up : (s : System) × Reach s
unfolding is_expired read_header header_bytes read_into data_size_of
looked_up =
    let s5 = later writing.1 (pick 0 add_data) in
    let s6 = later s5 (pick 0 add_close) in
    let s7 = later s6 (pick 1 (get_open refl)) in
    let s8 = later s7 (pick 1 (get_lock (λ j. ground arith))) in
    let s9 = later s8 (pick 1 (get_header 999 refl)) in
    let s10 = later s9 (pick 1 get_seek) in let s11 = later s10 (pick 1 (get_read refl)) in (_, s11)

returned-IsGenuine_example : IsGenuine looked_up.0.shared 999 entry_data
unfolding is_expired read_header header_bytes read_into data_size_of
returned-IsGenuine_example = returned-IsGenuine looked_up.1 999 entry_data first

added_entry_lost_example :
    (s : System) × (r : Reach s) × (history r ≡ losing_order 1000 entry_data 5)
    × In (1000, entry_data) s.shared.finished
    × (s.shared.name ≡ none)
    × (s.shared.given_up ≡ [])
    × ((i : ℕ) → s.pc i ≡ idle)
added_entry_lost_example =
    added_entry_lost 1000 entry_data 5 (omega arith) (omega arith) (omega arith)
