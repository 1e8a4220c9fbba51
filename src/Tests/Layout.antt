-- ===== src/Tests/Layout.antt =====
-- A layout of the structure of a configuration: the numbers, the low byte first, and the CPU SVN.
use azure_dcap_client.Prelude.{
  ℕ, zero, suc, ◌≡◌, refl, arith, sym, ap, [], ◌∷◌, ◌++◌, Bytes, length, take, drop, take_append,
}
use azure_dcap_client.Cache.Header.{
  little_endian_bytes, little_endian_value, little_endian_value-bytes,
}
use azure_dcap_client.Provider.Config.{QuoteConfig, IsConfig, ConfigLayout}

-- A text cut, or filled with zeros, to a length.
abbrev pub fixed : ℕ → Bytes → Bytes
fixed zero s = []
fixed (suc n) [] = 0 ∷ fixed n []
fixed (suc n) (x ∷ s) = x ∷ fixed n s

pub length-fixed : (n : ℕ) (s : Bytes) → length (fixed n s) ≡ n
length-fixed zero s = refl
length-fixed (suc n) [] = omega (arith, length-fixed n [])
length-fixed (suc n) (x ∷ s) = omega (arith, length-fixed n s)

pub fixed-length : (s : Bytes) → fixed (length s) s ≡ s
fixed-length [] = refl
fixed-length (x ∷ s) = ap (λ t. x ∷ t) (fixed-length s)

abbrev pub stored : QuoteConfig → Bytes
stored q =
    little_endian_bytes 4 q.version
    ++ (little_endian_bytes 2 q.cert_pce_isv_svn
        ++ (little_endian_bytes 4 q.cert_data_size
            ++ (little_endian_bytes 8 q.p_cert_data ++ fixed 16 q.cert_cpu_svn)))

abbrev pub loaded : Bytes → QuoteConfig
loaded bytes = record {
  cert_cpu_svn = take 16 (drop 18 bytes);
  cert_pce_isv_svn = little_endian_value (take 2 (drop 4 bytes));
  version = little_endian_value (take 4 bytes);
  p_cert_data = little_endian_value (take 8 (drop 10 bytes));
  cert_data_size = little_endian_value (take 4 (drop 6 bytes));
}

pub length-stored : (q : QuoteConfig) → length (stored q) ≡ 34
length-stored q = omega (arith, length-fixed 16 q.cert_cpu_svn)

pub loaded-stored : (q : QuoteConfig) (rest : Bytes) → IsConfig q → loaded (stored q ++ rest) ≡ q
loaded-stored q rest valid =
    let svn : take 16 (fixed 16 q.cert_cpu_svn ++ rest) ≡ q.cert_cpu_svn =
      rw (sym valid.cpu_svn_size, fixed-length q.cert_cpu_svn) (take_append q.cert_cpu_svn rest) in
    let pce : little_endian_value (little_endian_bytes 2 q.cert_pce_isv_svn) ≡ q.cert_pce_isv_svn =
      let small = valid.pce_isv_svn_range in omega arith in
    let version : little_endian_value (little_endian_bytes 4 q.version) ≡ q.version =
      let small = valid.version_range in omega arith in
    let size : little_endian_value (little_endian_bytes 4 q.cert_data_size) ≡ q.cert_data_size =
      let small = valid.cert_data_size_range in omega arith in
    λ i. record {
      cert_cpu_svn = svn i;
      cert_pce_isv_svn = pce i;
      version = version i;
      p_cert_data = little_endian_value-bytes q.p_cert_data valid.p_cert_data_range i;
      cert_data_size = size i;
    }

abbrev pub packed_layout : ConfigLayout
packed_layout = record {
  sizeof_config = 34;
  store = stored;
  load = loaded;
  length-store = length-stored;
  load-store = loaded-stored;
}
