-- ===== src/Tests/Disk.antt =====
-- The calls of Windows on files in memory.
use azure_dcap_client.Hex.{format_as_hex_string}
use azure_dcap_client.Prelude.{
  suc, ◌-◌, sym, In, first, behind, Bool-cases, inl, inr, bytes_eq, bytes_eq_sound, length-append,
  List, ℕ, ◌%◌, ◌^◌, ◌≡◌, ◌≢◌, refl, arith, Bool, true, false, [], ◌∷◌, ◌++◌, Option, none, some,
  Bytes, codes, lookup, insert, erase, lookup-insert_self, lookup-insert_ne, lookup-erase_self,
  lookup-erase_ne, length, take, drop, is_some,
}
use azure_dcap_client.Cache.Windows.Api.{WindowsApi, WindowsLaws}
use azure_dcap_client.Tests.Setup.{MemoryFiles}

abbrev pub bytes_of : Option Bytes → Bytes
bytes_of none = []
bytes_of (some bytes) = bytes

abbrev pub put_file : MemoryFiles → Bytes → Bytes → MemoryFiles
put_file f p bytes = insert {V = Bytes} p bytes f

-- The paths of the files without as many characters as a directory has.
abbrev pub names_behind : ℕ → MemoryFiles → List Bytes
names_behind n [] = []
names_behind n ((p, bytes) ∷ f) = drop n p ∷ names_behind n f

names_behind_lem :
    (n : ℕ) (f : MemoryFiles) (p bytes : Bytes)
    → lookup {V = Bytes} p f ≡ some bytes
    → In (drop n p) (names_behind n f)
unfolding lookup
names_behind_lem n [] p bytes h = cc
names_behind_lem n ((q, b) ∷ f) p bytes h = elim (Bool-cases (bytes_eq q p)) [
  | inl same ↦ rw (sym (bytes_eq_sound q p same)) first
  | inr apart ↦ behind (names_behind_lem n f p bytes (rw apart at h))
]

drop_directory :
    (directory name : Bytes) (c : ℕ) → drop (suc (length directory)) (directory ++ c ∷ name) ≡ name
drop_directory [] name c = refl
drop_directory (x ∷ directory) name c = drop_directory directory name c

pub found_memory :
    (f : MemoryFiles) (directory digest bytes : Bytes)
    → lookup {V = Bytes} (directory ++ b'\\' ∷ format_as_hex_string digest) f ≡ some bytes
    → In
        (format_as_hex_string digest)
        (codes "." ∷ names_behind (length (directory ++ codes "\\*") - 1) f)
found_memory f directory digest bytes h =
    let name = format_as_hex_string digest in
    let size : length (directory ++ codes "\\*") - 1 ≡ suc (length directory) =
      omega (arith, length-append directory (codes "\\*")) in
    behind (
      rw size (
        rw (drop_directory directory name b'\\') at
          (names_behind_lem (suc (length directory)) f (directory ++ b'\\' ∷ name) bytes h)))

-- The files of a directory are found behind "."; the last error never changes.
abbrev pub memory_api : ℕ → WindowsApi
memory_api last_error = record {
  Os = MemoryFiles;
  bcrypt = record {
    open_algorithm_provider = 0;
    get_property = (0, 32);
    create_hash = 0;
    hash_data = λ text. 0;
    finish_hash = λ size text. (0, text);
  };
  padding = λ n. 0;
  left_to_right = true;
  last_error = λ f. last_error;
  sleep = λ f. f;
  get_environment_variable = λ f name. (codes "C:", f);
  create_directory = λ f p. f;
  create_file_write = λ f p. (true, put_file f p []);
  create_file_read = λ f p. (is_some (lookup {V = Bytes} p f), f);
  write_file = λ f p bytes. (true, put_file f p (bytes_of (lookup {V = Bytes} p f) ++ bytes));
  read_file = λ f p offset n. some (take n (drop offset (bytes_of (lookup {V = Bytes} p f))));
  get_file_size = λ f p. length (bytes_of (lookup {V = Bytes} p f)) % 2 ^ 32;
  close_write = λ f p. put_file f p (bytes_of (lookup {V = Bytes} p f));
  close_read = λ f p. f;
  delete_file = λ f p. (true, erase {V = Bytes} p f);
  find_files = λ f p. codes "." ∷ names_behind (length p - 1) f;
}

pub bytes_of-put_file :
    (f f' : MemoryFiles) (p bytes : Bytes)
    → ◌≡◌ {A = Bool × MemoryFiles} (true, put_file f p bytes) (true, f')
    → bytes_of (lookup {V = Bytes} p f') ≡ bytes
bytes_of-put_file f f' p bytes e = ground (arith, e, lookup-insert_self {V = Bytes} p bytes f)

pub lookup-put_ne :
    (f : MemoryFiles) (p q bytes : Bytes)
    → p ≢ q
    → lookup {V = Bytes} q (put_file f p bytes) ≡ lookup {V = Bytes} q f
lookup-put_ne f p q bytes ne = lookup-insert_ne {V = Bytes} p q bytes f ne

pub read_memory :
    (f : MemoryFiles) (p bytes : Bytes) (offset n : ℕ)
    → lookup {V = Bytes} p f ≡ some bytes
    → ◌≡◌ {A = Option Bytes}
        (some (take n (drop offset (bytes_of (lookup {V = Bytes} p f)))))
        (some (take n (drop offset bytes)))
read_memory f p bytes offset n e = rw e refl

pub size_memory :
    (f : MemoryFiles) (p bytes : Bytes)
    → lookup {V = Bytes} p f ≡ some bytes
    → length (bytes_of (lookup {V = Bytes} p f)) % 2 ^ 32 ≡ length bytes % 2 ^ 32
size_memory f p bytes e = rw e refl

pub delete_never_fails :
    (f f' : MemoryFiles) (p q : Bytes)
    → ◌≡◌ {A = Bool × MemoryFiles} (true, erase {V = Bytes} p f) (false, f')
    → lookup {V = Bytes} q f' ≡ lookup {V = Bytes} q f
delete_never_fails f f' p q e = cc (e)

pub delete_memory :
    (f f' : MemoryFiles) (p : Bytes)
    → ◌≡◌ {A = Bool × MemoryFiles} (true, erase {V = Bytes} p f) (true, f')
    → lookup {V = Bytes} p f' ≡ none
delete_memory f f' p e = ground (arith, e, lookup-erase_self {V = Bytes} p f)

abbrev pub memory_laws : (last_error : ℕ) → WindowsLaws (memory_api last_error)
memory_laws last_error = record {
  content = λ f p. lookup {V = Bytes} p f;
  written = λ f p. bytes_of (lookup {V = Bytes} p f);
  sleep_content = λ f q. refl;
  sleep_written = λ f p. refl;
  environment_content = λ f name q. refl;
  directory_content = λ f p q. refl;
  read_opens = λ f p. refl;
  read_content = λ f p q. refl;
  close_read_content = λ f p q. refl;
  read_file_lem = read_memory;
  get_file_size_lem = size_memory;
  write_opens = λ f f' p e. bytes_of-put_file f f' p [] e;
  write_file_lem =
      λ f f' p bytes e. bytes_of-put_file f f' p (bytes_of (lookup {V = Bytes} p f) ++ bytes) e;
  close_write_lem = λ f p. lookup-insert_self {V = Bytes} p (bytes_of (lookup {V = Bytes} p f)) f;
  delete_file_lem = delete_memory;
  delete_file_fails = delete_never_fails;
  write_opens_other = λ f p q ne. lookup-put_ne f p q [] ne;
  write_file_other =
      λ f p bytes q ne. lookup-put_ne f p q (bytes_of (lookup {V = Bytes} p f) ++ bytes) ne;
  close_write_other = λ f p q ne. lookup-put_ne f p q (bytes_of (lookup {V = Bytes} p f)) ne;
  delete_file_other = λ f p q ne. lookup-erase_ne {V = Bytes} p q f ne;
  find_files_lem = found_memory;
}
