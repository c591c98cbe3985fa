-- ===== src/Environment/File.antt =====
-- How a private environment file is opened and read (deploy/private_env.py):
-- `_normalize_private_environment_path`, `_open_private_environment`,
-- `_validate_private_environment_file` and `_read_private_environment_payload`. The operating system is a
-- parameter. Closing a descriptor changes nothing that is modelled.
pub mod Safe
pub mod Contents
pub mod Reads
use sub2api_gate.Base.{
  ℕ, zero, suc, ◌+◌, ◌-◌, ◌/◌, ◌%◌, ◌≤◌, ◌≡◌, min, Bool, true, false, not, ◌&&◌, ◌||◌, Option, none,
  some, List, [], ◌∷◌, ◌++◌, nat_eq, text_eq, Text, codes, ◌==◌, member, exists, length, ltb,
  is_empty, if◌then◌else◌, Raised, value_error, os_error, Result, ok, err, ◌>>=◌, ◌>>◌, raise_if,
}
use sub2api_gate.Environment.{Values, max_file_bytes, parse_private_environment}

-- `os.stat_result`: the fields that `_stable_file_identity` and `_identity_document` take.
pub record FileStat : Type 0 where
  pub device : ℕ
  pub inode : ℕ
  pub mode : ℕ
  pub links : ℕ
  pub uid : ℕ
  pub gid : ℕ
  pub size : ℕ
  pub modified_ns : ℕ
  pub changed_ns : ℕ

-- `stat.S_ISREG`, `stat.S_ISDIR` and `stat.S_IMODE`, by the numbers of <sys/stat.h>.
abbrev pub is_regular : ℕ → Bool
is_regular mode = mode / 4096 % 16 == 8

abbrev pub is_directory : ℕ → Bool
is_directory mode = mode / 4096 % 16 == 4

abbrev pub permissions : ℕ → ℕ
permissions mode = mode % 4096

-- `S_IMODE(mode) & 0o022`
abbrev pub is_writable : ℕ → Bool
is_writable mode = not (permissions mode / 16 % 2 == 0) || not (permissions mode / 2 % 2 == 0)

-- `_stable_file_identity(a) == _stable_file_identity(b)`
unfoldable pub same_identity : FileStat → FileStat → Bool
same_identity a b =
    a.device == b.device
    && a.inode == b.inode
    && a.mode == b.mode
    && a.links == b.links
    && a.uid == b.uid
    && a.gid == b.gid
    && a.size == b.size
    && a.modified_ns == b.modified_ns
    && a.changed_ns == b.changed_ns

-- A path as `pathlib` parses it: its root, empty for a relative one, and its other parts.
pub record FilePath : Type 0 where
  pub root : Text
  pub components : List Text

abbrev pub production_components : List Text
production_components =
    codes "mnt" ∷ codes "data" ∷ codes "sub2api-gate" ∷ codes "private" ∷ codes ".env" ∷ []

abbrev pub components_eqb : List Text → List Text → Bool
components_eqb [] [] = true
components_eqb (a ∷ s) (b ∷ t) = a == b && components_eqb s t
components_eqb _ _ = false

abbrev pub bad_path : Raised
bad_path = value_error (codes "private environment file path is invalid")

abbrev pub wrong_path : Raised
wrong_path =
    value_error (codes "root private environment must use the fixed root private environment path")

abbrev pub unsafe_directory : Raised
unsafe_directory = value_error (codes "private environment parent directory is unsafe")

abbrev pub unsafe_ancestor : Raised
unsafe_ancestor = value_error (codes "root private environment ancestor directory is unsafe")

abbrev pub unavailable : Raised
unavailable = value_error (codes "private environment file is unavailable")

abbrev pub not_plain : Raised
not_plain = value_error (codes "private environment file must be a regular non-symlink file")

abbrev pub too_large : Raised
too_large = value_error (codes "private environment file is too large")

abbrev pub changed_file : Raised
changed_file = value_error (codes "private environment file changed while being read")

unfoldable pub normalize_path : FilePath → Bool → Result (List Text)
normalize_path path root_operator =
    if is_empty path.root
    then err (value_error (codes "private environment file path must be absolute"))
    else if is_empty path.components
        || exists (λ c. member c ([] ∷ codes "." ∷ codes ".." ∷ [])) path.components
    then err bad_path
    else if root_operator
        && not (path.root == codes "/" && components_eqb path.components production_components)
    then err wrong_path
    else ok path.components

-- `_validate_root_ancestor_directory`
unfoldable pub validate_ancestor : FileStat → Result (Unit {0})
validate_ancestor st =
    raise_if
      (not (is_directory st.mode) || not (st.uid == 0) || not (st.gid == 0) || is_writable st.mode)
      unsafe_ancestor

unfoldable pub validate_parent : ℕ → FileStat → Result (Unit {0})
unfolding validate_ancestor
validate_parent uid st =
    if uid == 0
    then validate_ancestor st
    else raise_if (not (is_directory st.mode) || not (st.uid == uid) || is_writable st.mode)
        unsafe_directory

-- `_validate_private_environment_file`
unfoldable pub validate_file : ℕ → ℕ → FileStat → Result (Unit {0})
validate_file uid gid st =
    if not (is_regular st.mode)
    then err not_plain
    else if not (st.links == 1)
    then err (value_error (codes "private environment file must have a single filesystem link"))
    else if not (st.uid == uid && st.gid == gid)
    then err (value_error (codes "private environment file must be owned by the expected operator"))
    else if not (permissions st.mode == 0o600)
    then err (value_error (codes "private environment file must use mode 0600"))
    else raise_if (ltb max_file_bytes st.size) too_large

-- `os.open` with O_NOFOLLOW: a descriptor, ELOOP or ENOTDIR, or another error.
pub data Opened (Handle : Type 0) : Type 0 where
  descriptor : Handle → Opened Handle
  not_followed : Opened Handle
  refused : Opened Handle

-- The calls of the operating system, on the state of its files. `read h n` gives at most `n` bytes.
pub record Os : Type 1 where
  pub Handle : Type 0
  pub Files : Type 0
  pub open_root : Files → Opened Handle
  pub open_directory : Handle → Text → Files → Opened Handle
  pub open_file : Handle → Text → Files → Opened Handle
  pub fstat : Handle → Files → Result FileStat
  pub read : Handle → ℕ → Files → Result Text × Files
  pub read_bounded :
      (h : Handle) (n : ℕ) (s : Files) (chunk : Text) → (read h n s).0 ≡ ok chunk → length chunk ≤ n

abbrev pub opened {ℓ} : {A : Type 0} {B : Type ℓ} → Opened A → (A → Result B) → Result B
opened (descriptor h) k = k h
opened not_followed k = err not_plain
opened refused k = err unavailable

-- The first directory has no name of its own to be a link: each error is `unavailable`.
abbrev pub opened_root {ℓ} : {A : Type 0} {B : Type ℓ} → Opened A → (A → Result B) → Result B
opened_root (descriptor h) k = k h
opened_root _ k = err unavailable

-- `components[:-1]` and `components[-1]`
abbrev pub but_last : List Text → List Text
but_last [] = []
but_last (c ∷ []) = []
but_last (c ∷ d ∷ cs) = c ∷ but_last (d ∷ cs)

abbrev pub last_of : List Text → Text
last_of [] = []
last_of (c ∷ []) = c
last_of (c ∷ d ∷ cs) = last_of (d ∷ cs)

module _ (os : Os) where
  open os use {Handle, Files, open_root, open_directory, open_file, fstat, read}

  -- The test of the directory that is open, for a root operator.
  unfoldable pub check_directory : ℕ → Handle → Files → Result (Unit {0})
  unfolding validate_ancestor
  check_directory uid h s = if uid == 0 then (fstat h s >>= validate_ancestor) else ok tt

  -- The loop over the directories.
  unfoldable pub walk : ℕ → Handle → List Text → Files → Result Handle
  unfolding check_directory
  walk uid h [] s = ok h
  walk uid h (c ∷ cs) s =
      check_directory uid h s >> opened (open_directory h c s) (λ next. walk uid next cs s)

  unfoldable pub open_private_environment : FilePath → ℕ → Files → Result Handle
  unfolding normalize_path validate_parent walk
  open_private_environment path uid s = do
    components ← normalize_path path (uid == 0)
    opened_root (open_root s) (λ start. do
      parent ← walk uid start (but_last components) s
      st ← fstat parent s
      validate_parent uid st
      opened (open_file parent (last_of components) s) (λ h. ok h))

  abbrev pub Reading : Type 0
  Reading = Option (Result Text × Files)

  -- The chunk in front of what the other rounds read.
  abbrev pub with_chunk : Text → Reading → Reading
  with_chunk chunk none = none
  with_chunk chunk (some (err e, s)) = some (err e, s)
  with_chunk chunk (some (ok rest, s)) = some (ok (chunk ++ rest), s)

  abbrev pub after_read : (Text → Files → Reading) → Result Text × Files → Reading
  after_read k (err e, s) = some (err e, s)
  after_read k (ok [], s) = some (ok [], s)
  after_read k (ok (c ∷ cs), s) = with_chunk (c ∷ cs) (k (c ∷ cs) s)

  -- `while remaining`; `none` means that the fuel ran out.
  unfoldable pub read_chunks : ℕ → Handle → ℕ → Files → Reading
  read_chunks zero h remaining s = none
  read_chunks (suc fuel) h remaining s =
      let more =
        after_read (λ chunk s'. read_chunks fuel h (remaining - length chunk) s')
          (read h (min 65536 remaining) s) in
      if remaining == 0 then some (ok [], s) else more

  -- What stands behind the loop; an `OSError` inside becomes an error of the parser's own.
  abbrev pub could_not_read {ℓ} : {A : Type ℓ} → Result A → Result A
  could_not_read (err os_error) =
      err (value_error (codes "private environment file could not be read"))
  could_not_read r = r

  unfoldable pub finish_reading : Handle → FileStat → Result Text × Files → Result (Text × FileStat)
  unfolding same_identity
  finish_reading h st (read_result, s) = do
    payload ← read_result
    raise_if (ltb max_file_bytes (length payload)) too_large
    final ← fstat h s
    raise_if (not (same_identity final st)) changed_file
    ok (payload, final)

  abbrev pub finish_all : Handle → FileStat → Reading → Option (Result (Text × FileStat))
  finish_all h st none = none
  finish_all h st (some r) = some (could_not_read (finish_reading h st r))

  -- Behind the tests of the file: the loop has fuel for every byte that it may read, and one round more.
  unfoldable pub read_checked : Handle → Files → Result FileStat → Option (Result (Text × FileStat))
  unfolding read_chunks finish_reading
  read_checked h s (err e) = some (could_not_read (err e))
  read_checked h s (ok st) =
      finish_all h st (read_chunks (suc (suc max_file_bytes)) h (suc max_file_bytes) s)

  unfoldable pub read_opened : ℕ → ℕ → Files → Result Handle → Option (Result (Text × FileStat))
  unfolding read_checked validate_file
  read_opened uid gid s (err e) = some (err e)
  read_opened uid gid s (ok h) =
      read_checked h s (fstat h s >>= λ st. validate_file uid gid st >> ok st)

  unfoldable pub read_private_environment_payload :
      FilePath → ℕ → ℕ → Files → Option (Result (Text × FileStat))
  unfolding open_private_environment read_opened
  read_private_environment_payload path uid gid s =
      read_opened uid gid s (open_private_environment path uid s)

  -- `read_private_environment_with_identity`, with `_expected_operator_identity` by its two numbers.
  unfoldable pub read_private_environment :
      FilePath → ℕ → ℕ → Files → Option (Result (Values × FileStat))
  unfolding read_private_environment_payload
  read_private_environment path euid egid s =
      elim (read_private_environment_payload path euid (if euid == 0 then 0 else egid) s) [
        | none ↦ none
        | some (err e) ↦ some (err e)
        | some (ok (payload, identity)) ↦
            some (parse_private_environment payload >>= λ values. ok (values, identity))
      ]
