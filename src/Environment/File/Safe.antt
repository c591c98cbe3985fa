-- ===== src/Environment/File/Safe.antt =====
-- What is known of a file that was read: its owner, its mode, its size, and the directories above it.
use mathlib.Core.Path.{subst}
use sub2api_gate.Base.{
  suc, ap, ℕ, ◌≤◌, ◌≡◌, refl, ◌∙◌, true, false, some, List, [], ◌∷◌, nat_eq, text_eq, arith, Text,
  codes, length, Result, ok, err, ◌>>=◌, ◌>>◌, >>=-eq-ok, nat_eqb_iff, text_eqb_iff,
}
use sub2api_gate.Environment.{max_file_bytes}
use sub2api_gate.Environment.File.{
  FilePath, FileStat, Os, Opened, descriptor, not_followed, refused, opened, opened_root,
  is_regular, is_directory, permissions, is_writable, normalize_path, production_components,
  components_eqb, validate_ancestor, validate_parent, validate_file, check_directory, walk,
  open_private_environment, but_last, last_of, read_checked, read_opened,
  read_private_environment_payload,
}
use sub2api_gate.Environment.File.Contents.{
  ReadToEnd, read_chunks-ReadToEnd, could_not_read-ok, finish_all-Finished,
}

pub record IsPrivateFile (uid gid : ℕ) (st : FileStat) : Type 0 where
  pub regular : is_regular st.mode ≡ true
  pub single : st.links ≡ 1
  pub owner : (st.uid ≡ uid) × (st.gid ≡ gid)
  pub mode : permissions st.mode ≡ 0o600
  pub small : st.size ≤ max_file_bytes

pub record IsRootDirectory (st : FileStat) : Type 0 where
  pub directory : is_directory st.mode ≡ true
  pub owner : (st.uid ≡ 0) × (st.gid ≡ 0)
  pub unwritable : is_writable st.mode ≡ false

validate_ancestor-IsRootDirectory :
    (st : FileStat) (u : Unit {0}) → validate_ancestor st ≡ ok u → IsRootDirectory st
unfolding validate_ancestor
validate_ancestor-IsRootDirectory st u h =
    ground (arith, nat_eqb_iff st.uid 0, nat_eqb_iff st.gid 0)

validate_file-IsPrivateFile :
    (uid gid : ℕ) (st : FileStat) (u : Unit {0})
    → validate_file uid gid st ≡ ok u
    → IsPrivateFile uid gid st
unfolding validate_file
validate_file-IsPrivateFile uid gid st u h = ground arith

module _ (os : Os) where
  -- Each directory from `h` on was root's alone when it was passed.
  pub data RootOwned (s : os.Files) : os.Handle → List Text → os.Handle → Type 0 where
    arrived : {h : os.Handle} → RootOwned s h [] h
    passed :
        {h next last : os.Handle} {c : Text} {cs : List Text} (st : FileStat)
        → os.fstat h s ≡ ok st
        → IsRootDirectory st
        → os.open_directory h c s ≡ descriptor next
        → RootOwned s next cs last
        → RootOwned s h (c ∷ cs) last

  opened_by :
      {B : Type 0} (o : Opened os.Handle) (k : os.Handle → Result B) (b : B)
      → opened o k ≡ ok b
      → (h : os.Handle) × (o ≡ descriptor h) × (k h ≡ ok b)
  opened_by (descriptor h) k b e = (h, refl, e)
  opened_by not_followed k b e = cc
  opened_by refused k b e = cc

  opened_root_by :
      {B : Type 0} (o : Opened os.Handle) (k : os.Handle → Result B) (b : B)
      → opened_root o k ≡ ok b
      → (h : os.Handle) × (o ≡ descriptor h) × (k h ≡ ok b)
  opened_root_by (descriptor h) k b e = (h, refl, e)
  opened_root_by not_followed k b e = cc
  opened_root_by refused k b e = cc

  walk-RootOwned :
      (h last : os.Handle) (cs : List Text) (s : os.Files)
      → walk os 0 h cs s ≡ ok last
      → RootOwned s h cs last
  unfolding walk check_directory
  walk-RootOwned h last [] s e = let same : h ≡ last = cc in rw same arrived
  walk-RootOwned h last (c ∷ cs) s e =
      let (u, checked, later) =
        >>=-eq-ok (os.fstat h s >>= validate_ancestor)
          (λ _. opened (os.open_directory h c s) (λ next. walk os 0 next cs s)) e in
      let (st, stat, good) = >>=-eq-ok (os.fstat h s) validate_ancestor checked in
      let (next, found, rest) =
        opened_by (os.open_directory h c s) (λ next. walk os 0 next cs s) last later in
      passed st stat (validate_ancestor-IsRootDirectory st u good) found
        (walk-RootOwned next last cs s rest)

  -- What was read, and of which descriptor: the identity is the descriptor's, before and behind the
  -- reading, and the payload is all that the descriptor gives.
  pub record ReadOf (h : os.Handle) (uid gid : ℕ) (s : os.Files) (payload : Text)
      (identity : FileStat) : Type 0 where
    pub private : IsPrivateFile uid gid identity
    pub before : os.fstat h s ≡ ok identity
    pub after : os.Files
    pub bytes : ReadToEnd os h s payload after
    pub again : os.fstat h after ≡ ok identity
    pub small : length payload ≤ max_file_bytes

  read_checked-ReadOf :
      (uid gid : ℕ) (h : os.Handle) (s : os.Files) (r : Result FileStat) (payload : Text)
      (final : FileStat)
      → read_checked os h s r ≡ some (ok (payload, final))
      → ((st : FileStat) → r ≡ ok st → IsPrivateFile uid gid st × (os.fstat h s ≡ ok st))
      → ReadOf h uid gid s payload final
  unfolding read_checked
  read_checked-ReadOf uid gid h s (err x) payload final e good =
      let impossible : ◌≡◌ {A = Result (Text × FileStat)} (err x) (ok (payload, final)) =
        could_not_read-ok os (err x) (payload, final) (cc (e)) in
      cc
  read_checked-ReadOf uid gid h s (ok st) payload final e good =
      let (out, ran, f) = finish_all-Finished os h st _ payload final e in
      record {
        private = subst (IsPrivateFile uid gid) f.same (good st refl).0;
        before = (good st refl).1 ∙ ap ok f.same;
        after = f.after;
        bytes =
            read_chunks-ReadToEnd os (suc (suc max_file_bytes)) h (suc max_file_bytes) s payload
              f.after (ran ∙ ap some f.read) (omega (arith, f.small));
        again = f.again;
        small = f.small;
      }

  validated :
      (uid gid : ℕ) (r : Result FileStat) (st : FileStat)
      → (r >>= λ t. validate_file uid gid t >> ok t) ≡ ok st
      → IsPrivateFile uid gid st × (r ≡ ok st)
  validated uid gid r st e =
      let (t, first, later) = >>=-eq-ok r (λ t. validate_file uid gid t >> ok t) e in
      let (u, valid, last) = >>=-eq-ok (validate_file uid gid t) (λ _. ok t) later in
      let same : t ≡ st = cc in
      (
        subst (IsPrivateFile uid gid) same (validate_file-IsPrivateFile uid gid t u valid),
        first ∙ ap ok same,
      )

  read_opened-ReadOf :
      (uid gid : ℕ) (s : os.Files) (r : Result os.Handle) (payload : Text) (final : FileStat)
      → read_opened os uid gid s r ≡ some (ok (payload, final))
      → (h : os.Handle) × (r ≡ ok h) × ReadOf h uid gid s payload final
  unfolding read_opened
  read_opened-ReadOf uid gid s (err x) payload final e = cc
  read_opened-ReadOf uid gid s (ok h) payload final e = (
    h,
    refl,
    read_checked-ReadOf uid gid h s (os.fstat h s >>= λ st. validate_file uid gid st >> ok st)
        payload final e (λ st valid. validated uid gid (os.fstat h s) st valid),
  )

  components_eqb-eq : (a b : List Text) → components_eqb a b ≡ true → a ≡ b
  components_eqb-eq [] [] h = refl
  components_eqb-eq [] (y ∷ b) h = cc
  components_eqb-eq (x ∷ a) [] h = cc
  components_eqb-eq (x ∷ a) (y ∷ b) h = ground (arith, text_eqb_iff x y, components_eqb-eq a b)

  normalize_path-root :
      (path : FilePath) (components : List Text)
      → normalize_path path true ≡ ok components
      → (path.root ≡ codes "/") × (components ≡ production_components)
  unfolding normalize_path
  normalize_path-root path components h = ground (
    arith,
    components_eqb-eq path.components production_components,
    text_eqb_iff path.root (codes "/"),
  )

  -- How root's descriptor of the file came to be.
  pub record OpenedByRoot (path : FilePath) (s : os.Files) (file : os.Handle) : Type 0 where
    pub fixed : path.root ≡ codes "/"
    pub start : os.Handle
    pub parent : os.Handle
    pub parent_stat : FileStat
    pub from_root : os.open_root s ≡ descriptor start
    pub above : RootOwned s start (but_last production_components) parent
    pub parent_known : os.fstat parent s ≡ ok parent_stat
    pub parent_owned : IsRootDirectory parent_stat
    pub file_opened : os.open_file parent (codes ".env") s ≡ descriptor file

  opened_parts :
      (path : FilePath) (components : List Text) (s : os.Files) (h : os.Handle)
      → path.root ≡ codes "/"
      → components ≡ production_components
      → opened_root (os.open_root s) (λ start. walk os 0 start (but_last components) s >>= λ parent.
          os.fstat parent s >>= λ st.
          validate_parent 0 st >> opened (os.open_file parent (last_of components) s) (λ f. ok f))
        ≡ ok h
      → OpenedByRoot path s h
  unfolding validate_parent
  opened_parts path components s h fixed production e =
      let (start, from_root, e1) = opened_root_by (os.open_root s) _ h e in
      let (parent, walked, e2) = >>=-eq-ok (walk os 0 start (but_last components) s) _ e1 in
      let (st, stat, e3) = >>=-eq-ok (os.fstat parent s) _ e2 in
      let (u, valid, e4) = >>=-eq-ok (validate_ancestor st) _ e3 in
      let (f, found, last) = opened_by (os.open_file parent (last_of components) s) _ h e4 in
      record {
        fixed = fixed;
        start = start;
        parent = parent;
        parent_stat = st;
        from_root = from_root;
        above =
            subst (λ cs. RootOwned s start (but_last cs) parent) production
              (walk-RootOwned start parent (but_last components) s walked);
        parent_known = stat;
        parent_owned = validate_ancestor-IsRootDirectory st u valid;
        file_opened =
            subst (λ cs. os.open_file parent (last_of cs) s ≡ descriptor h) production
              (found ∙ ap descriptor (ok_inj last));
      }
    where
      ok_inj : {a b : os.Handle} → ok a ≡ ok b → a ≡ b
      ok_inj q = cc

  -- What an operator reads of a private environment file is all that one descriptor gives, the one that
  -- was opened for the path. Before and behind the reading the descriptor is of the same regular file
  -- with one link, owned by the operator, with mode 0600, of 131072 bytes at most, and what is read is
  -- no longer than that; for root the descriptor is of the fixed production path, opened through
  -- directories, each of which was owned by root and not writable by others.
  pub read_private_environment_payload-IsPrivateFile :
      (path : FilePath) (uid gid : ℕ) (s : os.Files) (payload : Text) (identity : FileStat)
      → read_private_environment_payload os path uid gid s ≡ some (ok (payload, identity))
      → (file : os.Handle) × (open_private_environment os path uid s ≡ ok file)
        × ReadOf file uid gid s payload identity
        × (uid ≡ 0 → OpenedByRoot path s file)
  unfolding read_private_environment_payload open_private_environment
  read_private_environment_payload-IsPrivateFile path uid gid s payload identity e =
      let (file, o, private) = read_opened-ReadOf uid gid s _ payload identity e in
      (file, o, private, as_root file o)
    where
      as_root :
          (h : os.Handle)
          → open_private_environment os path uid s ≡ ok h
          → uid ≡ 0
          → OpenedByRoot path s h
      as_root h o root =
          let o' : open_private_environment os path 0 s ≡ ok h =
            subst (λ u. open_private_environment os path u s ≡ ok h) root o in
          let (components, normal, later) = >>=-eq-ok (normalize_path path true) _ o' in
          let (fixed, production) = normalize_path-root path components normal in
          opened_parts path components s h fixed production later
