-- ===== src/Environment/File/Reads.antt =====
-- The loop that reads a file ends within its fuel, and what it returns is bounded by the file size.
use sub2api_gate.Base.{
  ℕ, zero, suc, ◌-◌, ◌<◌, ◌≡◌, refl, min, Bool-cases, inl, inr, Option, none, some, [], ◌∷◌, ◌++◌,
  nat_eq, arith, Text, ◌==◌, length, Result, ok, err,
}
use sub2api_gate.Environment.{max_file_bytes}
use sub2api_gate.Environment.File.{
  FilePath, FileStat, Os, Reading, with_chunk, after_read, read_chunks, read_checked, finish_all,
  read_opened, read_private_environment_payload, open_private_environment,
}

module _ (os : Os) where
  abbrev Ends : Reading os → Type 0
  Ends r = (out : Result Text × os.Files) × (r ≡ some out)

  with_chunk-Ends : (chunk : Text) (r : Reading os) → Ends r → Ends (with_chunk os chunk r)
  with_chunk-Ends chunk none (out, e) = cc
  with_chunk-Ends chunk (some (err e, s)) h = ((err e, s), refl)
  with_chunk-Ends chunk (some (ok rest, s)) h = ((ok (chunk ++ rest), s), refl)

  after_read-Ends :
      (k : Text → os.Files → Reading os) (r : Result Text × os.Files)
      → ((c : ℕ) (cs : Text) → r.0 ≡ ok (c ∷ cs) → Ends (k (c ∷ cs) r.1))
      → Ends (after_read os k r)
  after_read-Ends k (err e, s) h = ((err e, s), refl)
  after_read-Ends k (ok [], s) h = ((ok [], s), refl)
  after_read-Ends k (ok (c ∷ cs), s) h = with_chunk-Ends (c ∷ cs) (k (c ∷ cs) s) (h c cs refl)

  read_chunks-Ends :
      (fuel : ℕ) (h : os.Handle) (remaining : ℕ) (s : os.Files)
      → remaining < fuel
      → Ends (read_chunks os fuel h remaining s)
  unfolding read_chunks
  read_chunks-Ends zero h remaining s lt = absurd (omega arith)
  read_chunks-Ends (suc fuel) h remaining s lt = elim (Bool-cases (remaining == 0)) [
    | inl done ↦ rw done ((ok [], s), refl)
    | inr more ↦ rw more (
        after_read-Ends (λ chunk s'. read_chunks os fuel h (remaining - length chunk) s')
          (os.read h (min 65536 remaining) s)
          (λ c cs e.
            read_chunks-Ends fuel h (remaining - length (c ∷ cs))
              (os.read h (min 65536 remaining) s).1 (ground (arith, more))))
  ]

  abbrev Answers : Option (Result (Text × FileStat)) → Type 0
  Answers o = (r : Result (Text × FileStat)) × (o ≡ some r)

  finish_all-Answers :
      (h : os.Handle) (st : FileStat) (r : Reading os) → Ends r → Answers (finish_all os h st r)
  finish_all-Answers h st none (out, e) = cc
  finish_all-Answers h st (some out) e = (_, refl)

  read_checked-Answers :
      (h : os.Handle) (s : os.Files) (r : Result FileStat) → Answers (read_checked os h s r)
  unfolding read_checked
  read_checked-Answers h s (err e) = (_, refl)
  read_checked-Answers h s (ok st) =
      finish_all-Answers h st _
        (read_chunks-Ends (suc (suc max_file_bytes)) h (suc max_file_bytes) s (omega arith))

  read_opened-Answers :
      (uid gid : ℕ) (s : os.Files) (r : Result os.Handle) → Answers (read_opened os uid gid s r)
  unfolding read_opened
  read_opened-Answers uid gid s (err e) = (_, refl)
  read_opened-Answers uid gid s (ok h) = read_checked-Answers h s _

  -- Whatever the operating system answers, reading a file ends: the loop runs at most once for each of
  -- the 131073 bytes that it may ask for, and once more.
  pub read_private_environment_payload-ends :
      (path : FilePath) (uid gid : ℕ) (s : os.Files)
      → (r : Result (Text × FileStat)) × (read_private_environment_payload os path uid gid s
          ≡ some r)
  unfolding read_private_environment_payload
  read_private_environment_payload-ends path uid gid s =
      read_opened-Answers uid gid s (open_private_environment os path uid s)
