-- ===== src/Environment/File/Contents.antt =====
-- What the loop that reads a file returns: all the bytes of one descriptor, whose file has not changed.
use mathlib.Core.Path.{subst}
use sub2api_gate.Base.{
  zero, suc, ◌-◌, ◌<◌, ◌++◌, ◌==◌, min, ap, length-append, ℕ, ◌≤◌, ◌≡◌, refl, ◌∙◌, sym, true, not,
  Bool-cases, inl, inr, none, some, [], ◌∷◌, nat_eq, text_eq, arith, Text, length, ltb, Result, ok,
  err, ◌>>=◌, ◌>>◌, >>=-eq-ok, raise_if, os_error,
}
use sub2api_gate.Environment.{max_file_bytes}
use sub2api_gate.Environment.File.{
  FileStat, Os, Reading, same_identity, could_not_read, with_chunk, after_read, read_chunks,
  finish_reading, finish_all,
}

same_identity-eq : (a b : FileStat) → same_identity a b ≡ true → a ≡ b
unfolding same_identity
same_identity-eq a b h = ground arith

module _ (os : Os) where
  -- The bytes that a descriptor gives, read after read, until a read of at least one byte gives none.
  pub data ReadToEnd (h : os.Handle) : os.Files → Text → os.Files → Type 0 where
    ended :
        {s s' : os.Files} (asked : ℕ)
        → 0 < asked
        → os.read h asked s ≡ (ok [], s')
        → ReadToEnd h s [] s'
    chunk_read :
        {s s' after : os.Files} {rest : Text} (asked c : ℕ) (cs : Text)
        → os.read h asked s ≡ (ok (c ∷ cs), s')
        → ReadToEnd h s' rest after
        → ReadToEnd h s (c ∷ cs ++ rest) after

  with_chunk-ok :
      (chunk : Text) (r : Reading os) (payload : Text) (after : os.Files)
      → with_chunk os chunk r ≡ some (ok payload, after)
      → (rest : Text) × (r ≡ some (ok rest, after)) × (chunk ++ rest ≡ payload)
  with_chunk-ok chunk none payload after e = cc
  with_chunk-ok chunk (some (err x, s)) payload after e = cc
  with_chunk-ok chunk (some (ok rest, s)) payload after e = (rest, cc, cc)

  -- One round of the loop, by what its read gave.
  after_read-ReadToEnd :
      (h : os.Handle) (asked : ℕ) (s : os.Files) (r : Result Text × os.Files)
      (k : Text → os.Files → Reading os) (payload : Text) (after : os.Files)
      → 0 < asked
      → os.read h asked s ≡ r
      → after_read os k r ≡ some (ok payload, after)
      → ((c : ℕ) (cs rest : Text)
          → k (c ∷ cs) r.1 ≡ some (ok rest, after)
          → c ∷ cs ++ rest ≡ payload
          → ReadToEnd h r.1 rest after)
      → ReadToEnd h s payload after
  after_read-ReadToEnd h asked s (err x, s') k payload after pos read e next = cc
  after_read-ReadToEnd h asked s (ok [], s') k payload after pos read e next =
      let empty : [] ≡ payload = cc in
      let there : s' ≡ after = cc in
      subst (λ (t : Text). ReadToEnd h s t after) empty
        (subst (λ (x : os.Files). ReadToEnd h s [] x) there (ended asked pos read))
  after_read-ReadToEnd h asked s (ok (c ∷ cs), s') k payload after pos read e next =
      let (rest, later, whole) = with_chunk-ok (c ∷ cs) (k (c ∷ cs) s') payload after e in
      subst (λ (t : Text). ReadToEnd h s t after) whole
        (chunk_read asked c cs read (next c cs rest later whole))

  -- What the loop returns is all that the descriptor gives, where it is shorter than what may be read.
  pub read_chunks-ReadToEnd :
      (fuel : ℕ) (h : os.Handle) (remaining : ℕ) (s : os.Files) (payload : Text) (after : os.Files)
      → read_chunks os fuel h remaining s ≡ some (ok payload, after)
      → length payload < remaining
      → ReadToEnd h s payload after
  unfolding read_chunks
  read_chunks-ReadToEnd zero h remaining s payload after e lt = cc
  read_chunks-ReadToEnd (suc fuel) h remaining s payload after e lt =
      elim (Bool-cases (remaining == 0)) [
        | inl done ↦ absurd (ground arith)
        | inr more ↦
            after_read-ReadToEnd h (min 65536 remaining) s (os.read h (min 65536 remaining) s)
              (λ chunk s'. read_chunks os fuel h (remaining - length chunk) s') payload after
              (ground arith) refl (rw more at e)
              (λ c cs rest later whole.
                read_chunks-ReadToEnd fuel h (remaining - length (c ∷ cs))
                  (os.read h (min 65536 remaining) s).1 rest after later
                  (omega (arith, lt, ap length whole, length-append (c ∷ cs) rest)))
      ]

  -- What the checks behind the loop have established.
  pub record Finished (h : os.Handle) (st : FileStat) (r : Result Text × os.Files) (payload : Text)
      (final : FileStat) : Type 0 where
    pub after : os.Files
    pub read : r ≡ (ok payload, after)
    pub same : st ≡ final
    pub again : os.fstat h after ≡ ok final
    pub small : length payload ≤ max_file_bytes

  finish_reading-Finished :
      (h : os.Handle) (st : FileStat) (r : Result Text × os.Files) (payload : Text)
      (final : FileStat)
      → finish_reading os h st r ≡ ok (payload, final)
      → Finished h st r payload final
  unfolding finish_reading
  finish_reading-Finished h st (err x, s) payload final e = cc
  finish_reading-Finished h st (ok text, s) payload final e =
      elim (Bool-cases (ltb max_file_bytes (length text))) [
        | inl large ↦ cc (rw (large, ◌>>=◌) at e)
        | inr small ↦
            let (last, stat, rest) =
              >>=-eq-ok (os.fstat h s) (λ f. raise_if (not (same_identity f st)) _ >> ok (text, f))
                (rw (small, ◌>>=◌) at e) in
            elim (Bool-cases (same_identity last st)) [
              | inr changed ↦ cc (rw (changed, ◌>>=◌) at rest)
              | inl same ↦
                  let done : ◌≡◌ {A = Result (Text × FileStat)} (ok (text, last))
                      (ok (payload, final)) =
                    rw (same, ◌>>=◌) at rest in
                  let same_text : text ≡ payload = cc in
                  let same_stat : last ≡ final = cc (done) in
                  record {
                    after = s;
                    read = rw same_text;
                    same = sym (same_identity-eq last st same) ∙ same_stat;
                    again = stat ∙ ap ok same_stat;
                    small =
                        subst (λ (t : Text). length t ≤ max_file_bytes) same_text (ground arith);
                  }
            ]
      ]

  pub could_not_read-ok :
      {A : Type 0} (r : Result A) (a : A) → could_not_read os r ≡ ok a → r ≡ ok a
  could_not_read-ok (err os_error) a e = cc
  could_not_read-ok r a e = e

  pub finish_all-Finished :
      (h : os.Handle) (st : FileStat) (r : Reading os) (payload : Text) (final : FileStat)
      → finish_all os h st r ≡ some (ok (payload, final))
      → (out : Result Text × os.Files) × (r ≡ some out) × Finished h st out payload final
  finish_all-Finished h st none payload final e = cc
  finish_all-Finished h st (some r) payload final e = (
    r,
    refl,
    finish_reading-Finished h st r payload final
        (could_not_read-ok (finish_reading os h st r) (payload, final) (cc (e))),
  )
