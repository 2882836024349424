-- ===== src/Execlp/Search.antt =====
-- Which program `execlp` runs when it looks along PATH, and the error that it returns.
use linux_programming_interf.Common.{
  ℕ, ◌≡◌, ◌≢◌, refl, ap, ◌∙◌, Bool, true, Option, none, some, List, [], ◌∷◌, ◌++◌, inl, inr, arith,
  ◌==◌, if◌then◌else◌, Bool-cases, Option-cases,
}
use linux_programming_interf.Common.Text.{CString}
use linux_programming_interf.Execlp.{
  enoexec, eacces, Outcome, replaced, returned, fault, vector, pathname_of, exec_sh_script,
  try_prefixes,
}
use linux_programming_interf.Execlp.Arguments.{sh_vector-overruns}

module _ (execve : CString → List (Option CString) → Option ℕ) (args : List CString)
    (filename : CString) where
  -- execve() fails for each of the prefixes, and never with ENOEXEC; `last` is the last error, after
  -- `first`, and `denied` says whether EACCES was among them, or `before` was set.
  pub data Fail : ℕ → Bool → List CString → ℕ → Bool → Type 0 where
    none_left : {first : ℕ} {before : Bool} → Fail first before [] first before
    denied :
        {first last : ℕ} {before after : Bool} {ps : List CString} (p : CString)
        → execve (pathname_of filename p) (vector args) ≡ some eacces
        → Fail eacces true ps last after
        → Fail first before (p ∷ ps) last after
    failed :
        {first last : ℕ} {before after : Bool} {ps : List CString} (p : CString) (e : ℕ)
        → execve (pathname_of filename p) (vector args) ≡ some e
        → e ≢ eacces
        → e ≢ enoexec
        → Fail e before ps last after
        → Fail first before (p ∷ ps) last after

  -- The end of the search: the first prefix for which execve() does not fail, a text that is no
  -- program before that, or failures only.
  pub data Searched : ℕ → Bool → List CString → Outcome → Type 0 where
    run_first :
        {first last : ℕ} {before after : Bool} {ps : List CString} (p : CString)
        (rest : List CString)
        → Fail first before ps last after
        → execve (pathname_of filename p) (vector args) ≡ none
        → Searched first before (ps ++ p ∷ rest) (replaced (pathname_of filename p) (vector args))
    script :
        {first last : ℕ} {before after : Bool} {ps : List CString} (p : CString)
        (rest : List CString)
        → Fail first before ps last after
        → execve (pathname_of filename p) (vector args) ≡ some enoexec
        → Searched first before (ps ++ p ∷ rest) fault
    all_failed :
        {first last : ℕ} {before after : Bool} {ps : List CString}
        → Fail first before ps last after
        → Searched first before ps (returned (if after then eacces else last))

  Searched-denied :
      (first : ℕ) (before : Bool) (p : CString) (ps : List CString) (o : Outcome)
      → execve (pathname_of filename p) (vector args) ≡ some eacces
      → Searched eacces true ps o
      → Searched first before (p ∷ ps) o
  Searched-denied first before p _ _ e (run_first q rest h ok) = run_first q rest (denied p e h) ok
  Searched-denied first before p _ _ e (script q rest h text) = script q rest (denied p e h) text
  Searched-denied first before p _ _ e (all_failed h) = all_failed (denied p e h)

  Searched-failed :
      (first : ℕ) (before : Bool) (p : CString) (ps : List CString) (o : Outcome) (e : ℕ)
      → execve (pathname_of filename p) (vector args) ≡ some e
      → e ≢ eacces
      → e ≢ enoexec
      → Searched e before ps o
      → Searched first before (p ∷ ps) o
  Searched-failed first before p _ _ e f n n' (run_first q rest h ok) =
      run_first q rest (failed p e f n n' h) ok
  Searched-failed first before p _ _ e f n n' (script q rest h text) =
      script q rest (failed p e f n n' h) text
  Searched-failed first before p _ _ e f n n' (all_failed h) = all_failed (failed p e f n n' h)

  exec_sh_script-fault : (next : Outcome) → exec_sh_script execve args next ≡ fault
  unfolding exec_sh_script
  exec_sh_script-fault next = rw (sh_vector-overruns args, exec_sh_script) refl

  -- execlp: the search along the prefixes of PATH runs the program of the first prefix for which
  -- execve() does not fail, all before it having failed. If every prefix fails, it returns EACCES
  -- when that was one of the errors (or `fndEACCES` was set), and the last error otherwise. An
  -- ENOEXEC before that ends in a write past the end of the shell's argument vector.
  pub try_prefixes-Searched :
      (ps : List CString) (saved_errno : ℕ) (fnd_eacces : Bool)
      → Searched saved_errno fnd_eacces ps
          (try_prefixes execve args filename ps saved_errno fnd_eacces)
  unfolding try_prefixes
  try_prefixes-Searched [] saved_errno fnd_eacces = all_failed none_left
  try_prefixes-Searched (p ∷ ps) saved_errno fnd_eacces =
      elim (Option-cases (execve (pathname_of filename p) (vector args))) [
        | inl ok ↦ rw (ok, try_prefixes) (run_first p ps none_left ok)
        | inr (e, f) ↦ elim (Bool-cases (e == eacces)) [
          | inl is_eacces ↦
              let same : e ≡ eacces = ground (arith, is_eacces) in
              rw (f, is_eacces, try_prefixes)
                (rw same (
                  Searched-denied saved_errno fnd_eacces p ps
                    (try_prefixes execve args filename ps eacces true) (f ∙ ap some same)
                    (try_prefixes-Searched ps eacces true)))
          | inr other ↦ elim (Bool-cases (e == enoexec)) [
            | inl is_enoexec ↦
                let same : e ≡ enoexec = ground (arith, is_enoexec) in
                rw (f, other, is_enoexec, try_prefixes)
                  (rw (exec_sh_script-fault (try_prefixes execve args filename ps e fnd_eacces))
                    (script p ps none_left (f ∙ ap some same)))
            | inr other' ↦
                rw (f, other, other', try_prefixes)
                  (Searched-failed saved_errno fnd_eacces p ps
                    (try_prefixes execve args filename ps e fnd_eacces) e f
                    (λ h. ground (arith, other, h)) (λ h. ground (arith, other', h))
                    (try_prefixes-Searched ps e fnd_eacces))
          ]
        ]
      ]
