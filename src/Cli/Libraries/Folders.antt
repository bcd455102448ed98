-- ===== src/Cli/Libraries/Folders.antt =====
-- What `parseDirsForLibraries` reads of folders, and what the store holds behind `libAddRun`.
use msgscript.Base.{
  true, false, List, [], ◌∷◌, ◌++◌, append-nil, ◌≡◌, sym, ap, subst, ◌∙◌, inl, inr, Bytes, text,
  Result, ok, wrap_err, >>=-eq-ok, wrap_err-eq-ok, Bool-cases, All,
}
use msgscript.Base.Paths.{join_path}
use msgscript.Script.{Script, read_file}
use msgscript.Script.Directory.{is_lua}
use msgscript.Cli.Libraries.{Files, folder_libraries, libraries_at, parse_dirs_for_libraries}

ok-injective : {A : Type 0} {a b : A} → ◌≡◌ {A = Result A} (ok a) (ok b) → a ≡ b
ok-injective {a} h = ap (λ r. elim r [ ok x ↦ x | _ ↦ a ]) h

folder_libraries-All :
    (files : Files) (fname : Bytes) (names : List Bytes) (libs : List Script)
    → folder_libraries files fname names ≡ ok libs
    → All (λ s. read_file fname (files.content fname) ≡ ok s) libs
unfolding folder_libraries
folder_libraries-All files fname [] libs h =
    subst (All (λ s. read_file fname (files.content fname) ≡ ok s)) (ok-injective h) tt
folder_libraries-All files fname (name ∷ names) libs h = elim (Bool-cases (is_lua name)) [
  | inr b ↦ folder_libraries-All files fname names libs (rw b at h)
  | inl b ↦
      let (s, hs, h') =
        >>=-eq-ok
          (wrap_err (text "failed to read script " ++ (join_path fname name ++ text ": "))
            (read_file fname (files.content fname)))
          _ (rw b at h) in
      let (rest, hr, e) = >>=-eq-ok (folder_libraries files fname names) _ h' in
      subst (All (λ s. read_file fname (files.content fname) ≡ ok s)) (ok-injective e)
        (wrap_err-eq-ok _ _ hs, folder_libraries-All files fname names rest hr)
]

-- Without the flag for subfolders, a folder gives no library of its own files: whatever is read from
-- it is, each time, what reading the folder itself as a file gives.
pub parse_dirs_for_libraries-All :
    (files : Files) (fname : Bytes) (libs : List Script)
    → files.stat fname ≡ ok true
    → parse_dirs_for_libraries files false (fname ∷ []) ≡ ok libs
    → All (λ s. read_file fname (files.content fname) ≡ ok s) libs
unfolding parse_dirs_for_libraries libraries_at
parse_dirs_for_libraries-All files fname libs dir h =
    let (here, hh, e) =
      >>=-eq-ok (libraries_at files false fname true) _ (rw (dir, parse_dirs_for_libraries) at h) in
    let (names, hn, hf) =
      >>=-eq-ok (wrap_err (text "failed to read directory: ") (files.read_dir fname)) _ hh in
    subst (All (λ s. read_file fname (files.content fname) ≡ ok s))
      (sym (append-nil here) ∙ ok-injective e) (folder_libraries-All files fname names here hf)
