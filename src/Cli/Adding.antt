-- ===== src/Cli/Adding.antt =====
-- The commands `add` and `rm` on any store that keeps its promises.
use msgscript.Base.{
  ℕ, arith, get_elem?, ◌&&◌, ◌++◌, Option, none, some, ◌≡◌, ◌≢◌, refl, sym, ap, ◌∙◌, [], Bytes,
  text, equal, Result, ok, err, panic, if◌then◌else◌,
}
use msgscript.Script.{Script, read_file, read_string}
use msgscript.Store.Interface.{ScriptStore, Refines}
use msgscript.Cli.{Names, script_names, add_cmd_run, added, add_named, add_read}

-- What `add` prints at its end.
abbrev pub success : Names → Bytes
success names =
    text "Script added successfully for subject "
    ++ (names.subject ++ (text " named " ++ (names.name ++ text " \n")))

first-ne : ◌≢◌ {A = Option ℕ} (some b'F') (some b'S')
first-ne e = omega (arith, ap {B = ℕ} (λ (o : Option ℕ). elim o [ none ↦ 0 | some n ↦ n ]) e)

module _ (store : ScriptStore) (Valid : Bytes → Type 0) (Storable : Script → Type 0)
    (view : store.State → Bytes → Bytes → Option Script) (entry_key : Bytes → Bytes → Bytes)
    (promises : Refines store Valid Storable view entry_key) where
  added-view :
      (names : Names) (p : Result (Unit {0}) × store.State)
      → (added store names p).0 ≡ ok (success names)
      → (p.0 ≡ ok tt) × ((added store names p).1 ≡ p.1)
  unfolding added text
  added-view names (ok _, st) h = (refl, refl)
  added-view names (err e, st) h =
      absurd (first-ne (ap (λ r. elim r [ ok b ↦ get_elem? b 0 | _ ↦ none ]) h))
  added-view names (panic, st) h = cc

  named :
      (scr : Script) (st : store.State) (names : Names) {chosen : Result Names}
      → chosen ≡ ok names
      → add_named store scr chosen st
        ≡ added store names (store.add_script names.subject names.name scr st)
  unfolding add_named
  named scr st names e = rw e refl

  -- Where `add` has a valid subject and a name, each from its flag or else from the file, and prints
  -- that it added the script, which the store gives back as it was, the store has the script of the file under them, and under all other
  -- valid subjects and names what it had before.
  pub add_cmd_run-view :
      (flags : Names) (filename content : Bytes) (names : Names) (st : store.State)
      → script_names flags (read_string content) [] ≡ ok names
      → Valid names.subject
      → Storable (read_string content)
      → (add_cmd_run store flags filename (ok content) st).0 ≡ ok (success names)
      → (j i : Bytes) → Valid j
      → view (add_cmd_run store flags filename (ok content) st).1 j i ≡ (
          if equal names.subject j && equal names.name i
          then some (read_string content)
          else view st j i)
  unfolding add_cmd_run read_file add_read
  add_cmd_run-view flags filename content names st chosen valid plain printed j i valid_j =
      let scr = read_string content in
      let p = store.add_script names.subject names.name scr st in
      let same = named scr st names chosen in
      let (ok_added, kept) = added-view names p (sym (ap (λ q. q.0) same) ∙ printed) in
      ap (λ q. view q.1 j i) same
      ∙ ap (λ d. view d j i) kept
      ∙ promises.view_add names.subject names.name j i scr st valid valid_j plain ok_added
