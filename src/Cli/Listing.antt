-- ===== src/Cli/Listing.antt =====
-- The table of `listCmdRun`: which rows it has for a subject.
use msgscript.Base.{
  List, [], ◌∷◌, ◌++◌, none, some, map, append-nil, append_assoc, ◌≡◌, refl, sym, ap, subst, ◌∙◌,
  arith, Bytes, text, equal, equal_iff, Result, ok, err, panic, wrap_err, >>=-eq-ok, wrap_err-eq-ok,
  if◌then◌else◌,
}
use msgscript.Base.GoMap
use msgscript.Base.GoMap.{GoMap, Distinct, lookup-insert, insert-Distinct}
use msgscript.Script.{Script}
use msgscript.Store.Interface.{ScriptStore}
use msgscript.Cli.{
  last_segment, Shown, message, rows, rows_of_names, table_rows, append_names, collect_names,
  show_subjects, list_rows, list_cmd_run,
}

-- The second columns of the rows of a subject.
abbrev pub rows_for : Bytes → List (Bytes × Bytes) → List Bytes
rows_for q [] = []
rows_for q ((subject, name) ∷ rs) =
    let rest = rows_for q rs in if equal subject q then name ∷ rest else rest

-- The names that the map has for a subject.
abbrev names_under : Bytes → GoMap (List Bytes) → List Bytes
names_under q shown = elim (GoMap.lookup q shown) [ none ↦ [] | some names ↦ names ]

rows_for-append :
    (q : Bytes) (rs ts : List (Bytes × Bytes))
    → rows_for q (rs ++ ts) ≡ rows_for q rs ++ rows_for q ts
rows_for-append q [] ts = refl
rows_for-append q ((s, n) ∷ rs) ts = ground (arith, rows_for-append q rs ts)

rows_for-rows_of_names :
    (q subject : Bytes) (names : List Bytes)
    → rows_for q (rows_of_names subject names)
      ≡ (if equal subject q then map last_segment names else [])
unfolding rows_of_names
rows_for-rows_of_names q subject [] = ground arith
rows_for-rows_of_names q subject (n ∷ names) =
    ground (arith, rows_for-rows_of_names q subject names)

rows_for-table_rows :
    (q : Bytes) (shown : GoMap (List Bytes))
    → Distinct shown
    → rows_for q (table_rows shown) ≡ map last_segment (names_under q shown)
unfolding table_rows GoMap.lookup
rows_for-table_rows q [] d = refl
rows_for-table_rows q ((s, names) ∷ shown) d = ground (
  arith,
  rows_for-append q (rows_of_names s names) (table_rows shown),
  rows_for-rows_of_names q s names,
  rows_for-table_rows q shown d.1,
  append-nil (map last_segment names),
  d.0,
  equal_iff s q,
  ap (λ k. GoMap.lookup k shown) {x = s} {y = q},
)

append_names-Distinct :
    (subject : Bytes) (names : List Bytes) (shown : GoMap (List Bytes))
    → Distinct shown
    → Distinct (append_names subject names shown)
unfolding append_names
append_names-Distinct subject [] shown d = d
append_names-Distinct subject (n ∷ names) shown d =
    append_names-Distinct subject names _ (insert-Distinct subject _ shown d)

nothing_under : (q : Bytes) → names_under q [] ≡ []
unfolding GoMap.lookup
nothing_under q = refl

names_under-insert :
    (q subject : Bytes) (names : List Bytes) (shown : GoMap (List Bytes))
    → names_under q (GoMap.insert subject names shown)
      ≡ (if equal subject q then names else names_under q shown)
names_under-insert q subject names shown = ground (arith, lookup-insert subject q names shown)

names_under-append_names :
    (q subject : Bytes) (names : List Bytes) (shown : GoMap (List Bytes))
    → names_under q (append_names subject names shown)
      ≡ names_under q shown ++ (if equal subject q then names else [])
unfolding append_names
names_under-append_names q subject [] shown = ground (arith, append-nil (names_under q shown))
names_under-append_names q subject (n ∷ names) shown =
    let before = names_under subject shown in
    ground (
      arith,
      names_under-append_names q subject names (GoMap.insert subject (before ++ n ∷ []) shown),
      names_under-insert q subject (before ++ n ∷ []) shown,
      append_assoc (names_under q shown) (n ∷ []) names,
      equal_iff subject q,
      ap (λ k. names_under k shown) {x = subject} {y = q},
    )

shown_rows :
    (r : Result Shown) (rs : List (Bytes × Bytes))
    → ◌≡◌ {A = Result Shown}
        (elim r [ ok shown ↦ ok shown | err e ↦ ok (message e) | panic ↦ panic ])
        (ok (rows rs))
    → r ≡ ok (rows rs)
shown_rows panic rs h = cc
shown_rows (err e) rs h = cc
shown_rows (ok shown) rs h = h

module _ (store : ScriptStore) where
  -- The keys of the scripts of a subject.
  abbrev pub keys_of : store.State → Bytes → List Bytes
  keys_of st subject = elim (store.get_scripts subject st) [
    | ok scripts ↦ GoMap.keys scripts
    | _ ↦ []
  ]

  -- The keys for each time that the subject is listed.
  abbrev pub listed_keys : store.State → Bytes → List Bytes → List Bytes
  listed_keys st q [] = []
  listed_keys st q (s ∷ subjects) =
      let rest = listed_keys st q subjects in if equal s q then keys_of st s ++ rest else rest

  keys_of-ok :
      (st : store.State) (subject : Bytes) (scripts : GoMap Script)
      → store.get_scripts subject st ≡ ok scripts
      → keys_of st subject ≡ GoMap.keys scripts
  keys_of-ok st subject scripts h = rw (keys_of, h)

  collect_names-lookup :
      (q : Bytes) (subjects : List Bytes) (shown result : GoMap (List Bytes)) (st : store.State)
      → Distinct shown
      → collect_names store subjects shown st ≡ ok result
      → Distinct result × (names_under q result ≡ names_under q shown ++ listed_keys st q subjects)
  unfolding collect_names
  collect_names-lookup q [] shown result st d h =
      subst (λ m. Distinct m × (names_under q m ≡ names_under q shown ++ []))
        (ap (λ r. elim r [ ok m ↦ m | _ ↦ shown ]) h) (d, sym (append-nil (names_under q shown)))
  collect_names-lookup q (s ∷ subjects) shown result st d h =
      let (scripts, hs, h') =
        >>=-eq-ok
          (wrap_err (text "failed to get scripts for subject " ++ (s ++ text ": "))
            (store.get_scripts s st))
          _ h in
      let (d', e) =
        collect_names-lookup q subjects (append_names s (GoMap.keys scripts) shown) result st
          (append_names-Distinct s (GoMap.keys scripts) shown d) h' in
      (
        d',
        ground (
          arith,
          e,
          names_under-append_names q s (GoMap.keys scripts) shown,
          keys_of-ok st s scripts (wrap_err-eq-ok _ _ hs),
          append_assoc (names_under q shown) (GoMap.keys scripts) (listed_keys st q subjects),
          append-nil (names_under q shown),
        ),
      )

  show_subjects-rows :
      (q : Bytes) (subjects : List Bytes) (st : store.State) (rs : List (Bytes × Bytes))
      → show_subjects store subjects st ≡ ok (rows rs)
      → rows_for q rs ≡ map last_segment (listed_keys st q subjects)
  unfolding show_subjects
  show_subjects-rows q [] st rs h = cc
  show_subjects-rows q (s ∷ subjects) st rs h =
      let (shown, hc, hr) = >>=-eq-ok (collect_names store (s ∷ subjects) [] st) _ h in
      let (d, e) = collect_names-lookup q (s ∷ subjects) [] shown st tt hc in
      ap (rows_for q) (sym (ap (λ r. elim r [ ok (rows ts) ↦ ts | _ ↦ rs ]) hr))
      ∙ rows_for-table_rows q shown d
      ∙ ap (map last_segment)
          (e ∙ ap (λ names. names ++ listed_keys st q (s ∷ subjects)) (nothing_under q))

  -- The table of `list` has, for a subject, one row for each script that `GetScripts` finds, and
  -- that as often as `ListSubjects` names the subject; a row shows the last segment of the key.
  pub list_cmd_run-rows :
      (st : store.State) (subjects : List Bytes) (rs : List (Bytes × Bytes))
      → store.list_subjects st ≡ ok subjects
      → list_cmd_run store st ≡ ok (rows rs)
      → (q : Bytes) → rows_for q rs ≡ map last_segment (listed_keys st q subjects)
  unfolding list_cmd_run list_rows
  list_cmd_run-rows st subjects rs hs h q =
      let (listed, hl, hr) =
        >>=-eq-ok (wrap_err (text "failed to get subjects from store: ") (store.list_subjects st)) _
          (shown_rows (list_rows store st) rs h) in
      show_subjects-rows q listed st rs hr
      ∙ ap (λ ss. map last_segment (listed_keys st q ss))
          (ap (λ r. elim r [ ok ss ↦ ss | _ ↦ listed ]) (sym (wrap_err-eq-ok _ _ hl) ∙ hs))
