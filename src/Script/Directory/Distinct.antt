-- ===== src/Script/Directory/Distinct.antt =====
-- The maps of a read directory hold no key twice.
use msgscript.Base.{
  Bool, true, false, List, [], ◌∷◌, ◌≡◌, arith, Bytes, Result, ok, err, panic, ◌>>=◌, >>=-eq-ok,
  if◌then◌else◌, All,
}
use msgscript.Base.GoMap
use msgscript.Base.GoMap.{GoMap, Distinct, lookup-insert, insert-Distinct}
use msgscript.Script.{Script}
use msgscript.Script.Directory.{
  DirEntry, ScriptMap, names_of, add_script, read_script, read_entry, read_entries, is_lua,
  read_script_directory,
}

-- No subject stands twice, and no name of a subject.
abbrev pub IsDistinct : ScriptMap → Type 0
IsDistinct m = Distinct m × All (λ (e : Bytes × GoMap Script). Distinct e.1) m

AllDistinct : ScriptMap → Type 0
AllDistinct m = All (λ (e : Bytes × GoMap Script). Distinct e.1) m

insert-AllDistinct :
    (k : Bytes) (names : GoMap Script) (m : ScriptMap)
    → Distinct names
    → AllDistinct m
    → AllDistinct (GoMap.insert k names m)
unfolding GoMap.insert AllDistinct
insert-AllDistinct k names [] h d = (h, tt)
insert-AllDistinct k names ((j, w) ∷ m) h d =
    ground (arith, insert-AllDistinct k names m h d.1, d.0, d.1)

names_of-Distinct : (k : Bytes) (m : ScriptMap) → AllDistinct m → Distinct (names_of k m)
unfolding GoMap.lookup AllDistinct
names_of-Distinct k [] d = tt
names_of-Distinct k ((j, w) ∷ m) d = ground (arith, names_of-Distinct k m d.1, d.0)

add_script-IsDistinct : (s : Script) (m : ScriptMap) → IsDistinct m → IsDistinct (add_script s m)
unfolding add_script AllDistinct
add_script-IsDistinct s m (d, ds) =
    let names =
      insert-Distinct s.name s (names_of s.subject m) (names_of-Distinct s.subject m ds) in
    (insert-Distinct s.subject _ m d, insert-AllDistinct s.subject _ m names ds)

add_if-IsDistinct :
    (lua : Bool) (r : Result Script) (m m' : ScriptMap)
    → IsDistinct m
    → (if lua then (do s ← r; ok (add_script s m)) else ok m) ≡ ok m'
    → IsDistinct m'
add_if-IsDistinct false r m m' d h = ground (arith, d)
add_if-IsDistinct true (ok s) m m' d h = ground (arith, add_script-IsDistinct s m d)
add_if-IsDistinct true (err e) m m' d h = cc
add_if-IsDistinct true panic m m' d h = cc

read_entries-IsDistinct :
    (dirname : Bytes) (es : List DirEntry) (m m' : ScriptMap)
    → IsDistinct m
    → read_entries dirname es m ≡ ok m'
    → IsDistinct m'
unfolding read_entries read_entry
read_entries-IsDistinct dirname [] m m' d h = ground (arith, d)
read_entries-IsDistinct dirname (e ∷ es) m m' d h =
    let (m1, first, rest) = >>=-eq-ok (read_entry dirname e m) _ h in
    read_entries-IsDistinct dirname es m1 m'
      (add_if-IsDistinct (is_lua e.name) (read_script dirname e.name e.file) m m1 d first) rest

pub read_script_directory-IsDistinct :
    (dirname : Bytes) (entries : List DirEntry) (m : ScriptMap)
    → read_script_directory dirname (ok entries) ≡ ok m
    → IsDistinct m
unfolding read_script_directory
read_script_directory-IsDistinct dirname entries m h =
    read_entries-IsDistinct dirname entries [] m (tt, tt) h
