-- ===== src/Tests/Stores.antt =====
-- The opening of stores.
use msgscript.Base.{true, [], ◌∷◌, none, ◌≡◌, ◌≢◌, refl, text, equal, ok}
use msgscript.Base.GoMap
use msgscript.Base.Paths.{ext}
use msgscript.Base.Strings.{remove_first, has_prefix}
use msgscript.Script.Directory.{WalkEntry, is_lua}
use msgscript.Store.Dev.{DevStore}
use msgscript.Store.Dev.Opening.{library_name, load_entry, load_entries, open_dev_store}
use msgscript.Store.ByName.{
  etcd_backend, etcd_client, new_etcd_store, store_by_name, client_endpoints,
}
use msgscript.Samples.Etcd.{sample_client, empty_store, sample_outside}

abbrev one_library : WalkEntry
one_library = record { filename = text "m.lua"; walk_err = none; file = ok (text "return") }

abbrev library_store : DevStore
library_store = record { scripts = []; libraries = (text "m", text "return") ∷ [] }

library_run : open_dev_store (text "libs") (ok true) (one_library ∷ []) ≡ ok library_store
unfolding open_dev_store load_entry load_entries library_name is_lua ext remove_first has_prefix
    equal text GoMap.insert
library_run = refl

libs-ne : text "libs" ≢ []
unfolding text
libs-ne e = cc

etcd_run :
    store_by_name sample_client sample_outside (text "etcd") (text "localhost:2379") [] []
    ≡ ok (etcd_backend empty_store)
unfolding store_by_name new_etcd_store etcd_client client_endpoints text equal
etcd_run = refl
