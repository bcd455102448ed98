-- ===== src/Base/Paths.antt =====
-- What the source uses of the Go packages `path` and `path/filepath`, on slash-separated paths.
use mathlib.Core.List.{[], ◌∷◌, ◌++◌, reverse}
use msgscript.Base.Tests.{◌==◌, if◌then◌else◌}
use msgscript.Base.ByteString.{Bytes}

-- From the end of the path back to its last dot, if that stands behind its last slash.
ext_from : Bytes → Bytes → Bytes
ext_from acc [] = []
ext_from acc (x ∷ s) =
    let earlier = ext_from (x ∷ acc) s in
    if x == b'/' then [] else if x == b'.' then x ∷ acc else earlier

-- `path.Ext`
unfoldable pub ext : Bytes → Bytes
unfolding ext_from
ext s = ext_from [] (reverse s)

-- `path.Join(dir, file)`, for a directory and a file name that are clean already.
unfoldable pub join_path : Bytes → Bytes → Bytes
join_path dir file = dir ++ b'/' ∷ file
