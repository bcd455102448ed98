-- ===== src/Script/Header.antt =====
-- `getHeaderKey` and `getHeaderValue`.
use msgscript.Base.{List, [], ◌∷◌, Bytes, text, if◌then◌else◌}
use msgscript.Base.Strings.{has_prefix, split, join, trim_suffix}

abbrev pub header_pattern : Bytes
header_pattern = text "--*"

-- `strings.TrimSuffix(ss[1], ":")` if `len(ss) >= 2`
abbrev key_of : List Bytes → Bytes
key_of [] = []
key_of (a ∷ []) = []
key_of (a ∷ k ∷ rest) = trim_suffix b':' k

unfoldable pub header_key : Bytes → Bytes
header_key line = if has_prefix line header_pattern then key_of (split b' ' line) else []

-- `strings.Join(ss[2:], " ")` if `len(ss) >= 3`
abbrev value_of : List Bytes → Bytes
value_of [] = []
value_of (a ∷ []) = []
value_of (a ∷ k ∷ rest) = join (b' ' ∷ []) rest

unfoldable pub header_value : Bytes → Bytes
header_value line = value_of (split b' ' line)
