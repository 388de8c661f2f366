-- ===== src/Util.antt =====
-- util.go, and Go's `strings.Join`.
use Prim.Native.String.{◌++◌}
use kubevoltracker.Base.{ℤ, String, List, [], ◌∷◌, int_lt, if◌then◌else◌}

-- Go's `strings.Join`
unfoldable pub join : List String → String → String
join [] sep = ""
join (s ∷ []) sep = s
join (s ∷ t ∷ rest) sep = s ++ (sep ++ join (t ∷ rest) sep)

unfoldable pub max : ℤ → ℤ → ℤ
max a b = if int_lt b a then a else b

unfoldable pub get_command_string : List String → String
unfolding join
get_command_string command = join command " "
