-- ===== src/Strings.antt =====
-- What the repository uses of Go's packages strings, path and fmt: `strings.Split` by one
-- character, `path.Clean` and `path.Join`, and the verb `%d` for numbers that are not negative.
pub mod Laws
use Prim.Native.Nat.{◌/◌, ◌%◌}
use Prim.Native.Char.{Char, code}
use Prim.Native.String
use Prim.Native.String.{◌++◌}
use mathlib.Core.List.{foldl, reverse}
use kubevoltracker.Base.{
  ℕ, suc, zero, String, Bool, true, false, ◌||◌, List, [], ◌∷◌, ◌==◌, nat_eq, ltb, if◌then◌else◌,
}
use kubevoltracker.Util.{join}

-- a character in front of the first part
abbrev pub put_first : Char → List String → List String
put_first c [] = String.◌∷◌ c "" ∷ []
put_first c (part ∷ parts) = String.◌∷◌ c part ∷ parts

-- what a character adds to the parts of the rest; the flag says that it is the separator
abbrev pub split_char : Bool → Char → List String → List String
split_char true c parts = "" ∷ parts
split_char false c parts = put_first c parts

-- `strings.Split(s, sep)`; `sep` is the number of the one character of the separator
unfoldable pub split : ℕ → String → List String
split sep String.[] = "" ∷ []
split sep (String.◌∷◌ c s) = split_char (nat_eq (code c) sep) c (split sep s)

-- A part `..` takes a part away, if there is one that is not `..` itself.
abbrev pub go_up : Bool → List String → List String
go_up rooted [] = if rooted then [] else ".." ∷ []
go_up rooted (top ∷ parts) = if top == ".." then ".." ∷ top ∷ parts else parts

-- the parts of a path, the last one first
abbrev pub add_part : Bool → List String → String → List String
add_part rooted parts part =
    if part == "" || part == "."
    then parts
    else if part == ".."
    then go_up rooted parts
    else part ∷ parts

abbrev pub is_rooted : String → Bool
is_rooted String.[] = false
is_rooted (String.◌∷◌ c s) = nat_eq (code c) b'/'

abbrev pub close_path : Bool → String → String
close_path true body = "/" ++ body
close_path false body = if body == "" then "." else body

-- `path.Clean`
unfoldable pub clean_path : String → String
unfolding split join
clean_path path =
    let rooted = is_rooted path in
    close_path rooted (join (reverse (foldl (add_part rooted) [] (split b'/' path))) "/")

-- `path.Join`: the leading empty elements are left out
unfoldable pub join_path : List String → String
unfolding clean_path join
join_path [] = ""
join_path (e ∷ rest) =
    let later = join_path rest in if e == "" then later else clean_path (join (e ∷ rest) "/")

abbrev pub digit : ℕ → String
digit n =
    if nat_eq n 0
    then "0"
    else if nat_eq n 1
    then "1"
    else if nat_eq n 2
    then "2"
    else if nat_eq n 3
    then "3"
    else if nat_eq n 4
    then "4"
    else if nat_eq n 5
    then "5"
    else if nat_eq n 6
    then "6"
    else if nat_eq n 7
    then "7"
    else if nat_eq n 8
    then "8"
    else "9"

-- The digits of a number. A number has fewer digits than one more than itself, which is the fuel.
unfoldable pub digits : ℕ → ℕ → String
digits zero n = ""
digits (suc fuel) n =
    let front = digits fuel (n / 10) in if ltb n 10 then digit n else front ++ digit (n % 10)

-- `fmt.Sprintf("%d", n)`
unfoldable pub decimal : ℕ → String
unfolding digits
decimal n = digits (suc n) n
