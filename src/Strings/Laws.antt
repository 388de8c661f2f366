-- ===== src/Strings/Laws.antt =====
-- Joining undoes splitting, and numbers in decimal are told apart.
use Prim.Native.Nat.{◌/◌, ◌%◌, ◌*◌, ◌+◌, ◌-◌}
use Prim.Native.Char.{Char, code}
use Prim.Native.String.{◌++◌}
use text.Mathlib.TextLemmas.{nil-append, cons-append}
use text.Mathlib.TextEquality.{Char-path}
use kubevoltracker.Base.{
  ℕ, suc, zero, ◌<◌, String, ◌≡◌, refl, sym, ap, ◌∙◌, inl, inr, true, false, Bool, Bool-cases, List,
  [], ◌∷◌, arith, nat_eq, ltb, if◌then◌else◌,
}
use kubevoltracker.Util.{join, get_command_string}
use kubevoltracker.Strings.{put_first, split_char, split, digit, digits, decimal}

-- The list has a first part.
abbrev NotEmpty : List String → Type 0
NotEmpty [] = ⊥
NotEmpty (x ∷ xs) = Unit

split_char-NotEmpty : (b : Bool) (c : Char) (parts : List String) → NotEmpty (split_char b c parts)
split_char-NotEmpty true c parts = tt
split_char-NotEmpty false c [] = tt
split_char-NotEmpty false c (p ∷ parts) = tt

split-NotEmpty : (sep : ℕ) (s : String) → NotEmpty (split sep s)
unfolding split
split-NotEmpty sep String.[] = tt
split-NotEmpty sep (String.◌∷◌ c s) = split_char-NotEmpty (nat_eq (code c) sep) c (split sep s)

join-put_first :
    (c : Char) (sep : String) (parts : List String)
    → join (put_first c parts) sep ≡ String.◌∷◌ c (join parts sep)
unfolding join
join-put_first c sep [] = refl
join-put_first c sep (p ∷ []) = refl
join-put_first c sep (p ∷ q ∷ parts) = cons-append c p (sep ++ join (q ∷ parts) sep)

nat_eq-eq : (a b : ℕ) → true ≡ nat_eq a b → a ≡ b
nat_eq-eq a b e = ground arith

join-split_char :
    (sep : Char) (b : Bool) (c : Char) (parts : List String)
    → b ≡ nat_eq (code c) (code sep)
    → NotEmpty parts
    → join (split_char b c parts) (String.◌∷◌ sep "")
      ≡ String.◌∷◌ c (join parts (String.◌∷◌ sep ""))
unfolding join
join-split_char sep false c parts e k = join-put_first c (String.◌∷◌ sep "") parts
join-split_char sep true c [] e k = absurd k
join-split_char sep true c (p ∷ parts) e k =
    nil-append (String.◌∷◌ sep "" ++ join (p ∷ parts) (String.◌∷◌ sep ""))
    ∙ cons-append sep "" (join (p ∷ parts) (String.◌∷◌ sep ""))
    ∙ ap (String.◌∷◌ sep) (nil-append (join (p ∷ parts) (String.◌∷◌ sep "")))
    ∙ ap (λ (x : Char). String.◌∷◌ x (join (p ∷ parts) (String.◌∷◌ sep "")))
        (sym (Char-path c sep (nat_eq-eq (code c) (code sep) e)))

-- `strings.Join` undoes `strings.Split` by the same character.
pub join-split : (sep : Char) (s : String) → join (split (code sep) s) (String.◌∷◌ sep "") ≡ s
unfolding split join
join-split sep String.[] = refl
join-split sep (String.◌∷◌ c s) =
    join-split_char sep (nat_eq (code c) (code sep)) c (split (code sep) s) refl
      (split-NotEmpty (code sep) s)
    ∙ ap (String.◌∷◌ c) (join-split sep s)

-- The text of a command, split into its words, is put together again as it was.
pub get_command_string-split :
    (command : String) → get_command_string (split b' ' command) ≡ command
unfolding get_command_string
get_command_string-split command = join-split " " command

-- reading a number back
abbrev read : ℕ → String → ℕ
read acc String.[] = acc
read acc (String.◌∷◌ c s) = read (acc * 10 + (code c - 48)) s

read-append : (acc : ℕ) (s t : String) → read acc (s ++ t) ≡ read (read acc s) t
read-append acc String.[] t = ap (read acc) (nil-append t)
read-append acc (String.◌∷◌ c s) t =
    ap (read acc) (cons-append c s t) ∙ read-append (acc * 10 + (code c - 48)) s t

read-if :
    (acc : ℕ) (b : Bool) (s t : String)
    → read acc (if b then s else t) ≡ (if b then read acc s else read acc t)
read-if acc true s t = refl
read-if acc false s t = refl

read-digit : (acc d : ℕ) → d < 10 → read acc (digit d) ≡ acc * 10 + d
read-digit acc d h = simp read-if (ground arith)

read-digits : (fuel n : ℕ) → n < fuel → read 0 (digits fuel n) ≡ n
unfolding digits
read-digits zero n h = elim h [ ]
read-digits (suc fuel) n h = elim (Bool-cases (ltb n 10)) [
  | inl small ↦ rw small (read-digit 0 n (ground arith) ∙ omega arith)
  | inr large ↦ rw large (
      read-append 0 (digits fuel (n / 10)) (digit (n % 10))
      ∙ read-digit (read 0 (digits fuel (n / 10))) (n % 10) (omega arith)
      ∙ omega (arith, read-digits fuel (n / 10) (ground arith)))
]

-- Different numbers have different texts.
pub decimal-injective : (m n : ℕ) → decimal m ≡ decimal n → m ≡ n
unfolding decimal
decimal-injective m n e =
    sym (read-digits (suc m) m (omega arith)) ∙ ap (read 0) e ∙ read-digits (suc n) n (omega arith)
