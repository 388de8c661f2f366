-- ===== src/Mysql/Sql.antt =====
-- The SQL that the prepared statements use, over lists of rows, and what they take of the server:
-- its functions `LIKE` and `INET_ATON`, which depend on the collation and are not part of this
-- repository. Numbers of affected rows are those of a MySQL client without CLIENT_FOUND_ROWS:
-- an update counts the rows that it changed, an upsert 1 for a new row, 2 for a changed one, else 0.
pub mod Laws
use kubevoltracker.Base.{
  ℕ, suc, ◌+◌, String, ◌≡◌, Bool, true, false, not, ◌&&◌, List, [], ◌∷◌, Option, none, some, ltb,
  ◌==◌, nat_eq, if◌then◌else◌,
}

pub record Server : Type 0 where
  -- value LIKE pattern
  pub like : String → String → Bool
  pub inet_aton : String → Option ℕ

-- The pattern has no wildcard that matters: it matches the text itself and no other.
abbrev pub IsLiteral : Server → String → Type 0
IsLiteral server pattern = (value : String) → server.like value pattern ≡ (value == pattern)

-- A comparison with NULL does not hold.
abbrev pub holds : {A : Type 0} → (A → Bool) → Option A → Bool
holds p none = false
holds p (some a) = p a

abbrev pub null_or : {A : Type 0} → (A → Bool) → Option A → Bool
null_or p none = true
null_or p (some a) = p a

abbrev pub is_null : {A : Type 0} → Option A → Bool
is_null none = true
is_null (some _) = false

-- Whether a column would keep the value that it has, for the number of affected rows.
abbrev pub same_text : Option String → Option String → Bool
same_text none none = true
same_text (some a) (some b) = a == b
same_text _ _ = false

abbrev pub same_number : Option ℕ → Option ℕ → Bool
same_number none none = true
same_number (some a) (some b) = nat_eq a b
same_number _ _ = false

module _ {ℓ} {A : Type ℓ} where
  abbrev pub count : (A → Bool) → List A → ℕ
  count p [] = 0
  count p (x ∷ xs) = if p x then suc (count p xs) else count p xs

  -- UPDATE ... SET ... WHERE p
  abbrev pub update_where : (A → Bool) → (A → A) → List A → List A
  update_where p f [] = []
  update_where p f (x ∷ xs) = (if p x then f x else x) ∷ update_where p f xs

  -- DELETE ... WHERE p
  abbrev pub delete_where : (A → Bool) → List A → List A
  delete_where p [] = []
  delete_where p (x ∷ xs) = if p x then delete_where p xs else x ∷ delete_where p xs

  -- INSERT ... ON DUPLICATE KEY UPDATE: `key` finds the row, `same` says that the update changes
  -- nothing of it
  abbrev pub upsert : (A → Bool) → A → (A → A) → (A → Bool) → List A → ℕ × List A
  upsert key row update same [] = (1, row ∷ [])
  upsert key row update same (x ∷ xs) =
      let (n, rest) = upsert key row update same xs in
      if key x then ((if same x then 0 else 2), update x ∷ xs) else (n, x ∷ rest)
