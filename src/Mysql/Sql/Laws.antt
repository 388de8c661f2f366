-- ===== src/Mysql/Sql/Laws.antt =====
-- Counting and deleting rows.
use kubevoltracker.Base.{◌≡◌, refl, Bool, true, false, List, [], ◌∷◌, arith, ltb, any}
use kubevoltracker.Mysql.Sql.{count, delete_where}

module _ {ℓ} {A : Type ℓ} (p : A → Bool) where
  pub count-any : (xs : List A) → ltb 0 (count p xs) ≡ any p xs
  count-any [] = refl
  count-any (x ∷ xs) = ground (arith, count-any xs)

  pub delete_where_none : (xs : List A) → any p xs ≡ false → delete_where p xs ≡ xs
  delete_where_none [] h = refl
  delete_where_none (x ∷ xs) h = ground (arith, delete_where_none xs)

  pub delete_where_absorbs :
      (q : A → Bool) (xs : List A)
      → ((x : A) → p x ≡ true → q x ≡ true)
      → delete_where q (delete_where p xs) ≡ delete_where q xs
  delete_where_absorbs q [] h = refl
  delete_where_absorbs q (x ∷ xs) h = ground (arith, h x, delete_where_absorbs q xs h)
