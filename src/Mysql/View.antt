-- ===== src/Mysql/View.antt =====
-- The abstract view of the tables: for each key the row that it finds, in whatever order the rows
-- stand. What the prepared statements do is stated on it.
pub mod Laws
use mathlib.Core.Option.{map}
use kubevoltracker.Base.{
  ℕ, String, ◌≡◌, Bool, ◌&&◌, List, [], ◌∷◌, Option, none, some, ◌==◌, if◌then◌else◌,
}
use kubevoltracker.Mysql.Schema.{Pv, Pvc, Pod, ResourceVersion, Tables}

abbrev pub row_at {ℓ} : {A : Type ℓ} → (A → String) → String → List A → Option A
row_at key u [] = none
row_at key u (x ∷ xs) = if key x == u then some x else row_at key u xs

abbrev pub pv_at : Tables → String → Option Pv
pv_at t u = row_at (λ (r : Pv). r.uid) u t.pv

abbrev pub pvc_at : Tables → String → Option Pvc
pvc_at t u = row_at (λ (r : Pvc). r.uid) u t.pvc

abbrev pub pod_at : Tables → String → Option Pod
pod_at t u = row_at (λ (r : Pod). r.uid) u t.pod

-- the version that is recorded for a resource type in a namespace
abbrev pub version_in : String → String → List ResourceVersion → Option String
version_in resource namespace [] = none
version_in resource namespace (row ∷ rows) =
    if row.resource == resource && row.namespace == namespace
    then some row.resource_version
    else version_in resource namespace rows

abbrev pub version_at : Tables → String → String → Option String
version_at t resource namespace = version_in resource namespace t.resource_version

-- The row under `uid` is changed by `f`; every other is as it was.
abbrev pub Changed {ℓ} :
    {A : Type ℓ} → (String → Option A) → (String → Option A) → String → (A → A) → Type ℓ
Changed before after uid f =
    (u : String) → after u ≡ (if uid == u then map f (before u) else before u)

-- The row under `uid` is `f` of what it was.
abbrev pub Put {ℓ} :
    {A : Type ℓ} → (String → Option A) → (String → Option A) → String → (Option A → A) → Type ℓ
Put before after uid f =
    (u : String) → after u ≡ (if uid == u then some (f (before u)) else before u)

-- The version is recorded, and no other.
abbrev pub Recorded : Tables → Tables → String → String → String → Type 0
Recorded before after resource namespace rv =
    (r n : String)
    → version_at after r n
      ≡ (if resource == r && namespace == n then some rv else version_at before r n)
