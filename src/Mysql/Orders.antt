-- ===== src/Mysql/Orders.antt =====
-- Events of different types come by different goroutines, in any order: what two transactions leave does
-- not depend on which came first.
pub mod Claims
pub mod Pods
use kubevoltracker.Base.{
  Bool, true, false, ◌&&◌, Option, sym, ap, ◌∙◌, if◌then◌else◌, arith, String, ◌≡◌, ◌<◌, ℕ, length,
}
use kubevoltracker.Mysql.Schema.{Tables}
use kubevoltracker.Mysql.Conn.{Conn}
use kubevoltracker.Mysql.View.{pvc_at, version_at}
use kubevoltracker.Mysql.Tx.Refines.{IsHonest}
use kubevoltracker.Mysql.Tx.Attempt.{IsIdle}

-- A connection that sees these tables, with no transaction open, with a schedule of failures of which
-- none pretends to be a duplicate key, and fewer of them than the fuel.
abbrev pub Ready : ℕ → Tables → Conn → Type 0
Ready fuel t c = (c.tables ≡ t) × IsIdle c × IsHonest c.faults × (length c.faults < fuel)

-- The tables agree: for claims and versions in what each key finds, for all else in their rows.
pub record SameView (t t' : Tables) : Type 0 where
  pub claims : (uid : String) → pvc_at t uid ≡ pvc_at t' uid
  pub versions :
      (resource namespace : String)
      → version_at t resource namespace ≡ version_at t' resource namespace
  pub mounts : t.pod_mount ≡ t'.pod_mount
  pub pods : t.pod ≡ t'.pod
  pub containers : t.container ≡ t'.container
  pub volumes : t.pv ≡ t'.pv
  pub nfs_sources : t.nfs ≡ t'.nfs
  pub iscsi_sources : t.iscsi ≡ t'.iscsi

-- two values that are set under different keys, in either order
pub swapped :
    (b c : Bool) (v va va' vb vb' x y : Option String)
    → (b && c) ≡ false
    → va ≡ (if c then y else v)
    → va' ≡ (if b then x else va)
    → vb ≡ (if b then x else v)
    → vb' ≡ (if c then y else vb)
    → va' ≡ vb'
swapped true true v va va' vb vb' x y n a a' b b' = absurd (ground arith)
swapped true false v va va' vb vb' x y n a a' b b' = a' ∙ sym (b' ∙ b)
swapped false c v va va' vb vb' x y n a a' b b' = a' ∙ a ∙ sym (b' ∙ ap (λ o. if c then y else o) b)
