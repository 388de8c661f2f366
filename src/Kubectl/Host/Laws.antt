-- ===== src/Kubectl/Host/Laws.antt =====
-- What stands at a path after nodes have been taken away or put there.
use kubevoltracker.Base.{
  String, ◌≡◌, ap, Bool, Bool-cases, false, List, [], ◌∷◌, none, inl, inr, arith, ◌==◌, eq_iff,
  if◌then◌else◌,
}
use kubevoltracker.Kubectl.Host.{Node, Host, node_at, without, put_node}

pub node_at-without :
    (under : String → Bool) (nodes : List (String × Node)) (path : String)
    → node_at (without under nodes) path ≡ (if under path then none else node_at nodes path)
node_at-without under [] path = ground arith
node_at-without under ((name, node) ∷ nodes) path = elim (Bool-cases (name == path)) [
  | inl q ↦
      let same = (eq_iff name path).0 q in
      ground (arith, node_at-without under nodes path, ap under same)
  | inr q ↦ ground (arith, node_at-without under nodes path)
]

-- A node that is put elsewhere leaves what stands at a path.
pub put_node_elsewhere :
    {C : Type 0} (path other : String) (node : Node) (h : Host C)
    → (path == other) ≡ false
    → node_at (put_node path node h).nodes other ≡ node_at h.nodes other
put_node_elsewhere path other node h e =
    rw (e, node_at-without (λ p. p == path) h.nodes other)
      (ground (arith, eq_iff path other, eq_iff other path))
