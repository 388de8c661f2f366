-- ===== src/Watcher/Channels/Started.antt =====
-- The goroutines that `Watch` starts: no two listen to one channel.
use mathlib.Core.Path.{subst}
use kubevoltracker.Base.{
  Among, ◌∙◌, sym, ◌<◌, ◌++◌, ℕ, suc, ◌<◌, ◌≡◌, ap, inl, inr, List, [], ◌∷◌, ◌++◌, arith,
}
use kubevoltracker.Watcher.Channels.{Watch}

-- The goroutines were started with channels below `n`.
abbrev pub StartedBelow : ℕ → List Watch → Type 0
StartedBelow n [] = Unit
StartedBelow n (g ∷ rest) = (g.stop < n) × StartedBelow n rest

abbrev pub StartedAfter : ℕ → List Watch → Type 0
StartedAfter n [] = Unit
StartedAfter n (g ∷ rest) = (n < g.stop) × StartedAfter n rest

-- No two goroutines were started with one channel.
abbrev pub AreApart : List Watch → Type 0
AreApart [] = Unit
AreApart (g ∷ rest) = StartedAfter g.stop rest × AreApart rest

pub StartedBelow-suc :
    (n : ℕ) (watches : List Watch) → StartedBelow n watches → StartedBelow (suc n) watches
StartedBelow-suc n [] b = tt
StartedBelow-suc n (g ∷ rest) b = (omega arith, StartedBelow-suc n rest b.1)

pub StartedBelow-append :
    (n : ℕ) (watches : List Watch) (g : Watch)
    → StartedBelow n watches
    → g.stop < n
    → StartedBelow n (watches ++ g ∷ [])
StartedBelow-append n [] g b l = (l, tt)
StartedBelow-append n (h ∷ rest) g b l = (b.0, StartedBelow-append n rest g b.1 l)

StartedAfter-append :
    (n : ℕ) (watches : List Watch) (g : Watch)
    → StartedAfter n watches
    → n < g.stop
    → StartedAfter n (watches ++ g ∷ [])
StartedAfter-append n [] g a l = (l, tt)
StartedAfter-append n (h ∷ rest) g a l = (a.0, StartedAfter-append n rest g a.1 l)

pub AreApart-append :
    (watches : List Watch) (g : Watch)
    → AreApart watches
    → StartedBelow g.stop watches
    → AreApart (watches ++ g ∷ [])
AreApart-append [] g a b = (tt, tt)
AreApart-append (h ∷ rest) g a b =
    (StartedAfter-append h.stop rest g a.0 b.0, AreApart-append rest g a.1 b.1)

after-Among :
    (n : ℕ) (watches : List Watch) (g : Watch)
    → StartedAfter n watches
    → Among g watches
    → n < g.stop
after-Among n [] g a m = absurd m
after-Among n (h ∷ rest) g a (inl e) = subst (λ (x : Watch). n < x.stop) e a.0
after-Among n (h ∷ rest) g a (inr m) = after-Among n rest g a.1 m

pub one_watch :
    (watches : List Watch) (g h : Watch)
    → AreApart watches
    → Among g watches
    → Among h watches
    → g.stop ≡ h.stop
    → g ≡ h
one_watch [] g h a m n e = absurd m
one_watch (x ∷ rest) g h a (inl p) (inl q) e = sym p ∙ q
one_watch (x ∷ rest) g h a (inl p) (inr n) e =
    let after = after-Among x.stop rest h a.0 n in
    let same = ap (λ (y : Watch). y.stop) p in absurd (omega arith)
one_watch (x ∷ rest) g h a (inr m) (inl q) e =
    let after = after-Among x.stop rest g a.0 m in
    let same = ap (λ (y : Watch). y.stop) q in absurd (omega arith)
one_watch (x ∷ rest) g h a (inr m) (inr n) e = one_watch rest g h a.1 m n e
