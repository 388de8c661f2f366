-- ===== src/Watcher/Channels/Entries.antt =====
-- The entries of `stopChannels`, and what closing or entering a channel makes of them.
use mathlib.Core.Path.{subst}
use kubevoltracker.Base.{
  ◌<◌, ◌++◌, ℕ, suc, ◌<◌, ◌≤◌, ◌≡◌, refl, ap, ◌⊎◌, inl, inr, true, false, Bool-cases, List, [], ◌∷◌,
  ◌++◌, none, some, nat_eq, any, arith, ◌==◌, eq_iff,
}
use kubevoltracker.Resources.{ResourceType}
use kubevoltracker.Watcher.Channels.{Watch, channel_of, without}

abbrev pub Chans : Type 0
Chans = List (ResourceType × ℕ)

-- The entries are below `n` and descend, none is closed, and no resource type has two.
abbrev pub AreOpen : List ℕ → ℕ → Chans → Type 0
AreOpen closed n [] = Unit
AreOpen closed n ((r, ch) ∷ rest) =
    (ch < n)
    × (any (nat_eq ch) closed ≡ false)
    × (channel_of r rest ≡ none)
    × AreOpen closed ch rest

abbrev pub AreBelow : ℕ → List ℕ → Type 0
AreBelow n [] = Unit
AreBelow n (ch ∷ rest) = (ch < n) × AreBelow n rest

-- Each goroutine has been told to stop, or its channel is the one that is entered for its type.
abbrev pub AreKnown : List ℕ → Chans → List Watch → Type 0
AreKnown closed chans [] = Unit
AreKnown closed chans (g ∷ rest) =
    ((any (nat_eq g.stop) closed ≡ true) ⊎ (channel_of g.resource chans ≡ some g.stop))
    × AreKnown closed chans rest

pub not_closed : (n : ℕ) (closed : List ℕ) → AreBelow n closed → any (nat_eq n) closed ≡ false
not_closed n [] b = refl
not_closed n (ch ∷ rest) b = ground (arith, not_closed n rest b.1)

pub AreBelow-suc : (n : ℕ) (closed : List ℕ) → AreBelow n closed → AreBelow (suc n) closed
AreBelow-suc n [] b = tt
AreBelow-suc n (ch ∷ rest) b = (omega arith, AreBelow-suc n rest b.1)

pub channel_of-below :
    (closed : List ℕ) (n ch : ℕ) (r : ResourceType) (chans : Chans)
    → AreOpen closed n chans
    → channel_of r chans ≡ some ch
    → (ch < n) × (any (nat_eq ch) closed ≡ false)
channel_of-below closed n ch r [] o e = ground arith
channel_of-below closed n ch r ((r', ch') ∷ rest) o e = elim (Bool-cases (r' == r)) [
  | inl q ↦ ground arith
  | inr q ↦
      let below = channel_of-below closed ch' ch r rest o.3 (ground arith) in (omega arith, below.1)
]

pub without_absent :
    (r : ResourceType) (chans : Chans) → channel_of r chans ≡ none → without r chans ≡ chans
without_absent r [] e = refl
without_absent r ((r', ch) ∷ rest) e = elim (Bool-cases (r' == r)) [
  | inl q ↦ ground arith
  | inr q ↦ rw q (ap (λ (xs : Chans). (r', ch) ∷ xs) (without_absent r rest (ground arith)))
]

pub still_absent :
    (r r' : ResourceType) (chans : Chans)
    → channel_of r' chans ≡ none
    → channel_of r' (without r chans) ≡ none
still_absent r r' [] e = refl
still_absent r r' ((s, ch) ∷ rest) e = elim (Bool-cases (s == r')) [
  | inl q ↦ ground arith
  | inr q ↦ ground (arith, still_absent r r' rest (ground arith))
]

pub close_other :
    (closed : List ℕ) (n ch : ℕ) (chans : Chans)
    → AreOpen closed n chans
    → n ≤ ch
    → AreOpen (ch ∷ closed) n chans
close_other closed n ch [] o l = tt
close_other closed n ch ((r, ch') ∷ rest) o l =
    (o.0, ground arith, o.2, close_other closed ch' ch rest o.3 (omega arith))

pub AreOpen-mono :
    (closed : List ℕ) (m n : ℕ) (chans : Chans)
    → AreOpen closed m chans
    → m ≤ n
    → AreOpen closed n chans
AreOpen-mono closed m n [] o l = tt
AreOpen-mono closed m n ((r, ch) ∷ rest) o l = (omega arith, o.1, o.2, o.3)

pub channel_of_same :
    (r r' : ResourceType) (chans : Chans)
    → (r' == r) ≡ true
    → channel_of r' chans ≡ none
    → channel_of r chans ≡ none
channel_of_same r r' chans q e =
    subst (λ (s : ResourceType). channel_of s chans ≡ none) ((eq_iff r' r).0 q) e

pub AreOpen-without :
    (closed : List ℕ) (n ch : ℕ) (r : ResourceType) (chans : Chans)
    → AreOpen closed n chans
    → channel_of r chans ≡ some ch
    → AreOpen (ch ∷ closed) n (without r chans)
AreOpen-without closed n ch r [] o e = tt
AreOpen-without closed n ch r ((r', ch') ∷ rest) o e = elim (Bool-cases (r' == r)) [
  | inl q ↦
      rw (q, without_absent r rest (channel_of_same r r' rest q o.2))
        (AreOpen-mono (ch ∷ closed) ch' n rest (close_other closed ch' ch rest o.3 (ground arith))
          (omega arith))
  | inr q ↦
      let lower = channel_of-below closed ch' ch r rest o.3 (ground arith) in
      rw q (
        o.0,
        ground arith,
        still_absent r r' rest o.2,
        AreOpen-without closed ch' ch r rest o.3 (ground arith),
      )
]

pub closed_all_below :
    (closed : List ℕ) (chans : Chans) (watches : List Watch) (r : ResourceType) (n : ℕ)
    → channel_of r chans ≡ none
    → AreKnown closed chans watches
    → AreKnown closed ((r, n) ∷ chans) watches
closed_all_below closed chans [] r n e k = tt
closed_all_below closed chans (g ∷ rest) r n e k = (
  elim (Bool-cases (r == g.resource)) [
    | inl q ↦ ground (arith, channel_of_same g.resource r chans q e)
    | inr q ↦ ground arith
  ],
  closed_all_below closed chans rest r n e k.1,
)

pub channel_of-without :
    (r r' : ResourceType) (chans : Chans)
    → (r == r') ≡ false
    → channel_of r' (without r chans) ≡ channel_of r' chans
channel_of-without r r' [] q = refl
channel_of-without r r' ((s, ch) ∷ rest) q = elim (Bool-cases (s == r)) [
  | inl e ↦ rw (e, (eq_iff s r).0 e, q) (channel_of-without r r' rest q)
  | inr e ↦ rw (e, channel_of-without r r' rest q) refl
]

pub AreKnown-without :
    (closed : List ℕ) (chans : Chans) (watches : List Watch) (r : ResourceType) (ch : ℕ)
    → channel_of r chans ≡ some ch
    → AreKnown closed chans watches
    → AreKnown (ch ∷ closed) (without r chans) watches
AreKnown-without closed chans [] r ch e k = tt
AreKnown-without closed chans (g ∷ rest) r ch e k = (
  elim (Bool-cases (r == g.resource)) [
    | inl q ↦
        let same : channel_of g.resource chans ≡ some ch =
          subst (λ (t : ResourceType). channel_of t chans ≡ some ch) ((eq_iff r g.resource).0 q)
            e in
        ground arith
    | inr q ↦ ground (arith, channel_of-without r g.resource chans q)
  ],
  AreKnown-without closed chans rest r ch e k.1,
)

pub AreKnown-append :
    (closed : List ℕ) (chans : Chans) (watches : List Watch) (g : Watch)
    → AreKnown closed chans watches
    → channel_of g.resource chans ≡ some g.stop
    → AreKnown closed chans (watches ++ g ∷ [])
AreKnown-append closed chans [] g k e = (inr e, tt)
AreKnown-append closed chans (h ∷ rest) g k e = (k.0, AreKnown-append closed chans rest g k.1 e)
