-- ===== src/Refedges/Walks.antt =====
-- Walks along dependencies, and the orders that rule out a cycle.
use infrawright_dev.Refedges.SetMaps.{SetMap, targets}
use infrawright_dev.Refedges.Cycles.{found, index_of_string, from_index, closed_path}
use infrawright_dev.Base.{
  ℕ, zero, suc, ◌<◌, true, false, some, List, [], ◌∷◌, ◌++◌, ◌≡◌, refl, sym, ap, subst, arith,
  if◌then◌else◌, length, Text, text_eq, text_eq_iff, text_eq_comm, member, Bool-cases, inl, inr,
}

module _ (dependencies : SetMap) where
  abbrev pub DependsOn : Text → Text → Type 0
  DependsOn a b = member b (targets dependencies a) ≡ true

  -- Each name of the list depends on the next.
  abbrev pub IsWalk : List Text → Type 0
  IsWalk [] = Unit
  IsWalk (a ∷ []) = Unit
  IsWalk (a ∷ b ∷ rest) = DependsOn a b × IsWalk (b ∷ rest)

  -- The list is a walk that ends where it begins.
  abbrev pub IsCycle : List Text → Type 0
  IsCycle names =
      (name : Text) × (between : List Text) × (names ≡ name ∷ between ++ name ∷ []) × IsWalk names

  -- One or more dependencies lead from a name to another.
  pub data Reaches (from : Text) : Text → Type 0 where
    direct : {to : Text} → DependsOn from to → Reaches from to
    further : {between to : Text} → Reaches from between → DependsOn between to → Reaches from to

  -- A list of names without repetition in which each depends only on names behind it.
  abbrev pub IsOrdered : List Text → Type 0
  IsOrdered [] = Unit
  IsOrdered (name ∷ rest) =
      (member name rest ≡ false)
      × ((d : Text) → DependsOn name d → member d rest ≡ true)
      × IsOrdered rest

  rank : List Text → Text → ℕ
  rank [] name = 0
  rank (head ∷ rest) name =
      let later = rank rest name in if text_eq name head then suc (length rest) else later

  rank_le : (order : List Text) (name : Text) → rank order name < suc (length order)
  unfolding rank
  rank_le [] name = omega arith
  rank_le (head ∷ rest) name = ground (arith, rank_le rest name)

  DependsOn-rank :
      (order : List Text)
      → IsOrdered order
      → (a b : Text) → member a order ≡ true
      → DependsOn a b
      → (member b order ≡ true) × (rank order b < rank order a)
  unfolding rank member
  DependsOn-rank [] o a b h k = cc
  DependsOn-rank (head ∷ rest) o a b h k = elim (Bool-cases (text_eq a head)) [
    | inl e ↦ ground (
      arith,
      o.0,
      o.1 b (subst (λ z. DependsOn z b) ((text_eq_iff a head).0 e) k),
      text_eq_iff b head,
      rank_le rest b,
      e,
    )
    | inr e ↦
        ground
          (arith, o.0, DependsOn-rank rest o.2 a b, text_eq_iff b head, text_eq_iff a head, k, e, h)
  ]

  Reaches-rank :
      (order : List Text)
      → IsOrdered order
      → (a b : Text) → member a order ≡ true
      → Reaches a b
      → (member b order ≡ true) × (rank order b < rank order a)
  Reaches-rank order o a b h (direct k) = DependsOn-rank order o a b h k
  Reaches-rank order o a b h (further {between = c} w k) =
      let near = Reaches-rank order o a c h w in
      let far = DependsOn-rank order o c b near.0 k in (far.0, omega (arith, near.1, far.1))

  -- No name of such a list reaches itself.
  pub Reaches-irrefl :
      (order : List Text) → IsOrdered order → (a : Text) → member a order ≡ true → ¬ Reaches a a
  Reaches-irrefl order o a h w = omega (arith, (Reaches-rank order o a a h w).1)

  -- What a name reaches, it reaches by a first dependency.
  pub Reaches-source : {a b : Text} → Reaches a b → (c : Text) × DependsOn a c
  Reaches-source (direct {to = b} k) = (b, k)
  Reaches-source (further w k) = Reaches-source w

  pub IsWalk-snoc :
      (front : List Text) (a b : Text)
      → IsWalk (front ++ a ∷ [])
      → DependsOn a b
      → IsWalk ((front ++ a ∷ []) ++ b ∷ [])
  IsWalk-snoc [] a b w k = (k, tt)
  IsWalk-snoc (x ∷ []) a b w k = (w.0, (k, tt))
  IsWalk-snoc (x ∷ y ∷ front) a b w k = (w.0, IsWalk-snoc (y ∷ front) a b w.1 k)

  IsWalk-tail : (a : Text) (rest : List Text) → IsWalk (a ∷ rest) → IsWalk rest
  IsWalk-tail a [] w = tt
  IsWalk-tail a (b ∷ rest) w = w.1

  IsWalk-from_index :
      (n : ℕ) (stack : List Text) (d : Text)
      → IsWalk (stack ++ d ∷ [])
      → IsWalk (from_index n stack ++ d ∷ [])
  unfolding from_index
  IsWalk-from_index zero stack d w = w
  IsWalk-from_index (suc n) [] d w = w
  IsWalk-from_index (suc n) (v ∷ vs) d w = IsWalk-from_index n vs d (IsWalk-tail v (vs ++ d ∷ []) w)

  from_index-index_of_string :
      (stack : List Text) (d : Text)
      → member d stack ≡ true
      → (n : ℕ) × (rest : List Text) × (index_of_string stack d ≡ some n)
        × (from_index n stack ≡ d ∷ rest)
  unfolding member index_of_string from_index
  from_index-index_of_string [] d h = cc
  from_index-index_of_string (v ∷ vs) d h = elim (Bool-cases (text_eq d v)) [
    | inl e ↦ (
      0,
      vs,
      ground (arith, e, text_eq_iff d v, text_eq_iff v d),
      ap (λ x. x ∷ vs) (sym ((text_eq_iff d v).0 e)),
    )
    | inr e ↦
        let (n, rest, i, f) = from_index-index_of_string vs d (ground (arith, h, e)) in
        (suc n, rest, ground (arith, e, i, text_eq_comm d v), f)
  ]

  -- The path that `closed_path` cuts from the stack: the first place of the name.
  pub closed_path-IsCycle :
      (stack : List Text) (d : Text)
      → IsWalk (stack ++ d ∷ [])
      → member d stack ≡ true
      → (names : List Text) × (closed_path stack d ≡ found names) × IsCycle names
  unfolding closed_path
  closed_path-IsCycle stack d w h =
      let (n, rest, i, f) = from_index-index_of_string stack d h in
      (
        from_index n stack ++ d ∷ [],
        rw (i, closed_path) refl,
        (d, rest, ap (λ vs. vs ++ d ∷ []) f, IsWalk-from_index n stack d w),
      )
