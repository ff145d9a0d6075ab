-- ===== src/Refedges/Visited.antt =====
-- The invariant of the search for a cycle, and the loop over the dependencies of a name.
use infrawright_dev.Refedges.SetMaps.{SetMap}
use infrawright_dev.Refedges.Cycles.{
  visiting, finished, Search, Stop, found, out_of_range, out_of_fuel, drop_last, closed_path,
  follow, nodes,
}
use infrawright_dev.Refedges.Walks.{IsWalk, IsCycle, IsOrdered, closed_path-IsCycle}
use infrawright_dev.Base.{
  ℕ, suc, ◌+◌, ◌<◌, true, false, none, some, List, [], ◌∷◌, ◌++◌, ◌≡◌, refl, sym, ap, subst, ◌↔◌,
  ◌∙◌, arith, if◌then◌else◌, length, Text, text_eq, text_eq_iff, text_eq_refl, member,
  member-append, Bool-cases, Option-cases, inl, inr, Result, ok, err, ◌>>=◌,
}

-- How many of the names are not on the stack.
unfoldable pub free : List Text → List Text → ℕ
free stack [] = 0
free stack (n ∷ ns) = (if member n stack then 0 else 1) + free stack ns

pub free_le : (stack ns : List Text) → free stack ns < suc (length ns)
unfolding free
free_le stack [] = omega arith
free_le stack (n ∷ ns) = ground (arith, free_le stack ns)

free-push_le :
    (stack : List Text) (root : Text) (ns : List Text)
    → free (stack ++ root ∷ []) ns < suc (free stack ns)
unfolding free member
free-push_le stack root [] = omega arith
free-push_le stack root (n ∷ ns) =
    ground (arith, free-push_le stack root ns, member-append n stack (root ∷ []))

pub free-push_lt :
    (stack : List Text) (root : Text) (ns : List Text)
    → member root stack ≡ false
    → member root ns ≡ true
    → free (stack ++ root ∷ []) ns < free stack ns
unfolding free member
free-push_lt stack root [] h k = cc
free-push_lt stack root (n ∷ ns) h k = ground (
  arith,
  free-push_lt stack root ns h,
  free-push_le stack root ns,
  member-append n stack (root ∷ []),
  text_eq_iff root n,
  text_eq_refl n,
  h,
  k,
)

pub drop_last-snoc : (stack : List Text) (root : Text) → drop_last (stack ++ root ∷ []) ≡ stack
unfolding drop_last
drop_last-snoc [] root = refl
drop_last-snoc (x ∷ []) root = refl
drop_last-snoc (x ∷ y ∷ stack) root = ap (x ∷◌) (drop_last-snoc (y ∷ stack) root)

module _ (dependencies : SetMap) where
  -- The names that are finished stand in an order that has no cycle, and the stack is a walk of those
  -- that are being visited.
  pub record Inv (s : Search) : Type 0 where
    pub order : List Text
    pub ordered : IsOrdered dependencies order
    pub done : (x : Text) → (s.state x ≡ some finished) ↔ (member x order ≡ true)
    pub entered : (x : Text) → (s.state x ≡ some visiting) ↔ (member x s.stack ≡ true)
    pub walk : IsWalk dependencies s.stack

  unfoldable pub Grows : Search → Search → Type 0
  Grows s t = (x : Text) → s.state x ≡ some finished → t.state x ≡ some finished

  unfoldable pub Kept : Search → Search → Type 0
  Kept s t = Inv t × (t.stack ≡ s.stack) × Grows s t

  -- A search ends with a cycle, or as is asked.
  abbrev pub Judged : (Search → Type 0) → Result Stop Search → Type 0
  Judged P (ok s) = P s
  Judged P (err (found names)) = IsCycle dependencies names
  Judged P (err _) = ⊥

  pub Judged-bind :
      (P Q : Search → Type 0) (m : Result Stop Search) (f : Search → Result Stop Search)
      → Judged P m
      → ((s : Search) → P s → Judged Q (f s))
      → Judged Q (m >>= f)
  Judged-bind P Q (ok s) f h k = k s h
  Judged-bind P Q (err (found names)) f h k = h
  Judged-bind P Q (err out_of_range) f h k = h
  Judged-bind P Q (err out_of_fuel) f h k = h

  unfoldable pub all_nodes : List Text
  all_nodes = nodes dependencies

  unfoldable pub Visits : ℕ → (Text → Search → Result Stop Search) → Type 0
  Visits fuel run =
      (root : Text) (s : Search)
      → Inv s
      → s.state root ≡ none
      → IsWalk dependencies (s.stack ++ root ∷ [])
      → member root all_nodes ≡ true
      → free s.stack all_nodes < fuel
      → Judged (λ t. Kept s t × (t.state root ≡ some finished)) (run root s)

  pub Judged-map :
      (P Q : Search → Type 0) (m : Result Stop Search)
      → ((s : Search) → P s → Q s)
      → Judged P m
      → Judged Q m
  Judged-map P Q (ok s) k h = k s h
  Judged-map P Q (err (found names)) k h = h
  Judged-map P Q (err out_of_range) k h = h
  Judged-map P Q (err out_of_fuel) k h = h

  unfoldable pub AllFinished : List Text → Search → Type 0
  AllFinished names s = (d : Text) → member d names ≡ true → s.state d ≡ some finished

  pub AllFinished-cons :
      (d : Text) (ds : List Text) (s : Search)
      → s.state d ≡ some finished
      → AllFinished ds s
      → AllFinished (d ∷ ds) s
  unfolding AllFinished member
  AllFinished-cons d ds s h k x m = elim (Bool-cases (text_eq x d)) [
    | inl same ↦ subst (λ z. s.state z ≡ some finished) (sym ((text_eq_iff x d).0 same)) h
    | inr other ↦ k x (ground (arith, other, m))
  ]

  -- Each name can be entered next.
  unfoldable pub Next : List Text → List Text → Type 0
  Next stack names =
      (d : Text)
      → member d names ≡ true
      → IsWalk dependencies (stack ++ d ∷ []) × (member d all_nodes ≡ true)

  Next-head :
      (stack ds : List Text) (d : Text)
      → Next stack (d ∷ ds)
      → IsWalk dependencies (stack ++ d ∷ []) × (member d all_nodes ≡ true)
  unfolding Next member
  Next-head stack ds d next = next d (ground (arith, text_eq_refl d))

  Next-tail : (stack ds : List Text) (d : Text) → Next stack (d ∷ ds) → Next stack ds
  unfolding Next member
  Next-tail stack ds d next x m = next x (ground (arith, m))

  closed_path-Judged :
      (P : Search → Type 0) (stack : List Text) (d : Text)
      → IsWalk dependencies (stack ++ d ∷ [])
      → member d stack ≡ true
      → Judged P (err (closed_path stack d))
  closed_path-Judged P stack d w h =
      let (names, e, cycle) = closed_path-IsCycle dependencies stack d w h in
      subst (λ c. Judged P (err c)) (sym e) cycle

  unfoldable pub Followed : ℕ → List Text → (Search → Result Stop Search) → Type 0
  Followed fuel ds rest =
      (t : Search)
      → Inv t
      → Next t.stack ds
      → free t.stack all_nodes < fuel
      → Judged (λ u. Kept t u × AllFinished ds u) (rest t)

  -- The loop goes on after a name that is finished.
  Followed-cons :
      (fuel : ℕ) (ds : List Text) (rest : Search → Result Stop Search)
      → Followed fuel ds rest
      → (d : Text) (s t : Search) → Next s.stack (d ∷ ds)
      → free s.stack all_nodes < fuel
      → Kept s t
      → t.state d ≡ some finished
      → Judged (λ u. Kept s u × AllFinished (d ∷ ds) u) (rest t)
  unfolding Followed Kept Grows
  Followed-cons fuel ds rest f d s t next bound kept done_d =
      Judged-map _ _ (rest t)
        (λ u h. (
          (h.0.0, h.0.1 ∙ kept.1, λ x k. h.0.2 x (kept.2 x k)),
          AllFinished-cons d ds u (h.0.2 d done_d) h.1,
        ))
        (f t kept.0 (subst (λ st. Next st ds) (sym kept.1) (Next-tail s.stack ds d next))
          (subst (λ st. free st all_nodes < fuel) (sym kept.1) bound))

  Kept-refl : (s : Search) → Inv s → Kept s s
  unfolding Kept Grows
  Kept-refl s inv = (inv, refl, λ x h. h)

  pub follow-Judged :
      (fuel : ℕ) (run : Text → Search → Result Stop Search)
      → Visits fuel run
      → (ds : List Text) → Followed fuel ds (follow run ds)
  unfolding follow AllFinished member Followed Visits
  follow-Judged fuel run v [] s inv next bound = (Kept-refl s inv, λ d h. cc)
  follow-Judged fuel run v (d ∷ ds) s inv next bound =
      let later = Followed-cons fuel ds (follow run ds) (follow-Judged fuel run v ds) d s in
      let head = Next-head s.stack ds d next in
      elim (Option-cases (s.state d)) [
        | inl new ↦
            rw (new, follow)
              (Judged-bind (λ t. Kept s t × (t.state d ≡ some finished)) _ (run d s) (follow run ds)
                (v d s inv new head.0 head.1 bound) (λ t h. later t next bound h.0 h.1))
        | inr (finished, e) ↦ rw (e, follow) (later s next bound (Kept-refl s inv) e)
        | inr (visiting, e) ↦
            rw (e, follow)
              (closed_path-Judged (λ u. Kept s u × AllFinished (d ∷ ds) u) s.stack d head.0
                ((inv.entered d).0 e))
      ]
