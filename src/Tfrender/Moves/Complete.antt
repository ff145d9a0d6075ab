-- ===== src/Tfrender/Moves/Complete.antt =====
-- go/internal/tfrender/import_moves.go: the renames between two files, and what `DeriveImportMoves`
-- reports.
use infrawright_dev.Base.Sorting.{stable_sort, Any-stable_sort}
use infrawright_dev.Base.{
  ◌≡◌, ◌≢◌, refl, ap, sym, true, false, List, [], ◌∷◌, Text, text_eq, text_lt, text_eq_iff,
  text_eq_refl, text_eq_comm, member, Any, Any-append_left, Any-append_right, Option, none, some,
  ok, arith, Bool-cases, inl, inr, ◌⊎◌,
}
use infrawright_dev.Tfrender.Imports.{GeneratedImportPair, parse_generated_imports}
use infrawright_dev.Tfrender.Moves.Safety.{derived_moves}
use infrawright_dev.Tfrender.Moves.{
  ImportMove, ImportMoveSuppression, ImportMoveSuppressionReason, ImportMoveDerivation,
  ImportMoveCandidate, id_of, keys_with, keys_by_import_id, distinct_ids, import_ids,
  candidates_from, candidates_for, candidates_of, suppression_reason, moves_of, suppressions_of,
  move_lt, suppression_lt, derive_from, derive_import_moves,
}

member-Any : (k : Text) (ks : List Text) → member k ks ≡ true → Any (λ j. j ≡ k) ks
unfolding member
member-Any k [] h = cc
member-Any k (j ∷ js) h = elim (Bool-cases (text_eq k j)) [
  | inl same ↦ inl (sym ((text_eq_iff k j).0 same))
  | inr other ↦ inr (member-Any k js (rw other at h))
]

member-keys_with_of :
    (ps : List GeneratedImportPair) (k id : Text)
    → id_of ps k ≡ some id
    → member k (keys_with ps id) ≡ true
unfolding id_of keys_with member
member-keys_with_of [] k id h = cc
member-keys_with_of (p ∷ ps) k id h =
    ground (arith, member-keys_with_of ps k id, text_eq_comm k p.key, text_eq_refl p.import_id)

member-distinct_ids :
    (ps : List GeneratedImportPair) (k id : Text)
    → id_of ps k ≡ some id
    → member id (distinct_ids ps) ≡ true
unfolding id_of distinct_ids member
member-distinct_ids [] k id h = cc
member-distinct_ids (p ∷ ps) k id h =
    ground (arith, member-distinct_ids ps k id, text_eq_refl p.import_id)

abbrev candidate : Text → Text → Text → ImportMoveCandidate
candidate o n id = record { old_key = o; new_key = n; import_id = id }

module _ (o n id : Text) (differs : text_eq o n ≡ false) where
  Any-candidates_from :
      (new_keys : List Text)
      → Any (λ k. k ≡ n) new_keys
      → Any (λ c. c ≡ candidate o n id) (candidates_from id o new_keys)
  unfolding candidates_from
  Any-candidates_from [] h = h
  Any-candidates_from (k ∷ ks) (inl e) = rw (e, differs) (inl refl)
  Any-candidates_from (k ∷ ks) (inr h) = elim (Bool-cases (text_eq o k)) [
    | inl same ↦ rw same (Any-candidates_from ks h)
    | inr other ↦ rw other (inr (Any-candidates_from ks h))
  ]

  Any-candidates_for :
      (old_keys new_keys : List Text)
      → Any (λ k. k ≡ o) old_keys
      → Any (λ k. k ≡ n) new_keys
      → Any (λ c. c ≡ candidate o n id) (candidates_for id old_keys new_keys)
  unfolding candidates_for
  Any-candidates_for [] new_keys h k = absurd h
  Any-candidates_for (j ∷ js) new_keys (inl e) k =
      rw e (Any-append_left _ (candidates_from id o new_keys) _ (Any-candidates_from new_keys k))
  Any-candidates_for (j ∷ js) new_keys (inr h) k =
      Any-append_right _ (candidates_from id j new_keys) _ (Any-candidates_for js new_keys h k)

  Any-candidates_of :
      (old_pairs new_pairs : List GeneratedImportPair) (ids : List Text)
      → Any (λ k. k ≡ o) (keys_by_import_id old_pairs id)
      → Any (λ k. k ≡ n) (keys_by_import_id new_pairs id)
      → Any (λ i. i ≡ id) ids
      → Any (λ c. c ≡ candidate o n id) (candidates_of old_pairs new_pairs ids)
  unfolding candidates_of
  Any-candidates_of old_pairs new_pairs [] h k m = m
  Any-candidates_of old_pairs new_pairs (i ∷ is) h k (inl e) =
      rw e (Any-append_left _ _ _ (Any-candidates_for _ _ h k))
  Any-candidates_of old_pairs new_pairs (i ∷ is) h k (inr m) =
      Any-append_right _
        (candidates_for i (keys_by_import_id old_pairs i) (keys_by_import_id new_pairs i)) _
        (Any-candidates_of old_pairs new_pairs is h k m)

-- The rename stands in a list of moves, or in a list of suppressions.
abbrev pub IsReported : (o n id : Text) → List ImportMove → List ImportMoveSuppression → Type 0
IsReported o n id moves suppressed =
    Any (λ m. (m.old_key ≡ o) × (m.new_key ≡ n)) moves
    ⊎ Any (λ s. (s.old_key ≡ o) × (s.new_key ≡ n) × (s.import_id ≡ id)) suppressed

module _ (reason : ImportMoveCandidate → Option ImportMoveSuppressionReason) (o n id : Text) where
  abbrev Split : List ImportMoveCandidate → Type 0
  Split cs = IsReported o n id (moves_of reason cs) (suppressions_of reason cs)

  -- Each way that the loop takes for the candidate `c`.
  Split-cons :
      (c : ImportMoveCandidate) (cs : List ImportMoveCandidate)
      (why : Option ImportMoveSuppressionReason)
      → reason c ≡ why
      → (c ≡ candidate o n id) ⊎ Split cs
      → Split (c ∷ cs)
  unfolding moves_of suppressions_of
  Split-cons c cs none e (inl same) =
      rw (e, moves_of) (inl (inl (ap (λ d. d.old_key) same, ap (λ d. d.new_key) same)))
  Split-cons c cs none e (inr (inl m)) = rw (e, moves_of) (inl (inr m))
  Split-cons c cs none e (inr (inr s)) = rw (e, moves_of, suppressions_of) (inr s)
  Split-cons c cs (some why) e (inl same) =
      rw (e, suppressions_of)
        (inr (inl (ap (λ d. d.old_key) same, ap (λ d. d.new_key) same, ap (λ d. d.import_id) same)))
  Split-cons c cs (some why) e (inr (inl m)) = rw (e, moves_of, suppressions_of) (inl m)
  Split-cons c cs (some why) e (inr (inr s)) = rw (e, suppressions_of) (inr (inr s))

  id_of-Split : (cs : List ImportMoveCandidate) → Any (λ c. c ≡ candidate o n id) cs → Split cs
  id_of-Split [] h = absurd h
  id_of-Split (c ∷ cs) (inl e) = Split-cons c cs (reason c) refl (inl e)
  id_of-Split (c ∷ cs) (inr h) = Split-cons c cs (reason c) refl (inr (id_of-Split cs h))

derived_suppressions :
    (old_pairs new_pairs : List GeneratedImportPair) {d : ImportMoveDerivation}
    → derive_from old_pairs new_pairs ≡ ok d
    → let candidates = candidates_of old_pairs new_pairs (import_ids new_pairs) in
      d.suppressed
      ≡ stable_sort suppression_lt
          (suppressions_of (suppression_reason old_pairs new_pairs candidates) candidates)
unfolding derive_from
derived_suppressions old_pairs new_pairs h = ground arith

Any-candidates :
    (old_pairs new_pairs : List GeneratedImportPair) (o n id : Text)
    → text_eq o n ≡ false
    → id_of old_pairs o ≡ some id
    → id_of new_pairs n ≡ some id
    → Any (λ c. c ≡ candidate o n id) (candidates_of old_pairs new_pairs (import_ids new_pairs))
unfolding import_ids keys_by_import_id
Any-candidates old_pairs new_pairs o n id differs was now =
    Any-candidates_of o n id differs old_pairs new_pairs (import_ids new_pairs)
      (Any-stable_sort text_lt _ _ (member-Any o _ (member-keys_with_of old_pairs o id was)))
      (Any-stable_sort text_lt _ _ (member-Any n _ (member-keys_with_of new_pairs n id now)))
      (Any-stable_sort text_lt _ _ (member-Any id _ (member-distinct_ids new_pairs n id now)))

derive_from-IsReported :
    (old_pairs new_pairs : List GeneratedImportPair) {d : ImportMoveDerivation} (o n id : Text)
    → derive_from old_pairs new_pairs ≡ ok d
    → o ≢ n
    → id_of old_pairs o ≡ some id
    → id_of new_pairs n ≡ some id
    → IsReported o n id d.moves d.suppressed
derive_from-IsReported old_pairs new_pairs o n id h differs was now =
    let candidates = candidates_of old_pairs new_pairs (import_ids new_pairs) in
    let split =
      id_of-Split (suppression_reason old_pairs new_pairs candidates) o n id candidates
        (Any-candidates old_pairs new_pairs o n id (differ o n differs) was now) in
    rw (derived_moves old_pairs new_pairs h, derived_suppressions old_pairs new_pairs h)
      (sort _ _ split)
  where
    differ : (a b : Text) → a ≢ b → text_eq a b ≡ false
    differ a b h = ground (arith, text_eq_iff a b)

    sort :
        (ms : List ImportMove) (ss : List ImportMoveSuppression)
        → IsReported o n id ms ss
        → IsReported o n id (stable_sort move_lt ms) (stable_sort suppression_lt ss)
    sort ms ss (inl m) = inl (Any-stable_sort move_lt _ _ m)
    sort ms ss (inr s) = inr (Any-stable_sort suppression_lt _ _ s)

-- No rename is dropped: an import ID that the old file binds to the key `o` and the new file to
-- another key `n` shows in the derivation, as a move from `o` to `n` or as a suppression with
-- that ID.
pub derive_import_moves-IsReported :
    (resource_type old_text new_text : Text) {old_pairs new_pairs : List GeneratedImportPair}
    {d : ImportMoveDerivation} (o n id : Text)
    → parse_generated_imports resource_type old_text ≡ ok old_pairs
    → parse_generated_imports resource_type new_text ≡ ok new_pairs
    → derive_import_moves resource_type old_text new_text ≡ ok d
    → o ≢ n
    → id_of old_pairs o ≡ some id
    → id_of new_pairs n ≡ some id
    → IsReported o n id d.moves d.suppressed
unfolding derive_import_moves
derive_import_moves-IsReported resource_type old_text new_text {old_pairs} {new_pairs} o n id ho hn
      h =
    derive_from-IsReported old_pairs new_pairs o n id (rw (ho, hn) at h)
