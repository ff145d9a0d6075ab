-- ===== src/Tfrender/Moves/Unique.antt =====
-- go/internal/tfrender/import_moves.go: the addresses of the moves that `DeriveImportMoves` keeps.
use infrawright_dev.Base.SortedKeys.{is_distinct-stable_sort}
use infrawright_dev.Base.{
  ◌≤◌, ◌≡◌, refl, ap, sym, ◌∙◌, true, List, [], ◌∷◌, map, Text, text_eq, text_eq_iff, text_eq_comm,
  member, is_distinct, occurrences, is_distinct_of_occurrences, All, Option, none, some, ok, arith,
  Bool-cases, inl, inr, bind-eq-ok,
}
use infrawright_dev.Tfrender.Imports.Canonical.{parse_generated_imports-IsCanonical}
use infrawright_dev.Tfrender.Imports.{GeneratedImportPair, parse_generated_imports}
use infrawright_dev.Tfrender.Moves.Safety.{IsSafe, derived_moves, derive_from-IsSafe}
use infrawright_dev.Tfrender.Moves.{
  ImportMove, ImportMoveSuppressionReason, ImportMoveDerivation, ImportMoveCandidate, id_of,
  import_ids, candidates_of, from_count, suppression_reason, moves_of, move_lt, derive_from,
  derive_import_moves,
}

abbrev pub sources : List ImportMove → List Text
sources = map (λ m. m.old_key)

abbrev pub destinations : List ImportMove → List Text
destinations = map (λ m. m.new_key)

-- A kept old key is counted at most once among the candidates.
abbrev CountsOnce :
    List ImportMoveCandidate → (ImportMoveCandidate → Option ImportMoveSuppressionReason) → Type 0
CountsOnce candidates reason =
    (c : ImportMoveCandidate) → reason c ≡ none → from_count candidates c.old_key ≤ 1

occurrences-le_from_count :
    (reason : ImportMoveCandidate → Option ImportMoveSuppressionReason)
    (cs : List ImportMoveCandidate) (k : Text)
    → occurrences k (sources (moves_of reason cs)) ≤ from_count cs k
unfolding moves_of occurrences from_count
occurrences-le_from_count reason [] k = omega arith
occurrences-le_from_count reason (c ∷ cs) k =
    ground (arith, occurrences-le_from_count reason cs k, text_eq_comm k c.old_key)

member_source :
    (candidates : List ImportMoveCandidate)
    (reason : ImportMoveCandidate → Option ImportMoveSuppressionReason)
    (cs : List ImportMoveCandidate) (k : Text)
    → CountsOnce candidates reason
    → member k (sources (moves_of reason cs)) ≡ true
    → from_count candidates k ≤ 1
unfolding moves_of member
member_source candidates reason [] k once h = cc
member_source candidates reason (c ∷ cs) k once h =
    ground (arith, member_source candidates reason cs k once, text_eq_iff k c.old_key, once c)

is_distinct-sources :
    (reason : ImportMoveCandidate → Option ImportMoveSuppressionReason)
    (cs : List ImportMoveCandidate)
    → CountsOnce cs reason
    → is_distinct (sources (moves_of reason cs)) ≡ true
is_distinct-sources reason cs once =
    is_distinct_of_occurrences (sources (moves_of reason cs)) λ k m.
      omega (arith, occurrences-le_from_count reason cs k, member_source cs reason cs k once m)

suppression_reason-CountsOnce :
    (old_pairs new_pairs : List GeneratedImportPair) (cs : List ImportMoveCandidate)
    → CountsOnce cs (suppression_reason old_pairs new_pairs cs)
unfolding suppression_reason
suppression_reason-CountsOnce old_pairs new_pairs cs c h = ground arith

-- The new key of a safe move decides its old key.
destination_source :
    (old_pairs new_pairs : List GeneratedImportPair) (a b : ImportMove)
    → IsSafe old_pairs new_pairs a
    → IsSafe old_pairs new_pairs b
    → a.new_key ≡ b.new_key
    → a.old_key ≡ b.old_key
destination_source old_pairs new_pairs a b sa sb e =
    let same_id : some sa.import_id ≡ some sb.import_id =
      sym sa.now ∙ ap (id_of new_pairs) e ∙ sb.now in
    ground (arith, sa.only, sb.only, same_id)

member_destination :
    (old_pairs new_pairs : List GeneratedImportPair) (a : ImportMove) (ms : List ImportMove)
    → IsSafe old_pairs new_pairs a
    → All (IsSafe old_pairs new_pairs) ms
    → member a.new_key (destinations ms) ≡ true
    → member a.old_key (sources ms) ≡ true
unfolding member
member_destination old_pairs new_pairs a [] sa s h = cc
member_destination old_pairs new_pairs a (m ∷ ms) sa s h =
    elim (Bool-cases (text_eq a.new_key m.new_key)) [
      | inl same ↦
          let old_same =
            destination_source old_pairs new_pairs a m sa s.0 ((text_eq_iff _ _).0 same) in
          rw ((text_eq_iff a.old_key m.old_key).1 old_same) refl
      | inr other ↦
          ground (arith, member_destination old_pairs new_pairs a ms sa s.1 (rw other at h))
    ]

is_distinct-destinations :
    (old_pairs new_pairs : List GeneratedImportPair) (ms : List ImportMove)
    → All (IsSafe old_pairs new_pairs) ms
    → is_distinct (sources ms) ≡ true
    → is_distinct (destinations ms) ≡ true
unfolding is_distinct
is_distinct-destinations old_pairs new_pairs [] s h = refl
is_distinct-destinations old_pairs new_pairs (m ∷ ms) s h = ground (
  arith,
  member_destination old_pairs new_pairs m ms s.0 s.1,
  is_distinct-destinations old_pairs new_pairs ms s.1,
)

sources_once :
    (old_pairs new_pairs : List GeneratedImportPair) {d : ImportMoveDerivation}
    → derive_from old_pairs new_pairs ≡ ok d
    → is_distinct (sources d.moves) ≡ true
sources_once old_pairs new_pairs h =
    let candidates = candidates_of old_pairs new_pairs (import_ids new_pairs) in
    rw (derived_moves old_pairs new_pairs h) (
      is_distinct-stable_sort move_lt (λ m. m.old_key) _
      ∙ is_distinct-sources (suppression_reason old_pairs new_pairs candidates) candidates
          (suppression_reason-CountsOnce old_pairs new_pairs candidates))

-- Among the moves that `derive_import_moves` keeps, no old address stands twice and no new address
-- stands twice.
pub derive_import_moves-is_distinct :
    (resource_type old_text new_text : Text) {d : ImportMoveDerivation}
    → derive_import_moves resource_type old_text new_text ≡ ok d
    → (is_distinct (sources d.moves) ≡ true) × (is_distinct (destinations d.moves) ≡ true)
unfolding derive_import_moves
derive_import_moves-is_distinct resource_type old_text new_text {d} h =
    let (old_pairs, reads_old, h1) =
      bind-eq-ok (parse_generated_imports resource_type old_text) _ h in
    let (new_pairs, reads_new, h2) =
      bind-eq-ok (parse_generated_imports resource_type new_text) _ h1 in
    let once = sources_once old_pairs new_pairs h2 in
    let safe =
      derive_from-IsSafe old_pairs new_pairs
        (parse_generated_imports-IsCanonical resource_type old_text old_pairs reads_old).1
        (parse_generated_imports-IsCanonical resource_type new_text new_pairs reads_new).1 h2 in
    (once, is_distinct-destinations old_pairs new_pairs d.moves safe once)
