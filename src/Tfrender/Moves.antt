-- ===== src/Tfrender/Moves.antt =====
-- go/internal/tfrender/import_moves.go: `DeriveImportMoves` and `RenderMovedBlocks`.
pub mod Safety
pub mod Complete
pub mod Unique
use infrawright_dev.Base.Sorting.{stable_sort}
use infrawright_dev.Base.{
  ℕ, zero, suc, ◌+◌, Bool, true, false, not, ◌&&◌, ◌||◌, List, [], ◌∷◌, ◌++◌, map, leb, ltb, ◌==◌,
  if◌then◌else◌, length, Text, codes, text_eq, text_lt, member, Option, none, some, is_some, Result,
  ok, err, ◌>>=◌, ◌>>◌,
}
use infrawright_dev.Tfrender.Quoted.{Failure, import_move_limit_exceeded, render_quoted}
use infrawright_dev.Tfrender.Imports.{
  GeneratedImportPair, require, require_import_resource_type, parse_generated_imports, join,
}

-- `maxImportMoveCandidates`
abbrev pub max_import_move_candidates : ℕ
max_import_move_candidates = 50_000

pub record ImportMove : Type 0 where
  pub old_key : Text
  pub new_key : Text

pub data ImportMoveSuppressionReason : Type 0 where
  ambiguous duplicate_from key_swap destination_occupied : ImportMoveSuppressionReason

pub record ImportMoveSuppression : Type 0 where
  pub old_key : Text
  pub new_key : Text
  pub import_id : Text
  pub reason : ImportMoveSuppressionReason

pub record ImportMoveDerivation : Type 0 where
  pub moves : List ImportMove
  pub suppressed : List ImportMoveSuppression

pub record ImportMoveCandidate : Type 0 where
  pub old_key : Text
  pub new_key : Text
  pub import_id : Text

-- The map of `pairsByKey`, looked up at a key: the last pair with the key is the one kept.
unfoldable pub id_of : List GeneratedImportPair → Text → Option Text
id_of [] key = none
id_of (p ∷ ps) key = elim (id_of ps key) [
  | some id ↦ some id
  | none ↦ if text_eq p.key key then some p.import_id else none
]

-- The keys with an import ID, in the order of the pairs.
unfoldable pub keys_with : List GeneratedImportPair → Text → List Text
keys_with [] id = []
keys_with (p ∷ ps) id =
    let rest = keys_with ps id in if text_eq p.import_id id then p.key ∷ rest else rest

-- The map of `keysByImportID`, looked up at an ID.
unfoldable pub keys_by_import_id : List GeneratedImportPair → Text → List Text
unfolding keys_with
keys_by_import_id pairs id = stable_sort text_lt (keys_with pairs id)

-- The keys of that map, in order.
unfoldable pub distinct_ids : List GeneratedImportPair → List Text
distinct_ids [] = []
distinct_ids (p ∷ ps) =
    let rest = distinct_ids ps in if member p.import_id rest then rest else p.import_id ∷ rest

unfoldable pub import_ids : List GeneratedImportPair → List Text
unfolding distinct_ids
import_ids pairs = stable_sort text_lt (distinct_ids pairs)

both : Option Text → Option Text → Option Text → Option Text → Bool
both (some old_old) (some old_new) (some new_old) (some new_new) =
    text_eq old_old new_new && text_eq old_new new_old
both _ _ _ _ = false

unfoldable pub is_key_swap :
    (old_key new_key : Text) (old_pairs new_pairs : List GeneratedImportPair) → Bool
unfolding both
is_key_swap old_key new_key old_pairs new_pairs =
    both (id_of old_pairs old_key) (id_of old_pairs new_key) (id_of new_pairs old_key)
      (id_of new_pairs new_key)

-- The inner loop, over the new keys of an ID.
unfoldable pub candidates_from : Text → Text → List Text → List ImportMoveCandidate
candidates_from id old_key [] = []
candidates_from id old_key (new_key ∷ new_keys) =
    let rest = candidates_from id old_key new_keys in
    if not (text_eq old_key new_key)
    then record { old_key = old_key; new_key = new_key; import_id = id } ∷ rest
    else rest

-- The middle loop, over the old keys of an ID.
unfoldable pub candidates_for : Text → List Text → List Text → List ImportMoveCandidate
unfolding candidates_from
candidates_for id [] new_keys = []
candidates_for id (old_key ∷ old_keys) new_keys =
    candidates_from id old_key new_keys ++ candidates_for id old_keys new_keys

-- The outer loop, over the IDs.
unfoldable pub candidates_of :
    (old_pairs new_pairs : List GeneratedImportPair) → List Text → List ImportMoveCandidate
unfolding candidates_for keys_by_import_id
candidates_of old_pairs new_pairs [] = []
candidates_of old_pairs new_pairs (id ∷ ids) =
    candidates_for id (keys_by_import_id old_pairs id) (keys_by_import_id new_pairs id)
    ++ candidates_of old_pairs new_pairs ids

-- `fromCounts`, looked up at an old key.
unfoldable pub from_count : List ImportMoveCandidate → Text → ℕ
from_count [] key = 0
from_count (c ∷ cs) key = (if text_eq c.old_key key then 1 else 0) + from_count cs key

-- The switch over a candidate: `none` is the empty reason.
unfoldable pub suppression_reason :
    (old_pairs new_pairs : List GeneratedImportPair)
    → List ImportMoveCandidate
    → ImportMoveCandidate
    → Option ImportMoveSuppressionReason
suppression_reason old_pairs new_pairs candidates c =
    if ltb 1 (length (keys_by_import_id old_pairs c.import_id))
    then some ambiguous
    else if ltb 1 (from_count candidates c.old_key)
    then some duplicate_from
    else if is_key_swap c.old_key c.new_key old_pairs new_pairs
    then some key_swap
    else if is_some (id_of old_pairs c.new_key) || is_some (id_of new_pairs c.old_key)
    then some destination_occupied
    else none

-- The two lists that the loop over the candidates appends to.
unfoldable pub moves_of :
    (ImportMoveCandidate → Option ImportMoveSuppressionReason)
    → List ImportMoveCandidate
    → List ImportMove
moves_of reason [] = []
moves_of reason (c ∷ cs) =
    let rest = moves_of reason cs in
    elim (reason c) [
      | none ↦ record { old_key = c.old_key; new_key = c.new_key } ∷ rest
      | some why ↦ rest
    ]

unfoldable pub suppressions_of :
    (ImportMoveCandidate → Option ImportMoveSuppressionReason)
    → List ImportMoveCandidate
    → List ImportMoveSuppression
suppressions_of reason [] = []
suppressions_of reason (c ∷ cs) =
    let rest = suppressions_of reason cs in
    elim (reason c) [
      | none ↦ rest
      | some why ↦
          record { old_key = c.old_key; new_key = c.new_key; import_id = c.import_id; reason = why }
          ∷ rest
    ]

-- `compareMoves(left, right) < 0`
unfoldable pub move_lt : ImportMove → ImportMove → Bool
move_lt a b =
    text_lt a.old_key b.old_key || (text_eq a.old_key b.old_key && text_lt a.new_key b.new_key)

reason_text : ImportMoveSuppressionReason → Text
reason_text ambiguous = codes "ambiguous"
reason_text duplicate_from = codes "duplicate_from"
reason_text key_swap = codes "key_swap"
reason_text destination_occupied = codes "destination_occupied"

-- `compareSuppressions(left, right) < 0`
unfoldable pub suppression_lt : ImportMoveSuppression → ImportMoveSuppression → Bool
unfolding reason_text
suppression_lt a b =
    if not (text_eq a.old_key b.old_key)
    then text_lt a.old_key b.old_key
    else if not (text_eq a.new_key b.new_key)
    then text_lt a.new_key b.new_key
    else if not (text_eq a.import_id b.import_id)
    then text_lt a.import_id b.import_id
    else text_lt (reason_text a.reason) (reason_text b.reason)

-- What is derived from the entries of the two files.
unfoldable pub derive_from :
    (old_entries new_entries : List GeneratedImportPair) → Result Failure ImportMoveDerivation
derive_from old_entries new_entries = do
  let candidates = candidates_of old_entries new_entries (import_ids new_entries)
  require (leb (length candidates) max_import_move_candidates) import_move_limit_exceeded
  let reason = suppression_reason old_entries new_entries candidates
  ok (record {
    moves = stable_sort move_lt (moves_of reason candidates);
    suppressed = stable_sort suppression_lt (suppressions_of reason candidates);
  })

unfoldable pub derive_import_moves :
    (resource_type old_text new_text : Text) → Result Failure ImportMoveDerivation
derive_import_moves resource_type old_text new_text = do
  old_entries ← parse_generated_imports resource_type old_text
  new_entries ← parse_generated_imports resource_type new_text
  derive_from old_entries new_entries

-- The block of one move.
unfoldable pub render_move : Text → ImportMove → Result Failure Text
render_move resource_type move = do
  from ← render_quoted move.old_key
  to ← render_quoted move.new_key
  ok (
      codes "moved {\n  from = module."
      ++ (resource_type
          ++ (codes "."
              ++ (resource_type
                  ++ (codes ".this["
                      ++ (from
                          ++ (codes "]\n  to   = module."
                              ++ (resource_type
                                  ++ (codes "."
                                      ++ (resource_type
                                          ++ (codes ".this[" ++ (to ++ codes "]\n}\n"))))))))))))

unfoldable pub render_moves : Text → List ImportMove → Result Failure (List Text)
unfolding render_move
render_moves resource_type [] = ok []
render_moves resource_type (m ∷ ms) = do
  block ← render_move resource_type m
  blocks ← render_moves resource_type ms
  ok (block ∷ blocks)

unfoldable pub render_moved_blocks : Text → List ImportMove → Result Failure Text
unfolding render_moves
render_moved_blocks resource_type moves = do
  require_import_resource_type resource_type
  require (leb (length moves) max_import_move_candidates) import_move_limit_exceeded
  blocks ← render_moves resource_type moves
  ok (join (codes "\n") blocks)
