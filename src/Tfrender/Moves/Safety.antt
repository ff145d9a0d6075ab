-- ===== src/Tfrender/Moves/Safety.antt =====
-- go/internal/tfrender/import_moves.go: the moves that `DeriveImportMoves` keeps.
use infrawright_dev.Base.Sorting.{stable_sort, All-stable_sort}
use infrawright_dev.Base.SortedKeys.{member-stable_sort}
use infrawright_dev.Base.{
  ◌≡◌, ◌≢◌, refl, ap, sym, ◌∙◌, true, false, List, [], ◌∷◌, map, ltb, length, Text, text_eq,
  text_lt, text_eq_iff, text_eq_refl, text_eq_comm, member, is_distinct, All, All-append, Option,
  none, some, ok, arith, Bool-cases, inl, inr,
}
use infrawright_dev.Tfrender.Imports.Canonical.{parse_generated_imports-IsCanonical}
use infrawright_dev.Tfrender.Imports.{GeneratedImportPair, keys, parse_generated_imports}
use infrawright_dev.Tfrender.Moves.{
  ImportMove, ImportMoveSuppressionReason, ImportMoveDerivation, ImportMoveCandidate, id_of,
  keys_with, keys_by_import_id, import_ids, candidates_from, candidates_for, candidates_of,
  from_count, suppression_reason, moves_of, move_lt, derive_from, derive_import_moves,
}

map_id : (xs : List Text) → map (λ x. x) xs ≡ xs
map_id [] = refl
map_id (x ∷ xs) = ap (λ l. x ∷ l) (map_id xs)

member-sorted : (k : Text) (xs : List Text) → member k (stable_sort text_lt xs) ≡ member k xs
member-sorted k xs =
    ap (member k) (sym (map_id (stable_sort text_lt xs)))
    ∙ member-stable_sort text_lt (λ x. x) k xs
    ∙ ap (member k) (map_id xs)

-- The elements of a list that is part of another are members of the other.
All-member_of :
    (xs ys : List Text)
    → ((k : Text) → member k xs ≡ true → member k ys ≡ true)
    → All (λ k. member k ys ≡ true) xs
unfolding member
All-member_of [] ys h = tt
All-member_of (x ∷ xs) ys h =
    (h x (rw text_eq_refl refl), All-member_of xs ys (λ k m. h k (ground (arith, m))))

All-keys_by_import_id :
    (ps : List GeneratedImportPair) (id : Text)
    → All (λ k. member k (keys_with ps id) ≡ true) (keys_by_import_id ps id)
unfolding keys_by_import_id
All-keys_by_import_id ps id =
    All-member_of (stable_sort text_lt (keys_with ps id)) (keys_with ps id)
      (λ k m. rw member-sorted at m)

member-keys_with :
    (ps : List GeneratedImportPair) (id k : Text)
    → member k (keys_with ps id) ≡ true
    → member k (keys ps) ≡ true
unfolding keys_with member
member-keys_with [] id k h = h
member-keys_with (p ∷ ps) id k h = ground (arith, member-keys_with ps id k)

id_of-none :
    (ps : List GeneratedImportPair) (k : Text) → member k (keys ps) ≡ false → id_of ps k ≡ none
unfolding id_of member
id_of-none [] k h = refl
id_of-none (p ∷ ps) k h = ground (arith, id_of-none ps k, text_eq_comm k p.key)

-- With distinct keys, a key that is listed under an ID is bound to that ID.
id_of-keys_with :
    (ps : List GeneratedImportPair) (id k : Text)
    → is_distinct (keys ps) ≡ true
    → member k (keys_with ps id) ≡ true
    → id_of ps k ≡ some id
unfolding id_of keys_with member is_distinct
id_of-keys_with [] id k d h = cc
id_of-keys_with (p ∷ ps) id k d h = ground (
  arith,
  id_of-keys_with ps id k,
  id_of-none ps k,
  text_eq_iff k p.key,
  text_eq_comm k p.key,
  text_eq_iff p.import_id id,
)

module _ (old_pairs new_pairs : List GeneratedImportPair) where
  -- What the loops collect: an old and a new key of one import ID, which differ.
  record Renames (c : ImportMoveCandidate) : Type 0 where
    was : member c.old_key (keys_with old_pairs c.import_id) ≡ true
    now : member c.new_key (keys_with new_pairs c.import_id) ≡ true
    differs : text_eq c.old_key c.new_key ≡ false

  candidates_from-Renames :
      (id old_key : Text) (new_keys : List Text)
      → member old_key (keys_with old_pairs id) ≡ true
      → All (λ k. member k (keys_with new_pairs id) ≡ true) new_keys
      → All Renames (candidates_from id old_key new_keys)
  unfolding candidates_from
  candidates_from-Renames id old_key [] h hs = tt
  candidates_from-Renames id old_key (k ∷ ks) h hs = elim (Bool-cases (text_eq old_key k)) [
    | inl same ↦ rw same (candidates_from-Renames id old_key ks h hs.1)
    | inr other ↦ rw other (
      record { was = h; now = hs.0; differs = other },
      candidates_from-Renames id old_key ks h hs.1,
    )
  ]

  candidates_for-Renames :
      (id : Text) (old_keys new_keys : List Text)
      → All (λ k. member k (keys_with old_pairs id) ≡ true) old_keys
      → All (λ k. member k (keys_with new_pairs id) ≡ true) new_keys
      → All Renames (candidates_for id old_keys new_keys)
  unfolding candidates_for
  candidates_for-Renames id [] new_keys hs ks = tt
  candidates_for-Renames id (o ∷ os) new_keys hs ks =
      All-append Renames (candidates_from id o new_keys) (candidates_for id os new_keys)
        (candidates_from-Renames id o new_keys hs.0 ks)
        (candidates_for-Renames id os new_keys hs.1 ks)

  candidates_of-Renames : (ids : List Text) → All Renames (candidates_of old_pairs new_pairs ids)
  unfolding candidates_of
  candidates_of-Renames [] = tt
  candidates_of-Renames (id ∷ ids) =
      All-append Renames
        (candidates_for id (keys_by_import_id old_pairs id) (keys_by_import_id new_pairs id))
        (candidates_of old_pairs new_pairs ids)
        (candidates_for-Renames id _ _ (All-keys_by_import_id old_pairs id)
          (All-keys_by_import_id new_pairs id))
        (candidates_of-Renames ids)

-- A move from an address to another one of the same import ID: the old address stood in the old
-- file alone with the ID, and is gone from the new file; the new address stands in the new file, and
-- did not stand in the old one.
pub record IsSafe (old_pairs new_pairs : List GeneratedImportPair) (m : ImportMove) : Type 0 where
  pub import_id : Text
  pub was : id_of old_pairs m.old_key ≡ some import_id
  pub now : id_of new_pairs m.new_key ≡ some import_id
  pub differs : m.old_key ≢ m.new_key
  pub only : keys_by_import_id old_pairs import_id ≡ m.old_key ∷ []
  pub vacated : id_of new_pairs m.old_key ≡ none
  pub free : id_of old_pairs m.new_key ≡ none

member-keys_by_import_id :
    (ps : List GeneratedImportPair) (id k : Text)
    → member k (keys_by_import_id ps id) ≡ member k (keys_with ps id)
unfolding keys_by_import_id
member-keys_by_import_id ps id k = member-sorted k (keys_with ps id)

differ : (a b : Text) → text_eq a b ≡ false → a ≢ b
differ a b h e = ground (arith, text_eq_iff a b)

only_member :
    (k : Text) (xs : List Text) → member k xs ≡ true → ltb 1 (length xs) ≡ false → xs ≡ k ∷ []
unfolding member
only_member k [] m h = cc
only_member k (x ∷ []) m h = ground (arith, text_eq_iff k x)
only_member k (x ∷ y ∷ xs) m h = absurd (ground arith)

abbrev move_of : ImportMoveCandidate → ImportMove
move_of c = record { old_key = c.old_key; new_key = c.new_key }

module _ (old_pairs new_pairs : List GeneratedImportPair)
    (old_distinct : is_distinct (keys old_pairs) ≡ true)
    (new_distinct : is_distinct (keys new_pairs) ≡ true)
    (candidates : List ImportMoveCandidate) where
  kept_facts :
      (c : ImportMoveCandidate)
      → suppression_reason old_pairs new_pairs candidates c ≡ none
      → (ltb 1 (length (keys_by_import_id old_pairs c.import_id)) ≡ false)
        × (ltb 1 (from_count candidates c.old_key) ≡ false)
        × (id_of old_pairs c.new_key ≡ none)
        × (id_of new_pairs c.old_key ≡ none)
  unfolding suppression_reason
  kept_facts c h = ground arith

  kept-IsSafe :
      (c : ImportMoveCandidate)
      → Renames old_pairs new_pairs c
      → suppression_reason old_pairs new_pairs candidates c ≡ none
      → IsSafe old_pairs new_pairs (move_of c)
  kept-IsSafe c r h =
      let (alone, _, free, vacated) = kept_facts c h in
      record {
        import_id = c.import_id;
        was = id_of-keys_with old_pairs c.import_id c.old_key old_distinct r.was;
        now = id_of-keys_with new_pairs c.import_id c.new_key new_distinct r.now;
        differs = λ e. differ c.old_key c.new_key r.differs e;
        only =
            only_member c.old_key (keys_by_import_id old_pairs c.import_id)
              (member-keys_by_import_id old_pairs c.import_id c.old_key ∙ r.was) alone;
        vacated = vacated;
        free = free;
      }

-- What holds of each candidate that is kept holds of each move.
All-moves_of :
    (reason : ImportMoveCandidate → Option ImportMoveSuppressionReason) (P : ImportMove → Type 0)
    (cs : List ImportMoveCandidate)
    → All (λ c. reason c ≡ none → P (move_of c)) cs
    → All P (moves_of reason cs)
unfolding moves_of
All-moves_of reason P [] h = tt
All-moves_of reason P (c ∷ cs) h = go (reason c) refl (All-moves_of reason P cs h.1)
  where
    go :
        (o : Option ImportMoveSuppressionReason)
        → reason c ≡ o
        → All P (moves_of reason cs)
        → All P (moves_of reason (c ∷ cs))
    go none e rest = rw (e, moves_of) (h.0 e, rest)
    go (some why) e rest = rw (e, moves_of) rest

map-All {ℓ κ} :
    {A : Type ℓ} (P Q : A → Type κ) (xs : List A) → ((x : A) → P x → Q x) → All P xs → All Q xs
map-All P Q [] f h = tt
map-All P Q (x ∷ xs) f h = (f x h.0, map-All P Q xs f h.1)

-- The moves and the candidates of a derivation.
pub derived_moves :
    (old_pairs new_pairs : List GeneratedImportPair) {d : ImportMoveDerivation}
    → derive_from old_pairs new_pairs ≡ ok d
    → let candidates = candidates_of old_pairs new_pairs (import_ids new_pairs) in
      d.moves
      ≡ stable_sort move_lt
          (moves_of (suppression_reason old_pairs new_pairs candidates) candidates)
unfolding derive_from
derived_moves old_pairs new_pairs h = ground arith

pub derive_from-IsSafe :
    (old_pairs new_pairs : List GeneratedImportPair) {d : ImportMoveDerivation}
    → is_distinct (keys old_pairs) ≡ true
    → is_distinct (keys new_pairs) ≡ true
    → derive_from old_pairs new_pairs ≡ ok d
    → All (IsSafe old_pairs new_pairs) d.moves
derive_from-IsSafe old_pairs new_pairs o n h =
    let candidates = candidates_of old_pairs new_pairs (import_ids new_pairs) in
    rw (derived_moves old_pairs new_pairs h) (
      All-stable_sort move_lt (IsSafe old_pairs new_pairs) _ (
        All-moves_of _ (IsSafe old_pairs new_pairs) candidates (
          map-All _ _ candidates (λ c r. kept-IsSafe old_pairs new_pairs o n candidates c r)
            (candidates_of-Renames old_pairs new_pairs (import_ids new_pairs)))))

-- From files that are accepted, every move that `derive_import_moves` keeps is safe.
pub derive_import_moves-IsSafe :
    (resource_type old_text new_text : Text) {old_pairs new_pairs : List GeneratedImportPair}
    {d : ImportMoveDerivation}
    → parse_generated_imports resource_type old_text ≡ ok old_pairs
    → parse_generated_imports resource_type new_text ≡ ok new_pairs
    → derive_import_moves resource_type old_text new_text ≡ ok d
    → All (IsSafe old_pairs new_pairs) d.moves
unfolding derive_import_moves
derive_import_moves-IsSafe resource_type old_text new_text {old_pairs} {new_pairs} ho hn h =
    derive_from-IsSafe old_pairs new_pairs
      (parse_generated_imports-IsCanonical resource_type old_text old_pairs ho).1
      (parse_generated_imports-IsCanonical resource_type new_text new_pairs hn).1 (rw (ho, hn) at h)
