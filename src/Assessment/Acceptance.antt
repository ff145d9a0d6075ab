-- ===== src/Assessment/Acceptance.antt =====
-- go/internal/assessment/eval.go: `classifyChange` and the records that may be applied, described
-- without it.
use infrawright_dev.Base.{
  Bool, true, false, not, ◌&&◌, List, [], ◌∷◌, ◌++◌, ◌≡◌, ◌≢◌, ◌↔◌, ◌⊎◌, inl, inr, refl, ap, sym,
  ◌∙◌, arith, Bool-cases, ◌==◌, length, Text, codes, text_eq_iff, text_eq_refl, member, All, Option,
}
use infrawright_dev.Canonjson.Values.{key_set, Equality}
use infrawright_dev.Assessment.Paths.{PlanPath, truthy_paths, is_empty}
use infrawright_dev.Assessment.Changes.{PlanChange}
use infrawright_dev.Assessment.Update.{update_content, explained_by_set_equality}
use infrawright_dev.Assessment.Classify.{
  PlanStatus, clean, tolerated, blocked, Source, ChangeRecord, PlanFinding, Policy, TypeSets,
  set_attributes, only_no_op, has_action, is_importing, only_opaque_update, tolerates,
  unmatched_paths, judge_update, classify_update, classify_change, demote_status, demote_all,
  overall,
}

abbrev pub is_blocked : PlanStatus → Bool
is_blocked blocked = true
is_blocked _ = false

unfoldable pub none_blocked : List PlanFinding → Bool
none_blocked [] = true
none_blocked (f ∷ fs) = not (is_blocked f.status) && none_blocked fs

-- The status of the findings is blocked exactly when that of one of them is.
pub overall-none_blocked :
    (status : PlanStatus) (fs : List PlanFinding)
    → is_blocked status ≡ false
    → is_blocked (overall status fs) ≡ not (none_blocked fs)
unfolding overall none_blocked
overall-none_blocked status [] h = h
overall-none_blocked status (f ∷ fs) h =
    elim f.status
      as (λ s.
        is_blocked (elim s [
          | blocked ↦ blocked
          | tolerated ↦ overall tolerated fs
          | clean ↦ overall status fs
        ])
        ≡ not (not (is_blocked s) && none_blocked fs)) [
          | clean ↦ overall-none_blocked status fs h
          | tolerated ↦ overall-none_blocked tolerated fs refl
          | blocked ↦ refl
        ]

pub none_blocked-append :
    (fs gs : List PlanFinding) → none_blocked (fs ++ gs) ≡ (none_blocked fs && none_blocked gs)
unfolding none_blocked
none_blocked-append [] gs = refl
none_blocked-append (f ∷ fs) gs = ground (arith, none_blocked-append fs gs)

is_blocked-demote_status : (s : PlanStatus) → is_blocked (demote_status true s) ≡ false
unfolding demote_status
is_blocked-demote_status clean = refl
is_blocked-demote_status tolerated = refl
is_blocked-demote_status blocked = refl

pub none_blocked-demote_all : (fs : List PlanFinding) → none_blocked (demote_all true fs) ≡ true
unfolding none_blocked
none_blocked-demote_all [] = refl
none_blocked-demote_all (f ∷ fs) =
    ground (arith, is_blocked-demote_status f.status, none_blocked-demote_all fs)

pub none_blocked-keep :
    (fs : List PlanFinding) → none_blocked (demote_all false fs) ≡ none_blocked fs
unfolding none_blocked demote_status
none_blocked-keep [] = refl
none_blocked-keep (f ∷ fs) = ap (λ b. not (is_blocked f.status) && b) (none_blocked-keep fs)

is_empty-unmatched_paths_iff :
    (policy : Option Policy) (resource_type : Text) (ps : List PlanPath)
    → (is_empty (unmatched_paths policy resource_type ps) ≡ true)
      ↔ All (λ p. tolerates policy resource_type p ≡ true) ps
unfolding unmatched_paths
is_empty-unmatched_paths_iff policy resource_type [] = ground arith
is_empty-unmatched_paths_iff policy resource_type (p ∷ ps) =
    ground (arith, is_empty-unmatched_paths_iff policy resource_type ps)

only_no_op-All_iff :
    (as_all : List Text) → (only_no_op as_all ≡ true) ↔ All (λ a. a ≡ codes "no-op") as_all
unfolding only_no_op
only_no_op-All_iff [] = ground arith
only_no_op-All_iff (a ∷ as_all) =
    ground (arith, only_no_op-All_iff as_all, text_eq_iff a (codes "no-op"))

pub member-key_set : (k : Text) (ks : List Text) → member k (key_set ks) ≡ member k ks
unfolding key_set member
member-key_set k [] = refl
member-key_set k (j ∷ ks) =
    ground (arith, member-key_set k ks, member-key_set j ks, text_eq_iff k j)

All-of_member :
    (P : Text → Type 0) (ks : List Text) → ((k : Text) → member k ks ≡ true → P k) → All P ks
unfolding member
All-of_member P [] h = tt
All-of_member P (k ∷ ks) h =
    (h k (rw (text_eq_refl k) refl), All-of_member P ks λ j m. h j (ground (arith, m)))

key_set-sole :
    (a : Text) (as_all : List Text)
    → as_all ≢ []
    → All (λ b. b ≡ a) as_all
    → key_set as_all ≡ a ∷ []
unfolding key_set member
key_set-sole a [] some_action h = absurd (some_action refl)
key_set-sole a (b ∷ []) some_action h = rw h.0 refl
key_set-sole a (b ∷ c ∷ rest) some_action h =
    rw (key_set-sole a (c ∷ rest) (λ e. cc) h.1, h.0, text_eq_refl a) refl

sole_member :
    (a b : Text) (ks : List Text)
    → (length ks == 1) ≡ true
    → member a ks ≡ true
    → member b ks ≡ true
    → b ≡ a
unfolding member
sole_member a b [] one ha hb = ground arith
sole_member a b (k ∷ []) one ha hb = ground (arith, text_eq_iff a k, text_eq_iff b k)
sole_member a b (k ∷ j ∷ ks) one ha hb = ground arith

no_sole_action : (a : Text) → (length (key_set []) == 1 && member a []) ≡ true → ⊥
unfolding key_set
no_sole_action a h = ground arith

and-eq-true : (b c : Bool) → (b && c) ≡ true → (b ≡ true) × (c ≡ true)
and-eq-true true c h = (refl, h)
and-eq-true false c h = cc

member-sole : (a : Text) (ks : List Text) → key_set ks ≡ a ∷ [] → member a ks ≡ true
unfolding member
member-sole a ks h = sym (member-key_set a ks) ∙ rw (h, text_eq_refl a) refl

-- A set of one action is that action alone.
sole_action_iff :
    (a : Text) (ks : List Text)
    → ((length (key_set ks) == 1 && member a ks) ≡ true) ↔ ((ks ≢ []) × All (λ b. b ≡ a) ks)
sole_action_iff a ks = (forward, backward)
  where
    forward : (length (key_set ks) == 1 && member a ks) ≡ true → (ks ≢ []) × All (λ b. b ≡ a) ks
    forward h =
        let (one, here) = and-eq-true (length (key_set ks) == 1) (member a ks) h in
        (
          λ e. no_sole_action a (rw e at h),
          All-of_member (λ b. b ≡ a) ks
              λ b m.
                sole_member a b (key_set ks) one (member-key_set a ks ∙ here)
                  (member-key_set b ks ∙ m),
        )

    backward : (ks ≢ []) × All (λ b. b ≡ a) ks → (length (key_set ks) == 1 && member a ks) ≡ true
    backward h = let sole = key_set-sole a ks h.0 h.1 in rw (sole, member-sole a ks sole) refl

module _ (eq : Equality) (policy : Option Policy) (types : List TypeSets) where
  -- The paths of an update.
  abbrev pub paths_of_update : ChangeRecord → List PlanPath
  paths_of_update r = (update_content eq r.change (set_attributes types r.resource_type)).0

  -- Nothing but the marker of an opaque update is reported, nothing is unknown, and the values differ
  -- in set attributes with the same members only.
  pub record IsExplained (r : ChangeRecord) : Type 0 where
    pub opaque : only_opaque_update (paths_of_update r) ≡ true
    pub known : is_empty (truthy_paths r.change.after_unknown) ≡ true
    pub same_sets :
        explained_by_set_equality eq r.change (set_attributes types r.resource_type) ≡ true

  -- An update, and neither a deletion nor a creation.
  pub record IsUpdate (r : ChangeRecord) : Type 0 where
    pub updates : has_action (codes "update") r.change.actions ≡ true
    pub keeps : has_action (codes "delete") r.change.actions ≡ false
    pub old : has_action (codes "create") r.change.actions ≡ false
    pub allowed :
        All (λ p. tolerates policy r.resource_type p ≡ true) (paths_of_update r) ⊎ IsExplained r

  -- An import: a creation alone, of a record with something to import.
  pub record IsImport (r : ChangeRecord) : Type 0 where
    pub some_action : r.change.actions ≢ []
    pub creates : All (λ a. a ≡ codes "create") r.change.actions
    pub importing : is_importing r.change.importing ≡ true

  -- The records that do not block a plan.
  abbrev pub IsAccepted : ChangeRecord → Type 0
  IsAccepted r = All (λ a. a ≡ codes "no-op") r.change.actions ⊎ (IsImport r ⊎ IsUpdate r)

  judge_update_iff :
      (source : Source) (r : ChangeRecord) (paths : List PlanPath) (changes : List PlanChange)
      → (is_blocked (judge_update policy source r (paths, changes)).status ≡ false)
        ↔ All (λ p. tolerates policy r.resource_type p ≡ true) paths
  unfolding judge_update
  judge_update_iff source r paths changes =
      ground (arith, is_empty-unmatched_paths_iff policy r.resource_type paths)

  classify_update_iff :
      (source : Source) (r : ChangeRecord)
      → (is_blocked (classify_update eq policy types source r).status ≡ false)
        ↔ (All (λ p. tolerates policy r.resource_type p ≡ true) (paths_of_update r) ⊎ IsExplained r)
  unfolding classify_update
  classify_update_iff source r =
      let sets = set_attributes types r.resource_type in
      let content = update_content eq r.change sets in
      let explained =
        only_opaque_update content.0
        && is_empty (truthy_paths r.change.after_unknown)
        && explained_by_set_equality eq r.change sets in
      let judged = judge_update_iff source r content.0 content.1 in
      elim (Bool-cases explained) [
        | inl holds ↦ rw holds (λ h. inr (ground (arith, holds)), λ h. refl)
        | inr fails ↦ rw fails (
          λ h. inl (judged.0 h),
          λ h. elim h [
            | inl allowed ↦ judged.1 allowed
            | inr e ↦ ground (arith, fails, e.opaque, e.known, e.same_sets)
          ],
        )
      ]

  pub classify_change_iff :
      (source : Source) (r : ChangeRecord)
      → (none_blocked (classify_change eq policy types source r) ≡ true) ↔ IsAccepted r
  unfolding classify_change none_blocked
  classify_change_iff source r =
      let acts = r.change.actions in
      ground (
        arith,
        only_no_op-All_iff acts,
        sole_action_iff (codes "create") acts,
        classify_update_iff source r,
      )
