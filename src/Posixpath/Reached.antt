-- ===== src/Posixpath/Reached.antt =====
-- go/internal/posixpath/paths.go: where the path of `posixRelative` leads.
use infrawright_dev.Posixpath.Normalize.{split, is_blank, dot, dot_dot, push, reduce}
use infrawright_dev.Tfrender.Imports.{join}
use infrawright_dev.Posixpath.Reduced.{has_slash, split-clean}
use infrawright_dev.Posixpath.Idempotent.{split-join}
use infrawright_dev.Posixpath.Relative.{
  non_empty, non_empty_segments, parents, relative_parts, posix_relative,
}
use infrawright_dev.Base.{
  false, ◌||◌, List, [], ◌∷◌, ◌++◌, ◌≡◌, refl, sym, ap, ◌∙◌, arith, append-nil, Text, text_eq,
  text_eq_iff, codes, All, All-append, Bool-cases, inl, inr,
}

-- A segment that is neither empty nor "." nor "..".
abbrev pub IsName : Text → Type 0
IsName c = (is_blank c || text_eq c dot || text_eq c dot_dot) ≡ false

push-IsName : (stack : List Text) (c : Text) → IsName c → push 1 stack c ≡ c ∷ stack
unfolding push
push-IsName stack c h = ground (arith, h)

parents-cons : (fs ts : List Text) → dot_dot ∷ (parents fs ++ ts) ≡ parents fs ++ dot_dot ∷ ts
unfolding parents
parents-cons [] ts = refl
parents-cons (f ∷ fs) ts = ap (dot_dot ∷◌) (parents-cons fs ts)

reduce-parents :
    (stack fs ts : List Text)
    → All IsName fs
    → reduce 1 (reduce 1 stack fs) (parents fs ++ ts) ≡ reduce 1 stack ts
unfolding reduce push parents text_eq
reduce-parents stack [] ts h = refl
reduce-parents stack (f ∷ fs) ts h =
    rw (push-IsName stack f h.0, reduce)
      (ap (reduce 1 (reduce 1 (f ∷ stack) fs)) (parents-cons fs ts)
        ∙ reduce-parents (f ∷ stack) fs (dot_dot ∷ ts) h.1)

reduce-relative_parts :
    (stack fs ts : List Text)
    → All IsName fs
    → reduce 1 (reduce 1 stack fs) (relative_parts fs ts) ≡ reduce 1 stack ts
unfolding reduce relative_parts
reduce-relative_parts stack [] ts h = refl
reduce-relative_parts stack (f ∷ fs) [] h =
    ap (reduce 1 (reduce 1 stack (f ∷ fs))) (sym (append-nil (parents (f ∷ fs))))
    ∙ reduce-parents stack (f ∷ fs) [] h
reduce-relative_parts stack (f ∷ fs) (t ∷ ts) h =
    let later = reduce-relative_parts (push 1 stack f) fs ts h.1 in
    elim (Bool-cases (text_eq f t)) [
      | inl same ↦
          rw (same, relative_parts)
            (later ∙ ap (λ c. reduce 1 (push 1 stack c) ts) ((text_eq_iff f t).0 same))
      | inr other ↦ rw (other, relative_parts) (reduce-parents stack (f ∷ fs) (t ∷ ts) h)
    ]

abbrev IsClean : Text → Type 0
IsClean c = has_slash c ≡ false

reduce-split-join :
    (stack parts : List Text)
    → All IsClean parts
    → reduce 1 stack (split (join (codes "/") parts)) ≡ reduce 1 stack parts
unfolding reduce push split join
reduce-split-join stack [] h = refl
reduce-split-join stack (c ∷ cs) h = ap (reduce 1 stack) (split-join c cs h)

non_empty-IsClean : (ts : List Text) → All IsClean ts → All IsClean (non_empty ts)
unfolding non_empty
non_empty-IsClean [] h = tt
non_empty-IsClean (t ∷ ts) h =
    let later = non_empty-IsClean ts h.1 in
    elim (Bool-cases (is_blank t)) [
      | inl blank ↦ rw (blank, non_empty) later
      | inr other ↦ rw (other, non_empty) (h.0, later)
    ]

non_empty_segments-IsClean : (p : Text) → All IsClean (non_empty_segments p)
unfolding non_empty_segments
non_empty_segments-IsClean p = non_empty-IsClean (split p) (split-clean p)

parents-IsClean : (fs : List Text) → All IsClean (parents fs)
unfolding parents has_slash
parents-IsClean [] = tt
parents-IsClean (f ∷ fs) = (refl, parents-IsClean fs)

relative_parts-IsClean : (fs ts : List Text) → All IsClean ts → All IsClean (relative_parts fs ts)
unfolding relative_parts
relative_parts-IsClean [] ts h = h
relative_parts-IsClean (f ∷ fs) [] h = parents-IsClean (f ∷ fs)
relative_parts-IsClean (f ∷ fs) (t ∷ ts) h =
    let later = relative_parts-IsClean fs ts h.1 in
    elim (Bool-cases (text_eq f t)) [
      | inl same ↦ rw (same, relative_parts) later
      | inr other ↦
          rw (other, relative_parts)
            (All-append IsClean (parents (f ∷ fs)) (t ∷ ts) (parents-IsClean (f ∷ fs)) h)
    ]

-- The relative path that posixRelative computes leads from the one path to the other: when none of the
-- segments of the start is "." or "..", its segments, read as Normalize reads them below the segments of
-- the start, end where the segments of the target do.
pub reduce-posix_relative :
    (from to : Text)
    → All IsName (non_empty_segments from)
    → reduce 1 (reduce 1 [] (non_empty_segments from)) (split (posix_relative from to))
      ≡ reduce 1 [] (non_empty_segments to)
unfolding posix_relative reduce push split
reduce-posix_relative from to h =
    let fs = non_empty_segments from in
    let ts = non_empty_segments to in
    elim (Bool-cases (text_eq from to)) [
      | inl same ↦
          rw (same, posix_relative)
            (ap (λ p. reduce 1 [] (non_empty_segments p)) ((text_eq_iff from to).0 same))
      | inr other ↦
          rw (other, posix_relative)
            (reduce-split-join (reduce 1 [] fs) (relative_parts fs ts)
                (relative_parts-IsClean fs ts (non_empty_segments-IsClean to))
              ∙ reduce-relative_parts [] fs ts h)
    ]
