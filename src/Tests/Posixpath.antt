-- ===== src/Tests/Posixpath.antt =====
-- Paths with a parent, a dot and two slashes.
use infrawright_dev.Base.{◌≡◌, refl, codes, text_eq, true, [], All}
use infrawright_dev.Tfrender.Imports.{join}
use infrawright_dev.Posixpath.Normalize.{
  has_prefix, split, initial_slashes, push, reduce, in_order, repeat_slash, render_path, normalize,
  absolute,
}
use infrawright_dev.Posixpath.Idempotent.{normalize-normalize}
use infrawright_dev.Posixpath.Relative.{non_empty_segments, posix_relative}
use infrawright_dev.Posixpath.Reached.{IsName, reduce-posix_relative}
use infrawright_dev.Posixpath.Absolute.{NoParent, absolute-NoParent}

normalize-dots : normalize (codes "//a/./b/../c") ≡ codes "//a/c"
unfolding normalize has_prefix initial_slashes split push reduce in_order repeat_slash render_path
    join text_eq
normalize-dots = refl

normalize-normalize_example :
    normalize (normalize (codes "//a/./b/../c")) ≡ normalize (codes "//a/./b/../c")
normalize-normalize_example = normalize-normalize (codes "//a/./b/../c")

slash_work-absolute : has_prefix (codes "/") (codes "/work") ≡ true
unfolding has_prefix
slash_work-absolute = refl

absolute-NoParent_example :
    (has_prefix (codes "/") (absolute (codes "../../etc") (codes "/work")) ≡ true)
    × NoParent (split (absolute (codes "../../etc") (codes "/work")))
absolute-NoParent_example =
    absolute-NoParent (codes "../../etc") (codes "/work") slash_work-absolute

posix_relative-work : posix_relative (codes "/work/env/a") (codes "/work//env/b/c") ≡ codes "../b/c"
unfolding posix_relative text_eq split join
posix_relative-work = refl

work-IsName : All IsName (non_empty_segments (codes "/work/env/a"))
unfolding non_empty_segments text_eq split
work-IsName = (refl, (refl, (refl, tt)))

reduce-posix_relative_example :
    reduce 1
      (reduce 1 [] (non_empty_segments (codes "/work/env/a")))
      (split (posix_relative (codes "/work/env/a") (codes "/work//env/b/c")))
    ≡ reduce 1 [] (non_empty_segments (codes "/work//env/b/c"))
reduce-posix_relative_example =
    reduce-posix_relative (codes "/work/env/a") (codes "/work//env/b/c") work-IsName
