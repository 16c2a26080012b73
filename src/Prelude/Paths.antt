-- ===== src/Prelude/Paths.antt =====
-- Splitting and joining texts at slashes.
use mathlib.Core.Path.{◌≡◌, refl, ap, sym, ◌∙◌}
use mathlib.Core.List.{List, [], ◌∷◌, ◌++◌, append-nil, append_assoc}
use mathlib.Core.Bool.{true}
use native.Mathlib.Omega.{arith}
use easy_webdav.Prelude.Tests.{==_iff}
use easy_webdav.Prelude.Lists.{All, keep}
use easy_webdav.Prelude.Texts.{
  Text, join_slash, split_from, split_slash, is_truthy, Without, Without-append,
}

-- A name of one path segment: not empty, and with no slash.
abbrev pub IsSegment : Text → Type 0
IsSegment s = (is_truthy s ≡ true) × Without b'/' s

pub split_from-word : (cur s : Text) → Without b'/' s → split_from cur s ≡ (cur ++ s) ∷ []
split_from-word cur [] h = rw (append-nil)
split_from-word cur (c ∷ s) (p, h) =
    let more : split_from cur (c ∷ s) ≡ split_from (cur ++ c ∷ []) s =
      ground (arith, ==_iff c b'/') in
    more ∙ split_from-word (cur ++ c ∷ []) s h ∙ ap (λ t. t ∷ []) (append_assoc cur (c ∷ []) s)

pub split_from-slash :
    (cur s rest : Text)
    → Without b'/' s
    → split_from cur (s ++ b'/' ∷ rest) ≡ (cur ++ s) ∷ split_slash rest
split_from-slash cur [] rest h = rw (append-nil)
split_from-slash cur (c ∷ s) rest (p, h) =
    let more : split_from cur ((c ∷ s) ++ b'/' ∷ rest)
        ≡ split_from (cur ++ c ∷ []) (s ++ b'/' ∷ rest) =
      ground (arith, ==_iff c b'/') in
    more
    ∙ split_from-slash (cur ++ c ∷ []) s rest h
    ∙ ap (λ t. t ∷ split_slash rest) (append_assoc cur (c ∷ []) s)

-- Parts without slashes are found again in what they are joined to.
pub split_slash-join_slash :
    (part : Text) (parts : List Text)
    → Without b'/' part
    → All (Without b'/') parts
    → split_slash (join_slash (part ∷ parts)) ≡ part ∷ parts
split_slash-join_slash part [] h k = split_from-word [] part h
split_slash-join_slash part (next ∷ parts) h (p, k) =
    split_from-slash [] part (join_slash (next ∷ parts)) h
    ∙ ap (◌∷◌ part) (split_slash-join_slash next parts p k)

pub split_from-Without : (cur s : Text) → Without b'/' cur → All (Without b'/') (split_from cur s)
split_from-Without cur [] h = (h, tt)
split_from-Without cur (c ∷ s) h = ground (
  arith,
  ==_iff c b'/',
  split_from-Without [] s tt,
  split_from-Without (cur ++ c ∷ []) s,
  Without-append b'/' cur (c ∷ []) h,
)

pub keep-truthy-IsSegment :
    (parts : List Text) → All (Without b'/') parts → All IsSegment (keep is_truthy parts)
keep-truthy-IsSegment [] h = tt
keep-truthy-IsSegment ([] ∷ parts) (p, h) = keep-truthy-IsSegment parts h
keep-truthy-IsSegment ((c ∷ s) ∷ parts) (p, h) = ((refl, p), keep-truthy-IsSegment parts h)

-- Segments are what is left of them when empty parts are dropped.
pub keep-segments : (parts : List Text) → All IsSegment parts → keep is_truthy parts ≡ parts
keep-segments [] h = refl
keep-segments ([] ∷ parts) ((p, q), h) = cc
keep-segments ((c ∷ s) ∷ parts) ((p, q), h) = ap (◌∷◌ (c ∷ s)) (keep-segments parts h)

pub All-Without : (parts : List Text) → All IsSegment parts → All (Without b'/') parts
All-Without [] h = tt
All-Without (part ∷ parts) ((p, q), h) = (q, All-Without parts h)

-- The segments of a path that is made of segments.
pub segments-join_slash :
    (parts : List Text)
    → All IsSegment parts
    → keep is_truthy (split_slash (join_slash parts)) ≡ parts
segments-join_slash [] h = refl
segments-join_slash (part ∷ parts) ((p, q), h) =
    ap (keep is_truthy) (split_slash-join_slash part parts q (All-Without parts h))
    ∙ keep-segments (part ∷ parts) ((p, q), h)

-- Joining a name to a joined path appends it to the segments.
pub join_slash-append :
    (part : Text) (parts : List Text) (name : Text)
    → join_slash (part ∷ parts ++ name ∷ []) ≡ join_slash (part ∷ parts) ++ b'/' ∷ name
join_slash-append part [] name = refl
join_slash-append part (next ∷ parts) name =
    ap (λ t. part ++ b'/' ∷ t) (join_slash-append next parts name)
    ∙ sym (append_assoc part (b'/' ∷ join_slash (next ∷ parts)) (b'/' ∷ name))
