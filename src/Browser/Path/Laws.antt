-- ===== src/Browser/Path/Laws.antt =====
-- That the browser's addresses lead where they say (web/src/views/FileBrowserView.vue).
use easy_webdav.Prelude.{
  ℕ, ◌≡◌, refl, ap, sym, ◌∙◌, ◌≢◌, true, List, [], ◌∷◌, ◌++◌, Text, is_truthy, keep, join_slash,
  split_slash, join_nonempty, map, All, Without, IsSegment, All-append, keep-segments,
  segments-join_slash, join_slash-append, arith, length, length-append,
}
use easy_webdav.Api.Types.{Entry}
use easy_webdav.Api.Url.{Encoders}
use easy_webdav.Preview.Overlay.{preview_path}
use easy_webdav.Browser.Path.{preview_props, parts, segments, current_path, join, go_tail, units}

-- What `encodeURIComponent` is documented to do to a segment: it escapes the slash, and decoding gives
-- the segment back. Decoding leaves a letter as it is.
pub record IsCodec (encoders : Encoders) (decode : Text → Text) : Type 0 where
  pub no_slash : (s : Text) → Without b'/' (encoders.component s)
  pub decode_encode : (s : Text) → decode (encoders.component s) ≡ s
  pub keeps_empty : decode [] ≡ []
  pub keeps_small : decode (units "u") ≡ units "u"
  pub keeps_large : decode (units "U") ≡ units "U"

pub joined_truthy :
    (part : Text) (list : List Text)
    → is_truthy part ≡ true
    → is_truthy (join_slash (part ∷ list)) ≡ true
joined_truthy [] list h = cc
joined_truthy (c ∷ s) [] h = refl
joined_truthy (c ∷ s) (next ∷ list) h = refl

join_two :
    (s name : Text)
    → is_truthy s ≡ true
    → is_truthy name ≡ true
    → join_nonempty (s ∷ name ∷ []) ≡ s ++ b'/' ∷ name
join_two [] name h k = cc
join_two (c ∷ s) [] h k = cc
join_two (c ∷ s) (d ∷ name) h k = refl

join_one : (name : Text) → is_truthy name ≡ true → join_nonempty ([] ∷ name ∷ []) ≡ name
join_one [] k = cc
join_one (d ∷ name) k = refl

pub append-ne-nil {ℓ} : {A : Type ℓ} (xs : List A) (x : A) → (xs ++ x ∷ []) ≢ []
append-ne-nil [] x e = cc
append-ne-nil (y ∷ xs) x e = cc

-- The path of a name in the shown directory.
pub join-parts :
    (shown : List Text) (name : Text)
    → All IsSegment shown
    → IsSegment name
    → join (parts shown) name ≡ join_slash (shown ++ name ∷ [])
unfolding join current_path segments
join-parts [] name h (k, _) = join_one name k
join-parts (part ∷ shown) name h (k, _) =
    ap (λ list. join_nonempty (join_slash list ∷ name ∷ [])) (keep-segments (part ∷ shown) h)
    ∙ join_two (join_slash (part ∷ shown)) name (joined_truthy part shown h.0.0) k
    ∙ sym (join_slash-append part shown name)

module _ (encoders : Encoders) (decode : Text → Text) (codec : IsCodec encoders decode) where
  pub All-encoded : (list : List Text) → All (Without b'/') (map encoders.component list)
  All-encoded [] = tt
  All-encoded (part ∷ list) = (codec.no_slash part, All-encoded list)

  pub decode-encode : (list : List Text) → map decode (map encoders.component list) ≡ list
  decode-encode [] = refl
  decode-encode (part ∷ list) =
      ap (λ s. s ∷ map decode (map encoders.component list)) (codec.decode_encode part)
      ∙ ap (◌∷◌ part) (decode-encode list)

  -- The tail of the address that opening an entry pushes.
  pub go_tail-join :
      (shown : List Text) (name : Text)
      → All IsSegment shown
      → IsSegment name
      → go_tail encoders (join (parts shown) name)
        ≡ join_slash (map encoders.component (shown ++ name ∷ []))
  unfolding go_tail
  go_tail-join shown name h k =
      let all = All-append IsSegment shown (name ∷ []) h (k, tt) in
      ap (λ list. join_slash (map encoders.component list))
        (ap (λ path. keep is_truthy (split_slash path)) (join-parts shown name h k)
          ∙ segments-join_slash (shown ++ name ∷ []) all)

length-append-lt : (s : Text) (c : ℕ) (name : Text) → s ++ c ∷ name ≢ name
length-append-lt s c name e = absurd (omega (arith, ap length e, length-append s (c ∷ name)))

-- The browser hands the overlay no directory. Below the root the preview of a file is then asked for at
-- the bare name of the file, which is not its path.
pub preview_path-ne-join :
    (part : Text) (shown : List Text) (entry : Entry) (siblings : List Entry) (user_id : Text)
    → All IsSegment (part ∷ shown)
    → IsSegment entry.name
    → preview_path (preview_props entry siblings user_id) ≢ join (parts (part ∷ shown)) entry.name
unfolding preview_path preview_props
preview_path-ne-join part shown entry siblings user_id h k e =
    length-append-lt (join_slash (part ∷ shown)) b'/' entry.name (
      sym (
        sym (join_one entry.name k.0)
        ∙ e
        ∙ join-parts (part ∷ shown) entry.name h k
        ∙ join_slash-append part shown entry.name))
