-- ===== src/Browser/Routing/Laws.antt =====
-- Where opening an entry leads to (web/src/views/FileBrowserView.vue, web/src/router.ts).
use easy_webdav.Prelude.{
  ◌≡◌, refl, ap, sym, ◌∙◌, ◌≢◌, true, false, List, [], ◌∷◌, ◌++◌, Option, some, Text, units,
  is_truthy, join_slash, map, All, Without, IsSegment, All-append, Bool-cases, inl, inr,
  split_slash-join_slash, keep-segments, text_eq, text_eq_sound, arith,
}
use easy_webdav.Api.Url.{Encoders}
use easy_webdav.Browser.Path.{parts, segments, join, go, go_prefix}
use easy_webdav.Browser.Path.Laws.{
  IsCodec, All-encoded, decode-encode, go_tail-join, joined_truthy, append-ne-nil,
}
use easy_webdav.Browser.Refs.{Route, route_user}
use easy_webdav.Browser.Routing.{is_u, files_at, file_route, match_files, route_below}

falsy_empty : (s : Text) → is_truthy s ≡ false → s ≡ []
falsy_empty [] h = refl
falsy_empty (c ∷ s) h = cc

truthy-ne : (s : Text) → is_truthy s ≡ true → s ≢ []
truthy-ne [] h e = cc
truthy-ne (c ∷ s) h e = cc

not-is_u : (s : Text) → s ≢ units "u" → s ≢ units "U" → is_u s ≡ false
not-is_u s small large = elim (Bool-cases (text_eq s (units "u"))) [
  | inl e ↦ absurd (small (text_eq_sound s (units "u") e))
  | inr e ↦ elim (Bool-cases (text_eq s (units "U"))) [
    | inl f ↦ absurd (large (text_eq_sound s (units "U") f))
    | inr f ↦ rw (e, f) refl
  ]
]

files-Without : Without b'/' (units "files")
files-Without = (
  λ e. absurd (omega arith),
  (
    λ e. absurd (omega arith),
    (λ e. absurd (omega arith), (λ e. absurd (omega arith), (λ e. absurd (omega arith), tt))),
  ),
)

u-Without : Without b'/' (units "u")
u-Without = (λ e. absurd (omega arith), tt)

-- Where an entry can be opened: a user's directory has an address for every user whose number, as it
-- stands in the address, is one part of it. In one's own directory the first part must not be `u`, unless
-- that is the entry itself.
abbrev pub CanOpen : (Text → Text) → Text → List Text → Type 0
CanOpen decode [] [] = Unit
CanOpen decode [] (first ∷ shown) = (first ≢ units "u") × (first ≢ units "U")
CanOpen decode (c ∷ user_id) shown =
    Without b'/' (c ∷ user_id) × (decode (c ∷ user_id) ≡ c ∷ user_id)

-- The route shows this directory of this user.
abbrev pub Shows : Option Route → Text → List Text → Type 0
Shows found user_id shown =
    (route : Route) × (found ≡ some route)
    × (route_user route ≡ user_id)
    × (segments route.path_match ≡ shown)

module _ (encoders : Encoders) (decode : Text → Text) (codec : IsCodec encoders decode) where
  encoded_truthy : (s : Text) → is_truthy s ≡ true → is_truthy (encoders.component s) ≡ true
  encoded_truthy s h = elim (Bool-cases (is_truthy (encoders.component s))) [
    | inl e ↦ e
    | inr e ↦
        let empty : s ≡ [] =
          sym (codec.decode_encode s)
          ∙ ap decode (falsy_empty (encoders.component s) e)
          ∙ codec.keeps_empty in
        absurd (truthy-ne s h empty)
  ]

  encoded-is_u : (s : Text) → s ≢ units "u" → s ≢ units "U" → is_u (encoders.component s) ≡ false
  encoded-is_u s small large =
      not-is_u (encoders.component s)
        (λ e. small (sym (codec.decode_encode s) ∙ ap decode e ∙ codec.keeps_small))
        (λ e. large (sym (codec.decode_encode s) ∙ ap decode e ∙ codec.keeps_large))

  abbrev encode : List Text → List Text
  encode list = map encoders.component list

  decoded :
      (list : List Text) → All IsSegment list → segments (parts (map decode (encode list))) ≡ list
  unfolding segments
  decoded list h =
      ap (λ shown. segments (parts shown)) (decode-encode encoders decode codec list)
      ∙ keep-segments list h

  whole_truthy :
      (shown : List Text) (name : Text)
      → All IsSegment shown
      → IsSegment name
      → is_truthy (join_slash (encode (shown ++ name ∷ []))) ≡ true
  whole_truthy [] name h k = encoded_truthy name k.0
  whole_truthy (first ∷ shown) name h k =
      joined_truthy (encoders.component first) (encode (shown ++ name ∷ []))
        (encoded_truthy first h.0.0)

  go-join :
      (user_id : Text) (shown : List Text) (name : Text)
      → All IsSegment shown
      → IsSegment name
      → go encoders user_id (join (parts shown) name)
        ≡ go_prefix user_id ++ b'/' ∷ join_slash (encode (shown ++ name ∷ []))
  unfolding go
  go-join user_id shown name h k =
      let tail = go_tail-join encoders decode codec shown name h k in
      rw (ap is_truthy tail ∙ whole_truthy shown name h k, go)
        (ap (λ t. go_prefix user_id ++ b'/' ∷ t) tail)

  own_route :
      (shown : List Text) (name : Text)
      → CanOpen decode [] shown
      → file_route decode (encode (shown ++ name ∷ []))
        ≡ files_at decode (encode (shown ++ name ∷ []))
  unfolding file_route
  own_route [] name h = refl
  own_route (first ∷ []) name h = rw (encoded-is_u first h.0 h.1, file_route) refl
  own_route (first ∷ next ∷ shown) name h = rw (encoded-is_u first h.0 h.1, file_route) refl

  own_match :
      (list : List Text)
      → list ≢ []
      → match_files decode (units "/files" ++ b'/' ∷ join_slash (encode list))
        ≡ some (file_route decode (encode list))
  unfolding match_files
  own_match [] h = absurd (h refl)
  own_match (part ∷ list) h = ap (route_below decode) (
      split_slash-join_slash [] (units "files" ∷ encode (part ∷ list)) tt
        (files-Without, All-encoded encoders decode codec (part ∷ list)))

  user_match :
      (c : _) (user_id : Text) (list : List Text)
      → list ≢ []
      → Without b'/' (c ∷ user_id)
      → match_files decode (go_prefix (c ∷ user_id) ++ b'/' ∷ join_slash (encode list))
        ≡ some (file_route decode (units "u" ∷ (c ∷ user_id) ∷ encode list))
  unfolding match_files go_prefix
  user_match c user_id [] h w = absurd (h refl)
  user_match c user_id (part ∷ list) h w = ap (route_below decode) (
      split_slash-join_slash [] (units "files" ∷ units "u" ∷ (c ∷ user_id) ∷ encode (part ∷ list))
        tt (files-Without, (u-Without, (w, All-encoded encoders decode codec (part ∷ list)))))

  -- Opening an entry leads into it: for a shown path of proper segments and a proper name, the address
  -- that is pushed for the entry matches a route of the browser, which shows, for the user whose directory
  -- is shown, the segments of before followed by the name. In one's own directory the first of the shown
  -- segments must not be `u`, in either case of the letter.
  pub match_files-go :
      (user_id : Text) (shown : List Text) (name : Text)
      → CanOpen decode user_id shown
      → All IsSegment shown
      → IsSegment name
      → Shows
          (match_files decode (go encoders user_id (join (parts shown) name)))
          user_id
          (shown ++ name ∷ [])
  unfolding route_user file_route go_prefix
  match_files-go [] shown name can h k =
      let whole = shown ++ name ∷ [] in
      (
        files_at decode (encode whole),
        ap (match_files decode) (go-join [] shown name h k)
            ∙ own_match whole (append-ne-nil shown name)
            ∙ ap some (own_route shown name can),
        refl,
        decoded whole (All-append IsSegment shown (name ∷ []) h (k, tt)),
      )
  match_files-go (c ∷ user_id) shown name can h k =
      let whole = shown ++ name ∷ [] in
      (
        file_route decode (units "u" ∷ (c ∷ user_id) ∷ encode whole),
        ap (match_files decode) (go-join (c ∷ user_id) shown name h k)
            ∙ user_match c user_id whole (append-ne-nil shown name) can.0,
        can.1,
        decoded whole (All-append IsSegment shown (name ∷ []) h (k, tt)),
      )
