-- ===== src/Preview/Kind.antt =====
-- web/src/highlight.ts, lines 8-11 and 44-64: what kind of preview a file's name asks for.
-- `toLowerCase` belongs to the platform: it is the parameter `lower`.
use easy_webdav.Prelude.{
  ℕ, ◌*◌, Bool, List, [], ◌∷◌, Option, none, some, Text, units, text_eq, any, ◌==◌, if◌then◌else◌,
}

abbrev pub image_extensions : List Text
image_extensions =
    units "png"
    ∷ units "jpg"
    ∷ units "jpeg"
    ∷ units "gif"
    ∷ units "webp"
    ∷ units "svg"
    ∷ units "bmp"
    ∷ units "avif"
    ∷ []

abbrev pub audio_extensions : List Text
audio_extensions =
    units "mp3" ∷ units "wav" ∷ units "ogg" ∷ units "flac" ∷ units "m4a" ∷ units "opus" ∷ []

abbrev pub video_extensions : List Text
video_extensions = units "mp4" ∷ units "webm" ∷ units "ogv" ∷ units "mov" ∷ []

abbrev pub text_extensions : List Text
text_extensions =
    units "txt"
    ∷ units "md"
    ∷ units "markdown"
    ∷ units "go"
    ∷ units "json"
    ∷ units "js"
    ∷ units "mjs"
    ∷ units "cjs"
    ∷ units "ts"
    ∷ units "tsx"
    ∷ units "jsx"
    ∷ units "css"
    ∷ units "scss"
    ∷ units "xml"
    ∷ units "html"
    ∷ units "htm"
    ∷ units "log"
    ∷ units "yaml"
    ∷ units "yml"
    ∷ units "toml"
    ∷ units "ini"
    ∷ units "conf"
    ∷ units "csv"
    ∷ units "sh"
    ∷ units "bash"
    ∷ units "py"
    ∷ units "rb"
    ∷ units "java"
    ∷ units "c"
    ∷ units "h"
    ∷ units "cpp"
    ∷ units "hpp"
    ∷ units "rs"
    ∷ units "sql"
    ∷ units "vue"
    ∷ []

pub data PreviewKind : Type 0 where
  image text pdf audio video no_preview : PreviewKind

-- What follows the last dot of a name, if it has one.
unfoldable pub after_last_dot : Text → Option Text
after_last_dot [] = none
after_last_dot (c ∷ name) = elim (after_last_dot name) [
  | some rest ↦ some rest
  | none ↦ if c == b'.' then some name else none
]

abbrev pub includes : List Text → Text → Bool
includes extensions extension = any (text_eq extension) extensions

module _ (lower : Text → Text) where
  unfoldable pub extension_of : Text → Text
  unfolding after_last_dot
  extension_of name = elim (after_last_dot name) [ none ↦ [] | some rest ↦ lower rest ]

  unfoldable pub preview_kind : Text → PreviewKind
  preview_kind name =
      let extension = extension_of name in
      if includes image_extensions extension
      then image
      else if includes audio_extensions extension
      then audio
      else if includes video_extensions extension
      then video
      else if text_eq extension (units "pdf")
      then pdf
      else if includes text_extensions extension
      then text
      else no_preview

-- `TEXT_PREVIEW_LIMIT`.
abbrev pub text_preview_limit : ℕ
text_preview_limit = 2 * 1024 * 1024
