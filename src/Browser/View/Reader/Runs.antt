-- ===== src/Browser/View/Reader/Runs.antt =====
-- The runs of web/src/views/FileBrowserView.vue for a user who may only read.
use easy_webdav.Prelude.{◌≡◌, false, ◌⊎◌}
use easy_webdav.Browser.Refs.{Visit, may_write, Browser}
use easy_webdav.Browser.View.Steps.{Cause, by_drop, by_pick}

-- The user may not write at this address.
abbrev pub Reads : Visit → Type 0
Reads visit = may_write visit ≡ false

-- The files of the user's own choice are what the view sends unasked.
abbrev pub BringsFiles : Cause → Type 0
BringsFiles cause = (cause ≡ by_drop) ⊎ (cause ≡ by_pick)
