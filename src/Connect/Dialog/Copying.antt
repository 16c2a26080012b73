-- ===== src/Connect/Dialog/Copying.antt =====
-- What the buttons of web/src/components/ConnectDialog.vue show after a copy.
use easy_webdav.Prelude.{
  suc, ◌≡◌, refl, ap, ◌∙◌, Bool, true, false, List, [], ◌∷◌, ◌++◌, Text, String, str_eq,
  if◌then◌else◌, Bool-cases, inl, inr,
}
use easy_webdav.Screen.{
  message, raw, Label, Widget, shows, button, when, for_each, Offers, Only, Offers-Only,
  Only-append, Only-when, Only-for_each,
}
use easy_webdav.Connect.Info.{ConnectInfo}
use easy_webdav.Connect.Dialog.{
  CopyState, Clipboard, has_taken, copy_text, copy_label, ConnectEvent, copies, closes, Pane,
  windows, macos, linux, rclone, mobile, tabs, snippet, step_list, snippets, steps_key, pane_shown,
  connect_dialog,
}

-- The texts of the buttons that show a message.
unfoldable pub marked : String → List (Widget ConnectEvent) → List Text
marked key [] = []
marked key (button (message k ∷ []) b (copies label value) ∷ ws) =
    let rest = marked key ws in if str_eq k key then value ∷ rest else rest
marked key (w ∷ ws) = marked key ws

module _ (steps : String → List Text) (info : ConnectInfo) where
  -- What is marked outside the snippets, whatever stands behind.
  marked-step_list :
      (key : String) (xs : List Text) (ws vs : List (Widget ConnectEvent))
      → marked key ((for_each xs (λ step. shows (raw step ∷ []) ∷ []) ++ ws) ++ vs)
        ≡ marked key (ws ++ vs)
  unfolding marked
  marked-step_list key [] ws vs = refl
  marked-step_list key (x ∷ xs) ws vs = marked-step_list key xs ws vs

  marked-when :
      (key : String) (test : Bool) (label : Label) (ws : List (Widget ConnectEvent))
      → marked key (when test (shows label ∷ []) ++ ws) ≡ marked key ws
  unfolding marked
  marked-when key true label ws = refl
  marked-when key false label ws = refl

  abbrev url_snippet : CopyState → List (Widget ConnectEvent)
  url_snippet state = snippet state "url" info.dav_url

  abbrev behind : CopyState → Pane → List (Widget ConnectEvent)
  behind state pane = snippets info state pane ++ shows (message "connectCredentials" ∷ []) ∷ []

  marked-connect_dialog :
      (key : String) (state : CopyState) (pane : Pane)
      → marked key (connect_dialog steps info state pane)
        ≡ marked key (url_snippet state ++ behind state pane)
  unfolding marked connect_dialog tabs pane_shown step_list
  marked-connect_dialog key state pane =
      ap (λ rest. if str_eq (copy_label state "url") key then info.dav_url ∷ rest else rest)
        (marked-when key info.insecure (message "connectInsecureWarning" ∷ []) _
          ∙ marked-step_list key (steps (steps_key pane)) (snippets info state pane) _)

  -- What an offered event leaves marked, once the platform has taken the text or not.
  abbrev LeavesMarked : CopyState → Pane → ConnectEvent → Type 0
  LeavesMarked state pane (copies label value) =
      (clipboard : Clipboard)
      → let after = copy_text label clipboard state in
        (has_taken clipboard ≡ true
          → marked "connectCopied" (url_snippet after ++ behind after pane) ≡ value ∷ [])
        × (has_taken clipboard ≡ false
            → marked "connectCopied" (url_snippet after ++ behind after pane) ≡ [])
  LeavesMarked state pane closes = Unit

  -- The dialog after a copy, by whether it was taken.
  abbrev left : String → Bool → CopyState → CopyState
  left label taken state = record {
    copied = if taken then label else "failed";
    timers = suc state.timers;
  }

  abbrev marks : CopyState → Pane → List Text
  marks state pane = marked "connectCopied" (url_snippet state ++ behind state pane)

  leaves :
      (state : CopyState) (pane : Pane) (label : String) (value : Text)
      → marks (left label true state) pane ≡ value ∷ []
      → marks (left label false state) pane ≡ []
      → LeavesMarked state pane (copies label value)
  unfolding copy_text
  leaves state pane label value h k clipboard = (
    λ e. ap (λ taken. marks (left label taken state) pane) e ∙ h,
    λ e. ap (λ taken. marks (left label taken state) pane) e ∙ k,
  )

  Only-url : (state : CopyState) (pane : Pane) → Only (LeavesMarked state pane) (url_snippet state)
  unfolding copy_label marked snippets
  Only-url state windows = (tt, (λ _. leaves state windows "url" _ refl refl, tt))
  Only-url state macos = (tt, (λ _. leaves state macos "url" _ refl refl, tt))
  Only-url state linux = (tt, (λ _. leaves state linux "url" _ refl refl, tt))
  Only-url state rclone = (tt, (λ _. leaves state rclone "url" _ refl refl, tt))
  Only-url state mobile = (tt, (λ _. leaves state mobile "url" _ refl refl, tt))

  Only-snippets :
      (state : CopyState) (pane : Pane) → Only (LeavesMarked state pane) (snippets info state pane)
  unfolding copy_label marked snippets
  Only-snippets state windows = (
    tt,
    (
      λ _. leaves state windows "unc" _ refl refl,
      (tt, (λ _. leaves state windows "netuse" _ refl refl, tt)),
    ),
  )
  Only-snippets state macos = (tt, (λ _. leaves state macos "mac" _ refl refl, tt))
  Only-snippets state linux = (tt, (λ _. leaves state linux "davfs" _ refl refl, tt))
  Only-snippets state rclone = (
    tt,
    (
      λ _. leaves state rclone "rclone" _ refl refl,
      (tt, (λ _. leaves state rclone "verify" _ refl refl, tt)),
    ),
  )
  Only-snippets state mobile = (tt, (λ _. leaves state mobile "mobile" _ refl refl, tt))

  Only-connect_dialog :
      (state : CopyState) (pane : Pane)
      → Only (LeavesMarked state pane) (connect_dialog steps info state pane)
  unfolding connect_dialog tabs pane_shown step_list
  Only-connect_dialog state pane =
      let P = LeavesMarked state pane in
      (
        tt,
        (
          λ _. tt,
          (
            tt,
            Only-append P (url_snippet state) _ (Only-url state pane) (
                Only-append P (when info.insecure _) _ (Only-when P info.insecure _ (λ _. (tt, tt)))
                  (
                    tt,
                    (
                      tt,
                      (
                        tt,
                        (
                          tt,
                          (
                            tt,
                            Only-append P (pane_shown steps info state pane) _
                                (Only-append P (step_list steps (steps_key pane)) _
                                  (Only-for_each P (steps (steps_key pane)) _ (λ step. (tt, tt)))
                                  (Only-snippets state pane))
                                (tt, tt),
                          ),
                        ),
                      ),
                    ),
                  )),
          ),
        ),
      )

  -- A copy that the platform takes leaves one button of the dialog marked as copied, that of the copied
  -- text, and one that it does not take leaves none, whichever pane is open and whatever was copied before.
  pub marked-copy_text :
      (state : CopyState) (pane : Pane) (label : String) (value : Text) (clipboard : Clipboard)
      → Offers (connect_dialog steps info state pane) (copies label value)
      → marked "connectCopied" (connect_dialog steps info (copy_text label clipboard state) pane)
        ≡ (if has_taken clipboard then value ∷ [] else [])
  marked-copy_text state pane label value clipboard offered =
      let after =
        Offers-Only (LeavesMarked state pane) offered (Only-connect_dialog state pane) clipboard in
      marked-connect_dialog "connectCopied" (copy_text label clipboard state) pane
      ∙ elim (Bool-cases (has_taken clipboard)) [
        | inl e ↦ rw e (after.0 e)
        | inr e ↦ rw e (after.1 e)
      ]
