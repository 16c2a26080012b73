-- ===== src/Browser/Conflicts/Choices.antt =====
-- That nothing is overwritten unasked (web/src/views/FileBrowserView.vue, `uploadPicked`).
use easy_webdav.Prelude.{
  zero, if◌then◌else◌, ◌++◌, ℕ, ◌≡◌, refl, ◌≢◌, inl, inr, true, false, List, [], ◌∷◌, Option, none,
  some, All, All-append, Bool-cases, suc, ap, subst, sym, ◌∙◌,
}
use easy_webdav.Api.Types.{Entry}
use easy_webdav.Upload.Session.{ConflictChoice, overwrite, skip, rename, UploadTask, create_task}
use easy_webdav.Browser.Conflicts.{
  Picked, has_conflict, ConflictAnswer, task_for, remembered, plan, planned,
}

-- The first of two choices, if there is one, and else the second.
abbrev pub given_or : Option ConflictChoice → Option ConflictChoice → Option ConflictChoice
given_or none other = other
given_or (some choice) other = some choice

module _ (entries : List Entry) (ask : ℕ → ConflictAnswer) where
  -- The choice that holds for all others before the question with this number: that of the first answer
  -- that chose something with the box ticked.
  abbrev pub for_all : ℕ → Option ConflictChoice
  for_all zero = none
  for_all (suc n) = given_or (for_all n) (if (ask n).apply_all then (ask n).choice else none)

  -- The choice for the conflict with this number: the one for all others, or the answer to its own
  -- question.
  abbrev pub choice_at : ℕ → Option ConflictChoice
  choice_at n = given_or (for_all n) (ask n).choice

  -- The tasks, the conflicts being numbered from `n`: every conflict has its choice, whatever was done
  -- with those before.
  unfoldable pub answered : ℕ → List Picked → List UploadTask
  answered n [] = []
  answered n (item ∷ picked) = elim (has_conflict entries item.relative_path) [
    | false ↦ create_task item.file item.relative_path rename ∷ answered n picked
    | true ↦ task_for item (choice_at n) ++ answered (suc n) picked
  ]

  -- A task that is as `createTask` makes it, is not one to be skipped, and overwrites only where there
  -- is a conflict and overwriting is the choice for it.
  pub record IsSettled (task : UploadTask) : Type 0 where
    pub fresh : task ≡ create_task task.file task.relative_path task.conflict
    pub kept : task.conflict ≢ skip
    pub asked_for :
        task.conflict ≡ overwrite
        → (has_conflict entries task.relative_path ≡ true)
          × ((n : ℕ) × (choice_at n ≡ some overwrite))

  task_for-IsSettled :
      (item : Picked) (n : ℕ) (choice : Option ConflictChoice)
      → has_conflict entries item.relative_path ≡ true
      → choice_at n ≡ choice
      → All IsSettled (task_for item choice)
  unfolding task_for create_task
  task_for-IsSettled item n none h c = tt
  task_for-IsSettled item n (some skip) h c = tt
  task_for-IsSettled item n (some overwrite) h c =
      (record { fresh = refl; kept = λ e. cc; asked_for = λ _. (h, (n, c)) }, tt)
  task_for-IsSettled item n (some rename) h c =
      (record { fresh = refl; kept = λ e. cc; asked_for = λ e. cc }, tt)

  fresh-IsSettled : (item : Picked) → IsSettled (create_task item.file item.relative_path rename)
  unfolding create_task
  fresh-IsSettled item = record { fresh = refl; kept = λ e. cc; asked_for = λ e. cc }

  answered-IsSettled : (n : ℕ) (picked : List Picked) → All IsSettled (answered n picked)
  unfolding answered
  answered-IsSettled n [] = tt
  answered-IsSettled n (item ∷ picked) =
      elim (Bool-cases (has_conflict entries item.relative_path)) [
        | inl clash ↦
            rw (clash, answered)
              (All-append IsSettled (task_for item (choice_at n)) _
                (task_for-IsSettled item n (choice_at n) clash refl)
                (answered-IsSettled (suc n) picked))
        | inr free ↦ rw (free, answered) (fresh-IsSettled item, answered-IsSettled n picked)
      ]

  -- The task of an item in conflict, and those behind it.
  with_rest :
      (item : Picked) (rest behind : List UploadTask) (given choice : Option ConflictChoice)
      → choice ≡ given
      → rest ≡ behind
      → task_for item given ++ rest ≡ task_for item choice ++ behind
  with_rest item rest behind given choice c e =
      ap (λ tasks. task_for item given ++ tasks) e ∙ ap (λ o. task_for item o ++ behind) (sym c)

  -- Once a choice holds for all others, no question is asked any more.
  plan-for_all :
      (asked n : ℕ) (choice : ConflictChoice) (picked : List Picked)
      → for_all n ≡ some choice
      → plan entries ask asked (some choice) picked ≡ answered n picked
  unfolding plan answered
  plan-for_all asked n choice [] c = refl
  plan-for_all asked n choice (item ∷ picked) c =
      elim (Bool-cases (has_conflict entries item.relative_path)) [
        | inl clash ↦
            rw (clash, plan, answered)
              (with_rest item _ _ (some choice) (choice_at n)
                (ap (λ o. given_or o (ask n).choice) c)
                (plan-for_all asked (suc n) choice picked
                  (ap (λ o. given_or o (remembered (ask n))) c)))
        | inr free ↦
            rw (free, plan, answered)
              (ap (λ rest. create_task item.file item.relative_path rename ∷ rest)
                (plan-for_all asked n choice picked c))
      ]

  plan-answered :
      (n : ℕ) (apply_all : Option ConflictChoice) (picked : List Picked)
      → for_all n ≡ apply_all
      → plan entries ask n apply_all picked ≡ answered n picked
  unfolding plan answered
  plan-answered n (some choice) picked c = plan-for_all n n choice picked c
  plan-answered n none [] c = refl
  plan-answered n none (item ∷ picked) c =
      elim (Bool-cases (has_conflict entries item.relative_path)) [
        | inl clash ↦
            rw (clash, plan, answered)
              (with_rest item _ _ (ask n).choice (choice_at n)
                (ap (λ o. given_or o (ask n).choice) c)
                (plan-answered (suc n) (remembered (ask n)) picked
                  (ap (λ o. given_or o (remembered (ask n))) c)))
        | inr free ↦
            rw (free, plan, answered)
              (ap (λ rest. create_task item.file item.relative_path rename ∷ rest)
                (plan-answered n none picked c))
      ]

  -- The tasks that are planned are those of the choices for the conflicts in their order: the choice for
  -- a conflict is the answer to its own question, or that of the first answer before which ticked the box
  -- for all others. Every one of the tasks is fresh, is not one to be skipped, and overwrites only where
  -- the directory has an entry of that name and overwriting is such a choice.
  pub planned-IsSettled :
      (picked : List Picked)
      → (planned entries ask picked ≡ answered 0 picked)
        × All IsSettled (planned entries ask picked)
  unfolding planned
  planned-IsSettled picked =
      let same = plan-answered 0 none picked refl in
      (same, subst (All IsSettled) (sym same) (answered-IsSettled 0 picked))
