-- ===== src/Admin/Overview/Largest.antt =====
-- web/src/views/OverviewView.vue: the users that use the most.
use mathlib.Core.List.{Perm}
use mathlib.Core.List.Perm
use easy_webdav.Prelude.{
  ℕ, zero, suc, ◌≤◌, ◌≡◌, refl, ap, ◌⊎◌, inl, inr, true, false, ltb, List, [], ◌∷◌, ◌++◌, take,
  drop, length, All, arith, Bool-cases,
}
use easy_webdav.Api.Types.{UserUsage}
use easy_webdav.Admin.Overview.{place_item, by_used, largest}

abbrev pub UsesNoMore : UserUsage → UserUsage → Type 0
UsesNoMore item other = other.used ≤ item.used

-- Nobody uses more than one who stands before.
abbrev pub Falling : List UserUsage → Type 0
Falling [] = Unit
Falling (item ∷ users) = All (UsesNoMore item) users × Falling users

place_item-behind :
    (item first : UserUsage) (users : List UserUsage)
    → ltb item.used first.used ≡ true
    → place_item item (first ∷ users) ≡ first ∷ place_item item users
unfolding place_item
place_item-behind item first users e = rw (e) refl

place_item-before :
    (item first : UserUsage) (users : List UserUsage)
    → ltb item.used first.used ≡ false
    → place_item item (first ∷ users) ≡ item ∷ first ∷ users
unfolding place_item
place_item-before item first users e = rw (e) refl

place_item-perm :
    (item : UserUsage) (users : List UserUsage) → Perm (place_item item users) (item ∷ users)
unfolding place_item
place_item-perm item [] = Perm.refl (item ∷ [])
place_item-perm item (first ∷ users) = elim (Bool-cases (ltb item.used first.used)) [
  | inl e ↦
      rw (place_item-behind item first users e)
        (Perm.trans (Perm.cons first (place_item-perm item users)) (Perm.swap item first users))
  | inr e ↦ rw (place_item-before item first users e) (Perm.refl (item ∷ first ∷ users))
]

by_used-perm : (users : List UserUsage) → Perm (by_used users) users
unfolding by_used
by_used-perm [] = Perm.refl []
by_used-perm (item ∷ users) =
    Perm.trans (place_item-perm item (by_used users)) (Perm.cons item (by_used-perm users))

place_item-All :
    (P : UserUsage → Type 0) (item : UserUsage) (users : List UserUsage)
    → P item
    → All P users
    → All P (place_item item users)
unfolding place_item
place_item-All P item [] p h = (p, tt)
place_item-All P item (first ∷ users) p (q, h) = elim (Bool-cases (ltb item.used first.used)) [
  | inl e ↦ rw (place_item-behind item first users e) (q, place_item-All P item users p h)
  | inr e ↦ rw (place_item-before item first users e) (p, (q, h))
]

UsesNoMore-trans :
    (item first : UserUsage) (users : List UserUsage)
    → UsesNoMore item first
    → All (UsesNoMore first) users
    → All (UsesNoMore item) users
UsesNoMore-trans item first [] below h = tt
UsesNoMore-trans item first (other ∷ users) below (p, h) =
    (omega (arith, below, p), UsesNoMore-trans item first users below h)

place_item-Falling :
    (item : UserUsage) (users : List UserUsage) → Falling users → Falling (place_item item users)
unfolding place_item
place_item-Falling item [] h = (tt, tt)
place_item-Falling item (first ∷ users) (b, h) = elim (Bool-cases (ltb item.used first.used)) [
  | inl e ↦ rw (place_item-behind item first users e) (
    place_item-All (UsesNoMore first) item users (ground arith) b,
    place_item-Falling item users h,
  )
  | inr e ↦
      let below : UsesNoMore item first = ground arith in
      rw (place_item-before item first users e)
        ((below, UsesNoMore-trans item first users below b), (b, h))
]

by_used-Falling : (users : List UserUsage) → Falling (by_used users)
unfolding by_used
by_used-Falling [] = tt
by_used-Falling (item ∷ users) = place_item-Falling item (by_used users) (by_used-Falling users)

module _ {A : Type 0} where
  take-drop : (n : ℕ) (xs : List A) → take n xs ++ drop n xs ≡ xs
  take-drop zero xs = refl
  take-drop (suc n) [] = refl
  take-drop (suc n) (x ∷ xs) = ap (λ rest. x ∷ rest) (take-drop n xs)

  take-full :
      (n : ℕ) (xs : List A)
      → (length (take n xs) ≡ n) ⊎ ((length (take n xs) ≤ n) × (drop n xs ≡ []))
  take-full zero xs = inl refl
  take-full (suc n) [] = inr (omega arith, refl)
  take-full (suc n) (x ∷ xs) = elim (take-full n xs) [
    | inl full ↦ inl (ap suc full)
    | inr (short, empty) ↦ inr (omega (arith, short), empty)
  ]

  All-take : (P : A → Type 0) (n : ℕ) (xs : List A) → All P xs → All P (take n xs)
  All-take P zero xs h = tt
  All-take P (suc n) [] h = tt
  All-take P (suc n) (x ∷ xs) (p, h) = (p, All-take P n xs h)

  All-drop : (P : A → Type 0) (n : ℕ) (xs : List A) → All P xs → All P (drop n xs)
  All-drop P zero xs h = h
  All-drop P (suc n) [] h = tt
  All-drop P (suc n) (x ∷ xs) (p, h) = All-drop P n xs h

take-Falling : (n : ℕ) (users : List UserUsage) → Falling users → Falling (take n users)
take-Falling zero users h = tt
take-Falling (suc n) [] h = tt
take-Falling (suc n) (item ∷ users) (b, h) =
    (All-take (UsesNoMore item) n users b, take-Falling n users h)

drop-Falling :
    (n : ℕ) (users : List UserUsage)
    → Falling users
    → All (λ item. All (UsesNoMore item) (drop n users)) (take n users)
drop-Falling zero users h = tt
drop-Falling (suc n) [] h = tt
drop-Falling (suc n) (item ∷ users) (b, h) =
    (All-drop (UsesNoMore item) n users b, drop-Falling n users h)

-- The users that the overview shows are ten, or all of them if there are fewer; nobody of them uses more
-- than one who is shown before, and nobody who is left out uses more than one who is shown. Together with
-- those who are left out they are the users that were loaded.
pub largest_lem :
    (users : List UserUsage)
    → let shown = largest users in
      let left_out = drop 10 (by_used users) in
      ((length shown ≡ 10) ⊎ ((length shown ≤ 10) × (left_out ≡ [])))
      × Perm (shown ++ left_out) users
      × Falling shown
      × All (λ item. All (UsesNoMore item) left_out) shown
unfolding largest
largest_lem users =
    let sorted = by_used users in
    let falling = by_used-Falling users in
    (
      take-full 10 sorted,
      rw (take-drop 10 sorted) (by_used-perm users),
      take-Falling 10 sorted falling,
      drop-Falling 10 sorted falling,
    )
