-- ===== src/Prelude/Tables.antt =====
-- A table of a database as a list of rows in the order of insertion: SELECT, UPDATE and DELETE with
-- a condition, and the laws by which a reader of the table sees a write.
use mathlib.Core.Path.{◌≡◌, refl}
use mathlib.Core.Logic.{inl, inr}
use mathlib.Core.Bool.{Bool, true, false}
use mathlib.Core.Option
use mathlib.Core.Option.{Option, none, some}
use mathlib.Core.List.{List, [], ◌∷◌, ◌++◌}
use native.Mathlib.Omega.{arith}
use lhgp.Prelude.Tests.{if◌then◌else◌, Option-cases, Bool-cases}
use lhgp.Prelude.Lists.{All}

module _ {ℓ} {A : Type ℓ} where
  -- The first row that fits, `fetchone()` of a SELECT.
  unfoldable pub find : (A → Bool) → List A → Option A
  find p [] = none
  find p (x ∷ xs) = if p x then some x else find p xs

  unfoldable pub update_where : (A → Bool) → (A → A) → List A → List A
  update_where p f [] = []
  update_where p f (x ∷ xs) = (if p x then f x else x) ∷ update_where p f xs

  unfoldable pub delete_where : (A → Bool) → List A → List A
  delete_where p [] = []
  delete_where p (x ∷ xs) = if p x then delete_where p xs else x ∷ delete_where p xs

  -- The row of the first table, or else that of the second.
  abbrev pub first_of_two : Option A → Option A → Option A
  first_of_two none o = o
  first_of_two (some x) o = some x

  -- The new row, if the key was free, or else the updated one.
  abbrev pub upserted : Option A → A → (A → A) → A
  upserted none new f = new
  upserted (some x) new f = f x

  -- INSERT ... ON CONFLICT DO UPDATE, where `p` is the test for the new row's key.
  unfoldable pub upsert : (A → Bool) → A → (A → A) → List A → List A
  unfolding find update_where
  upsert p new f xs = elim (find p xs) [ none ↦ xs ++ new ∷ [] | some _ ↦ update_where p f xs ]

module _ {ℓ} {A : Type ℓ} (p : A → Bool) where
  pub find-append_one :
      (x : A) (xs : List A)
      → find p (xs ++ x ∷ []) ≡ first_of_two (find p xs) (if p x then some x else none)
  unfolding find
  find-append_one x [] = refl
  find-append_one x (y ∷ ys) = ground (arith, find-append_one x ys)

  pub find_append_miss :
      (q : A → Bool) (x : A) (xs : List A) → q x ≡ false → find q (xs ++ x ∷ []) ≡ find q xs
  unfolding find
  find_append_miss q x [] h = rw h
  find_append_miss q x (y ∷ ys) h = ground (arith, find_append_miss q x ys)

  pub find_holds : (xs : List A) (x : A) → find p xs ≡ some x → p x ≡ true
  unfolding find
  find_holds [] x h = cc
  find_holds (y ∷ ys) x h = ground (arith, find_holds ys x)

  -- The updated rows still fit the condition: the update is seen at the row that was found.
  pub find-update_self :
      (f : A → A) (xs : List A)
      → ((x : A) → p x ≡ true → p (f x) ≡ true)
      → find p (update_where p f xs) ≡ Option.map f (find p xs)
  unfolding find update_where
  find-update_self f [] keep = refl
  find-update_self f (y ∷ ys) keep = ground (arith, keep y, find-update_self f ys keep)

  -- Rows that no reader `q` asks for, before or after the update, are not seen to change.
  pub find-update_other :
      (q : A → Bool) (f : A → A) (xs : List A)
      → ((x : A) → p x ≡ true → q x ≡ false)
      → ((x : A) → p x ≡ true → q (f x) ≡ false)
      → find q (update_where p f xs) ≡ find q xs
  unfolding find update_where
  find-update_other q f [] old new = refl
  find-update_other q f (y ∷ ys) old new =
      ground (arith, old y, new y, find-update_other q f ys old new)

  pub find-delete_self : (xs : List A) → find p (delete_where p xs) ≡ none
  unfolding find delete_where
  find-delete_self [] = refl
  find-delete_self (y ∷ ys) = ground (arith, find-delete_self ys)

  pub find-delete_other :
      (q : A → Bool) (xs : List A)
      → ((x : A) → p x ≡ true → q x ≡ false)
      → find q (delete_where p xs) ≡ find q xs
  unfolding find delete_where
  find-delete_other q [] old = refl
  find-delete_other q (y ∷ ys) old = ground (arith, old y, find-delete_other q ys old)

  pub find-upsert_self :
      (new : A) (f : A → A) (xs : List A)
      → p new ≡ true
      → ((x : A) → p x ≡ true → p (f x) ≡ true)
      → find p (upsert p new f xs) ≡ some (upserted (find p xs) new f)
  unfolding upsert
  find-upsert_self new f xs h keep = elim (Option-cases (find p xs)) [
    | inl free ↦ ground (arith, find-append_one new xs)
    | inr (x, taken) ↦ ground (arith, find-update_self f xs keep)
  ]

  pub find-upsert_other :
      (q : A → Bool) (new : A) (f : A → A) (xs : List A)
      → q new ≡ false
      → ((x : A) → p x ≡ true → q x ≡ false)
      → ((x : A) → p x ≡ true → q (f x) ≡ false)
      → find q (upsert p new f xs) ≡ find q xs
  unfolding upsert
  find-upsert_other q new f xs h old keep = elim (Option-cases (find p xs)) [
    | inl free ↦ ground (arith, find_append_miss q new xs)
    | inr (x, taken) ↦ ground (arith, find-update_other q f xs old keep)
  ]

pub All-update {ℓ κ} :
    {A : Type ℓ} (P : A → Type κ) (p : A → Bool) (f : A → A) (xs : List A)
    → ((x : A) → P x → P (f x))
    → All P xs
    → All P (update_where p f xs)
unfolding update_where
All-update P p f [] keep h = tt
All-update P p f (x ∷ xs) keep h = (
  elim (Bool-cases (p x)) [ inl e ↦ rw e (keep x h.0) | inr e ↦ rw e h.0 ],
  All-update P p f xs keep h.1,
)

-- No row fits a condition that every row of the table refutes.
pub find-none {ℓ} :
    {A : Type ℓ} (p : A → Bool) (xs : List A) → All (λ x. p x ≡ false) xs → find p xs ≡ none
unfolding find
find-none p [] h = refl
find-none p (x ∷ xs) h = rw (h.0) (find-none p xs h.1)
