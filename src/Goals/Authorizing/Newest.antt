-- ===== src/Goals/Authorizing/Newest.antt =====
-- The newest event of a kind (src/longtask/persistence/store.py, the look-backs of
-- `auto_approve_drafted_contract`).
use mathlib.Core.Path.{subst}
use lhgp.Prelude.{
  ◌≡◌, refl, Bool, true, false, Option, none, some, List, [], ◌∷◌, ltb, leb, All, All-map, arith,
  Bool-cases, inl, inr, if◌then◌else◌,
}
use lhgp.Store.Types.{StoredEvent}
use lhgp.Goals.Authorizing.{newest, later_of}

-- The event is no later than the one that was found.
abbrev pub at_most : Option StoredEvent → StoredEvent → Bool
at_most none x = false
at_most (some e) x = leb x.created_at e.created_at

later_holds :
    (p : StoredEvent → Bool) (x : StoredEvent) (o : Option StoredEvent)
    → p x ≡ true
    → ((e : StoredEvent) → o ≡ some e → p e ≡ true)
    → p (later_of x o) ≡ true
later_holds p x none h k = h
later_holds p x (some f) h k = elim (Bool-cases (ltb x.created_at f.created_at)) [
  | inl later ↦ rw later (k f refl)
  | inr first ↦ rw first h
]

pub newest-holds :
    (p : StoredEvent → Bool) (es : List StoredEvent) (e : StoredEvent)
    → newest p es ≡ some e
    → p e ≡ true
unfolding newest
newest-holds p [] e h = absurd (cc h)
newest-holds p (x ∷ es) e h = elim (Bool-cases (p x)) [
  | inr other ↦ newest-holds p es e (ground arith)
  | inl own ↦
      let k : later_of x (newest p es) ≡ e = ground arith in
      subst (λ y. p y ≡ true) k
        (later_holds p x (newest p es) own (λ f there. newest-holds p es f there))
]

grows :
    (x y : StoredEvent) (o : Option StoredEvent)
    → at_most o y ≡ true
    → at_most (some (later_of x o)) y ≡ true
grows x y none h = absurd (cc h)
grows x y (some f) h = ground arith

reaches : (x : StoredEvent) (o : Option StoredEvent) → at_most (some (later_of x o)) x ≡ true
reaches x none = ground arith
reaches x (some f) = ground arith

bounds_step :
    (p : StoredEvent → Bool) (x : StoredEvent) (es : List StoredEvent) (o : Option StoredEvent)
    (b : Bool)
    → p x ≡ b
    → All (λ y. p y ≡ true → at_most o y ≡ true) es
    → (p x ≡ true → at_most (if b then some (later_of x o) else o) x ≡ true)
      × All (λ y. p y ≡ true → at_most (if b then some (later_of x o) else o) y ≡ true) es
bounds_step p x es o true own h = (λ k. reaches x o, All-map es (λ y k m. grows x y o (k m)) h)
bounds_step p x es o false other h = (λ k. absurd (cc (k, other)), h)

newest-bounds :
    (p : StoredEvent → Bool) (es : List StoredEvent)
    → All (λ x. p x ≡ true → at_most (newest p es) x ≡ true) es
unfolding newest
newest-bounds p [] = tt
newest-bounds p (x ∷ es) = bounds_step p x es (newest p es) (p x) refl (newest-bounds p es)

-- No event of the kind is later.
pub newest-latest :
    (p : StoredEvent → Bool) (es : List StoredEvent) (e : StoredEvent)
    → newest p es ≡ some e
    → All (λ x. p x ≡ true → leb x.created_at e.created_at ≡ true) es
newest-latest p es e h =
    All-map es (λ x k own. subst (λ o. at_most o x ≡ true) h (k own)) (newest-bounds p es)
