-- ===== src/Contracts/Machine/Lifecycle.antt =====
-- The lives of contracts and attempts under the transition rules, over any chain of transitions.
use lhgp.Prelude.{◌≡◌, refl, ◌↔◌, true, false, [], ◌∷◌, arith, contains, Reach, Reach-closed}
use lhgp.Contracts.Axes.{ContractState, state_eq, AttemptState, attempt_state_eq}
use lhgp.Contracts.Machine.{
  non_terminal_states, is_terminal_state, is_valid_transition, attempt_non_terminal_states,
  is_terminal_attempt_state, is_valid_attempt_transition,
}

terminal_stuck :
    (s t : ContractState) → is_terminal_state s ≡ true → is_valid_transition s t ≡ false
unfolding is_terminal_state is_valid_transition
terminal_stuck s t h = ground arith

live_moves :
    (s : ContractState)
    → is_terminal_state s ≡ false
    → is_valid_transition s ContractState.cancelled ≡ true
unfolding is_terminal_state is_valid_transition
live_moves s h = ground arith

-- A contract state is terminal exactly when no transition leaves it, and it is listed as
-- non-terminal exactly when it can be cancelled.
pub terminal_iff_stuck :
    (s : ContractState)
    → ((is_terminal_state s ≡ true) ↔ ((t : ContractState) → is_valid_transition s t ≡ false))
      × ((contains s non_terminal_states ≡ true)
          ↔ (is_valid_transition s ContractState.cancelled ≡ true))
unfolding is_terminal_state is_valid_transition
terminal_iff_stuck s = (
  (λ h t. terminal_stuck s t h, λ stuck. ground (arith, stuck ContractState.cancelled)),
  (λ h. ground arith, λ h. ground arith),
)

terminal_step :
    (s a b : ContractState)
    → is_terminal_state s ≡ true
    → a ≡ s
    → is_valid_transition a b ≡ true
    → b ≡ s
unfolding is_terminal_state is_valid_transition
terminal_step s a b t e h = cc (terminal_stuck s b t, e)

-- A contract that has reached a terminal state stays in it over any chain of transitions.
pub terminal_absorbs :
    (s t : ContractState) → is_terminal_state s ≡ true → Reach is_valid_transition s t → t ≡ s
terminal_absorbs s t h r = Reach-closed (λ a. a ≡ s) (λ a b. terminal_step s a b h) refl r

attempt_stuck :
    (s t : AttemptState)
    → is_terminal_attempt_state s ≡ true
    → is_valid_attempt_transition s t ≡ false
unfolding is_terminal_attempt_state is_valid_attempt_transition
attempt_stuck s t h = ground arith

-- A terminal attempt keeps its state over any chain of transitions.
pub attempt_absorbs :
    (s t : AttemptState)
    → is_terminal_attempt_state s ≡ true
    → Reach is_valid_attempt_transition s t
    → t ≡ s
attempt_absorbs s t h r = Reach-closed (λ a. a ≡ s) (λ a b e v. cc (attempt_stuck s b h, e)) refl r

-- An attempt occupies a slot (it is in `ATTEMPT_NON_TERMINAL_STATES`) exactly when it is not
-- terminal, and exactly when it can still be cancelled; only a running or waiting attempt can
-- succeed.
pub attempt_in_flight :
    (s : AttemptState)
    → (contains s attempt_non_terminal_states
        ≡ is_valid_attempt_transition s AttemptState.cancelled)
      × ((is_terminal_attempt_state s ≡ false) ↔ (contains s attempt_non_terminal_states ≡ true))
      × (is_valid_attempt_transition s AttemptState.succeeded
          ≡ contains s (AttemptState.running ∷ AttemptState.waiting ∷ []))
unfolding is_terminal_attempt_state is_valid_attempt_transition
attempt_in_flight AttemptState.admitted = (refl, (λ h. refl, λ h. refl), refl)
attempt_in_flight _ = (refl, (λ h. ground arith, λ h. ground arith), refl)
