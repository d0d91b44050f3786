-- ===== src/Store/Quiet.antt =====
-- When a notification may be delivered (src/longtask/persistence/store.py,
-- `_notification_kind` and `_notification_available_at`).
--
-- The time zone database and Python's `int` are parameters. A time of day counts microseconds.
use lhgp.Prelude.{
  ℕ, ◌+◌, ◌*◌, ◌≤◌, ◌<◌, ◌≡◌, ◌⊎◌, Bool, true, Option, none, some, List, [], ◌∷◌, ◌==◌, nat_eq,
  ◌&&◌, ◌||◌, contains, if◌then◌else◌, ltb, leb, arith, Bool-cases, Option-cases, inl, inr,
  Equality, nat_beq, index_beq_iff, refl, zero, suc,
}
use lhgp.Contracts.Axes.{ContractState, state_eq}
use lhgp.Contracts.Policies.{Ident, Instant, Attention, NotifyKind, QuietHours, Json}
use lhgp.Store.EventType.{EventType, event_eq}

pub record Platform : Type 0 where
  -- The day and the time of day in a zone; none where there is no such zone.
  pub local_time : Ident → Instant → Option (ℕ × ℕ)
  pub instant_of : Ident → ℕ → ℕ → Instant
  -- The number that a text is, none where `int` raises or the number is negative.
  pub parse_int : List ℕ → Option ℕ
  -- A text without the blanks around it.
  pub strip : Ident → Ident
  -- `==` on two values of JSON.
  pub json_equal : Json → Json → Bool

abbrev pub notify_index : NotifyKind → ℕ
notify_index NotifyKind.need_user = 0
notify_index NotifyKind.risk_red = 1
notify_index NotifyKind.satisfied = 2
notify_index NotifyKind.missed = 3

abbrev pub notify_of_index : ℕ → NotifyKind
notify_of_index zero = NotifyKind.need_user
notify_of_index (suc zero) = NotifyKind.risk_red
notify_of_index (suc (suc zero)) = NotifyKind.satisfied
notify_of_index _ = NotifyKind.missed

pub notify_of_index-index : (k : NotifyKind) → notify_of_index (notify_index k) ≡ k
notify_of_index-index NotifyKind.need_user = refl
notify_of_index-index _ = refl

instance abbrev pub notify_eq : Equality NotifyKind
notify_eq = record {
  equal = λ a b. nat_beq (notify_index a) (notify_index b);
  equal_iff = index_beq_iff notify_index notify_of_index notify_of_index-index;
}

unfoldable pub notification_kind : EventType → ContractState → Option NotifyKind
notification_kind raw state =
    if state == ContractState.expired || raw == EventType.contract_expired
    then some NotifyKind.missed
    else if state == ContractState.complete
        || (raw == EventType.contract_completed || raw == EventType.contract_satisfied)
    then some NotifyKind.satisfied
    else if state == ContractState.blocked || raw == EventType.escalation_handed_to_user
    then some NotifyKind.need_user
    else none

abbrev push_first : ℕ → List (List ℕ) → List (List ℕ)
push_first y [] = (y ∷ []) ∷ []
push_first y (p ∷ ps) = (y ∷ p) ∷ ps

-- `text.split(":")`
unfoldable pub split_colon : List ℕ → List (List ℕ)
split_colon [] = [] ∷ []
split_colon (x ∷ xs) =
    let rest = split_colon xs in if x == b':' then [] ∷ rest else push_first x rest

abbrev microseconds : ℕ → ℕ → ℕ
microseconds h m = (h * 60 + m) * 60000000

-- `datetime_time(h, m)` of two texts, none where either raises.
abbrev clock_of : Option ℕ → Option ℕ → Option ℕ
clock_of (some h) (some m) = if ltb h 24 && ltb m 60 then some (microseconds h m) else none
clock_of (some h) none = none
clock_of none m = none

abbrev clock_of_parts : Platform → List (List ℕ) → Option ℕ
clock_of_parts platform (h ∷ m ∷ []) = clock_of (platform.parse_int h) (platform.parse_int m)
clock_of_parts platform (h ∷ m ∷ _ ∷ _) = none
clock_of_parts platform (h ∷ []) = none
clock_of_parts platform [] = none

unfoldable pub parse_hhmm : Platform → List ℕ → Option ℕ
unfolding split_colon
parse_hhmm platform text = clock_of_parts platform (split_colon text)

-- The window may run over midnight. Its end is excluded.
unfoldable pub in_quiet : ℕ → ℕ → ℕ → Bool
in_quiet start end_at time =
    if leb start end_at
    then leb start time && ltb time end_at
    else leb start time || ltb time end_at

-- The day on which the window that holds `time` ends.
unfoldable pub end_day : ℕ → ℕ → ℕ → ℕ → ℕ
end_day start end_at day time = if ltb end_at start && leb start time then day + 1 else day

abbrev delayed : Platform → Ident → Instant → Option (ℕ × ℕ) → Option ℕ → Option ℕ → Instant
unfolding in_quiet end_day
delayed platform zone now (some (day, time)) (some start) (some end_at) =
    if in_quiet start end_at time
    then platform.instant_of zone (end_day start end_at day time) end_at
    else now
delayed platform zone now (some (day, time)) (some start) none = now
delayed platform zone now (some (day, time)) none end_at = now
delayed platform zone now none start end_at = now

abbrev available : Platform → NotifyKind → List NotifyKind → Option QuietHours → Instant → Instant
unfolding delayed parse_hhmm
available platform kind bypass none now = now
available platform kind bypass (some quiet) now =
    if contains kind bypass
    then now
    else delayed platform quiet.timezone now (platform.local_time quiet.timezone now)
        (parse_hhmm platform quiet.start) (parse_hhmm platform quiet.end_at)

unfoldable pub notification_available_at : Platform → Attention → NotifyKind → Instant → Instant
unfolding available
notification_available_at platform attention kind now =
    available platform kind attention.bypass_quiet_hours_on attention.quiet_hours now

-- Later on the clock of a zone is later in time: so it is in a zone whose offset does not change.
unfoldable pub Steady : Platform → Type 0
Steady platform =
    (zone : Ident) (now day time later_day later : ℕ)
    → platform.local_time zone now ≡ some (day, time)
    → day < later_day ⊎ (day ≡ later_day) × (time < later)
    → now < platform.instant_of zone later_day later

end_day_later :
    (start end_at day time : ℕ)
    → in_quiet start end_at time ≡ true
    → day < end_day start end_at day time ⊎ (day ≡ end_day start end_at day time) × (time < end_at)
unfolding in_quiet end_day
end_day_later start end_at day time h = ground arith

delayed_later :
    (platform : Platform) (zone : Ident) (now : Instant) (here : Option (ℕ × ℕ))
    (start end_at : Option ℕ)
    → Steady platform
    → platform.local_time zone now ≡ here
    → now ≤ delayed platform zone now here start end_at
unfolding delayed Steady
delayed_later platform zone now none start end_at steady e = omega arith
delayed_later platform zone now (some (day, time)) none end_at steady e = omega arith
delayed_later platform zone now (some (day, time)) (some start) none steady e = omega arith
delayed_later platform zone now (some (day, time)) (some start) (some end_at) steady e =
    elim (Bool-cases (in_quiet start end_at time)) [
      | inl quiet ↦
          let later = end_day_later start end_at day time quiet in
          let after = steady zone now day time (end_day start end_at day time) end_at e later in
          rw quiet (omega arith)
      | inr loud ↦ rw loud (omega arith)
    ]

-- A notification is never made available before it is raised, whatever its quiet hours say; in zones
-- whose clock runs steadily.
pub notification_not_early :
    (platform : Platform) (attention : Attention) (kind : NotifyKind) (now : Instant)
    → Steady platform
    → now ≤ notification_available_at platform attention kind now
unfolding notification_available_at
notification_not_early platform attention kind now steady =
    elim (Option-cases attention.quiet_hours) [
      | inl loud ↦ ground arith
      | inr (quiet, e) ↦ ground (
        arith,
        delayed_later platform quiet.timezone now (platform.local_time quiet.timezone now)
            (parse_hhmm platform quiet.start) (parse_hhmm platform quiet.end_at) steady refl,
      )
    ]
