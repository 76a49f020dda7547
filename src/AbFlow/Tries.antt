-- ===== src/AbFlow/Tries.antt =====
-- The tries that are left in the abstract A/B machine of bub_ab_flow.c, and what one boot does to
-- them.
use brillo_device_generic_br.Base.{
  ℕ, zero, suc, ◌+◌, ◌<◌, ◌≡◌, ◌⊎◌, inl, inr, refl, ap, ◌∙◌, Option, none, some, List, arith, subst,
  Bool-cases, ◌==◌, ltb,
}
use brillo_device_generic_br.AbData.{
  BubAbFlowResult, ok, error_no_valid_slots, BubSlotData, BubAbData,
}
use brillo_device_generic_br.AbFlow.Machine.{
  SlotState, unbootable, updating, successful, view_slot, rank, choose, attempt, view, Ab,
  attempt_at, boot, boot_none_lem, boot_some_lem,
}
use brillo_device_generic_br.AbFlow.Writes.{answer}

-- A slot of the machine has a positive priority if it can be booted; a pending one is not
-- successful.
abbrev pub IsRanked : SlotState → Type 0
IsRanked unbootable = Unit
IsRanked (updating p t) = 0 < p
IsRanked (successful p) = 0 < p

abbrev pub IsPending : SlotState → Type 0
IsPending unbootable = Unit
IsPending (updating p t) = Unit
IsPending (successful p) = ⊥

-- The attempts that are left.
abbrev pub tries_left : SlotState → ℕ
tries_left unbootable = 0
tries_left (updating p t) = t + 1
tries_left (successful p) = 0

abbrev pub total_tries : Ab → ℕ
total_tries (a, b) = tries_left a + tries_left b

abbrev pub AllRanked : Ab → Type 0
AllRanked (a, b) = IsRanked a × IsRanked b

abbrev pub AllPending : Ab → Type 0
AllPending (a, b) = IsPending a × IsPending b

abbrev pub HasSuccessful : Ab → Type 0
HasSuccessful (a, b) = ((p : ℕ) × (a ≡ successful p)) ⊎ ((p : ℕ) × (b ≡ successful p))

pub view_slot-IsRanked : (s : BubSlotData) → IsRanked (view_slot s)
unfolding view_slot
view_slot-IsRanked s = elim (Bool-cases (s.priority == 0)) [
  | inl e ↦ rw e tt
  | inr e ↦ rw e (elim (Bool-cases (ltb 0 s.tries_remaining)) [
    | inl f ↦ rw f (ground arith)
    | inr f ↦ rw f (elim (Bool-cases (s.successful_boot == 0)) [
      | inl g ↦ rw g tt
      | inr g ↦ rw g (ground arith)
    ])
  ])
]

pub view-AllRanked : (d : BubAbData) → AllRanked (view d)
view-AllRanked d = (view_slot-IsRanked d.slot0, view_slot-IsRanked d.slot1)

-- One attempt at a slot.
pub attempt_more : (p t : ℕ) → attempt (updating p (suc t)) ≡ updating p t
unfolding attempt
attempt_more p t = ground arith

pub attempt-IsRanked : (a : SlotState) → IsRanked a → IsRanked (attempt a)
unfolding attempt
attempt-IsRanked unbootable r = r
attempt-IsRanked (updating p zero) r = tt
attempt-IsRanked (updating p (suc t)) r = rw (attempt_more p t) r
attempt-IsRanked (successful p) r = r

pub attempt-tries :
    (a : SlotState)
    → IsPending a
    → 0 < rank a
    → (suc (tries_left (attempt a)) ≡ tries_left a) × IsPending (attempt a)
unfolding attempt rank
attempt-tries unbootable h r = absurd (omega arith)
attempt-tries (updating p zero) h r = (omega arith, tt)
attempt-tries (updating p (suc t)) h r = rw (attempt_more p t) (omega arith, tt)
attempt-tries (successful p) h r = absurd h

pub attempt_successful : (p : ℕ) → attempt (successful p) ≡ successful p
unfolding attempt
attempt_successful p = refl

pub rank_of_tries : (a : SlotState) → IsRanked a → 0 < tries_left a → 0 < rank a
unfolding rank
rank_of_tries unbootable r t = absurd (omega arith)
rank_of_tries (updating p t) r h = r
rank_of_tries (successful p) r t = r

pub rank_exhausted : (a : SlotState) → IsPending a → tries_left a ≡ 0 → rank a ≡ 0
unfolding rank
rank_exhausted unbootable h t = refl
rank_exhausted (updating p t) h e = absurd (omega arith)
rank_exhausted (successful p) h t = absurd h

pub rank_successful : (p : ℕ) → IsRanked (successful p) → 0 < rank (successful p)
unfolding rank
rank_successful p r = r

-- What is chosen, by rank.
pub choose-none : (a b : SlotState) → rank a ≡ 0 → rank b ≡ 0 → choose a b ≡ none
unfolding choose
choose-none a b p q = ground arith

pub choose-some :
    (a b : SlotState)
    → (0 < rank a) ⊎ (0 < rank b)
    → ((choose a b ≡ some 0) × (0 < rank a)) ⊎ ((choose a b ≡ some 1) × (0 < rank b))
unfolding choose
choose-some a b h = ground arith

pub zero-or-positive : (n : ℕ) → (n ≡ 0) ⊎ (0 < n)
zero-or-positive n = omega arith

pub positive-cases : (m n : ℕ) → 0 < m + n → (0 < m) ⊎ (0 < n)
positive-cases m n h = omega arith

pub some_rank : (ab : Ab) → AllRanked ab → 0 < total_tries ab → (0 < rank ab.0) ⊎ (0 < rank ab.1)
some_rank (a, b) r t = elim (positive-cases (tries_left a) (tries_left b) t) [
  | inl h ↦ inl (rank_of_tries a r.0 h)
  | inr h ↦ inr (rank_of_tries b r.1 h)
]

-- A boot of pending slots with a try left uses up one try.
pub boot-total_tries :
    (ab : Ab)
    → AllRanked ab
    → AllPending ab
    → 0 < total_tries ab
    → (i : ℕ) × ((boot ab).0 ≡ some i)
      × (suc (total_tries (boot ab).1) ≡ total_tries ab)
      × AllPending (boot ab).1
boot-total_tries (a, b) r p t = elim (choose-some a b (some_rank (a, b) r t)) [
  | inl (c, h) ↦
      let (less, pending) = attempt-tries a p.0 h in
      rw (boot_some_lem 0 (a, b) c) (0, refl, omega arith, (pending, p.1))
  | inr (c, h) ↦
      let (less, pending) = attempt-tries b p.1 h in
      rw (boot_some_lem 1 (a, b) c) (1, refl, omega arith, (p.0, pending))
]

pub boot_pending :
    (ab : Ab)
    → AllRanked ab
    → AllPending ab
    → 0 < total_tries ab
    → (suc (total_tries (boot ab).1) ≡ total_tries ab) × AllPending (boot ab).1
boot_pending ab r p t = let (_, _, less, pending) = boot-total_tries ab r p t in (less, pending)

pub boot_exhausted : (ab : Ab) → AllPending ab → total_tries ab ≡ 0 → boot ab ≡ (none, ab)
boot_exhausted (a, b) p t =
    boot_none_lem (a, b)
      (choose-none a b (rank_exhausted a p.0 (omega arith)) (rank_exhausted b p.1 (omega arith)))

pub HasSuccessful-attempt : (i : ℕ) (ab : Ab) → HasSuccessful ab → HasSuccessful (attempt_at i ab)
HasSuccessful-attempt i (a, b) h = elim (Bool-cases (i == 0)) [
  | inl e ↦ rw e (first h)
  | inr e ↦ rw e (second h)
]
  where
    first : HasSuccessful (a, b) → HasSuccessful (attempt a, b)
    first (inl (p, e)) = inl (p, ap attempt e ∙ attempt_successful p)
    first (inr q) = inr q

    second : HasSuccessful (a, b) → HasSuccessful (a, attempt b)
    second (inl q) = inl q
    second (inr (p, e)) = inr (p, ap attempt e ∙ attempt_successful p)

pub rank_of_HasSuccessful :
    (ab : Ab) → AllRanked ab → HasSuccessful ab → (0 < rank ab.0) ⊎ (0 < rank ab.1)
rank_of_HasSuccessful (a, b) r (inl (p, e)) = inl (rw e (rank_successful p (subst IsRanked e r.0)))
rank_of_HasSuccessful (a, b) r (inr (p, e)) = inr (rw e (rank_successful p (subst IsRanked e r.1)))

-- A successful slot is never lost, and there is always something to boot.
pub boot-HasSuccessful :
    (ab : Ab)
    → AllRanked ab
    → HasSuccessful ab
    → (i : ℕ) × ((boot ab).0 ≡ some i) × HasSuccessful (boot ab).1
boot-HasSuccessful (a, b) r h = elim (choose-some a b (rank_of_HasSuccessful (a, b) r h)) [
  | inl (c, _) ↦ rw (boot_some_lem 0 (a, b) c) (0, refl, HasSuccessful-attempt 0 (a, b) h)
  | inr (c, _) ↦ rw (boot_some_lem 1 (a, b) c) (1, refl, HasSuccessful-attempt 1 (a, b) h)
]

pub ok_of_answer :
    (o : Option ℕ) (i : ℕ) {r : BubAbFlowResult} {sel : List ℕ}
    → (r, sel) ≡ answer o
    → o ≡ some i
    → r ≡ ok
unfolding answer
ok_of_answer none i e f = cc
ok_of_answer (some j) i e f = ap (λ x. x.0) e

pub none_of_answer :
    (o : Option ℕ) {r : BubAbFlowResult} {sel : List ℕ}
    → (r, sel) ≡ answer o
    → o ≡ none
    → r ≡ error_no_valid_slots
unfolding answer
none_of_answer none e f = ap (λ x. x.0) e
none_of_answer (some j) e f = cc
