-- ===== src/MiscImage/Arguments.antt =====
-- The command line of make_misc_image (make_misc_image.cc): which attributes it accepts.
use brillo_device_generic_br.Base.{
  ℕ, ◌≤◌, ◌≡◌, ◌↔◌, refl, ap, sym, ◌∙◌, subst, Option, none, some, List, [], ◌∷◌, arith,
}
use brillo_device_generic_br.Base.Int.{pos}
use brillo_device_generic_br.AbData.{BubSlotData}
use brillo_device_generic_br.MiscImage.{
  CommandLine, in_range, attribute, set_slot, set_slots_from_tokens, ◌>>=◌,
}

-- The six values of the attributes, and their limits.
abbrev pub attributes_of : BubSlotData → BubSlotData → List ℕ
attributes_of a b =
    a.priority ∷ a.tries_remaining ∷ a.successful_boot ∷ b.priority ∷ b.tries_remaining
    ∷ b.successful_boot ∷ []

abbrev pub limits : List ℕ
limits = 15 ∷ 7 ∷ 1 ∷ 15 ∷ 7 ∷ 1 ∷ []

-- The first tokens stand for these values, none of which is above its limit.
abbrev pub AreValues : CommandLine → List ℕ → List (List ℕ) → List ℕ → Type 0
AreValues command_line [] st [] = Unit
AreValues command_line [] st (v ∷ vs) = ⊥
AreValues command_line (l ∷ ls) st [] = ⊥
AreValues command_line (l ∷ ls) [] (v ∷ vs) = ⊥
AreValues command_line (l ∷ ls) (token ∷ st) (v ∷ vs) =
    (command_line.string_to_int token ≡ some (pos v)) × (v ≤ l) × AreValues command_line ls st vs

>>=-some {ℓ κ} :
    {A : Type ℓ} {B : Type κ} (o : Option A) (k : A → Option B) {r : B}
    → (o >>= k) ≡ some r
    → (a : A) × (o ≡ some a) × (k a ≡ some r)
>>=-some none k h = absurd (cc)
>>=-some (some a) k h = (a, refl, h)

module _ (command_line : CommandLine) where
  attribute-some :
      (limit : ℕ) (st : List (List ℕ)) {v : ℕ} {rest : List (List ℕ)}
      → attribute command_line limit st ≡ some (v, rest)
      → (token : List ℕ) × (st ≡ token ∷ rest)
        × (command_line.string_to_int token ≡ some (pos v))
        × (v ≤ limit)
  unfolding attribute in_range
  attribute-some limit [] h = absurd (cc)
  attribute-some limit (token ∷ st) {v} {rest} h = (token, ground arith, ground arith, ground arith)

  attribute-value :
      (limit : ℕ) (token : List ℕ) (st : List (List ℕ)) (v : ℕ)
      → command_line.string_to_int token ≡ some (pos v)
      → v ≤ limit
      → attribute command_line limit (token ∷ st) ≡ some (v, st)
  unfolding attribute in_range
  attribute-value limit token st v h le = ground arith

  -- What a slot takes from the tokens.
  abbrev TakesSlot : BubSlotData → List (List ℕ) → BubSlotData → List (List ℕ) → Type 0
  TakesSlot slot st slot' rest =
      (p t b : List ℕ) × (st ≡ p ∷ t ∷ b ∷ rest)
      × (command_line.string_to_int p ≡ some (pos slot'.priority))
      × (slot'.priority ≤ 15)
      × (command_line.string_to_int t ≡ some (pos slot'.tries_remaining))
      × (slot'.tries_remaining ≤ 7)
      × (command_line.string_to_int b ≡ some (pos slot'.successful_boot))
      × (slot'.successful_boot ≤ 1)
      × (slot'.reserved ≡ slot.reserved)

  set_slot-some :
      (slot : BubSlotData) (st : List (List ℕ)) {slot' : BubSlotData} {rest : List (List ℕ)}
      → set_slot command_line slot st ≡ some (slot', rest)
      → TakesSlot slot st slot' rest
  unfolding set_slot
  set_slot-some slot st {slot'} {rest} h =
      let ((v1, st1), e1, h1) = >>=-some (attribute command_line 15 st) _ h in
      let ((v2, st2), e2, h2) = >>=-some (attribute command_line 7 st1) _ h1 in
      let ((v3, st3), e3, h3) = >>=-some (attribute command_line 1 st2) _ h2 in
      let (p, q1, i1, l1) = attribute-some 15 st e1 in
      let (t, q2, i2, l2) = attribute-some 7 st1 e2 in
      let (b, q3, i3, l3) = attribute-some 1 st2 e3 in
      (
        p,
        t,
        b,
        ground arith,
        ground arith,
        ground arith,
        ground arith,
        ground arith,
        ground arith,
        ground arith,
        ground arith,
      )

  set_slot-value :
      (slot slot' : BubSlotData) (p t b : List ℕ) (rest : List (List ℕ))
      → command_line.string_to_int p ≡ some (pos slot'.priority)
      → slot'.priority ≤ 15
      → command_line.string_to_int t ≡ some (pos slot'.tries_remaining)
      → slot'.tries_remaining ≤ 7
      → command_line.string_to_int b ≡ some (pos slot'.successful_boot)
      → slot'.successful_boot ≤ 1
      → slot'.reserved ≡ slot.reserved
      → set_slot command_line slot (p ∷ t ∷ b ∷ rest) ≡ some (slot', rest)
  unfolding set_slot
  set_slot-value slot slot' p t b rest hp lp ht lt hb lb kept = ground (
    arith,
    attribute-value 15 p (t ∷ b ∷ rest) slot'.priority hp lp,
    attribute-value 7 t (b ∷ rest) slot'.tries_remaining ht lt,
    attribute-value 1 b rest slot'.successful_boot hb lb,
  )

  set_slots-some :
      (st : List (List ℕ)) (a b : BubSlotData) {a' b' : BubSlotData}
      → set_slots_from_tokens command_line st a b ≡ some (a', b')
      → (mid rest : List (List ℕ)) × TakesSlot a st a' mid × TakesSlot b mid b' rest
  unfolding set_slots_from_tokens
  set_slots-some st a b {a'} {b'} h =
      let ((x, st1), e1, h1) = >>=-some (set_slot command_line a st) _ h in
      let ((y, st2), e2, h2) = >>=-some (set_slot command_line b st1) _ h1 in
      (
        st1,
        st2,
        set_slot-some a st {slot' = a'} (e1 ∙ ap (λ s. some (s, st1)) (ground arith)),
        set_slot-some b st1 {slot' = b'} (e2 ∙ ap (λ s. some (s, st2)) (ground arith)),
      )

  abbrev IsAccepted : List (List ℕ) → BubSlotData → BubSlotData → BubSlotData → BubSlotData → Type 0
  IsAccepted st a b a' b' =
      AreValues command_line limits st (attributes_of a' b')
      × (a'.reserved ≡ a.reserved)
      × (b'.reserved ≡ b.reserved)

  tokens_taken :
      (st : List (List ℕ)) (a b a' b' : BubSlotData)
      → set_slots_from_tokens command_line st a b ≡ some (a', b')
      → IsAccepted st a b a' b'
  tokens_taken st a b a' b' h =
      let (mid, rest, ta, tb) = set_slots-some st a b h in
      let (p, t, s, e, ip, lp, it, lt, is, ls, kept) = ta in
      let (p', t', s', e', ip', lp', it', lt', is', ls', kept') = tb in
      (
        subst (λ u. AreValues command_line limits u (attributes_of a' b'))
            (sym (e ∙ ap (λ u. p ∷ t ∷ s ∷ u) e'))
            (ip, lp, (it, lt, (is, ls, (ip', lp', (it', lt', (is', ls', tt)))))),
        kept,
        kept',
      )

  values_accepted :
      (st : List (List ℕ)) (a b a' b' : BubSlotData)
      → IsAccepted st a b a' b'
      → set_slots_from_tokens command_line st a b ≡ some (a', b')
  unfolding set_slots_from_tokens
  values_accepted (p ∷ t ∷ s ∷ p' ∷ t' ∷ s' ∷ rest) a b a' b' acc = ground (
    arith,
    set_slot-value a a' p t s (p' ∷ t' ∷ s' ∷ rest) acc.0.0 acc.0.1 acc.0.2.0 acc.0.2.1 acc.0.2.2.0
        acc.0.2.2.1 acc.1,
    set_slot-value b b' p' t' s' rest acc.0.2.2.2.0 acc.0.2.2.2.1 acc.0.2.2.2.2.0 acc.0.2.2.2.2.1
        acc.0.2.2.2.2.2.0 acc.0.2.2.2.2.2.1 acc.2,
  )
  values_accepted [] a b a' b' acc = absurd acc.0
  values_accepted (p ∷ []) a b a' b' acc = absurd acc.0.2
  values_accepted (p ∷ t ∷ []) a b a' b' acc = absurd acc.0.2.2
  values_accepted (p ∷ t ∷ s ∷ []) a b a' b' acc = absurd acc.0.2.2.2
  values_accepted (p ∷ t ∷ s ∷ p' ∷ []) a b a' b' acc = absurd acc.0.2.2.2.2
  values_accepted (p ∷ t ∷ s ∷ p' ∷ t' ∷ []) a b a' b' acc = absurd acc.0.2.2.2.2.2

  -- The tool takes the attributes exactly when the first six tokens stand for numbers from 0 to
  -- their limits, 15, 7 and 1 for the first slot and again for the second; the slots then get
  -- these numbers, and their other bytes are left alone. What follows the six tokens does not
  -- matter.
  pub set_slots_from_tokens-AreValues :
      (st : List (List ℕ)) (a b a' b' : BubSlotData)
      → (set_slots_from_tokens command_line st a b ≡ some (a', b')) ↔ (
          AreValues command_line limits st (attributes_of a' b')
          × (a'.reserved ≡ a.reserved)
          × (b'.reserved ≡ b.reserved))
  set_slots_from_tokens-AreValues st a b a' b' =
      (tokens_taken st a b a' b', values_accepted st a b a' b')
