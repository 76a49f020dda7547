-- ===== src/AbFlow/Boot.antt =====
-- bub_ab_flow of bub_ab_flow.c and the abstract A/B machine.
use brillo_device_generic_br.Base.{
  ℕ, ◌≡◌, ◌≢◌, ◌⊎◌, inl, inr, refl, sym, ap, ◌∙◌, Bool, true, false, ◌||◌, Option, none, some, List,
  Option-cases, if◌then◌else◌,
}
use brillo_device_generic_br.Ops
use brillo_device_generic_br.Ops.{BubOps, MiscLaws}
use brillo_device_generic_br.AbData.{
  BubAbFlowResult, error_invalid_metadata, error_write_metadata, BubAbData, IsAbData,
  boot_ctrl_magic,
}
use brillo_device_generic_br.AbFlow.{
  ReadOutcome, read, failed, normalize, target_slot, take_try_at, bub_read_ab_data_from_misc,
  bub_write_ab_data_to_misc, write_if, boot_target, flow_slots, flow_failed, reset_metadata,
  bub_ab_flow, no_suffix, fresh_data,
}
use brillo_device_generic_br.AbFlow.Slots.{IsProper}
use brillo_device_generic_br.AbFlow.Machine.{
  choose, view, Ab, boot, boot_none_lem, boot_some_lem, target_slot-choose,
}
use brillo_device_generic_br.AbFlow.Misc.{
  settled, loaded, read_loaded, after_read_ready, loaded-after_read, write-cases, write_result,
  misc-after_read, loaded-IsAbData,
}
use brillo_device_generic_br.AbFlow.Steps.{
  SameHeader, normalize-IsAbData, normalize-IsProper, normalize-view, normalize-header,
  normalize_unchanged, take_try_at-IsAbData, take_try_at-view, take_try_at-header,
  take_try_at_unchanged,
}
use brillo_device_generic_br.AbFlow.Writes.{
  answer, write_if_ready, write_if-cases, or_false, fresh-IsAbData,
}

-- A boot of the machine was made and is on the disk, with the answer that belongs to it; or its
-- metadata could not be written, the caller gets that error, and the disk is as before.
abbrev pub Booted : Ab → BubAbData → ReadOutcome → ReadOutcome → BubAbFlowResult → List ℕ → Type 0
Booted ab d before after result selected =
    (((result, selected) ≡ answer (boot ab).0)
      × ((e : BubAbData) × (after ≡ read e) × (view e ≡ (boot ab).1) × SameHeader e d))
    ⊎ ((result ≡ error_write_metadata) × (selected ≡ no_suffix) × (after ≡ before))

header_trans : (a b c : BubAbData) → SameHeader a b → SameHeader b c → SameHeader a c
header_trans a b c h k = (h.0 ∙ k.0, h.1 ∙ k.1, h.2 ∙ k.2, h.3 ∙ k.3, h.4 ∙ k.4)

module _ {S : Type 0} (ops : BubOps S) (IsReady : S → Type 0) (misc : S → List ℕ)
    (laws : MiscLaws ops IsReady misc) where
  abbrev flow_loaded : S → ReadOutcome
  flow_loaded = loaded ops IsReady misc laws

  boot_none :
      (new : Bool) (d : BubAbData) (s : S)
      → IsAbData d
      → d.magic ≡ boot_ctrl_magic
      → IsReady s
      → (new ≡ false → flow_loaded s ≡ read d)
      → choose (view d).0 (view d).1 ≡ none
      → let (result, selected, s') = boot_target ops none new d s in
        Booted (view d) d (flow_loaded s) (flow_loaded s') result selected
  unfolding boot_target answer
  boot_none new d s h m r old c = elim (write_if-cases ops IsReady misc laws new d s h m r old) [
    | inl (w, (e, p, q, k)) ↦
        inl (rw (w, boot_none_lem (view d) c), (e, rw w p, rw (boot_none_lem (view d) c) q, k))
    | inr (w, p) ↦ inr (rw w, rw w, rw w p)
  ]

  boot_some :
      (i : ℕ) (new : Bool) (d : BubAbData) (s : S)
      → IsAbData d
      → d.magic ≡ boot_ctrl_magic
      → IsProper d.slot0 × IsProper d.slot1
      → IsReady s
      → (new ≡ false → flow_loaded s ≡ read d)
      → choose (view d).0 (view d).1 ≡ some i
      → let (result, selected, s') = boot_target ops (some i) new d s in
        Booted (view d) d (flow_loaded s) (flow_loaded s') result selected
  unfolding boot_target answer
  boot_some i new d s h m proper r old c =
      elim (write_if-cases ops IsReady misc laws (new || (take_try_at i d).1) (take_try_at i d).0 s
        (take_try_at-IsAbData i d h) (header.0 ∙ m) r unchanged) [
          | inl (w, (e, p, q, k)) ↦ inl (
            rw (w, boot_some_lem i (view d) c),
            (
              e,
              rw w p,
              rw (boot_some_lem i (view d) c) (q ∙ take_try_at-view i d proper.0 proper.1),
              header_trans e (take_try_at i d).0 d k header,
            ),
          )
          | inr (w, p) ↦ inr (rw w, rw w, rw w p)
        ]
    where
      header : SameHeader (take_try_at i d).0 d
      header = take_try_at-header i d

      unchanged : (new || (take_try_at i d).1) ≡ false → flow_loaded s ≡ read (take_try_at i d).0
      unchanged e =
          let (not_new, not_taken) = or_false _ _ e in
          old not_new ∙ ap read (sym (take_try_at_unchanged i d not_taken))

  -- The flow after a successful read.
  flow_slots-Booted :
      (d : BubAbData) (s : S)
      → IsAbData d
      → d.magic ≡ boot_ctrl_magic
      → IsReady s
      → flow_loaded s ≡ read d
      → let (result, selected, s') = flow_slots ops d s in
        Booted (view d) d (flow_loaded s) (flow_loaded s') result selected
  unfolding flow_slots
  flow_slots-Booted d s h m r e = elim (Option-cases (target_slot n.slot0 n.slot1)) [
    | inl none_left ↦
        rw none_left
          (back none (boot_none (normalize d).1 n s nh nm r unchanged (chosen none_left)))
    | inr (i, found) ↦
        rw found
          (back (some i) (boot_some i (normalize d).1 n s nh nm proper r unchanged (chosen found)))
  ]
    where
      n : BubAbData
      n = (normalize d).0

      nh : IsAbData n
      nh = normalize-IsAbData d h

      nm : n.magic ≡ boot_ctrl_magic
      nm = (normalize-header d h).0 ∙ m

      proper : IsProper n.slot0 × IsProper n.slot1
      proper = normalize-IsProper d h

      unchanged : (normalize d).1 ≡ false → flow_loaded s ≡ read n
      unchanged f = e ∙ ap read (sym (normalize_unchanged d h f))

      chosen : {o : Option ℕ} → target_slot n.slot0 n.slot1 ≡ o → choose (view n).0 (view n).1 ≡ o
      chosen p = sym (target_slot-choose n.slot0 n.slot1 proper.0 proper.1) ∙ p

      back :
          (o : Option ℕ)
          → let (result, selected, s') = boot_target ops o (normalize d).1 n s in
            Booted (view n) n (flow_loaded s) (flow_loaded s') result selected
            → let (result, selected, s') = boot_target ops o (normalize d).1 n s in
              Booted (view d) d (flow_loaded s) (flow_loaded s') result selected
      back o (inl (p, (x, q, v, k))) =
          let same = normalize-view d h in
          inl (
            rw (← same) p,
            (x, q, v ∙ ap (λ ab. (boot ab).1) same, header_trans x n d k (normalize-header d h)),
          )
      back o (inr p) = inr p

  pub flow_of_read :
      (s : S) {d : BubAbData}
      → IsReady s
      → flow_loaded s ≡ read d
      → bub_ab_flow ops s ≡ flow_slots ops d (bub_read_ab_data_from_misc ops s).1
  unfolding bub_ab_flow
  flow_of_read s r e = rw (read_loaded ops IsReady misc laws s r ∙ e, bub_ab_flow)

  pub flow_of_failed :
      (s : S) {x : BubAbFlowResult}
      → IsReady s
      → flow_loaded s ≡ failed x
      → bub_ab_flow ops s ≡ flow_failed ops x (bub_read_ab_data_from_misc ops s).1
  unfolding bub_ab_flow
  flow_of_failed s r e = rw (read_loaded ops IsReady misc laws s r ∙ e, bub_ab_flow)

  pub bub_ab_flow-Booted :
      (d : BubAbData) (s : S)
      → IsReady s
      → flow_loaded s ≡ read d
      → let (result, selected, s') = bub_ab_flow ops s in
        Booted (view d) d (flow_loaded s) (flow_loaded s') result selected
  bub_ab_flow-Booted d s r e =
      let s' = (bub_read_ab_data_from_misc ops s).1 in
      let same = loaded-after_read ops IsReady misc laws s r in
      let (h, m) = loaded-IsAbData ops IsReady misc laws s r e in
      rw (flow_of_read s r e, ← same)
        (flow_slots-Booted d s' h m (after_read_ready ops IsReady misc laws s r) (same ∙ e))

  ready_if :
      (b : Bool) (x z : BubAbFlowResult) (y w : List ℕ) (s : S)
      → IsReady s
      → let out : BubAbFlowResult × List ℕ × S = if b then (x, y, s) else (z, w, s) in IsReady out.2
  ready_if true x z y w s r = r
  ready_if false x z y w s r = r

  flow_slots_ready :
      (d : BubAbData) (s : S) → IsAbData d → IsReady s → IsReady (flow_slots ops d s).2
  unfolding flow_slots boot_target
  flow_slots_ready d s h r = elim (Option-cases (target_slot n.slot0 n.slot1)) [
    | inl e ↦ rw e (ready_if _ _ _ _ _ _ (writes (normalize d).1 n nh))
    | inr (i, e) ↦ rw e (
        ready_if _ _ _ _ _ _ (
          writes ((normalize d).1 || (take_try_at i n).1) (take_try_at i n).0
            (take_try_at-IsAbData i n nh)))
  ]
    where
      n : BubAbData
      n = (normalize d).0

      nh : IsAbData n
      nh = normalize-IsAbData d h

      writes : (new : Bool) (x : BubAbData) → IsAbData x → IsReady (write_if ops new x s).1
      writes new x hx = write_if_ready ops IsReady misc laws new x s hx r

  pub bub_ab_flow_ready :
      (d : BubAbData) (s : S) → IsReady s → flow_loaded s ≡ read d → IsReady (bub_ab_flow ops s).2
  bub_ab_flow_ready d s r e = rw (flow_of_read s r e) (
      flow_slots_ready d (bub_read_ab_data_from_misc ops s).1
        (loaded-IsAbData ops IsReady misc laws s r e).0
        (after_read_ready ops IsReady misc laws s r))

  -- On a platform that keeps the promises of MiscLaws, and on metadata that is refused as invalid,
  -- the flow gives that result and no suffix. If the platform answers the write of fresh metadata,
  -- after the read, with success, the disk then holds fresh metadata, with seven tries for each slot
  -- at the highest priority; if it answers with an error, the bytes of "misc" are what they were.
  pub bub_ab_flow-invalid :
      (s : S)
      → IsReady s
      → flow_loaded s ≡ failed error_invalid_metadata
      → let (result, selected, s') = bub_ab_flow ops s in
        let written = write_result ops fresh_data (bub_read_ab_data_from_misc ops s).1 in
        (result ≡ error_invalid_metadata)
        × (selected ≡ no_suffix)
        × (((written ≡ Ops.ok) × (flow_loaded s' ≡ read (settled fresh_data)))
            ⊎ ((written ≢ Ops.ok) × (misc s' ≡ misc s)))
  bub_ab_flow-invalid s r e =
      rw (flow_of_failed s r e) (unfold flow_failed reset_metadata in (refl, refl, outcome))
    where
      s1 : S
      s1 = (bub_read_ab_data_from_misc ops s).1

      outcome :
          ((write_result ops fresh_data s1 ≡ Ops.ok)
            × (flow_loaded (bub_write_ab_data_to_misc ops fresh_data s1).1
                ≡ read (settled fresh_data)))
          ⊎ ((write_result ops fresh_data s1 ≢ Ops.ok)
              × (misc (bub_write_ab_data_to_misc ops fresh_data s1).1 ≡ misc s))
      outcome =
          elim (write-cases ops IsReady misc laws fresh_data s1 fresh-IsAbData refl
            (after_read_ready ops IsReady misc laws s r)) [
              | inl (_, w, l) ↦ inl (w, l)
              | inr (_, w, k) ↦ inr (w, k ∙ misc-after_read ops IsReady misc laws s r)
            ]
