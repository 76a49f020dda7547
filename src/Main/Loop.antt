-- ===== src/Main/Loop.antt =====
-- What the main loop of bub_main.c makes of intact metadata.
use brillo_device_generic_br.Base.{
  ℕ, suc, ◌<◌, ◌≡◌, ◌≢◌, ◌⊎◌, inl, inr, sym, ap, ◌∙◌, Option, none, some, List, arith, Option-cases,
  length,
}
use brillo_device_generic_br.Base.Int.{pos}
use brillo_device_generic_br.Ops
use brillo_device_generic_br.Ops.{misc_name, BubOps, MiscLaws, ab_data_size}
use brillo_device_generic_br.AbData
use brillo_device_generic_br.AbData.{
  BubAbFlowResult, BubAbData, error_no_valid_slots, error_write_metadata,
}
use brillo_device_generic_br.AbFlow.{
  ReadOutcome, read, check_ab_data, bub_ab_flow, bub_ab_mark_as_invalid, suffix,
}
use brillo_device_generic_br.AbFlow.Machine.{
  SlotState, choose, view, Ab, boot, boot_some_lem, boot_none_lem,
}
use brillo_device_generic_br.AbFlow.Misc.{loaded, settled}
use brillo_device_generic_br.AbFlow.Boot.{bub_ab_flow_ready}
use brillo_device_generic_br.AbFlow.Writes.{answer}
use brillo_device_generic_br.AbFlow.Invalid.{
  without_slot, mark_written, bub_ab_mark_as_invalid-without_slot,
}
use brillo_device_generic_br.AbFlow.Reboot.{one_boot}
use brillo_device_generic_br.AbFlow.Tries.{ok_of_answer, none_of_answer}
use brillo_device_generic_br.AbFlow.Storage.{full_read}
use brillo_device_generic_br.Main.{
  BubBootResult, ok, error_partition_invalid_format, MainResult, success, aborted,
  could_not_choose_slot, could_not_mark_slot, error_loading_kernel, boot_name, after_mark,
  after_boot, after_flow, main_loop,
}

choose-lt : (a b : SlotState) (i : ℕ) → choose a b ≡ some i → i < 2
unfolding choose
choose-lt a b i e = ground arith

boot-lt : (ab : Ab) (i : ℕ) → (boot ab).0 ≡ some i → i < 2
boot-lt ab i e = elim (Option-cases (choose ab.0 ab.1)) [
  | inl c ↦ absurd (none_some (sym (ap (λ x. x.0) (boot_none_lem ab c)) ∙ e))
  | inr (j, c) ↦ choose-lt ab.0 ab.1 i (c ∙ sym (ap (λ x. x.0) (boot_some_lem j ab c)) ∙ e)
]
  where
    none_some : ◌≡◌ {A = Option ℕ} none (some i) → ⊥
    none_some h = cc

-- How the loop ends once a slot is offered, by the result of the kernel.
abbrev pub end_of : BubBootResult → MainResult
end_of ok = success
end_of error_partition_invalid_format = aborted could_not_mark_slot
end_of _ = aborted error_loading_kernel

invalid-cases :
    (r : BubBootResult)
    → (r ≡ error_partition_invalid_format) ⊎ (r ≢ error_partition_invalid_format)
invalid-cases r = ground arith

suffix_of_answer :
    (o : Option ℕ) (i : ℕ) {r : BubAbFlowResult} {sel : List ℕ}
    → (r, sel) ≡ answer o
    → o ≡ some i
    → sel ≡ suffix i
unfolding answer
suffix_of_answer none i e f = cc
suffix_of_answer (some j) i e f = ap (λ x. x.1) e ∙ ap suffix (cc)

module _ {S : Type 0} (ops : BubOps S) (IsReady : S → Type 0) (misc : S → List ℕ)
    (laws : MiscLaws ops IsReady misc) (bub_boot_kernel : List ℕ → S → BubBootResult × S)
    (kernel_ready : (name : List ℕ) (s : S) → IsReady s → IsReady (bub_boot_kernel name s).1)
    (kernel_keeps : (name : List ℕ) (s : S) → IsReady s → misc (bub_boot_kernel name s).1 ≡ misc s)
    (writes : (s : S) (buf : List ℕ)
      → IsReady s
      → length buf ≡ ab_data_size
      → (ops.write_to_partition misc_name buf (pos 0) s).0 ≡ Ops.ok) where
  abbrev main_loaded : S → ReadOutcome
  main_loaded = loaded ops IsReady misc laws

  -- The kernel that is tried for a slot.
  abbrev pub kernel_of : ℕ → S → BubBootResult × S
  kernel_of i s = bub_boot_kernel (boot_name (suffix i)) (bub_ab_flow ops s).2

  offered_round :
      (fuel i : ℕ) (s : S)
      → (bub_ab_flow ops s).0 ≡ AbData.ok
      → (bub_ab_flow ops s).1 ≡ suffix i
      → main_loop ops bub_boot_kernel (suc fuel) s
        ≡ after_boot ops bub_boot_kernel
            (main_loop ops bub_boot_kernel fuel)
            (suffix i)
            (kernel_of i s)
  unfolding main_loop after_flow
  offered_round fuel i s r q = rw (r, q, after_flow)

  after_boot_end :
      (next : S → MainResult × S) (slot_suffix : List ℕ) (r : BubBootResult) (s : S)
      → r ≢ error_partition_invalid_format
      → (after_boot ops bub_boot_kernel next slot_suffix (r, s)).0 ≡ end_of r
  unfolding after_boot
  after_boot_end next slot_suffix r s fine = ground arith

  refused_round :
      (fuel : ℕ) (s : S)
      → (bub_ab_flow ops s).0 ≡ error_no_valid_slots
      → (main_loop ops bub_boot_kernel (suc fuel) s).0 ≡ aborted could_not_choose_slot
  unfolding main_loop after_flow
  refused_round fuel s r = rw (r, after_flow)

  -- The mark of the slot that the kernel was refused for.
  marked :
      (i : ℕ) (x : BubAbData) (s : S) (next : S → MainResult × S)
      → i < 2
      → IsReady s
      → main_loaded s ≡ read x
      → let out : MainResult × S =
          after_mark ops bub_boot_kernel next (bub_ab_mark_as_invalid ops (suffix i) s) in
        (out.0 ≡ aborted could_not_mark_slot)
        × (main_loaded out.1 ≡ read (settled (without_slot i x)))
  unfolding after_mark
  marked i x s next h r e =
      elim (bub_ab_mark_as_invalid-without_slot ops IsReady misc laws i x s h r e) [
        | inl (_, c, q) ↦ (rw (c, after_mark), rw (c, after_mark) q)
        | inr (_, c, _) ↦
            absurd (zero_one (sym c ∙ mark_written ops IsReady misc laws i x s writes h r e))
      ]
    where
      zero_one : ◌≡◌ {A = ℕ} 0 1 → ⊥
      zero_one z = omega arith

  offered_end :
      (i fuel : ℕ) (x : BubAbData) (s : S)
      → i < 2
      → IsReady s
      → main_loaded (bub_ab_flow ops s).2 ≡ read x
      → IsReady (bub_ab_flow ops s).2
      → let out : MainResult × S =
          after_boot ops bub_boot_kernel
            (main_loop ops bub_boot_kernel fuel)
            (suffix i)
            (kernel_of i s) in
        (out.0 ≡ end_of (kernel_of i s).0)
        × ((kernel_of i s).0 ≡ error_partition_invalid_format
            → main_loaded out.1 ≡ read (settled (without_slot i x)))
  unfolding after_boot
  offered_end i fuel x s h r e r' = elim (invalid-cases (kernel_of i s).0) [
    | inl bad ↦
        let (m, q) =
          marked i x (kernel_of i s).1 (main_loop ops bub_boot_kernel fuel) h (kernel_ready _ _ r')
            (ap (λ b. check_ab_data (full_read b)) (kernel_keeps _ _ r') ∙ e) in
        (rw (bad, after_boot) m, λ _. rw (bad, after_boot) q)
    | inr fine ↦ (
      after_boot_end (main_loop ops bub_boot_kernel fuel) (suffix i) (kernel_of i s).0
          (kernel_of i s).1 fine,
      λ bad. absurd (fine bad),
    )
  ]

  -- The round in which the machine boots a slot goes on with the result of that slot's kernel.
  pub main_loop-after_boot :
      (fuel i : ℕ) (d : BubAbData) (s : S)
      → IsReady s
      → main_loaded s ≡ read d
      → (boot (view d)).0 ≡ some i
      → main_loop ops bub_boot_kernel (suc fuel) s
        ≡ after_boot ops bub_boot_kernel
            (main_loop ops bub_boot_kernel fuel)
            (suffix i)
            (kernel_of i s)
  main_loop-after_boot fuel i d s r e some_left =
      let (a, _) = one_boot ops IsReady misc laws writes d s r e in
      offered_round fuel i s (ok_of_answer _ i a some_left) (suffix_of_answer _ i a some_left)

  -- On a platform that keeps the promises of MiscLaws, where every write of the metadata succeeds
  -- and loading a kernel keeps the platform ready and the metadata as they are, the loop on intact
  -- metadata ends in its first round. Without a bootable slot it aborts. Otherwise the kernel of
  -- the slot that the abstract machine boots is tried, and its result alone decides: it was
  -- started; or the loop aborts for an error in loading it; or its partition is refused, the slot
  -- is zeroed on the disk, and the loop aborts although the slot was marked.
  pub main_loop-first_round :
      (fuel : ℕ) (d : BubAbData) (s : S)
      → IsReady s
      → main_loaded s ≡ read d
      → let out : MainResult × S = main_loop ops bub_boot_kernel (suc fuel) s in
        (((boot (view d)).0 ≡ none) × (out.0 ≡ aborted could_not_choose_slot))
        ⊎ ((i : ℕ) × ((boot (view d)).0 ≡ some i)
            × (out.0 ≡ end_of (kernel_of i s).0)
            × ((kernel_of i s).0 ≡ error_partition_invalid_format
                → (x : BubAbData) × (view x ≡ (boot (view d)).1)
                  × (main_loaded out.1 ≡ read (settled (without_slot i x)))))
  main_loop-first_round fuel d s r e =
      let (a, (x, q, v)) = one_boot ops IsReady misc laws writes d s r e in
      elim (Option-cases (boot (view d)).0) [
        | inl none_left ↦ inl (none_left, refused_round fuel s (none_of_answer _ a none_left))
        | inr (i, some_left) ↦
            let (ended, zeroed) =
              offered_end i fuel x s (boot-lt (view d) i some_left) r q
                (bub_ab_flow_ready ops IsReady misc laws d s r e) in
            let round = main_loop-after_boot fuel i d s r e some_left in
            inr (
              i,
              some_left,
              ap (λ o. o.0) round ∙ ended,
              λ bad. (x, v, ap (λ o. main_loaded o.1) round ∙ zeroed bad),
            )
      ]
