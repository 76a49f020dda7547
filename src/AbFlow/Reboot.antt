-- ===== src/AbFlow/Reboot.antt =====
-- Repeated boots with bub_ab_flow of bub_ab_flow.c, when nobody marks a slot as successful and
-- every write of the metadata reaches the disk.
use brillo_device_generic_br.Base.{
  ℕ, zero, suc, ◌<◌, ◌≡◌, ◌≢◌, inl, inr, refl, sym, ap, Bool, true, false, Option, none, some, List,
  arith, subst, length,
}
use brillo_device_generic_br.Base.Int.{pos}
use brillo_device_generic_br.Ops
use brillo_device_generic_br.Ops.{BubOps, MiscLaws, misc_name, ab_data_size}
use brillo_device_generic_br.AbData.{
  ok, error_no_valid_slots, error_write_metadata, BubAbData, IsAbData, to_bytes,
}
use brillo_device_generic_br.AbFlow.{
  read, sealed, bub_write_ab_data_to_misc, write_if, boot_target, flow_slots, bub_ab_flow,
}
use brillo_device_generic_br.AbFlow.Machine.{view, Ab, boot}
use brillo_device_generic_br.AbFlow.Misc.{loaded, after_read_ready, loaded-IsAbData}
use brillo_device_generic_br.AbFlow.Boot.{flow_of_read, bub_ab_flow-Booted, bub_ab_flow_ready}
use brillo_device_generic_br.AbFlow.Writes.{answer}
use brillo_device_generic_br.AbData.Stored.{length-to_bytes}
use brillo_device_generic_br.AbFlow.Storage.{sealed-IsAbData}
use brillo_device_generic_br.AbFlow.Steps.{normalize-IsAbData, take_try_at-IsAbData}
use brillo_device_generic_br.AbFlow.Tries.{
  total_tries, AllPending, HasSuccessful, view-AllRanked, zero-or-positive, boot-total_tries,
  boot_pending, boot_exhausted, boot-HasSuccessful, ok_of_answer, none_of_answer,
}

module _ {S : Type 0} (ops : BubOps S) (IsReady : S → Type 0) (misc : S → List ℕ)
    (laws : MiscLaws ops IsReady misc)
    (writes : (s : S) (buf : List ℕ)
      → IsReady s
      → length buf ≡ ab_data_size
      → (ops.write_to_partition misc_name buf (pos 0) s).0 ≡ Ops.ok) where
  -- The state after a number of boots.
  unfoldable pub reboots : ℕ → S → S
  reboots zero s = s
  reboots (suc n) s = reboots n (bub_ab_flow ops s).2

  write_if-true :
      (new : Bool) (d : BubAbData) (s : S)
      → IsAbData d
      → IsReady s
      → (write_if ops new d s).0 ≡ true
  unfolding write_if bub_write_ab_data_to_misc
  write_if-true false d s h r = refl
  write_if-true true d s h r =
      rw (writes s (to_bytes (sealed d)) r (length-to_bytes (sealed-IsAbData h)))

  target_written :
      (o : Option ℕ) (new : Bool) (d : BubAbData) (s : S)
      → IsAbData d
      → IsReady s
      → (boot_target ops o new d s).0 ≢ error_write_metadata
  unfolding boot_target
  target_written none new d s h r = rw (write_if-true new d s h r) (λ e. cc)
  target_written (some i) new d s h r =
      rw (write_if-true _ _ s (take_try_at-IsAbData i d h) r) (λ e. cc)

  flow_written :
      (d : BubAbData) (s : S)
      → IsReady s
      → loaded ops IsReady misc laws s ≡ read d
      → (bub_ab_flow ops s).0 ≢ error_write_metadata
  unfolding flow_slots
  flow_written d s r e = rw (flow_of_read ops IsReady misc laws s r e) (
      target_written _ _ _ _ (normalize-IsAbData d (loaded-IsAbData ops IsReady misc laws s r e).0)
        (after_read_ready ops IsReady misc laws s r))

  -- One boot, as the machine sees it.
  pub one_boot :
      (d : BubAbData) (s : S)
      → IsReady s
      → loaded ops IsReady misc laws s ≡ read d
      → (((bub_ab_flow ops s).0, (bub_ab_flow ops s).1) ≡ answer (boot (view d)).0)
        × ((e : BubAbData) × (loaded ops IsReady misc laws (bub_ab_flow ops s).2 ≡ read e)
            × (view e ≡ (boot (view d)).1))
  one_boot d s r e = elim (bub_ab_flow-Booted ops IsReady misc laws d s r e) [
    | inl (p, (x, q, v, _)) ↦ (p, (x, q, v))
    | inr (p, _, _) ↦ absurd (flow_written d s r e p)
  ]

  -- On a platform that keeps the promises of MiscLaws, where every write of the metadata succeeds,
  -- and with intact metadata in which no slot is successful, the flow offers a slot on each of the
  -- next boots, as often as there are tries left in both slots together, and on the boot after
  -- these it reports that no slot is valid.
  pub reboots-total_tries :
      (k : ℕ) (d : BubAbData) (s : S)
      → IsReady s
      → loaded ops IsReady misc laws s ≡ read d
      → AllPending (view d)
      → (k < total_tries (view d) → (bub_ab_flow ops (reboots k s)).0 ≡ ok)
        × (k ≡ total_tries (view d) → (bub_ab_flow ops (reboots k s)).0 ≡ error_no_valid_slots)
  unfolding reboots
  reboots-total_tries zero d s r e p =
      let (a, _) = one_boot d s r e in
      (
        λ more.
            let (i, b, _, _) = boot-total_tries (view d) (view-AllRanked d) p more in
            ok_of_answer _ i a b,
        λ done. none_of_answer _ a (ap (λ x. x.0) (boot_exhausted (view d) p (sym done))),
      )
  reboots-total_tries (suc k) d s r e p = elim (zero-or-positive (total_tries (view d))) [
    | inl none_left ↦ (λ more. absurd (omega arith), λ done. absurd (omega arith))
    | inr some_left ↦
        let (_, (x, q, v)) = one_boot d s r e in
        let (less, pending) = boot_pending (view d) (view-AllRanked d) p some_left in
        let (offered, done) =
          reboots-total_tries k x (bub_ab_flow ops s).2
            (bub_ab_flow_ready ops IsReady misc laws d s r e) q
            (subst AllPending (sym v) pending) in
        (λ h. offered (fewer v less h), λ h. done (as_many v less h))
  ]
    where
      fewer : {x y : Ab} {n : ℕ} → x ≡ y → suc (total_tries y) ≡ n → suc k < n → k < total_tries x
      fewer v less h = rw v (omega arith)

      as_many : {x y : Ab} {n : ℕ} → x ≡ y → suc (total_tries y) ≡ n → suc k ≡ n → k ≡ total_tries x
      as_many v less h = rw v (omega arith)

  -- On a platform that keeps the promises of MiscLaws, where every write of the metadata succeeds,
  -- and with intact metadata in which a slot is successful, every later boot is offered a slot.
  pub reboots-HasSuccessful :
      (k : ℕ) (d : BubAbData) (s : S)
      → IsReady s
      → loaded ops IsReady misc laws s ≡ read d
      → HasSuccessful (view d)
      → (bub_ab_flow ops (reboots k s)).0 ≡ ok
  unfolding reboots
  reboots-HasSuccessful zero d s r e h =
      let (a, _) = one_boot d s r e in
      let (i, b, _) = boot-HasSuccessful (view d) (view-AllRanked d) h in ok_of_answer _ i a b
  reboots-HasSuccessful (suc k) d s r e h =
      let (a, (x, q, v)) = one_boot d s r e in
      let (i, b, h') = boot-HasSuccessful (view d) (view-AllRanked d) h in
      reboots-HasSuccessful k x (bub_ab_flow ops s).2
        (bub_ab_flow_ready ops IsReady misc laws d s r e) q (subst HasSuccessful (sym v) h')
