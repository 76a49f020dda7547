-- ===== src/AbFlow/Writes.antt =====
-- The conditional writes of bub_ab_flow in bub_ab_flow.c: what is on the disk after them.
use brillo_device_generic_br.Base.{
  ℕ, ◌≡◌, ◌⊎◌, inl, inr, refl, Bool, true, false, ◌||◌, Option, none, some, List, arith, Bool-cases,
}
use brillo_device_generic_br.Ops.{BubOps, MiscLaws}
use brillo_device_generic_br.AbData.{
  BubAbFlowResult, ok, error_no_valid_slots, BubAbData, IsAbData, boot_ctrl_magic,
}
use brillo_device_generic_br.AbFlow.{
  ReadOutcome, read, bub_write_ab_data_to_misc, write_if, suffix, no_suffix, fresh_data,
}
use brillo_device_generic_br.AbFlow.Machine.{view}
use brillo_device_generic_br.AbFlow.Misc.{
  settled, loaded, after_write_ready, write_loaded, write_failed,
}
use brillo_device_generic_br.AbFlow.Steps.{SameHeader}

-- What the caller of the flow sees of a boot of the machine.
unfoldable pub answer : Option ℕ → BubAbFlowResult × List ℕ
answer none = (error_no_valid_slots, no_suffix)
answer (some i) = (ok, suffix i)

-- `loaded` gives a structure that differs from `d` at most in its checksum.
abbrev pub Holds : ReadOutcome → BubAbData → Type 0
Holds outcome d = (e : BubAbData) × (outcome ≡ read e) × (view e ≡ view d) × SameHeader e d

module _ {S : Type 0} (ops : BubOps S) (IsReady : S → Type 0) (misc : S → List ℕ)
    (laws : MiscLaws ops IsReady misc) where
  abbrev pub loaded_here : S → ReadOutcome
  loaded_here = loaded ops IsReady misc laws

  pub write_if_ready :
      (new : Bool) (d : BubAbData) (s : S)
      → IsAbData d
      → IsReady s
      → IsReady (write_if ops new d s).1
  unfolding write_if
  write_if_ready true d s h r = after_write_ready ops IsReady misc laws d s h r
  write_if_ready false d s h r = r

  pub settled-Holds : (d : BubAbData) {o : ReadOutcome} → o ≡ read (settled d) → Holds o d
  unfolding settled
  settled-Holds d e = (settled d, e, refl, (refl, refl, refl, refl, refl))

  -- Either the new metadata is on the disk, or the write failed and the old is there.
  pub write_if-cases :
      (new : Bool) (d : BubAbData) (s : S)
      → IsAbData d
      → d.magic ≡ boot_ctrl_magic
      → IsReady s
      → (new ≡ false → loaded_here s ≡ read d)
      → let (written, s') = write_if ops new d s in
        ((written ≡ true) × Holds (loaded_here s') d)
        ⊎ ((written ≡ false) × (loaded_here s' ≡ loaded_here s))
  unfolding write_if
  write_if-cases false d s h m r old =
      inl (refl, (d, old refl, refl, (refl, refl, refl, refl, refl)))
  write_if-cases true d s h m r old = elim (Bool-cases (bub_write_ab_data_to_misc ops d s).0) [
    | inl w ↦ inl (w, settled-Holds d (write_loaded ops IsReady misc laws d s h m r w))
    | inr w ↦ inr (w, write_failed ops IsReady misc laws d s h r w)
  ]

pub or_false : (a b : Bool) → (a || b) ≡ false → (a ≡ false) × (b ≡ false)
or_false a b h = ground arith

pub fresh-IsAbData : IsAbData fresh_data
fresh-IsAbData = omega arith
