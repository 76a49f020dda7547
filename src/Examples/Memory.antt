-- ===== src/Examples/Memory.antt =====
-- A pool that never reuses an address: its state is the next address and the addresses in use.
use brillo_device_generic_br.Base.{
  ℕ, ◌+◌, ◌≡◌, refl, Bool, true, false, ◌&&◌, List, Option, none, some, ltb, ◌==◌, if◌then◌else◌,
  replicate, arith, ap, sym, ◌∙◌,
}
use brillo_device_generic_br.Sysdeps.{PoolServices, PoolLaws}

abbrev pub Pool : Type 0
Pool = ℕ × (ℕ → Bool)

abbrev pub in_use : Pool → ℕ → Bool
in_use (next, used) p = ltb p next && used p

abbrev pub release : Option ℕ → Pool → Bool × Pool
release none s = (false, s)
release (some p) (next, used) =
    (in_use (next, used) p, (next, λ q. if q == p then false else used q))

abbrev pub pool : PoolServices Pool
pool = record {
  allocate_pool = λ size (next, used).
      (some (next, replicate size 0), (next + 1, λ q. if q == next then true else used q));
  free_pool = release;
  stall = λ us s. s;
  print = λ chars s. s;
  exit = λ s. s;
}

address_of :
    {m n : ℕ} {xs ys : List ℕ} → ◌≡◌ {A = Option (ℕ × List ℕ)} (some (m, xs)) (some (n, ys)) → m ≡ n
address_of h = cc

above : (next : ℕ) (u : Bool) → (ltb next next && u) ≡ false
above next u = ground arith

one_more :
    (q next p : ℕ) (u : Bool)
    → next ≡ p
    → (ltb q (next + 1) && (if q == next then true else u))
      ≡ (if q == p then true else ltb q next && u)
one_more q next p u h = ground arith

one_less :
    (q next p : ℕ) (u : Bool)
    → (ltb q next && (if q == p then false else u)) ≡ (if q == p then false else ltb q next && u)
one_less q next p u = ground arith

pub pool_laws : PoolLaws pool in_use
pool_laws = record {
  fresh = λ size (next, used) p bytes e.
      ap (λ q. ltb q next && used q) (sym (address_of e)) ∙ above next (used next);
  allocated = λ size (next, used) p bytes q e. one_more q next p (used q) (address_of e);
  exhausted = λ size s q e. absurd (cc);
  freed = λ p (next, used) q h. one_less q next p (used q);
  freed_done = λ p s h. h;
  freed_null = λ s q. refl;
  waits = λ us s q. refl;
  prints = λ chars s q. refl;
}

abbrev pub unused : Pool
unused = (1, λ q. false)
