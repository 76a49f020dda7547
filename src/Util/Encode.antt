-- ===== src/Util/Encode.antt =====
-- `utf8_to_ucs2` of bub_util.c on what the encoder of Forms writes.
use mathlib.Core.List.{append_assoc}
use brillo_device_generic_br.Base.{
  ℕ, zero, suc, ◌+◌, ◌%◌, ◌^◌, ◌≤◌, ◌<◌, ◌≡◌, refl, ap, ap₂, ◌∙◌, true, List, [], ◌∷◌, ◌++◌, arith,
  ltb, lt→ltb, set, length, set-append, length-append, drop, All,
}
use brillo_device_generic_br.Util.{unit, char_at, converted, utf8_loop, utf8_to_ucs2}
use brillo_device_generic_br.Util.Utf8.{loop_more, loop_last}
use brillo_device_generic_br.Util.Forms.{encode, encode_all, char_at-encode}

length-encode : (c : ℕ) → (1 ≤ length (encode c)) × (length (encode c) ≤ 3)
unfolding encode
length-encode c = ground arith

pub length-encode_all : (cs : List ℕ) → length cs ≤ length (encode_all cs)
unfolding encode_all
length-encode_all [] = omega arith
length-encode_all (c ∷ cs) =
    omega (arith, length-encode c, length-encode_all cs, length-append (encode c) (encode_all cs))

abbrev pub IsChar16 : ℕ → Type 0
IsChar16 c = c < 2 ^ 16

-- One round at an encoded value, with the values of `done` written.
module _ (fuel : ℕ) (c n t : ℕ) (pre rest done tail : List ℕ) (h : IsChar16 c)
    (small : n + 3 < 2 ^ 32) (inside : length pre + length (encode c) < n)
    (behind : length done ≤ length pre) where
  abbrev text : List ℕ
  text = pre ++ (encode c ++ rest)

  abbrev next : ℕ
  next = (length pre + length (encode c)) % 2 ^ 32

  reads : char_at text (length pre) ≡ unit c (length (encode c))
  reads = char_at-encode pre rest c (omega arith) h

  room : ltb (length done) (length (done ++ (t ∷ tail))) ≡ true
  room = lt→ltb _ _ (omega (arith, length-append done (t ∷ tail)))

  writes : set (done ++ (t ∷ tail)) (length done) c ≡ done ++ (c ∷ tail)
  writes = set-append done tail (length done) t c refl

  round_last :
      n ≡ length pre + length (encode c) + 1
      → utf8_loop (suc fuel) text n (done ++ (t ∷ tail)) (length pre) (length done)
        ≡ converted (done ++ (c ∷ tail))
  round_last e =
      loop_last fuel text n _ (length pre) (length done) c (length (encode c)) reads room
        (ground arith)
      ∙ ap converted writes

  round_more :
      length pre + length (encode c) + 1 < n
      → utf8_loop (suc fuel) text n (done ++ (t ∷ tail)) (length pre) (length done)
        ≡ utf8_loop fuel
            (pre ++ encode c ++ rest)
            n
            (done ++ (c ∷ []) ++ tail)
            (length (pre ++ encode c))
            (length (done ++ (c ∷ [])))
  round_more lt =
      loop_more fuel text n _ (length pre) (length done) c (length (encode c)) reads room
        (lt→ltb _ _ (omega arith))
      ∙ rw
          (
            writes,
            append_assoc pre (encode c) rest,
            append_assoc done (c ∷ []) tail,
            length-append pre (encode c),
            length-append done (c ∷ []),
          )
          (ap₂ (utf8_loop fuel text n (done ++ (c ∷ tail))) (omega arith) (omega arith))

-- From a position behind `pre`, with the values of `done` written, the loop appends the rest.
loop-encode :
    (fuel : ℕ) (c : ℕ) (cs pre rest done tail : List ℕ) (n : ℕ)
    → length cs < fuel
    → n ≡ length pre + length (encode_all (c ∷ cs)) + 1
    → n + 3 < 2 ^ 32
    → length done ≤ length pre
    → length (c ∷ cs) ≤ length tail
    → All IsChar16 (c ∷ cs)
    → utf8_loop fuel
        (pre ++ (encode_all (c ∷ cs) ++ rest))
        n
        (done ++ tail)
        (length pre)
        (length done)
      ≡ converted (done ++ (c ∷ cs ++ drop (length (c ∷ cs)) tail))
unfolding encode_all
loop-encode zero c cs pre rest done tail n fuel e small behind room ok = absurd (omega arith)
loop-encode (suc fuel) c [] pre rest done [] n enough e small behind room ok = absurd (omega arith)
loop-encode (suc fuel) c (c' ∷ cs) pre rest done [] n enough e small behind room ok =
    absurd (omega arith)
loop-encode (suc fuel) c [] pre rest done (t ∷ tail) n enough e small behind room ok =
    rw (append_assoc (encode c) [] rest) (
      round_last fuel c n t pre rest done tail ok.0 small (omega (arith, size)) behind
        (omega (arith, size)))
  where
    size : length (encode c ++ []) ≡ length (encode c) + 0
    size = length-append (encode c) []
loop-encode (suc fuel) c (c' ∷ cs) pre rest done (t ∷ tail) n enough e small behind room ok =
    rw (append_assoc (encode c) (encode_all (c' ∷ cs)) rest) (
      round_more fuel c n t pre (encode_all (c' ∷ cs) ++ rest) done tail ok.0 small
        (omega (arith, size)) behind (omega (arith, size, length-encode_all (c' ∷ cs)))
      ∙ loop-encode fuel c' cs (pre ++ encode c) rest (done ++ (c ∷ [])) tail n (omega arith)
          (omega (arith, size, length-append pre (encode c))) small
          (omega
            (arith, length-encode c, length-append pre (encode c), length-append done (c ∷ [])))
          (omega arith) ok.1
      ∙ ap converted (append_assoc done (c ∷ []) _))
  where
    size :
        length (encode c ++ encode_all (c' ∷ cs))
        ≡ length (encode c) + length (encode_all (c' ∷ cs))
    size = length-append (encode c) (encode_all (c' ∷ cs))

-- A text of at least one value below 2 ^ 16, encoded and closed by a NUL byte, is converted to its
-- values, written from the start of the destination; what follows there is kept (the NUL is not
-- written). The byte count includes the NUL and stays below 4 GiB, and the destination has room.
pub utf8_to_ucs2-encode_all :
    (c : ℕ) (cs dst : List ℕ) (capacity : ℕ)
    → All IsChar16 (c ∷ cs)
    → length (encode_all (c ∷ cs)) + 4 < 2 ^ 32
    → length (c ∷ cs) ≤ length dst
    → utf8_to_ucs2 (encode_all (c ∷ cs) ++ (0 ∷ [])) (length (encode_all (c ∷ cs)) + 1) dst capacity
      ≡ converted (c ∷ cs ++ drop (length (c ∷ cs)) dst)
utf8_to_ucs2-encode_all c cs dst capacity ok small room =
    unfold utf8_to_ucs2 in
    loop-encode (length (encode_all (c ∷ cs) ++ (0 ∷ [])) + 1) c cs [] (0 ∷ []) [] dst
      (length (encode_all (c ∷ cs)) + 1)
      (omega (arith, length-encode_all (c ∷ cs), length-append (encode_all (c ∷ cs)) (0 ∷ [])))
      (omega arith) (omega arith) (omega arith) room ok
