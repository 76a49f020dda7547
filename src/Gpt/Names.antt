-- ===== src/Gpt/Names.antt =====
-- Entries of the partition table by their parts, and the comparison of their names in
-- bub_partition_entry_by_name.
use mathlib.Core.List.{append_assoc}
use brillo_device_generic_br.Base.{
  ℕ, ◌+◌, ◌/◌, ◌%◌, ◌*◌, ◌^◌, ◌≤◌, ◌<◌, ◌≡◌, ◌≢◌, refl, ap, sym, ◌∙◌, true, false, List, [], ◌∷◌,
  ◌++◌, some, inl, inr, Bool-cases, ◌==◌, ==_iff, drop, length, arith, bytes_eq, eq_of_bytes_eq,
  ltb, length-append, drop-append, take-append, All, drop-drop, ◌&&◌,
}
use brillo_device_generic_br.Gpt.{
  EfiLib, char_bytes, mem_equal, compare_names, same_name, name_at, name_offset, gpt_entry_bytes,
}

-- An entry by its parts: what stands before the name, the values of the name, and the bytes behind
-- the name's NUL.
pub record NamedEntry : Type 0 where
  pub attributes : List ℕ
  pub chars : List ℕ
  pub padding : List ℕ

abbrev pub IsNameChar : ℕ → Type 0
IsNameChar c = (1 ≤ c) × (c < 2 ^ 16)

-- Whether it takes the 128 bytes of an entry, the last 72 for the name.
pub record IsNamed (e : NamedEntry) : Type 0 where
  pub attributes_length : length e.attributes ≡ name_offset
  pub name_chars : All IsNameChar e.chars
  pub name_length : 2 * length e.chars + 2 + length e.padding ≡ 72

unfoldable pub entry_bytes : NamedEntry → List ℕ
entry_bytes e = e.attributes ++ (char_bytes e.chars ++ (0 ∷ 0 ∷ e.padding))

unfoldable pub table_bytes : List NamedEntry → List ℕ
unfolding entry_bytes
table_bytes [] = []
table_bytes (e ∷ es) = entry_bytes e ++ table_bytes es

-- StrLen of the UEFI library counts the values before a NUL.
abbrev pub CountsChars : EfiLib → Type 0
CountsChars lib =
    (chars rest : List ℕ)
    → All IsNameChar chars
    → lib.str_len (char_bytes chars ++ (0 ∷ 0 ∷ rest)) ≡ some (length chars)

pub length-char_bytes : (cs : List ℕ) → length (char_bytes cs) ≡ 2 * length cs
unfolding char_bytes
length-char_bytes [] = omega arith
length-char_bytes (c ∷ cs) = omega (arith, length-char_bytes cs)

char_split : (c d : ℕ) → ((c % 256 == d % 256) && ((c / 256) == (d / 256))) ≡ (c == d)
char_split c d = ground arith

bytes_eq-char_bytes : (cs ds : List ℕ) → bytes_eq (char_bytes cs) (char_bytes ds) ≡ bytes_eq cs ds
unfolding char_bytes bytes_eq
bytes_eq-char_bytes [] [] = refl
bytes_eq-char_bytes [] (d ∷ ds) = refl
bytes_eq-char_bytes (c ∷ cs) [] = refl
bytes_eq-char_bytes (c ∷ cs) (d ∷ ds) = ground (arith, bytes_eq-char_bytes cs ds, char_split c d)

length_of_bytes_eq : (cs ds : List ℕ) → bytes_eq cs ds ≡ true → length cs ≡ length ds
length_of_bytes_eq cs ds h = ap length (eq_of_bytes_eq cs ds h)

bytes_eq_lengths : (cs ds : List ℕ) → length cs ≢ length ds → bytes_eq cs ds ≡ false
bytes_eq_lengths cs ds h = elim (Bool-cases (bytes_eq cs ds)) [
  | inl e ↦ absurd (h (length_of_bytes_eq cs ds e))
  | inr e ↦ e
]

pub not_below : (m n : ℕ) → ltb m n ≡ false → n ≤ m
not_below m n h = ground arith

ne_of_==_false : (a b : ℕ) → (a == b) ≡ false → b ≢ a
ne_of_==_false a b h = ground arith

-- Whatever follows the names, their bytes are compared.
mem_equal-chars :
    (cs ds xs ys : List ℕ)
    → length cs ≡ length ds
    → mem_equal (2 * length ds) (char_bytes cs ++ xs) (char_bytes ds ++ ys) ≡ some (bytes_eq cs ds)
unfolding mem_equal
mem_equal-chars cs ds xs ys h = ground (
  arith,
  length-append (char_bytes cs) xs,
  length-append (char_bytes ds) ys,
  length-char_bytes cs,
  length-char_bytes ds,
  take-append (char_bytes cs) xs (2 * length ds) (omega (arith, length-char_bytes cs)),
  take-append (char_bytes ds) ys (2 * length ds) (length-char_bytes ds),
  bytes_eq-char_bytes cs ds,
)

module _ (lib : EfiLib) (counts : CountsChars lib) (name : List ℕ) (zeros : List ℕ)
    (proper : All IsNameChar name) where
  pub same_name-bytes_eq :
      (cs rest : List ℕ)
      → All IsNameChar cs
      → same_name lib
          (length name)
          (char_bytes name ++ (0 ∷ 0 ∷ zeros))
          (char_bytes cs ++ (0 ∷ 0 ∷ rest))
        ≡ some (bytes_eq cs name)
  unfolding same_name
  same_name-bytes_eq cs rest ok = elim (Bool-cases (length name == length cs)) [
    | inl e ↦
        rw (counts name zeros proper, counts cs rest ok, compare_names, e)
          (mem_equal-chars cs name _ _ (sym ((==_iff _ _).0 e)))
    | inr e ↦
        rw (counts name zeros proper, counts cs rest ok, compare_names, e)
          (ap some (sym (bytes_eq_lengths cs name (ne_of_==_false _ _ e))))
  ]

pub length-entry_bytes : (e : NamedEntry) → IsNamed e → length (entry_bytes e) ≡ gpt_entry_bytes
unfolding entry_bytes
length-entry_bytes e h = omega (
  arith,
  length-append e.attributes (char_bytes e.chars ++ (0 ∷ 0 ∷ e.padding)),
  length-append (char_bytes e.chars) (0 ∷ 0 ∷ e.padding),
  length-char_bytes e.chars,
  h.attributes_length,
  h.name_length,
)

pub length-table_bytes :
    (es : List NamedEntry) → All IsNamed es → length (table_bytes es) ≡ gpt_entry_bytes * length es
unfolding table_bytes
length-table_bytes [] h = omega arith
length-table_bytes (e ∷ es) h = omega (
  arith,
  length-append (entry_bytes e) (table_bytes es),
  length-entry_bytes e h.0,
  length-table_bytes es h.1,
)

-- The memory from the name on, for the entry behind `done`.
pub name_at-table_bytes :
    (done rest : List ℕ) (e : NamedEntry) (i : ℕ)
    → length done ≡ gpt_entry_bytes * i
    → IsNamed e
    → name_at (done ++ (entry_bytes e ++ rest)) i
      ≡ char_bytes e.chars ++ (0 ∷ 0 ∷ (e.padding ++ rest))
unfolding name_at entry_bytes
name_at-table_bytes done rest e i h named =
    sym (drop-drop (gpt_entry_bytes * i) name_offset (done ++ (entry_bytes e ++ rest)))
    ∙ ap (drop name_offset) (drop-append done (entry_bytes e ++ rest) (gpt_entry_bytes * i) h)
    ∙ ap (drop name_offset) (append_assoc e.attributes _ rest)
    ∙ drop-append e.attributes _ name_offset named.attributes_length
    ∙ append_assoc (char_bytes e.chars) _ rest
