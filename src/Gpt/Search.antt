-- ===== src/Gpt/Search.antt =====
-- The loop of bub_partition_entry_by_name over the entries: against the first entry of a table with
-- the name, and that it ends.
use mathlib.Core.List.{append_assoc}
use brillo_device_generic_br.Base.{
  ℕ, zero, suc, ◌+◌, ◌-◌, ◌%◌, ◌*◌, ◌^◌, ◌≤◌, ◌<◌, ◌≡◌, ◌≢◌, refl, ap, sym, ◌∙◌, Bool, List, [],
  ◌∷◌, ◌++◌, some, inl, inr, Bool-cases, take, length, arith, bytes_eq, ltb, ltb→lt, length-append,
  if◌then◌else◌, All,
}
use brillo_device_generic_br.Gpt.{
  EfiLib, char_bytes, same_name, name_at, gpt_entry_bytes, max_gpt_entries, SearchResult, match_at,
  absent, no_fuel, search_entries,
}
use brillo_device_generic_br.Gpt.Names.{
  NamedEntry, IsNameChar, IsNamed, entry_bytes, table_bytes, CountsChars, length-entry_bytes,
  same_name-bytes_eq, name_at-table_bytes, not_below,
}

-- The first entry with the name, from number `i` on.
unfoldable pub first_named : List ℕ → List NamedEntry → ℕ → SearchResult
first_named name [] i = absent
first_named name (e ∷ es) i =
    let rest = first_named name es (i + 1) in if bytes_eq e.chars name then match_at i else rest

-- One round at an entry of the table.
search_step :
    (lib : EfiLib) (fuel n : ℕ) (ucs2 all : List ℕ) (count i : ℕ) {b : Bool}
    → i < count
    → i < max_gpt_entries
    → same_name lib n ucs2 (name_at all i) ≡ some b
    → search_entries lib (suc fuel) n ucs2 all count i
      ≡ (if b then match_at i else search_entries lib fuel n ucs2 all count (i + 1))
unfolding search_entries
search_step lib fuel n ucs2 all count i {b} counted inside e = ground (arith, e, no_wrap)
  where
    no_wrap : (i + 1) % 2 ^ 8 ≡ i + 1
    no_wrap = omega arith

search_done :
    (lib : EfiLib) (fuel n : ℕ) (ucs2 all : List ℕ) (count i : ℕ)
    → count ≤ i
    → search_entries lib (suc fuel) n ucs2 all count i ≡ absent
unfolding search_entries
search_done lib fuel n ucs2 all count i done = ground arith

sub-zero : (n : ℕ) → n - 0 ≡ n
sub-zero n = omega arith

take_none : (n i : ℕ) (es : List NamedEntry) → n ≤ i → take (n - i) es ≡ []
take_none n i es h = ap (λ k. take k es) none_left
  where
    none_left : n - i ≡ 0
    none_left = omega arith

take_one :
    (n i : ℕ) (e : NamedEntry) (es : List NamedEntry)
    → i < n
    → take (n - i) (e ∷ es) ≡ e ∷ take (n - (i + 1)) es
take_one n i e es h = ap (λ k. take k (e ∷ es)) one_left
  where
    one_left : n - i ≡ suc (n - (i + 1))
    one_left = omega arith

take_empty : (n : ℕ) → take {A = NamedEntry} n [] ≡ []
take_empty zero = refl
take_empty (suc n) = refl

first_named-nil :
    (name : List ℕ) (es : List NamedEntry) (i : ℕ) → es ≡ [] → first_named name es i ≡ absent
unfolding first_named
first_named-nil name es i h = rw h

first_named-cons :
    (name : List ℕ) (all es : List NamedEntry) (e : NamedEntry) (i : ℕ)
    → all ≡ e ∷ es
    → first_named name all i
      ≡ (if bytes_eq e.chars name then match_at i else first_named name es (i + 1))
unfolding first_named
first_named-cons name all es e i h = rw h

module _ (lib : EfiLib) (counts : CountsChars lib) (name zeros : List ℕ) (count : ℕ)
    (proper : All IsNameChar name) (counted : count ≤ max_gpt_entries) where
  -- From entry `i` on, behind the entries of `done`.
  search_entries-from :
      (fuel i : ℕ) (done : List ℕ) (es : List NamedEntry)
      → length done ≡ gpt_entry_bytes * i
      → All IsNamed es
      → count ≤ i + length es
      → length es < fuel
      → search_entries lib fuel
          (length name)
          (char_bytes name ++ (0 ∷ 0 ∷ zeros))
          (done ++ table_bytes es)
          count
          i
        ≡ first_named name (take (count - i) es) i
  unfolding table_bytes entry_bytes
  search_entries-from zero i done es at named inside enough = absurd (omega arith)
  search_entries-from (suc fuel) i done [] at named inside enough =
      search_done lib fuel (length name) _ _ count i (omega arith)
      ∙ sym (first_named-nil name _ i (take_empty (count - i)))
  search_entries-from (suc fuel) i done (e ∷ es) at named inside enough =
      elim (Bool-cases (ltb i count)) [
        | inl more ↦
            search_step lib fuel (length name) _ _ count i (ltb→lt _ _ more)
              (omega (arith, ltb→lt _ _ more)) (compared)
            ∙ ap (λ r. if bytes_eq e.chars name then match_at i else r)
                (ap (λ t. search_entries lib fuel (length name) ucs2 t count (i + 1))
                    (sym (append_assoc done (entry_bytes e) (table_bytes es)))
                  ∙ search_entries-from fuel (i + 1) (done ++ entry_bytes e) es
                      (omega
                        (arith, length-append done (entry_bytes e), length-entry_bytes e named.0))
                      named.1 (omega arith) (omega arith))
            ∙ sym (first_named-cons name _ _ e i (take_one count i e es (ltb→lt _ _ more)))
        | inr over ↦
            search_done lib fuel (length name) _ _ count i (not_below _ _ over)
            ∙ sym (first_named-nil name _ i (take_none count i (e ∷ es) (not_below _ _ over)))
      ]
    where
      ucs2 : List ℕ
      ucs2 = char_bytes name ++ (0 ∷ 0 ∷ zeros)

      compared :
          same_name lib (length name) ucs2 (name_at (done ++ table_bytes (e ∷ es)) i)
          ≡ some (bytes_eq e.chars name)
      compared =
          ap (same_name lib (length name) ucs2)
            (name_at-table_bytes done (table_bytes es) e i at named.0)
          ∙ same_name-bytes_eq lib counts name zeros proper e.chars (e.padding ++ table_bytes es)
              named.0.name_chars

-- With at most 128 entries in use, all of them readable, the loop finds the first of them with the
-- name, or none if there is none.
pub search_entries-first_named :
    (lib : EfiLib) (name zeros : List ℕ) (es : List NamedEntry) (count : ℕ)
    → CountsChars lib
    → All IsNameChar name
    → All IsNamed es
    → length es ≡ max_gpt_entries
    → count ≤ max_gpt_entries
    → search_entries lib
        (max_gpt_entries + 1)
        (length name)
        (char_bytes name ++ (0 ∷ 0 ∷ zeros))
        (table_bytes es)
        count
        0
      ≡ first_named name (take count es) 0
search_entries-first_named lib name zeros es count counts proper named whole counted =
    search_entries-from lib counts name zeros count proper counted (max_gpt_entries + 1) 0 [] es
      (omega arith) named (omega arith) (omega arith)
    ∙ ap (λ k. first_named name (take k es) 0) (sub-zero count)

-- The loop needs a round for each of the 128 entries and one more, whatever the table holds: at the
-- entry behind them the memory of the array ends.
pub search_entries_ends :
    (lib : EfiLib) (fuel n : ℕ) (ucs2 all : List ℕ) (count i : ℕ)
    → max_gpt_entries < i + fuel
    → i ≤ max_gpt_entries
    → search_entries lib fuel n ucs2 all count i ≢ no_fuel
unfolding search_entries
search_entries_ends lib zero n ucs2 all count i enough inside = absurd (omega arith)
search_entries_ends lib (suc fuel) n ucs2 all count i enough inside =
    ground (arith, search_entries_ends lib fuel n ucs2 all count ((i + 1) % 2 ^ 8))
