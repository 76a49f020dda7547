-- ===== src/Discovery/Paths.antt =====
-- The paths that getDiskBlockIo of bub_boot_kernel.c tries, in their order, and that its loop ends.
use brillo_device_generic_br.Base.{
  ℕ, zero, suc, ◌+◌, ◌≡◌, ◌<◌, refl, sym, ap, ap₂, ◌∙◌, true, false, Option, none, some, List, [],
  ◌∷◌, ◌++◌, take, drop, length, arith, length-append, drop-append, take-append,
}
use mathlib.Core.List.{append_assoc}
use mathlib.Core.Path.{fun_ext}
use brillo_device_generic_br.Sysdeps.{PoolServices, bub_malloc_}
use brillo_device_generic_br.Gpt.{EfiLib}
use brillo_device_generic_br.Discovery.{
  Protocols, PathNodes, DiskResult, not_found, walk_path, after_walk, walk_disk,
}

module _ {S : Type 0} (services : PoolServices S) (lib : EfiLib) (protocols : Protocols S)
    (nodes : PathNodes) where
  -- One round, at the end of the path and at a node before it.
  pub walk_disk-end :
      (fuel : ℕ) (init : List ℕ) (walker : ℕ) (s : S)
      → nodes.is_path_end (drop walker init) ≡ true
      → walk_disk services lib protocols nodes (suc fuel) init walker s ≡ (not_found, s)
  unfolding walk_disk
  walk_disk-end fuel init walker s h = rw (h, walk_disk)

  pub walk_disk-node :
      (fuel : ℕ) (init : List ℕ) (walker : ℕ) (s : S)
      → nodes.is_path_end (drop walker init) ≡ false
      → walk_disk services lib protocols nodes (suc fuel) init walker s
        ≡ after_walk services lib protocols
            (walk_disk services lib protocols nodes fuel init
              (walker + nodes.node_length (drop walker init)))
            (walk_path services nodes init (walker + nodes.node_length (drop walker init)) s)
  unfolding walk_disk
  walk_disk-node fuel init walker s h = rw (h, walk_disk)

-- A path is copied into new memory.
abbrev pub copy_path : {S : Type 0} → PoolServices S → List ℕ → S → Option (ℕ × List ℕ × ℕ) × S
copy_path services path s =
    let (next, s') = bub_malloc_ services (length path) s in
    (elim next [ none ↦ none | some (address, bytes) ↦ some (address, path, length path) ], s')

-- The rounds as a list of paths: each is copied, and tried.
unfoldable pub try_paths :
    {S : Type 0} → PoolServices S → EfiLib → Protocols S → List (List ℕ) → S → DiskResult × S
try_paths services lib protocols [] s = (not_found, s)
try_paths services lib protocols (path ∷ paths) s =
    after_walk services lib protocols (try_paths services lib protocols paths)
      (copy_path services path s)

-- The paths to try from the first node of the list on, behind the bytes of `done`: each ends with a
-- node that has another one before it, and the last holds the whole path.
unfoldable pub tried : List ℕ → List ℕ → List (List ℕ) → List (List ℕ)
tried last done [] = []
tried last done (node ∷ []) = []
tried last done (node ∷ next ∷ rest) =
    let more = tried last (done ++ node) (next ∷ rest) in ((done ++ (node ++ next)) ++ last) ∷ more

unfoldable pub join : List (List ℕ) → List ℕ
join [] = []
join (node ∷ rest) = node ++ join rest

-- What the macros say of a path of such nodes, whatever follows it in memory: each node has its
-- length, and only the last one ends the path.
abbrev pub AreNodes : PathNodes → List (List ℕ) → Type 0
AreNodes nodes [] = Unit
AreNodes nodes (last ∷ []) =
    (nodes.is_path_end (join (last ∷ [])) ≡ true)
    × (nodes.node_length (join (last ∷ [])) ≡ length last)
AreNodes nodes (node ∷ next ∷ rest) =
    (nodes.is_path_end (join (node ∷ next ∷ rest)) ≡ false)
    × (nodes.node_length (join (node ∷ next ∷ rest)) ≡ length node)
    × AreNodes nodes (next ∷ rest)

module _ {S : Type 0} (services : PoolServices S) (lib : EfiLib) (protocols : Protocols S)
    (nodes : PathNodes) where
  first_length :
      (node : List ℕ) (rest : List (List ℕ))
      → AreNodes nodes (node ∷ rest)
      → nodes.node_length (join (node ∷ rest)) ≡ length node
  unfolding join
  first_length node [] laws = laws.1
  first_length node (next ∷ rest) laws = laws.1

  join-cons : (node : List ℕ) (rest : List (List ℕ)) → join (node ∷ rest) ≡ node ++ join rest
  unfolding join
  join-cons node rest = refl

  -- The copy that is allocated at the node behind `done ++ node`.
  walk_path-copy :
      (done node next : List ℕ) (rest : List (List ℕ)) (s : S)
      → AreNodes nodes (next ∷ rest)
      → walk_path services nodes (done ++ (node ++ join (next ∷ rest))) (length (done ++ node)) s
        ≡ copy_path services ((done ++ (node ++ next)) ++ nodes.end_device_path) s
  unfolding walk_path
  walk_path-copy done node next rest s laws =
      ap₂
        (λ bytes path.
          let (o, s') = bub_malloc_ services bytes s in
          (elim o [ none ↦ none | some (a, b) ↦ some (a, path, bytes) ], s'))
        size copied
    where
      init : List ℕ
      init = done ++ (node ++ join (next ∷ rest))

      path : List ℕ
      path = (done ++ (node ++ next)) ++ nodes.end_device_path

      at_next : drop (length (done ++ node)) init ≡ join (next ∷ rest)
      at_next =
          ap (drop (length (done ++ node))) (sym (append_assoc done node (join (next ∷ rest))))
          ∙ drop-append (done ++ node) (join (next ∷ rest)) (length (done ++ node)) refl

      walker_bytes :
          length (done ++ node) + nodes.node_length (drop (length (done ++ node)) init)
          ≡ length (done ++ (node ++ next))
      walker_bytes =
          ap (λ t. length (done ++ node) + nodes.node_length t) at_next
          ∙ ap (λ n. length (done ++ node) + n) (first_length next rest laws)
          ∙ sym (length-append (done ++ node) next)
          ∙ ap length (append_assoc done node next)

      size :
          length nodes.end_device_path
            + (length (done ++ node) + nodes.node_length (drop (length (done ++ node)) init))
          ≡ length path
      size =
          omega (arith, walker_bytes, length-append (done ++ (node ++ next)) nodes.end_device_path)

      init_split : init ≡ (done ++ (node ++ next)) ++ join rest
      init_split =
          ap (λ t. done ++ (node ++ t)) (join-cons next rest)
          ∙ ap (λ t. done ++ t) (sym (append_assoc node next (join rest)))
          ∙ sym (append_assoc done (node ++ next) (join rest))

      copied :
          take (length (done ++ node) + nodes.node_length (drop (length (done ++ node)) init)) init
            ++ nodes.end_device_path
          ≡ path
      copied =
          ap₂ (λ n t. take n t ++ nodes.end_device_path) walker_bytes init_split
          ∙ ap (λ t. t ++ nodes.end_device_path)
              (take-append (done ++ (node ++ next)) (join rest) (length (done ++ (node ++ next)))
                refl)

  -- From the node behind `done` on.
  walk_disk-from :
      (fuel : ℕ) (done node : List ℕ) (rest : List (List ℕ)) (s : S)
      → AreNodes nodes (node ∷ rest)
      → length rest < fuel
      → walk_disk services lib protocols nodes fuel (done ++ join (node ∷ rest)) (length done) s
        ≡ try_paths services lib protocols (tried nodes.end_device_path done (node ∷ rest)) s
  unfolding tried try_paths
  walk_disk-from zero done node rest s laws enough = absurd (omega arith)
  walk_disk-from (suc fuel) done node [] s laws enough =
      walk_disk-end services lib protocols nodes fuel _ (length done) s
        (ap nodes.is_path_end (drop-append done (join (node ∷ [])) (length done) refl) ∙ laws.0)
  walk_disk-from (suc fuel) done node (next ∷ rest) s laws enough =
      walk_disk-node services lib protocols nodes fuel _ (length done) s
        (ap nodes.is_path_end at_node ∙ laws.0)
      ∙ ap₂ (after_walk services lib protocols)
          (fun_ext λ s'.
            ap (λ n. walk_disk services lib protocols nodes fuel init n s') moved
            ∙ ap (λ t. walk_disk services lib protocols nodes fuel t (length (done ++ node)) s')
                split
            ∙ walk_disk-from fuel (done ++ node) next rest s' laws.2 (omega arith))
          (ap (λ n. walk_path services nodes init n s) moved
            ∙ ap (λ t. walk_path services nodes t (length (done ++ node)) s) joined
            ∙ walk_path-copy done node next rest s laws.2)
    where
      init : List ℕ
      init = done ++ join (node ∷ next ∷ rest)

      at_node : drop (length done) init ≡ join (node ∷ next ∷ rest)
      at_node = drop-append done (join (node ∷ next ∷ rest)) (length done) refl

      moved : length done + nodes.node_length (drop (length done) init) ≡ length (done ++ node)
      moved =
          ap (λ t. length done + nodes.node_length t) at_node
          ∙ ap (λ n. length done + n) laws.1
          ∙ sym (length-append done node)

      joined : init ≡ done ++ (node ++ join (next ∷ rest))
      joined = ap (λ t. done ++ t) (join-cons node (next ∷ rest))

      split : init ≡ (done ++ node) ++ join (next ∷ rest)
      split = joined ∙ sym (append_assoc done node (join (next ∷ rest)))

  -- On a path of nodes of which only the last one ends it, and with fuel for each node, the loop
  -- ends after it has tried, in this order, the paths of the first two nodes, of the first three,
  -- and so on to the whole path, each closed by the end node. The first node alone is never tried.
  pub walk_disk-tried :
      (fuel : ℕ) (node : List ℕ) (rest : List (List ℕ)) (s : S)
      → AreNodes nodes (node ∷ rest)
      → length rest < fuel
      → walk_disk services lib protocols nodes fuel (join (node ∷ rest)) 0 s
        ≡ try_paths services lib protocols (tried nodes.end_device_path [] (node ∷ rest)) s
  walk_disk-tried fuel node rest s laws enough = walk_disk-from fuel [] node rest s laws enough
