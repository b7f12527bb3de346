-- ===== src/FsCache/Loading.antt =====
-- What src/fs_cache.cpp makes of a node's children when it reads the directory again.
use cis1_webui_native_srv_cp.Prelude.{
  ℕ, zero, suc, ◌+◌, ◌-◌, ◌≤◌, ◌≡◌, ◌≢◌, refl, sym, ap, ◌∙◌, Bool, true, false, ◌&&◌, not, List, [],
  ◌∷◌, if◌then◌else◌, arith, Bool-cases, inl, inr, ◌==◌, subst, All,
}
use cis1_webui_native_srv_cp.FsCache.{
  Info, Node, node, Nodes, empty, cons, sync, dir, Paths, Disk, info, count, fs_node, listed,
  insert_equal, childs_of, adopt, merge, load, update, is_sync, is_recent,
}
use cis1_webui_native_srv_cp.FsCache.Order.{
  IsOrder, IsBelow, IsSorted, IsFresh, less-not_same, greater-not_same, not_same-ne, IsBelow-less,
  insert_equal-IsFresh, insert_equal-IsSorted,
}

module _ {P M : Type 0} (paths : Paths P M) where
  -- The reference, column by column: a new child keeps its path, its kind and its level; of an old one
  -- that is synchronous it gets the state, the time and the children, of another nothing.
  abbrev pub heir : Node P → Node P → Node P
  heir (node o os) (node n ns) =
      node
        (record {
          path = n.path;
          state = if is_sync o.state then o.state else n.state;
          last_updated = if is_sync o.state then o.last_updated else n.last_updated;
          kind = n.kind;
          caching_level = n.caching_level;
        })
        (if is_sync o.state then os else ns)

  adopt-heir : (o n : Node P) → adopt o n ≡ heir o n
  unfolding adopt
  adopt-heir (node o os) (node n ns) = elim (Bool-cases (is_sync o.state)) [
    | inl e ↦ rw e refl
    | inr e ↦ rw e refl
  ]

  -- Of the old children, the first with the new one's path counts.
  pub adopted : Nodes P → Node P → Node P
  adopted empty n = n
  adopted (cons o os) n =
      let rest = adopted os n in if paths.same (info o).path (info n).path then heir o n else rest

  pub adopted_all : Nodes P → Nodes P → Nodes P
  unfolding adopted
  adopted_all olds empty = empty
  adopted_all olds (cons n ns) = cons (adopted olds n) (adopted_all olds ns)

  module _ (order : IsOrder paths) where
    -- An old child in front of every new one gives nothing.
    adopted_all-below :
        (o : Node P) (os ns : Nodes P)
        → IsBelow paths (info o).path ns
        → adopted_all (cons o os) ns ≡ adopted_all os ns
    unfolding adopted adopted_all
    adopted_all-below o os empty h = refl
    adopted_all-below o os (cons n ns) (first, rest) =
        rw
          (
            less-not_same paths order (info o).path (info n).path first,
            adopted_all-below o os ns rest,
          )
          refl

    adopted-below : (n : Node P) (os : Nodes P) → IsBelow paths (info n).path os → adopted os n ≡ n
    unfolding adopted
    adopted-below n empty h = refl
    adopted-below n (cons o os) (first, rest) =
        rw (greater-not_same paths order (info o).path (info n).path first)
          (adopted-below n os rest)

    adopted_all-empty : (ns : Nodes P) → adopted_all empty ns ≡ ns
    unfolding adopted adopted_all
    adopted_all-empty empty = refl
    adopted_all-empty (cons n ns) = ap (cons n) (adopted_all-empty ns)

    -- The loop over both lists gives every new child what the reference does.
    pub merge-adopted_all :
        (fuel : ℕ) (olds news : Nodes P)
        → IsSorted paths olds
        → IsSorted paths news
        → count olds + count news ≤ fuel
        → merge paths fuel olds news ≡ adopted_all olds news
    unfolding merge count adopted adopted_all
    merge-adopted_all zero empty news so sn h = sym (adopted_all-empty news)
    merge-adopted_all zero (cons o os) news so sn h = absurd (omega arith)
    merge-adopted_all (suc fuel) empty news so sn h = sym (adopted_all-empty news)
    merge-adopted_all (suc fuel) (cons o os) empty so sn h = refl
    merge-adopted_all (suc fuel) (cons o os) (cons n ns) (below_o, so) (below_n, sn) h =
        elim (Bool-cases (paths.less (info o).path (info n).path)) [
          | inl l ↦ rw l (
              merge-adopted_all fuel os (cons n ns) so (below_n, sn) (omega arith)
              ∙ sym (
                  adopted_all-below o os (cons n ns)
                    (l, IsBelow-less paths order (info o).path (info n).path ns l below_n)))
          | inr g ↦ elim (Bool-cases (paths.same (info o).path (info n).path)) [
            | inl e ↦
                let eq : (info o).path ≡ (info n).path = order.same_eq _ _ e in
                rw (g, e)
                  (ap (λ m. cons m (merge paths fuel os ns)) (adopt-heir o n)
                    ∙ ap (cons (heir o n)) (
                        merge-adopted_all fuel os ns so sn (omega arith)
                        ∙ sym (
                            adopted_all-below o os ns
                              (subst (λ a. IsBelow paths a ns) (sym eq) below_n))))
            | inr d ↦
                let before =
                  order.total _ _ g (not_same-ne paths order (info o).path (info n).path d) in
                let alone =
                  adopted-below n os
                    (IsBelow-less paths order (info n).path (info o).path os before below_o) in
                rw (g, d, alone)
                  (ap (cons n)
                    (merge-adopted_all fuel (cons o os) ns (below_o, so) sn (omega arith)))
          ]
        ]

    -- The entries of a directory have different paths.
    abbrev pub IsDistinct : List P → Type 0
    IsDistinct [] = Unit
    IsDistinct (e ∷ es) = All (λ d. e ≢ d) es × IsDistinct es

    module _ (disk : Disk P) (invalidation_time now : ℕ) where
      All-IsFresh :
          (level : ℕ) (e : P) (es : List P) (acc : Nodes P)
          → All (λ d. e ≢ d) es
          → All (λ d. IsFresh paths d acc) es
          → All
              (λ d.
                IsFresh paths d
                  (insert_equal paths (fs_node paths disk invalidation_time now e level) acc))
              es
      All-IsFresh level e [] acc ne f = tt
      All-IsFresh level e (d ∷ es) acc (ne, nes) (f, fs) = (
        insert_equal-IsFresh paths order d (fs_node paths disk invalidation_time now e level) acc
            (λ eq. ne (sym eq)) f,
        All-IsFresh level e es acc nes fs,
      )

      childs_of-IsSorted :
          (level : ℕ) (es : List P) (acc : Nodes P)
          → IsDistinct es
          → All (λ e. IsFresh paths e acc) es
          → IsSorted paths acc
          → IsSorted paths (childs_of paths disk invalidation_time now level es acc)
      unfolding childs_of
      childs_of-IsSorted level [] acc d f s = s
      childs_of-IsSorted level (e ∷ es) acc (ne, d) (f, fs) s =
          childs_of-IsSorted level es
            (insert_equal paths (fs_node paths disk invalidation_time now e level) acc) d
            (All-IsFresh level e es acc ne fs)
            (insert_equal-IsSorted paths order (fs_node paths disk invalidation_time now e level)
              acc f s)

      -- Adoption keeps the paths, so the order.
      adopted-path : (olds : Nodes P) (n : Node P) → (info (adopted olds n)).path ≡ (info n).path
      unfolding adopted
      adopted-path empty n = refl
      adopted-path (cons (node o os) olds) (node n ns) =
          elim (Bool-cases (paths.same o.path n.path)) [
            | inl e ↦ rw e refl
            | inr d ↦ rw d (adopted-path olds (node n ns))
          ]

      adopted_all-IsBelow :
          (a : P) (olds ns : Nodes P) → IsBelow paths a ns → IsBelow paths a (adopted_all olds ns)
      unfolding adopted_all
      adopted_all-IsBelow a olds empty h = tt
      adopted_all-IsBelow a olds (cons n ns) (first, rest) = (
        subst (λ b. paths.less a b ≡ true) (sym (adopted-path olds n)) first,
        adopted_all-IsBelow a olds ns rest,
      )

      adopted_all-IsSorted :
          (olds ns : Nodes P) → IsSorted paths ns → IsSorted paths (adopted_all olds ns)
      unfolding adopted_all
      adopted_all-IsSorted olds empty s = tt
      adopted_all-IsSorted olds (cons n ns) (below, s) = (
        subst (λ b. IsBelow paths b (adopted_all olds ns)) (sym (adopted-path olds n))
            (adopted_all-IsBelow (info n).path olds ns below),
        adopted_all-IsSorted olds ns s,
      )

      nothing-IsFresh : (es : List P) → All (λ e. IsFresh paths e empty) es
      nothing-IsFresh [] = tt
      nothing-IsFresh (e ∷ es) = (tt, nothing-IsFresh es)

      -- What `update` reads of a directory, as new children in order.
      abbrev pub fresh_children : Info P → Nodes P
      fresh_children i =
          childs_of paths disk invalidation_time now (i.caching_level - 1)
            (listed paths disk invalidation_time now i.path) empty

      -- An update of a node that is out of date, is to be cached and is a directory on the disk makes
      -- it synchronous; its children are those that the directory lists, in order, and of a synchronous
      -- old child in the tree with its path each gets the state, the time and the children, of another
      -- one nothing; and they are sorted. This holds where the old children are sorted and the directory
      -- lists no path twice.
      pub update-reads :
          (force : Bool) (i : Info P) (olds : Nodes P)
          → is_sync i.state && not force && is_recent paths disk invalidation_time now i ≡ false
          → disk.kind i.path ≡ dir
          → (i.caching_level == 1) ≡ false
          → IsSorted paths olds
          → IsDistinct (listed paths disk invalidation_time now i.path)
          → (update paths disk invalidation_time now force (node i olds)
              ≡ node
                  (record i { state = sync; last_updated = now; kind = dir })
                  (adopted_all olds (fresh_children i)))
            × IsSorted paths (adopted_all olds (fresh_children i))
      unfolding update load
      update-reads force i olds old is_dir level s d =
          let sorted =
            childs_of-IsSorted (i.caching_level - 1)
              (listed paths disk invalidation_time now i.path) empty d (nothing-IsFresh _) tt in
          (
            rw (old, is_dir, level)
                (ap (node (record i { state = sync; last_updated = now; kind = dir }))
                  (merge-adopted_all _ olds (fresh_children i) s sorted (omega arith))),
            adopted_all-IsSorted olds (fresh_children i) sorted,
          )
