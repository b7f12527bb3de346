-- ===== src/FsCache/Lookup/Finding.antt =====
-- What src/fs_cache.cpp finds of an entry that was removed.
use mathlib.Core.Option.{some-injective}
use cis1_webui_native_srv_cp.Prelude.{
  ℕ, suc, ◌≡◌, refl, ap, sym, ◌∙◌, subst, true, false, List, [], ◌∷◌, some, Option-cases, arith,
  Bool-cases, inl, inr, ◌==◌,
}
use cis1_webui_native_srv_cp.FsCache.{
  Node, node, Nodes, empty, cons, Paths, Disk, info, children, remove,
}
use cis1_webui_native_srv_cp.FsCache.Lookup.{
  find_child, replace_child, in_tree, is_stale, find_from, find, remove_at, remove_entry,
}

module _ {P M : Type 0} (paths : Paths P M) where
  pub find_child-replace_child :
      (part : M) (c c' : Node P) (cs : Nodes P)
      → find_child paths part cs ≡ some c
      → (info c').path ≡ (info c).path
      → find_child paths part (replace_child paths part c' cs) ≡ some c'
  unfolding find_child replace_child
  find_child-replace_child part c c' empty h same = cc
  find_child-replace_child part c c' (cons n ns) h same =
      elim (Bool-cases (paths.same_name (paths.filename (info n).path) part)) [
        | inl e ↦
            let is : n ≡ c = some-injective _ _ (ground (arith, h, e)) in
            let path : (info n).path ≡ (info c').path = ap (λ m. (info m).path) is ∙ sym same in
            let e' : paths.same_name (paths.filename (info c').path) part ≡ true =
              subst (λ q. paths.same_name (paths.filename q) part ≡ true) path e in
            rw (e, e') refl
        | inr f ↦ rw (f, f) (find_child-replace_child part c c' ns (ground (arith, h, f)) same)
      ]

  replace_child_self :
      (part : M) (c : Node P) (cs : Nodes P)
      → find_child paths part cs ≡ some c
      → replace_child paths part c cs ≡ cs
  unfolding find_child replace_child
  replace_child_self part c empty h = refl
  replace_child_self part c (cons n ns) h =
      elim (Bool-cases (paths.same_name (paths.filename (info n).path) part)) [
        | inl e ↦
            let is : n ≡ c = some-injective _ _ (ground (arith, h, e)) in
            rw e (ap (λ m. cons m ns) (sym is))
        | inr f ↦ rw f (ap (cons n) (replace_child_self part c ns (ground (arith, h, f))))
      ]

module _ {P M : Type 0} (paths : Paths P M) (disk : Disk P)
    (max_level invalidation_time now : ℕ) where
  -- The path leads in the tree to the node, and none on the way to it is out of date.
  unfoldable pub Leads : List M → ℕ → Node P → Node P → Type 0
  Leads [] depth n m = n ≡ m
  Leads (part ∷ parts) depth n m =
      (child : Node P) × (is_stale max_level invalidation_time now (suc depth) (info n) ≡ false)
      × ((suc depth == max_level) ≡ false)
      × (find_child paths part (children n) ≡ some child)
      × Leads parts (suc depth) child m

  remove_at-path :
      (parts : List M) (n : Node P) → (info (remove_at paths parts n)).path ≡ (info n).path
  unfolding remove_at
  remove_at-path [] (node i cs) = refl
  remove_at-path (part ∷ parts) (node i cs) = elim (Option-cases (find_child paths part cs)) [
    | inl e ↦ rw (info, remove_at, e) refl
    | inr (child, e) ↦ rw (info, remove_at, e) refl
  ]

  -- The path leads to the removed node in the tree without it.
  Leads-remove_at :
      (parts : List M) (depth : ℕ) (n m : Node P)
      → Leads parts depth n m
      → Leads parts depth (remove_at paths parts n) (remove m)
  unfolding Leads remove_at
  Leads-remove_at [] depth n m h = ap remove h
  Leads-remove_at (part ∷ parts) depth (node i cs) m (child, fresh, deep, found, leads) =
      let removed = remove_at paths parts child in
      rw (remove_at, found)
        (
          removed,
          fresh,
          deep,
          find_child-replace_child paths part child removed cs found (remove_at-path parts child),
          Leads-remove_at parts (suc depth) child m leads,
        )

  -- Where the path leads to a node, it is found, and the tree is left.
  find_from-Leads :
      (root : P) (path parts : List M) (depth : ℕ) (n m : Node P)
      → Leads parts depth n m
      → find_from paths disk max_level invalidation_time now root path parts depth n
        ≡ (n, in_tree m)
  unfolding Leads find_from
  find_from-Leads root path [] depth n m h = ap (λ x. (n, in_tree x)) h
  find_from-Leads root path (part ∷ parts) depth (node i cs) m (child, fresh, deep, found, leads) =
      rw (fresh, deep, found, find_from-Leads root path parts (suc depth) child m leads, fresh)
        (ap (λ ds. (node i ds, in_tree m)) (replace_child_self paths part child cs found))

  -- An entry that is removed once is found and removed again: where a path leads to a node of the tree,
  -- and none on the way is out of date, both removals answer that they removed it.
  pub remove_entry-twice :
      (path : List M) (root m : Node P)
      → Leads path 0 root m
      → (root' root'' : Node P) × (remove_entry paths disk max_level invalidation_time now path root
          ≡ (root', true, some (info m).path))
        × (remove_entry paths disk max_level invalidation_time now path root'
            ≡ (root'', true, some (info m).path))
  unfolding remove_entry find
  remove_entry-twice path root (node i cs) leads =
      let once = remove_at paths path root in
      let leads' = Leads-remove_at path 0 root (node i cs) leads in
      let found = find_from-Leads (info root).path path path 0 root (node i cs) leads in
      let found' = find_from-Leads (info once).path path path 0 once (remove (node i cs)) leads' in
      (
        once,
        remove_at paths path once,
        rw (remove_entry, found, found) refl,
        rw (remove_entry, found', found') refl,
      )
