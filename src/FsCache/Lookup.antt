-- ===== src/FsCache/Lookup.antt =====
-- The lookups and the iteration of src/fs_cache.cpp, and the removal of an entry in
-- src/cis/cis_manager.cpp.
pub mod Finding
use cis1_webui_native_srv_cp.Prelude.{
  ℕ, suc, ◌+◌, Bool, true, false, ◌&&◌, ◌||◌, List, [], ◌∷◌, Option, none, some, ltb, leb, ◌==◌,
  if◌then◌else◌,
}
use cis1_webui_native_srv_cp.FsCache.{
  Info, Node, node, Nodes, empty, cons, Paths, Disk, is_init, is_deleted, info, children, remove,
  listed, update,
}

module _ {M : Type 0} where
  pub last_part : M → List M → M
  last_part m [] = m
  last_part m (n ∷ ns) = last_part n ns

-- What `fs_cache::find` points to.
pub data Place (P M : Type 0) : Type 0 where
  at_end : Place P M
  on_disk : P → Place P M
  in_tree : Node P → Place P M

-- An iterator over the children in the tree is what is left of them from it on.
module _ {P : Type 0} where
  pub skip_deleted : Nodes P → Nodes P
  skip_deleted empty = empty
  skip_deleted (cons n ns) =
      let rest = skip_deleted ns in if is_deleted (info n).state then rest else cons n ns

  -- `fs_iterator::operator++`.
  abbrev pub advance : Nodes P → Nodes P
  advance empty = empty
  advance (cons n ns) = skip_deleted ns

  -- `fs_iterator::begin` passes over one deleted child at most.
  abbrev pub first_child : Nodes P → Nodes P
  first_child empty = empty
  first_child (cons n ns) = if is_deleted (info n).state then ns else cons n ns

module _ {P M : Type 0} (paths : Paths P M) where
  -- `childs_.find` by the name of the last part.
  unfoldable pub find_child : M → Nodes P → Option (Node P)
  find_child name empty = none
  find_child name (cons n ns) =
      let rest = find_child name ns in
      if paths.same_name (paths.filename (info n).path) name then some n else rest

  -- The node that `find_child` finds, written back.
  pub replace_child : M → Node P → Nodes P → Nodes P
  replace_child name n' empty = empty
  replace_child name n' (cons n ns) =
      let rest = replace_child name n' ns in
      if paths.same_name (paths.filename (info n).path) name then cons n' ns else cons n rest

  -- `remove` of the node that a path leads to in the tree.
  pub remove_at : List M → Node P → Node P
  remove_at [] n = remove n
  remove_at (part ∷ parts) (node i cs) = elim (find_child part cs) [
    | none ↦ node i cs
    | some child ↦ let child' = remove_at parts child in node i (replace_child part child' cs)
  ]

  -- The first entry of the last directory with the name of the path's last part.
  pub find_listed : M → List P → Place P M
  find_listed name [] = at_end
  find_listed name (e ∷ es) =
      let rest = find_listed name es in
      if paths.same_name (paths.filename e) name then on_disk e else rest

-- `fs_iterator::begin` and `fs_iterator::find` at a node: the node, updated where its children are
-- in the tree, and the children, from the tree or from the disk.
pub data Children (P : Type 0) : Type 0 where
  from_tree : Nodes P → Children P
  from_disk : List P → Children P

module _ {P M : Type 0} (paths : Paths P M) (disk : Disk P) (invalidation_time now : ℕ) where
  pub begin : Node P → Node P × Children P
  unfolding update
  begin n = elim (ltb 1 (info n).caching_level) [
    | false ↦ (n, from_disk (listed paths disk invalidation_time now (info n).path))
    | true ↦
        let n' = update paths disk invalidation_time now false n in
        (n', from_tree (first_child (children n')))
  ]

  -- A deleted child is not found.
  pub find_in : M → Node P → Node P × Place P M
  unfolding update find_child find_listed
  find_in name n = elim (ltb 1 (info n).caching_level) [
    | false ↦ (n, find_listed paths name (listed paths disk invalidation_time now (info n).path))
    | true ↦
        let n' = update paths disk invalidation_time now false n in
        (
          n',
          elim (find_child paths name (children n')) [
            | none ↦ at_end
            | some c ↦ if is_deleted (info c).state then at_end else in_tree c
          ],
        )
  ]

module _ {P : Type 0} (max_level invalidation_time now : ℕ) where
  abbrev pub is_stale : ℕ → Info P → Bool
  is_stale depth i =
      (ltb (i.last_updated + invalidation_time) now && leb depth max_level) || is_init i.state

module _ {P M : Type 0} (paths : Paths P M) (disk : Disk P) (max_level invalidation_time now : ℕ)
    (root : P) (path : List M) where
  abbrev pub updated : Node P → Node P
  updated = update paths disk invalidation_time now false

  -- The loop over the parts of the path but its root directory, from a node at a depth: the node with
  -- what was updated on the way, and the place.
  pub find_from : List M → ℕ → Node P → Node P × Place P M
  find_from [] depth n = (n, in_tree n)
  find_from (part ∷ parts) depth n =
      let stale = is_stale max_level invalidation_time now (suc depth) (info n) in
      let n1 = if stale then updated n else n in
      if suc depth == max_level
      then (
        n1,
        elim (disk.entries (paths.parent root path)) [
          | none ↦ at_end
          | some es ↦ find_listed paths (last_part part parts) es
        ],
      )
      else elim (find_child paths part (children n1)) [
        | some child ↦
            let (child', place) = find_from parts (suc depth) child in
            (node (info n1) (replace_child paths part child' (children n1)), place)
        | none ↦
            let n2 = if stale then n1 else updated n1 in
            elim (find_child paths part (children n2)) [
              | none ↦ (n2, at_end)
              | some child ↦
                  let (child', place) = find_from parts (suc depth) child in
                  (node (info n2) (replace_child paths part child' (children n2)), place)
            ]
      ]

module _ {P M : Type 0} (paths : Paths P M) (disk : Disk P)
    (max_level invalidation_time now : ℕ) where
  -- `fs_cache::find`, of a path by its parts.
  pub find : List M → Node P → Node P × Place P M
  unfolding find_from
  find path root =
      find_from paths disk max_level invalidation_time now (info root).path path path 0 root

  -- `cis_manager::remove` of src/cis/cis_manager.cpp: the tree, whether something was removed, and the
  -- path that is removed from the disk.
  pub remove_entry : List M → Node P → Node P × Bool × Option P
  unfolding find remove_at
  remove_entry path root =
      let (root', place) = find path root in
      elim place [
        | at_end ↦ (root', false, none)
        | on_disk p ↦ (root', true, some p)
        | in_tree n ↦ (remove_at paths path root', true, some (info n).path)
      ]
