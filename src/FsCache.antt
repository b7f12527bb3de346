-- ===== src/FsCache.antt =====
-- src/fs_cache.cpp: the tree that caches the directories of the projects. A path is a value of `P`,
-- a name one of `M`; the disk is a parameter that is read. The time is an argument: one reading for a
-- call. The tree of boost::intrusive is the list of its nodes in order.
pub mod Order
pub mod Loading
pub mod Lookup
use cis1_webui_native_srv_cp.Prelude.{
  ℕ, zero, suc, ◌+◌, ◌-◌, Bool, true, false, ◌&&◌, ◌||◌, not, List, [], ◌∷◌, ◌++◌, map, Option,
  none, some, ltb, leb, ◌==◌, if◌then◌else◌, length,
}

pub data NodeState : Type 0 where
  init deleted sync modified : NodeState

pub data Kind : Type 0 where
  absent file dir : Kind

-- The fields of a node but for its children, with what `dir_entry_` has cached of the disk.
pub record Info (P : Type 0) : Type 0 where
  pub path : P
  pub state : NodeState
  pub last_updated : ℕ
  pub kind : Kind
  pub caching_level : ℕ

mutual
  pub data Node (P : Type 0) : Type 0 where
    node : Info P → Nodes P → Node P

  pub data Nodes (P : Type 0) : Type 0 where
    empty : Nodes P
    cons : Node P → Nodes P → Nodes P

-- std::filesystem::path and its names: the order, the equality, the last name of a path, and the
-- directory that the names under a path stand in.
pub record Paths (P M : Type 0) : Type 0 where
  pub less : P → P → Bool
  pub same : P → P → Bool
  pub filename : P → M
  pub same_name : M → M → Bool
  pub parent : P → List M → P

-- What is read of the disk. The entries of a directory that cannot be opened are none.
pub record Disk (P : Type 0) : Type 0 where
  pub kind : P → Kind
  pub entries : P → Option (List P)

abbrev pub is_sync : NodeState → Bool
is_sync sync = true
is_sync _ = false

abbrev pub is_init : NodeState → Bool
is_init init = true
is_init _ = false

abbrev pub is_deleted : NodeState → Bool
is_deleted deleted = true
is_deleted _ = false

module _ {P : Type 0} where
  abbrev pub info : Node P → Info P
  info (node i cs) = i

  abbrev pub children : Node P → Nodes P
  children (node i cs) = cs

  pub count : Nodes P → ℕ
  count empty = 0
  count (cons n ns) = suc (count ns)

  -- `childs_` and `childs_container_` are emptied, and the entry is removed from the disk.
  abbrev pub remove : Node P → Node P
  remove (node i cs) = node (record i { state = deleted }) empty

  abbrev pub invalidate : Node P → Node P
  invalidate (node i cs) = node (record i { state = modified }) cs

  -- What the new node takes from the old one with the same path.
  pub adopt : Node P → Node P → Node P
  adopt (node o os) (node n ns) =
      if is_sync o.state
      then node (record n { last_updated = o.last_updated; state = o.state }) os
      else node n ns

module _ {P M : Type 0} (paths : Paths P M) where
  -- `insert_equal`.
  pub insert_equal : Node P → Nodes P → Nodes P
  insert_equal n empty = cons n empty
  insert_equal n (cons m ms) =
      let rest = insert_equal n ms in
      if paths.less (info n).path (info m).path then cons n (cons m ms) else cons m rest

  -- The loop over the old and the new children; each step goes on in one of them at least.
  pub merge : ℕ → Nodes P → Nodes P → Nodes P
  unfolding adopt
  merge zero olds news = news
  merge (suc fuel) empty news = news
  merge (suc fuel) (cons o os) empty = empty
  merge (suc fuel) (cons o os) (cons n ns) =
      let later = merge fuel os (cons n ns) in
      let both = merge fuel os ns in
      let skipped = merge fuel (cons o os) ns in
      if paths.less (info o).path (info n).path
      then later
      else if paths.same (info o).path (info n).path
      then cons (adopt o n) both
      else cons n skipped

module _ {P M : Type 0} (paths : Paths P M) (disk : Disk P) (invalidation_time now : ℕ) where
  -- The constructor, which reads the kind of the entry.
  abbrev pub fs_node : P → ℕ → Node P
  fs_node path level =
      node
        (record {
          path = path;
          state = init;
          last_updated = now;
          kind = disk.kind path;
          caching_level = level;
        })
        empty

  -- An entry that is opened, but then cannot be read on, ends the loop in the source too.
  abbrev pub listed : P → List P
  listed path = elim (disk.entries path) [ none ↦ [] | some es ↦ es ]

  pub childs_of : ℕ → List P → Nodes P → Nodes P
  unfolding insert_equal
  childs_of level [] acc = acc
  childs_of level (e ∷ es) acc = childs_of level es (insert_equal paths (fs_node e level) acc)

  abbrev is_directory : Kind → Bool
  is_directory dir = true
  is_directory _ = false

  pub load : Node P → Node P
  unfolding childs_of merge count
  load (node i olds) =
      if not (is_directory i.kind) || (i.caching_level == 1)
      then node i olds
      else let news = childs_of (i.caching_level - 1) (listed i.path) empty in
        node (record i { state = sync }) (merge paths (count olds + count news) olds news)

  abbrev exists : Kind → Bool
  exists absent = false
  exists _ = true

  -- `now - last_updated_ < invalidation_time_`.
  abbrev pub is_recent : Info P → Bool
  is_recent i = ltb now (i.last_updated + invalidation_time)

  pub update : Bool → Node P → Node P
  unfolding load
  update force (node i cs) =
      if is_sync i.state && not force && is_recent i
      then node i cs
      else let refreshed = record i { kind = disk.kind i.path; last_updated = now } in
        if not (exists refreshed.kind)
        then node (record refreshed { state = deleted }) cs
        else load (node refreshed cs)
