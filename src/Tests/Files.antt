-- ===== src/Tests/Files.antt =====
-- Runs of src/fs_cache.cpp with numbers for paths and names: a directory with the entries 10 and 20.
use cis1_webui_native_srv_cp.Prelude.{
  ℕ, ◌≡◌, refl, ltb, ◌==◌, false, [], ◌∷◌, none, some, if◌then◌else◌, arith,
}
use cis1_webui_native_srv_cp.FsCache.{
  Info, Node, node, Nodes, empty, cons, sync, dir, file, Paths, Disk, update,
}
use cis1_webui_native_srv_cp.FsCache.Lookup.{find_child}
use cis1_webui_native_srv_cp.FsCache.Order.{IsOrder, IsSorted}
use cis1_webui_native_srv_cp.FsCache.Loading.{adopted_all, fresh_children, update-reads}
use cis1_webui_native_srv_cp.FsCache.Lookup.Finding.{Leads}

abbrev numbers : Paths ℕ ℕ
numbers = record {
  less = ltb;
  same = λ a b. a == b;
  filename = λ p. p;
  same_name = λ a b. a == b;
  parent = λ root path. root;
}

numbers-IsOrder : IsOrder numbers
numbers-IsOrder = record {
  irreflexive = λ a. ground arith;
  transitive = λ a b c. ground arith;
  total = λ a b h ne. ground arith;
  same_eq = λ a b. ground arith;
  same_refl = λ a. ground arith;
}

abbrev disk : Disk ℕ
disk = record {
  kind = λ p. if p == 1 then dir else file;
  entries = λ p. if p == 1 then some (20 ∷ 10 ∷ []) else none;
}

abbrev info_of : ℕ → Info ℕ
info_of p = record {
  path = p;
  state = sync;
  last_updated = 90;
  kind = if p == 1 then dir else file;
  caching_level = 4;
}

abbrev olds : Nodes ℕ
olds = cons (node (info_of 10) empty) (cons (node (info_of 15) empty) empty)

abbrev root : Node ℕ
root = node (info_of 1) olds

update-reads_example :
    (update numbers disk 5 100 false root
      ≡ node
          (record (info_of 1) { last_updated = 100 })
          (adopted_all numbers olds
            (fresh_children numbers numbers-IsOrder disk 5 100 (info_of 1))))
    × IsSorted numbers
        (adopted_all numbers olds (fresh_children numbers numbers-IsOrder disk 5 100 (info_of 1)))
update-reads_example =
    update-reads numbers numbers-IsOrder disk 5 100 false (info_of 1) olds refl refl refl
      ((refl, tt), (tt, tt)) (((λ e. omega (arith, e)), tt), (tt, tt))

root-Leads : Leads numbers disk 4 20 100 (15 ∷ []) 0 root (node (info_of 15) empty)
unfolding Leads find_child
root-Leads = (node (info_of 15) empty, refl, refl, refl, refl)
