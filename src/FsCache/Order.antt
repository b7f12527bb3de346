-- ===== src/FsCache/Order.antt =====
-- The order of the children in src/fs_cache.cpp, and the insertion of one.
use cis1_webui_native_srv_cp.Prelude.{
  ◌≡◌, ◌≢◌, sym, true, false, Bool-cases, inl, inr, arith, subst,
}
use cis1_webui_native_srv_cp.FsCache.{Node, Nodes, empty, cons, Paths, info, insert_equal}

-- The order of the paths, as std::filesystem::path has it.
pub record IsOrder {P M : Type 0} (paths : Paths P M) : Type 0 where
  pub irreflexive : (a : P) → paths.less a a ≡ false
  pub transitive :
      (a b c : P) → paths.less a b ≡ true → paths.less b c ≡ true → paths.less a c ≡ true
  pub total : (a b : P) → paths.less a b ≡ false → a ≢ b → paths.less b a ≡ true
  pub same_eq : (a b : P) → paths.same a b ≡ true → a ≡ b
  pub same_refl : (a : P) → paths.same a a ≡ true

module _ {P M : Type 0} (paths : Paths P M) where
  -- The path comes in front of every child.
  abbrev pub IsBelow : P → Nodes P → Type 0
  IsBelow a empty = Unit
  IsBelow a (cons n ns) = (paths.less a (info n).path ≡ true) × IsBelow a ns

  -- In ascending order, so without a path twice.
  abbrev pub IsSorted : Nodes P → Type 0
  IsSorted empty = Unit
  IsSorted (cons n ns) = IsBelow (info n).path ns × IsSorted ns

  -- A path that no child has.
  abbrev pub IsFresh : P → Nodes P → Type 0
  IsFresh a empty = Unit
  IsFresh a (cons n ns) = (a ≢ (info n).path) × IsFresh a ns

  module _ (order : IsOrder paths) where
    pub less-not_same : (a b : P) → paths.less a b ≡ true → paths.same a b ≡ false
    less-not_same a b l = elim (Bool-cases (paths.same a b)) [
      | inr f ↦ f
      | inl e ↦
          let eq : a ≡ b = order.same_eq a b e in
          let self : paths.less a a ≡ true = subst (λ c. paths.less a c ≡ true) (sym eq) l in
          absurd (ground (arith, order.irreflexive a))
    ]

    pub greater-not_same : (a b : P) → paths.less b a ≡ true → paths.same a b ≡ false
    greater-not_same a b l = elim (Bool-cases (paths.same a b)) [
      | inr f ↦ f
      | inl e ↦
          let eq : a ≡ b = order.same_eq a b e in
          let self : paths.less b b ≡ true = subst (λ c. paths.less b c ≡ true) eq l in
          absurd (ground (arith, order.irreflexive b))
    ]

    pub not_same-ne : (a b : P) → paths.same a b ≡ false → a ≢ b
    not_same-ne a b d e =
        let self : paths.same a a ≡ false = subst (λ c. paths.same a c ≡ false) (sym e) d in
        absurd (ground (arith, order.same_refl a))

    pub IsBelow-less :
        (a b : P) (ns : Nodes P) → paths.less a b ≡ true → IsBelow b ns → IsBelow a ns
    IsBelow-less a b empty l h = tt
    IsBelow-less a b (cons n ns) l (first, rest) =
        (order.transitive a b (info n).path l first, IsBelow-less a b ns l rest)

    pub insert_equal-IsFresh :
        (a : P) (n : Node P) (ms : Nodes P)
        → a ≢ (info n).path
        → IsFresh a ms
        → IsFresh a (insert_equal paths n ms)
    unfolding insert_equal
    insert_equal-IsFresh a n empty ne h = (ne, tt)
    insert_equal-IsFresh a n (cons m ms) ne (first, rest) =
        elim (Bool-cases (paths.less (info n).path (info m).path)) [
          | inl l ↦ rw l (ne, (first, rest))
          | inr g ↦ rw g (first, insert_equal-IsFresh a n ms ne rest)
        ]

    pub insert_equal-IsBelow :
        (a : P) (n : Node P) (ms : Nodes P)
        → paths.less a (info n).path ≡ true
        → IsBelow a ms
        → IsBelow a (insert_equal paths n ms)
    unfolding insert_equal
    insert_equal-IsBelow a n empty l h = (l, tt)
    insert_equal-IsBelow a n (cons m ms) l (first, rest) =
        elim (Bool-cases (paths.less (info n).path (info m).path)) [
          | inl before ↦ rw before (l, (first, rest))
          | inr g ↦ rw g (first, insert_equal-IsBelow a n ms l rest)
        ]

    pub insert_equal-IsSorted :
        (n : Node P) (ms : Nodes P)
        → IsFresh (info n).path ms
        → IsSorted ms
        → IsSorted (insert_equal paths n ms)
    unfolding insert_equal
    insert_equal-IsSorted n empty f s = (tt, tt)
    insert_equal-IsSorted n (cons m ms) (ne, f) (below, s) =
        elim (Bool-cases (paths.less (info n).path (info m).path)) [
          | inl l ↦ rw l ((l, IsBelow-less (info n).path (info m).path ms l below), (below, s))
          | inr g ↦
              let after = order.total _ _ g ne in
              rw g (
                insert_equal-IsBelow (info m).path n ms after below,
                insert_equal-IsSorted n ms f s,
              )
        ]
