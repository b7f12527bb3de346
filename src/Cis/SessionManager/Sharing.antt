-- ===== src/Cis/SessionManager/Sharing.antt =====
-- The objects that the map of src/cis/session_manager.cpp leads to.
use mathlib.Core.Option.{some-injective}
use cis1_webui_native_srv_cp.Prelude.{
  ℕ, ◌-◌, ◌≤◌, ◌<◌, ◌==◌, ◌≡◌, ==_iff, refl, sym, ◌∙◌, ap, false, none, some, String, str_eq,
  eq_iff, eq_refl, Bool-cases, Option-cases, inl, inr, arith,
}
use cis1_webui_native_srv_cp.Cis.SessionManager.{
  AnySession, Object, SessionManager, put_key, put_at, set_session, add_session, use_again, release,
}

module _ {L : Type 0} where
  -- Every entry of the map is the address of an object that is used, with the entry's id; every object
  -- has such an entry, so there is one for an id at most; and no object has an address that is to come.
  pub record IsSound (m : SessionManager L) : Type 0 where
    pub used : (id : String) (a : ℕ) → m.sessions id ≡ some a → 0 < m.uses a
    pub named :
        (id : String) (a : ℕ)
        → m.sessions id ≡ some a
        → (o : Object L) × (m.object a ≡ some o) × (o.session_id ≡ id)
    pub listed : (a : ℕ) (o : Object L) → m.object a ≡ some o → m.sessions o.session_id ≡ some a
    pub unused : (a : ℕ) → m.next ≤ a → m.object a ≡ none

  not_next :
      (m : SessionManager L) (id : String) (a : ℕ)
      → IsSound m
      → m.sessions id ≡ some a
      → (a == m.next) ≡ false
  not_next m id a h e = elim (Bool-cases (a == m.next)) [
    | inr ne ↦ ne
    | inl same ↦
        let (o, is_o, _) = h.named id a e in let no = h.unused a (ground (arith, same)) in cc
  ]

  pub set_session-IsSound :
      (a : ℕ) (o : Object L) (s : AnySession L) (m : SessionManager L)
      → m.object a ≡ some o
      → IsSound m
      → IsSound (set_session a o s m)
  set_session-IsSound a o s m is_o h = record {
    used = h.used;
    named = λ id b e. elim (Bool-cases (b == a)) [
      | inl same ↦
          let (o', is_o', is_id) = h.named id b e in
          let same_object : some o' ≡ some o = ground (arith, is_o, is_o', same) in
          (record o { session = s }, rw same refl, ground (arith, same_object, is_id))
      | inr other ↦ rw other (h.named id b e)
    ];
    listed = λ b p e. elim (Bool-cases (b == a)) [
      | inl same ↦ ground (arith, e, same, h.listed a o is_o)
      | inr other ↦ h.listed b p (rw other at e)
    ];
    unused = λ b le. ground (arith, is_o, h.unused b le);
  }

  pub use_again-IsSound : (a : ℕ) (m : SessionManager L) → IsSound m → IsSound (use_again a m)
  use_again-IsSound a m h = record {
    used = λ id b e. ground (arith, h.used id b e);
    named = h.named;
    listed = h.listed;
    unused = h.unused;
  }

  use_less-IsSound :
      (a : ℕ) (m : SessionManager L)
      → (m.uses a == 1) ≡ false
      → IsSound m
      → IsSound (record m { uses = put_at a (m.uses a - 1) m.uses })
  use_less-IsSound a m more h = record {
    used = λ id b e. ground (arith, h.used id b e, more);
    named = h.named;
    listed = h.listed;
    unused = h.unused;
  }

  erase-IsSound :
      (a : ℕ) (o : Object L) (m : SessionManager L)
      → m.object a ≡ some o
      → IsSound m
      → IsSound (record m {
        sessions = put_key o.session_id none m.sessions;
        object = put_at a none m.object;
        uses = put_at a 0 m.uses;
      })
  erase-IsSound a o m is_o h = record {
    used = λ id b e. elim (Bool-cases (str_eq id o.session_id)) [
      | inl same ↦ cc (rw same at e)
      | inr other ↦ let e' = rw other at e in rw (other_address id b other e') (h.used id b e')
    ];
    named = λ id b e. elim (Bool-cases (str_eq id o.session_id)) [
      | inl same ↦ cc (rw same at e)
      | inr other ↦ let e' = rw other at e in rw (other_address id b other e') (h.named id b e')
    ];
    listed = λ b p e. elim (Bool-cases (b == a)) [
      | inl same ↦ cc (rw same at e)
      | inr other ↦
          let found = h.listed b p (rw other at e) in
          elim (Bool-cases (str_eq p.session_id o.session_id)) [
            | inl same ↦
                let at_a = h.listed a o is_o in
                let same_id = (eq_iff p.session_id o.session_id).0 same in
                let same_address : some b ≡ some a = sym found ∙ ap m.sessions same_id ∙ at_a in
                ground (arith, same_address, other)
            | inr differs ↦ rw differs found
          ]
    ];
    unused = λ b le. ground (arith, h.unused b le);
  }
    where
      other_address :
          (id : String) (b : ℕ)
          → str_eq id o.session_id ≡ false
          → m.sessions id ≡ some b
          → (b == a) ≡ false
      other_address id b other e = elim (Bool-cases (b == a)) [
        | inr ne ↦ ne
        | inl same ↦
            let (o', is_o', is_id) = h.named id b e in
            let same_object : some o' ≡ some o =
              sym is_o' ∙ ap m.object ((==_iff b a).0 same) ∙ is_o in
            let same_id = ap (λ (p : Object L). p.session_id) (some-injective _ _ same_object) in
            let equal = (eq_iff id o.session_id).1 (sym is_id ∙ same_id) in cc
      ]

  pub add_session-IsSound :
      (id : String) (s : AnySession L) (count : ℕ) (m : SessionManager L)
      → m.sessions id ≡ none
      → 0 < count
      → IsSound m
      → IsSound (add_session id s count m)
  add_session-IsSound id s count m free pos h = record {
    used = λ j a e. elim (Bool-cases (str_eq j id)) [
      | inl same ↦ ground (arith, rw same at e, pos)
      | inr other ↦ let e' = rw other at e in ground (arith, not_next m j a h e', h.used j a e')
    ];
    named = λ j a e. elim (Bool-cases (str_eq j id)) [
      | inl same ↦
          let is_next : m.next ≡ a = some-injective _ _ (rw same at e) in
          (
            record { session_id = id; session = s },
            ground (arith, is_next),
            sym ((eq_iff j id).0 same),
          )
      | inr other ↦ let e' = rw other at e in rw (not_next m j a h e') (h.named j a e')
    ];
    listed = λ a o e. elim (Bool-cases (a == m.next)) [
      | inl same ↦
          let is_o : record { session_id = id; session = s } ≡ o =
            some-injective _ _ (rw same at e) in
          let is_id : o.session_id ≡ id = sym (ap (λ (p : Object L). p.session_id) is_o) in
          rw (is_id, eq_refl id) (ap some (sym ((==_iff a m.next).0 same)))
      | inr other ↦
          let found = h.listed a o (rw other at e) in
          elim (Bool-cases (str_eq o.session_id id)) [
            | inl same ↦ cc (rw ((eq_iff o.session_id id).0 same) at found)
            | inr differs ↦ rw differs found
          ]
    ];
    unused = λ a le. ground (arith, h.unused a (omega arith));
  }

  pub release-IsSound : (a : ℕ) (m : SessionManager L) → IsSound m → IsSound (release a m)
  unfolding release
  release-IsSound a m h = elim (Option-cases (m.object a)) [
    | inl e ↦ rw (release, e) h
    | inr (o, e) ↦ elim (Bool-cases (m.uses a == 1)) [
      | inl last ↦ rw (release, e, last) (erase-IsSound a o m e h)
      | inr more ↦ rw (release, e, more) (use_less-IsSound a m more h)
    ]
  ]
