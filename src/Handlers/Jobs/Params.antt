-- ===== src/Handlers/Jobs/Params.antt =====
-- The parameters of a run: src/websocket/handlers/run_job.cpp.
use cis1_webui_native_srv_cp.Prelude.{
  ◌≡◌, ◌≢◌, ◌⊎◌, subst, refl, false, List, [], ◌∷◌, none, some, Option-cases, Bool-cases, inl, inr,
  String, str_eq, eq_iff, eq_refl, arith,
}
use cis1_webui_native_srv_cp.Managers.Cis.{Param}
use cis1_webui_native_srv_cp.Handlers.Jobs.{given_value, param_values}

-- The first value that is given under a name.
pub data Given : List (String × String) → String → String → Type 0 where
  here : {name v : String} {given : List (String × String)} → Given ((name, v) ∷ given) name v
  there :
      {n name u v : String} {given : List (String × String)}
      → n ≢ name
      → Given given name v
      → Given ((n, u) ∷ given) name v

-- A value for each parameter of the job, in their order: the one that is given, or else the default,
-- which is not empty.
abbrev pub IsFilled : List (String × String) → List Param → List (String × String) → Type 0
IsFilled given [] [] = Unit
IsFilled given [] (v ∷ vs) = ⊥
IsFilled given (p ∷ ps) [] = ⊥
IsFilled given (p ∷ ps) ((name, v) ∷ vs) =
    (name ≡ p.name)
    × (Given given name v
        ⊎ (((u : String) → ¬ Given given name u) × (v ≡ p.default_value) × (v ≢ "")))
    × IsFilled given ps vs

str_eq-ne : (a b : String) → str_eq a b ≡ false → a ≢ b
str_eq-ne a b f e = ground (arith, eq_iff a b)

given_value-Given :
    (given : List (String × String)) (name v : String)
    → given_value given name ≡ some v
    → Given given name v
unfolding given_value
given_value-Given [] name v h = cc
given_value-Given ((n, u) ∷ given) name v h = elim (Bool-cases (str_eq n name)) [
  | inl e ↦
      let same : n ≡ name = ground (arith, eq_iff n name) in
      let hit : u ≡ v = ground (arith, h, e) in
      subst (λ m. Given ((n, u) ∷ given) m v) same
        (subst (λ x. Given ((n, u) ∷ given) n x) hit here)
  | inr f ↦ there (str_eq-ne n name f) (given_value-Given given name v (ground (arith, h, f)))
]

given_value-none :
    (given : List (String × String)) (name u : String)
    → given_value given name ≡ none
    → ¬ Given given name u
unfolding given_value
given_value-none [] name u h g = elim g [ ]
given_value-none ((n, v) ∷ given) name u h here = absurd (ground (arith, eq_refl n))
given_value-none ((n, v) ∷ given) name u h (there ne g) =
    given_value-none given name u (ground (arith, h)) g

pub param_values-IsFilled :
    (given : List (String × String)) (ps : List Param) (vs : List (String × String))
    → param_values given ps ≡ some vs
    → IsFilled given ps vs
unfolding param_values
param_values-IsFilled given [] [] h = tt
param_values-IsFilled given [] (v ∷ vs) h = cc
param_values-IsFilled given (p ∷ ps) vs h = elim (Option-cases (param_values given ps)) [
  | inl none_left ↦ absurd (ground (arith, h, none_left))
  | inr (rest, e) ↦
      let filled = param_values-IsFilled given ps rest e in
      elim (Option-cases (given_value given p.name)) [
        | inr (v, g) ↦
            let is : (p.name, v) ∷ rest ≡ vs = ground (arith, h, e, g) in
            subst (IsFilled given (p ∷ ps)) is
              (refl, inl (given_value-Given given p.name v g), filled)
        | inl g ↦ elim (Bool-cases (str_eq p.default_value "")) [
          | inl empty ↦ absurd (ground (arith, h, e, g, empty))
          | inr f ↦
              let is : (p.name, p.default_value) ∷ rest ≡ vs = ground (arith, h, e, g, f) in
              subst (IsFilled given (p ∷ ps)) is (
                refl,
                inr (λ u. given_value-none given p.name u g, refl, str_eq-ne p.default_value "" f),
                filled,
              )
        ]
      ]
]
