-- ===== src/Engine/Dag/Names.antt =====
-- The first loop of validateDAG: the steps' names.
use quacker.Prelude.{mem-cons_cases}
use quacker.Prelude.{
  ◌+◌, ◌≤◌, ◌≡◌, refl, sym, String, false, List, [], ◌∷◌, any, none, some, inl, inr, str_eq, eq_iff,
  Bool-cases, Memᴰ, arith, subst,
}
use quacker.Table.{count}
use quacker.Engine.Requests.{StepReq}
use quacker.Engine.Dag.{DagError, has_name, check_names}
use quacker.Engine.Dag.Relax.{bit}

pub check_names-none :
    (seen : List String) (steps : List StepReq)
    → check_names seen steps ≡ none
    → ((s : StepReq) → Memᴰ s steps → str_eq s.name "" ≡ false)
      × ((n : String) → count (has_name n) steps + bit (any (str_eq n) seen) ≤ 1)
unfolding check_names count any
check_names-none seen [] h = (
  λ s m. elim m [ ],
  λ n. elim (Bool-cases (any (str_eq n) seen)) [
    | inl e ↦ rw e (omega arith)
    | inr e ↦ rw e (omega arith)
  ],
)
check_names-none seen (s ∷ steps) h = elim (Bool-cases (str_eq s.name "")) [
  | inl e ↦ let bad : some DagError.unnamed ≡ none = rw e at h in cc
  | inr e ↦ elim (Bool-cases (any (str_eq s.name) seen)) [
    | inl k ↦ let bad : some (DagError.duplicate_name s.name) ≡ none = rw (e, k) at h in cc
    | inr k ↦
        let (named, unique) = check_names-none (s.name ∷ seen) steps (rw (e, k) at h) in
        (
          λ t m. elim (mem-cons_cases m) [ inl same ↦ rw same e | inr later ↦ named t later ],
          λ n.
              let le = unique n in
              elim (Bool-cases (str_eq n s.name)) [
                | inl same ↦
                    let fresh : any (str_eq n) seen ≡ false =
                      subst (λ x. any (str_eq x) seen ≡ false) (sym ((eq_iff n s.name).0 same)) k in
                    rw (same, fresh) (ground (arith, rw same at le))
                | inr other ↦ rw other (rw other at le)
              ],
        )
  ]
]

pub names_checked :
    (seen : List String) (steps : List StepReq)
    → ((s : StepReq) → Memᴰ s steps → str_eq s.name "" ≡ false)
    → ((n : String) → count (has_name n) steps + bit (any (str_eq n) seen) ≤ 1)
    → check_names seen steps ≡ none
unfolding check_names count any
names_checked seen [] named unique = refl
names_checked seen (s ∷ steps) named unique =
    let self = (eq_iff s.name s.name).1 refl in
    let here = unique s.name in
    let fresh : any (str_eq s.name) seen ≡ false = ground (arith, here, self) in
    simp (named s (Memᴰ.head refl), fresh)
      (names_checked (s.name ∷ seen) steps (λ t m. named t (Memᴰ.tail m))
        (λ n.
          let le = unique n in
          elim (Bool-cases (str_eq n s.name)) [
            | inl same ↦
                let fresh' : any (str_eq n) seen ≡ false =
                  subst (λ x. any (str_eq x) seen ≡ false) (sym ((eq_iff n s.name).0 same)) fresh in
                rw same (ground (arith, rw (same, fresh') at le))
            | inr other ↦ rw other (rw other at le)
          ]))
