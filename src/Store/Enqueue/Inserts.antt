-- ===== src/Store/Enqueue/Inserts.antt =====
-- What the inserts of a run's steps and keys leave alone.
use quacker.Prelude.{String, inl, inr, Bool-cases, List, [], ◌∷◌, any, str_eq}
use quacker.Store.Model.{Step, StepKey, StepKeyRow, Db, OnOk, OnOk-bind}
use quacker.Store.Enqueue.{is_key_row}
use quacker.Store.Enqueue.OneByOne.{insert_steps, insert_keys}

module _ (P : Db → Type 0)
    (keys : (db : Db) (rows : List StepKeyRow) → P db → P (record db { step_keys = rows }))
    (rows : (db : Db) (steps : List Step) → P db → P (record db { steps = steps })) where
  insert_keys_keep :
      (step_id : String) (ks : List StepKey) (db : Db) → P db → OnOk P (insert_keys step_id ks db)
  unfolding insert_keys
  insert_keys_keep step_id [] db p = p
  insert_keys_keep step_id (k ∷ ks) db p =
      elim (Bool-cases (any (is_key_row step_id k) db.step_keys)) [
        | inl e ↦ rw e tt
        | inr e ↦ rw e (insert_keys_keep step_id ks _ (keys db _ p))
      ]

  pub insert_steps_keep : (sts : List Step) (db : Db) → P db → OnOk P (insert_steps sts db)
  unfolding insert_steps
  insert_steps_keep [] db p = p
  insert_steps_keep (st ∷ sts) db p = elim (Bool-cases (any (λ s. str_eq s.id st.id) db.steps)) [
    | inl e ↦ rw e tt
    | inr e ↦ rw e (
        OnOk-bind P P (insert_keys st.id st.keys _) (insert_steps sts)
          (insert_keys_keep st.id st.keys _ (rows db _ p)) (λ d h. insert_steps_keep sts d h))
  ]
