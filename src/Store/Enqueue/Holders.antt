-- ===== src/Store/Enqueue/Holders.antt =====
-- Who holds a unique key, under changes of the runs table and under an insert.
use quacker.Prelude.{
  ◌+◌, ◌≤◌, ◌≡◌, ◌≢◌, refl, sym, ◌∙◌, String, Bool, true, false, not, ◌&&◌, inl, inr, Bool-cases,
  List, [], ◌∷◌, ◌++◌, Memᴰ, any, any-mem, str_eq, eq_iff, arith, &&-true, mem-append_cases,
  mem-singleton,
}
use quacker.Table.{count}
use quacker.Table.Laws.{count-update_mono, count-delete-le, mem-update_all, mem-delete, count_cases}
use quacker.Store.Model.{is_terminal, Run}
use quacker.Store.Enqueue.{holds_unique, collides, inserted_run}
use quacker.Store.Transitions.Keys.{RunChanges, stay, set, drop_rows, Frees}

pub record HasLiveKeys (runs : List Run) : Type 0 where
  pub one : (workflow key : String) → count (holds_unique workflow key) runs ≤ 1
  pub live : (r : Run) → Memᴰ r runs → is_terminal r.status ≡ true → r.unique_key ≡ ""

holds_unique_parts :
    (workflow key : String) (r : Run)
    → holds_unique workflow key r ≡ true
    → (key ≢ "") × (r.workflow ≡ workflow) × (r.unique_key ≡ key)
unfolding holds_unique
holds_unique_parts workflow key r h =
    let (named, rest) =
      &&-true (not (str_eq key "")) (str_eq r.workflow workflow && str_eq r.unique_key key) h in
    let (home, key_is) = &&-true (str_eq r.workflow workflow) (str_eq r.unique_key key) rest in
    (
      λ e. absurd (let k = (eq_iff key "").1 e in ground arith),
      (eq_iff r.workflow workflow).0 home,
      (eq_iff r.unique_key key).0 key_is,
    )

holds_unique_intro :
    (workflow key : String) (r : Run)
    → key ≢ ""
    → r.workflow ≡ workflow
    → r.unique_key ≡ key
    → holds_unique workflow key r ≡ true
unfolding holds_unique
holds_unique_intro workflow key r named home key_is =
    let a = (eq_iff r.workflow workflow).1 home in
    let b = (eq_iff r.unique_key key).1 key_is in
    elim (Bool-cases (str_eq key "")) [
      | inl e ↦ absurd (named ((eq_iff key "").0 e))
      | inr e ↦ ground arith
    ]

-- A row that holds a key now held it before.
Frees-holds_unique :
    (workflow key : String) (r t : Run)
    → Frees r t
    → holds_unique workflow key t ≡ true
    → holds_unique workflow key r ≡ true
Frees-holds_unique workflow key r t f h =
    let (named, home, key_is) = holds_unique_parts workflow key t h in
    elim f.key [
      | inl free ↦ absurd (named (sym key_is ∙ free))
      | inr (same, _) ↦
          holds_unique_intro workflow key r named (sym f.workflow ∙ home) (sym same ∙ key_is)
    ]

pub RunChanges-HasLiveKeys : {xs ys : List Run} → RunChanges xs ys → HasLiveKeys xs → HasLiveKeys ys
RunChanges-HasLiveKeys stay h = h
RunChanges-HasLiveKeys (set {ys = ys} q f frees c) h =
    let before = RunChanges-HasLiveKeys c h in
    record {
      one = λ workflow key. omega (
        arith,
        count-update_mono (holds_unique workflow key) q f ys
            (λ x hit holds. Frees-holds_unique workflow key x (f x) (frees x) holds),
        before.one workflow key,
      );
      live =
          mem-update_all (λ r. is_terminal r.status ≡ true → r.unique_key ≡ "") q f ys before.live
            (λ x m hit ended. elim (frees x).key [
              | inl free ↦ free
              | inr (same, back) ↦ same ∙ before.live x m (back ended)
            ]);
    }
RunChanges-HasLiveKeys (drop_rows {ys = ys} p c) h =
    let before = RunChanges-HasLiveKeys c h in
    record {
      one = λ workflow key.
          omega (arith, count-delete-le (holds_unique workflow key) p ys, before.one workflow key);
      live = λ r m. before.live r (mem-delete p r ys m).0;
    }

count-append :
    {A : Type 0} (p : A → Bool) (xs ys : List A) → count p (xs ++ ys) ≡ count p xs + count p ys
unfolding count
count-append p [] ys = omega arith
count-append p (x ∷ xs) ys = elim (Bool-cases (p x)) [
  | inl e ↦ simp e (omega (arith, count-append p xs ys))
  | inr e ↦ simp e (count-append p xs ys)
]

count-single-le : {A : Type 0} (p : A → Bool) (x : A) → count p (x ∷ []) ≤ 1
unfolding count
count-single-le p x = elim (Bool-cases (p x)) [
  | inl e ↦ simp e (omega arith)
  | inr e ↦ simp e (omega arith)
]

count-single_none : {A : Type 0} (p : A → Bool) (x : A) → p x ≡ false → count p (x ∷ []) ≡ 0
unfolding count
count-single_none p x e = simp e refl

-- No row that is there holds the key of a run that passed the unique index.
new_holder :
    (run : Run) (runs : List Run) (workflow key : String)
    → any (collides run) runs ≡ false
    → holds_unique workflow key run ≡ true
    → count (holds_unique workflow key) runs ≡ 0
unfolding collides
new_holder run runs workflow key free holds = elim (count_cases (holds_unique workflow key) runs) [
  | inl z ↦ z
  | inr (y, m, k) ↦
      let (named, home, key_is) = holds_unique_parts workflow key run holds in
      let (_, home_y, key_y) = holds_unique_parts workflow key y k in
      let held : holds_unique run.workflow run.unique_key y ≡ true =
        holds_unique_intro run.workflow run.unique_key y (λ e. named (sym key_is ∙ e))
          (home_y ∙ sym home) (key_y ∙ sym key_is) in
      let clash : any (collides run) runs ≡ true = any-mem (collides run) runs y m (ground arith) in
      absurd (ground arith)
]

inserted-holds_unique :
    (workflow key : String) (run : Run)
    → holds_unique workflow key (inserted_run run) ≡ holds_unique workflow key run
unfolding holds_unique inserted_run
inserted-holds_unique workflow key run = refl

one_more :
    (run : Run) (runs : List Run) (workflow key : String)
    → any (collides run) runs ≡ false
    → count (holds_unique workflow key) runs ≤ 1
    → count (holds_unique workflow key) (runs ++ inserted_run run ∷ []) ≤ 1
one_more run runs workflow key free before = elim (Bool-cases (holds_unique workflow key run)) [
  | inl e ↦ omega (
    arith,
    count-append (holds_unique workflow key) runs (inserted_run run ∷ []),
    new_holder run runs workflow key free e,
    count-single-le (holds_unique workflow key) (inserted_run run),
  )
  | inr e ↦ omega (
    arith,
    count-append (holds_unique workflow key) runs (inserted_run run ∷ []),
    count-single_none (holds_unique workflow key) (inserted_run run)
        (inserted-holds_unique workflow key run ∙ e),
    before,
  )
]

-- A run that passed the unique index joins the table.
pub appended :
    (run : Run) (runs : List Run)
    → is_terminal run.status ≡ false
    → any (collides run) runs ≡ false
    → HasLiveKeys runs
    → HasLiveKeys (runs ++ inserted_run run ∷ [])
unfolding inserted_run
appended run runs live free h = record {
  one = λ workflow key. one_more run runs workflow key free (h.one workflow key);
  live = λ r m ended. elim (mem-append_cases r runs (inserted_run run ∷ []) m) [
    | inl old ↦ h.live r old ended
    | inr new ↦
        let same : r ≡ inserted_run run = mem-singleton r (inserted_run run) new in
        let bad : is_terminal run.status ≡ true = rw same at ended in absurd (ground arith)
  ];
}
