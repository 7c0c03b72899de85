-- ===== src/Store/Samples.antt =====
-- Small databases for the tests of internal/store.
use quacker.Prelude.{
  String, ◌≡◌, sym, ◌∙◌, pos, Bool, true, false, ◌&&◌, List, [], ◌∷◌, str_eq, eq_iff, &&-true,
  &&-intro, Memᴰ, inl, inr, mem-cons_cases, not-mem-nil, subst,
}
use quacker.Store.Model.{Status, Run, RunKind, Step, Db, empty_db}
use quacker.Store.Claim.{Worker, QueueClaim}
use quacker.Store.Dag.{HasKeys, named_in}
use quacker.Store.Claim.KeyLimit.{HasUniqueIds}
use quacker.Table.Distinct.{distinct, count-distinct-le}

abbrev pub plain_run : String → Status → Run
plain_run id status = record {
  id = id;
  workflow = "w";
  kind = RunKind.workflow;
  status = status;
  queue = "q";
  priority = pos 0;
  input = [];
  output = [];
  error = "";
  attempts = 0;
  max_attempts = 3;
  run_at = 1;
  created_at = 1;
  started_at = 0;
  completed_at = 0;
  concurrency_key = "";
  parent_id = "";
  parent_step = "";
  trace_parent = "";
  unique_key = "";
  paused_at = 0;
  dead_lettered_at = 0;
  sequence_key = "";
  seq = 0;
  ephemeral = false;
  groups = [];
}

abbrev pub plain_step : String → String → String → Status → List String → Step
plain_step id run_id name status deps = record {
  id = id;
  run_id = run_id;
  name = name;
  task = "t";
  ord = 0;
  status = status;
  depends_on = deps;
  queue = "q";
  priority = pos 0;
  input = [];
  output = [];
  error = "";
  attempts = 0;
  max_attempts = 3;
  timeout = 0;
  run_at = 1;
  created_at = 1;
  started_at = 0;
  completed_at = 0;
  concurrency_key = "";
  key_limit = 0;
  claimed_at = 0;
  resume_at = 0;
  wait_kind = "";
  wait_event = "";
  labels = [];
  worker_id = "";
  lease_expires_at = 0;
  sequence_key = "";
  seq = 0;
  keys = [];
}

abbrev pub db_of : List Run → List Step → Db
db_of runs steps = record empty_db { runs = runs; steps = steps }

abbrev pub worker : Worker
worker = record { labels = []; id = "n1"; lease_until = 60 }

abbrev pub queue_q : QueueClaim
queue_q = record { name = "q"; limit = 5; rate_limit = 0; rate_window = 0 }

-- Two steps of the key "k" with limit 1, of which one runs.
abbrev pub keyed : String → Status → Step
keyed id status = record (plain_step id "r" id status []) { concurrency_key = "k"; key_limit = 1 }

abbrev pub keyed_db : Db
keyed_db =
    db_of (plain_run "r" Status.running ∷ [])
      (keyed "a" Status.queued ∷ keyed "b" Status.queued ∷ keyed "c" Status.running ∷ [])

-- A run of two steps: "b" waits for "a".
abbrev pub chain : Status → Status → List Step
chain sa sb = plain_step "r/a" "r" "a" sa [] ∷ plain_step "r/b" "r" "b" sb ("a" ∷ []) ∷ []

abbrev pub chain_db : Db
chain_db = db_of (plain_run "r" Status.running ∷ []) (chain Status.running Status.blocked)

abbrev pub same_id : Step → Step → Bool
same_id a b = str_eq a.id b.id

abbrev pub same_name : Step → Step → Bool
same_name a b = str_eq a.run_id b.run_id && str_eq a.name b.name

agree : (a b n : String) → str_eq a n ≡ true → str_eq b n ≡ true → str_eq a b ≡ true
agree a b n h k = (eq_iff a b).1 ((eq_iff a n).0 h ∙ sym ((eq_iff b n).0 k))

-- Keys by a test that runs.
pub unique_ids : (steps : List Step) → distinct same_id steps ≡ true → HasUniqueIds steps
unique_ids steps h i =
    count-distinct-le same_id (λ s. str_eq s.id i) steps (λ x y a b. agree x.id y.id i a b) h

pub keyed_rows :
    (steps : List Step)
    → distinct same_id steps ≡ true
    → distinct same_name steps ≡ true
    → HasKeys steps
keyed_rows steps h k = record {
  ids = unique_ids steps h;
  names = λ r n.
      count-distinct-le same_name (named_in r n) steps
        (λ x y a b.
          let (ar, an) = &&-true (str_eq x.run_id r) (str_eq x.name n) a in
          let (br, bn) = &&-true (str_eq y.run_id r) (str_eq y.name n) b in
          &&-intro _ _ (agree x.run_id y.run_id r ar br) (agree x.name y.name n an bn))
        k;
}

-- A statement about the rows of a table of two rows or three.
pub both : {A : Type 0} (P : A → Type 0) (a b : A) → P a → P b → (x : A) → Memᴰ x (a ∷ b ∷ []) → P x
both P a b pa pb x m = elim (mem-cons_cases m) [
  | inl e ↦ subst P (sym e) pa
  | inr n ↦ elim (mem-cons_cases n) [
    | inl e ↦ subst P (sym e) pb
    | inr k ↦ absurd (not-mem-nil x k)
  ]
]

pub all_three :
    {A : Type 0} (P : A → Type 0) (a b c : A)
    → P a
    → P b
    → P c
    → (x : A) → Memᴰ x (a ∷ b ∷ c ∷ [])
    → P x
all_three P a b c pa pb pc x m = elim (mem-cons_cases m) [
  | inl e ↦ subst P (sym e) pa
  | inr n ↦ both P b c pb pc x n
]
