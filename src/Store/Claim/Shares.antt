-- ===== src/Store/Claim/Shares.antt =====
-- How many of a claim's steps are of one queue.
use quacker.Prelude.{
  ℕ, ◌+◌, ◌≤◌, ◌≡◌, sym, subst, String, Bool, false, List, [], ◌∷◌, inl, inr, Bool-cases, str_eq,
  eq_iff, if◌then◌else◌, arith, length-take-le, &&-true,
}
use quacker.Table.{select, count, order_by}
use quacker.Table.Laws.{
  count-append, count-length-le, count_none, mem-order_by, mem-take, mem-select,
}
use quacker.Store.Model.{Step, Db}
use quacker.Store.Claim.{
  QueueClaim, Worker, Claim, claim_step, claim_of, claim_each, claim_queue, claim_queues,
  claim_candidates, claim_limit, is_candidate, claimed_before,
}

-- The claims of a queue.
abbrev pub is_for : String → Claim → Bool
is_for n c = str_eq c.step.queue n

abbrev is_from : String → Step → Bool
is_from n s = str_eq s.queue n

claim_step-count :
    (w : Worker) (now : ℕ) (db : Db) (st : Step) (n : String)
    → count (is_for n) (claim_step w now db st).1 ≤ (if is_from n st then 1 else 0)
unfolding claim_step claim_of count
claim_step-count w now db st n = ground arith

claim_each-count :
    (w : Worker) (now : ℕ) (db : Db) (sts : List Step) (n : String)
    → count (is_for n) (claim_each w now db sts).1 ≤ count (is_from n) sts
unfolding claim_each count
claim_each-count w now db [] n = omega arith
claim_each-count w now db (st ∷ sts) n =
    let one = claim_step-count w now db st n in
    let rest = claim_each-count w now (claim_step w now db st).0 sts n in
    let sum =
      count-append (is_for n) (claim_step w now db st).1
        (claim_each w now (claim_step w now db st).0 sts).1 in
    ground (arith, one, rest, sum)

-- What a queue may take.
abbrev pub share : String → QueueClaim → ℕ
share n q = if str_eq q.name n then q.limit else 0

unfoldable pub shares : String → List QueueClaim → ℕ
shares n [] = 0
shares n (q ∷ qs) = share n q + shares n qs

claim_limit-le : (db : Db) (q : QueueClaim) (now : ℕ) → claim_limit db q now ≤ q.limit
unfolding claim_limit
claim_limit-le db q now = ground arith

claim_queue-count :
    (w : Worker) (now : ℕ) (db : Db) (q : QueueClaim) (n : String)
    → count (is_for n) (claim_queue w now db q).1 ≤ share n q
unfolding claim_queue claim_candidates is_candidate
claim_queue-count w now db q n =
    let cands = claim_candidates db q.name now w.labels (claim_limit db q now) in
    let some_taken = claim_each-count w now db cands n in
    let few = count-length-le (is_from n) cands in
    let limit =
      length-take-le (claim_limit db q now)
        (order_by claimed_before (select (is_candidate db q.name now w.labels) db.steps)) in
    let le = claim_limit-le db q now in
    elim (Bool-cases (str_eq q.name n)) [
      | inl e ↦ rw e (omega (arith, some_taken, few, limit, le))
      | inr e ↦
          let none_from = count_none (is_from n) cands (λ x m.
            let found = mem-order_by claimed_before x _ (mem-take (claim_limit db q now) x _ m) in
            let (_, hit) = mem-select (is_candidate db q.name now w.labels) x db.steps found in
            let (home, _) = &&-true _ _ hit in
            subst (λ a. str_eq a n ≡ false) (sym ((eq_iff x.queue q.name).0 home)) e) in
          rw e (omega (arith, some_taken, none_from))
    ]

pub claim_queues-count :
    (w : Worker) (now : ℕ) (db : Db) (qs : List QueueClaim) (n : String)
    → count (is_for n) (claim_queues w now db qs).1 ≤ shares n qs
unfolding claim_queues shares count
claim_queues-count w now db [] n = omega arith
claim_queues-count w now db (q ∷ qs) n =
    let one = claim_queue-count w now db q n in
    let rest = claim_queues-count w now (claim_queue w now db q).0 qs n in
    let sum =
      count-append (is_for n) (claim_queue w now db q).1
        (claim_queues w now (claim_queue w now db q).0 qs).1 in
    omega (arith, one, rest, sum)
