-- ===== src/Tasks/Exclusive.antt =====
-- The workers' invariant: one at a time chooses a task, and each task is one worker's.
use rdpg_boshrelease.Base.{
  ℕ, ◌<◌, ◌≡◌, ◌≢◌, sym, ◌∙◌, ap, subst, true, Bool-cases, Option, none, some, ◌⊎◌, inl, inr, eqb,
  arith, if◌then◌else◌,
}
use rdpg_boshrelease.World.{Db}
use rdpg_boshrelease.Tasks.Crowd.{
  Phase, idle, selecting, dequeuing, unlocking, working, Shared, set_phase, AllBelow, is_critical,
  task_of,
}
use rdpg_boshrelease.Tasks.Locked.{Locked}

-- the id of the task that the worker has locked
abbrev pub held : Phase → Option ℕ
held idle = none
held selecting = none
held (dequeuing r) = none
held (unlocking r) = some r.id
held (working r) = some r.id

-- What holds of the worker `i` in its phase.
pub record Fine (sh : Shared) (i : ℕ) (p : Phase) : Type 0 where
  pub owned : is_critical p ≡ true → sh.owner ≡ some i
  pub taken : (id : ℕ) → held p ≡ some id → Locked id sh.db
  pub known : (id : ℕ) → task_of p ≡ some id → id < sh.db.next_id

pub record OneEach (sh : Shared) (f : ℕ → Phase) : Type 0 where
  pub fine : (j : ℕ) → Fine sh j (f j)
  pub apart : (i j id : ℕ) → task_of (f i) ≡ some id → task_of (f j) ≡ some id → i ≡ j
  pub below : AllBelow sh.db

pub set_phase-cases :
    (f : ℕ → Phase) (i : ℕ) (p : Phase) (j : ℕ)
    → ((i ≡ j) × (set_phase f i p j ≡ p)) ⊎ ((i ≢ j) × (set_phase f i p j ≡ f j))
set_phase-cases f i p j = elim (Bool-cases (eqb j i)) [
  | inl e ↦ inl (ground arith, ap (λ b. if b then p else f j) e)
  | inr e ↦ inr (ground arith, ap (λ b. if b then p else f j) e)
]

-- The worker `i` has moved.
module _ (sh sh' : Shared) (f : ℕ → Phase) (i : ℕ) (p : Phase) (v : OneEach sh f)
    (mine : Fine sh' i p) (others : (j : ℕ) → i ≢ j → Fine sh' j (f j))
    (only : (j id : ℕ) → i ≢ j → task_of p ≡ some id → task_of (f j) ≢ some id)
    (known : AllBelow sh'.db) where
  moved-Fine : (j : ℕ) → Fine sh' j (set_phase f i p j)
  moved-Fine j = elim (set_phase-cases f i p j) [
    | inl e ↦ subst (Fine sh' j) (sym e.1) (subst (λ k. Fine sh' k p) e.0 mine)
    | inr e ↦ subst (Fine sh' j) (sym e.1) (others j e.0)
  ]

  moved-apart :
      (j k id : ℕ)
      → task_of (set_phase f i p j) ≡ some id
      → task_of (set_phase f i p k) ≡ some id
      → j ≡ k
  moved-apart j k id hj hk = elim (set_phase-cases f i p j) [
    | inl a ↦ elim (set_phase-cases f i p k) [
      | inl b ↦ sym a.0 ∙ b.0
      | inr b ↦ absurd (only k id b.0 (ap task_of (sym a.1) ∙ hj) (ap task_of (sym b.1) ∙ hk))
    ]
    | inr a ↦ elim (set_phase-cases f i p k) [
      | inl b ↦ absurd (only j id a.0 (ap task_of (sym b.1) ∙ hk) (ap task_of (sym a.1) ∙ hj))
      | inr b ↦ v.apart j k id (ap task_of (sym a.1) ∙ hj) (ap task_of (sym b.1) ∙ hk)
    ]
  ]

  pub OneEach-moved : OneEach sh' (set_phase f i p)
  OneEach-moved = record { fine = moved-Fine; apart = moved-apart; below = known }

pub held-task_of : (p : Phase) (id : ℕ) → held p ≡ some id → task_of p ≡ some id
held-task_of idle id e = e
held-task_of selecting id e = e
held-task_of (dequeuing r) id e = cc
held-task_of (unlocking r) id e = e
held-task_of (working r) id e = e

-- The worker `i` goes on with the task that it has, or with none.
module _ (d d' : Db) (o o' : Option ℕ) (f : ℕ → Phase) (i : ℕ) (q p : Phase)
    (v : OneEach (record { db = d; owner = o }) f) (at : q ≡ f i) where
  pub OneEach-goes_on :
      (is_critical p ≡ true → o' ≡ some i)
      → ((j : ℕ) → i ≢ j → is_critical (f j) ≡ true → o ≡ some j → o' ≡ some j)
      → ((id : ℕ) → held p ≡ some id → Locked id d')
      → ((j id : ℕ) → i ≢ j → held (f j) ≡ some id → Locked id d → Locked id d')
      → d.next_id ≡ d'.next_id
      → ((id : ℕ) → task_of p ≡ some id → task_of q ≡ some id)
      → AllBelow d'
      → OneEach (record { db = d'; owner = o' }) (set_phase f i p)
  OneEach-goes_on own own_others take keep same has known =
      OneEach-moved (record { db = d; owner = o }) (record { db = d'; owner = o' }) f i p v
        (record {
          owned = own;
          taken = take;
          known = λ id h.
              subst (λ n. id < n) same ((v.fine i).known id (ap task_of (sym at) ∙ has id h));
        })
        (λ j ne. record {
          owned = λ h. own_others j ne h ((v.fine j).owned h);
          taken = λ id h. keep j id ne h ((v.fine j).taken id h);
          known = λ id h. subst (λ n. id < n) same ((v.fine j).known id h);
        })
        (λ j id ne h h'. ne (v.apart i j id (ap task_of (sym at) ∙ has id h) h')) known
