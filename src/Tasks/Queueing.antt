-- ===== src/Tasks/Queueing.antt =====
-- `Enqueue` ends and adds one task; `Dequeue` locks one.
use rdpg_boshrelease.Base.{
  ℕ, zero, suc, String, ◌≡◌, refl, sym, ◌∙◌, subst, ap, Bool, true, false, ◌&&◌, Option, none, some,
  List, [], ◌∷◌, any, first, set_where, eqb, arith, first-none, first_satisfies,
}
use rdpg_boshrelease.World.{World, TaskRow, Db, Error, Result, ok, err, panics, hangs}
use rdpg_boshrelease.World.Triple.{
  Post, Triple, Triple-pure, Triple-raise, Triple-if, Triple-weaken, Triple-bind, Triple-step,
  Triple-attempt, Triple-gets, Triple-query, Triple-given,
}
use rdpg_boshrelease.World.Holding.{Holds, Triple-statement}
use rdpg_boshrelease.World.Measure.{Few, Triple-statement_measured}
use rdpg_boshrelease.Instances.{insert_task}
use rdpg_boshrelease.Tasks.Queue.{
  Task, row_of_task, is_taken_key, enqueue_again, enqueue, lock_task, lock_known, dequeue,
}
use rdpg_boshrelease.Tasks.Work.{Worker, eligible}

module _ (t : Task) (d : Db) (h : List String) where
  -- There is one task more.
  abbrev pub Enqueued : World → Type 0
  Enqueued w = (now : ℕ) × Holds (insert_task (row_of_task now t) d) h w

  abbrev pub Refused : Error → World → Type 0
  Refused e w = Holds d h w × (is_taken_key e ≡ false)

  Triple-enqueue_again :
      (n now : ℕ)
      → Triple
          (λ w. Holds d h w × Few n w)
          (enqueue n t)
          (λ u w. Enqueued w × Few n w)
          (λ e w. Refused e w × Few n w)
      → (r : Result (Unit {0}))
      → Triple
          (λ w.
            Post
              (λ (u : Unit {0}) w. Holds (insert_task (row_of_task now t) d) h w × Few (suc n) w)
              (λ e w. Holds d h w × Few n w)
              r
              w)
          (enqueue_again (enqueue n t) r)
          (λ u w. Enqueued w × Few (suc n) w)
          (λ e w. Refused e w × Few (suc n) w)
  Triple-enqueue_again n now rest (ok u) = Triple-pure tt λ w p. ((now, p.0), p.1)
  Triple-enqueue_again n now rest (err e) =
      Triple-if (is_taken_key e) _ _
        (λ k.
          Triple-weaken (λ w p. p) (λ u w p. (p.0, omega (arith, p.1)))
            (λ e w p. (p.0, omega (arith, p.1))) rest)
        (λ k. Triple-raise e λ w p. ((p.0, k), omega (arith, p.1)))
  Triple-enqueue_again n now rest panics = record { at = λ w p. absurd p }
  Triple-enqueue_again n now rest hangs = record { at = λ w p. absurd p }

  pub Triple-enqueue :
      (n : ℕ)
      → Triple
          (λ w. Holds d h w × Few n w)
          (enqueue n t)
          (λ u w. Enqueued w × Few n w)
          (λ e w. Refused e w × Few n w)
  unfolding enqueue
  Triple-enqueue zero = record { at = λ w p. absurd (omega (arith, p.1)) }
  Triple-enqueue (suc n) =
      Triple-bind
        (Triple-weaken (λ w p. p) (λ a w p. p.0) (λ e w p. p)
          (Triple-gets {P = λ w. Holds d h w × Few (suc n) w}
            {E = λ e w. Refused e w × Few (suc n) w} (λ w. w.now)))
        λ now.
          Triple-bind
            (Triple-attempt (Triple-statement_measured d h (insert_task (row_of_task now t)) n))
            λ r. Triple-enqueue_again n now (Triple-enqueue n) r

  -- `Enqueue` ends when its fuel exceeds the replies that are left, however often the key of the
  -- new row is taken. If it returns no error there is one task more, with the fields of `t`, which
  -- nobody has locked. If it returns an error, it is not that of a taken key, and nothing has
  -- changed.
  pub enqueue-Enqueued :
      (n : ℕ) → Triple (λ w. Holds d h w × Few n w) (enqueue n t) (λ u. Enqueued) Refused
  enqueue-Enqueued n = Triple-weaken (λ w p. p) (λ u w p. p.0) (λ e w p. p.0) (Triple-enqueue n)

set_where-absent :
    {A : Type 0} (p : A → Bool) (f : A → A) (xs : List A) → any p xs ≡ false → set_where p f xs ≡ xs
set_where-absent p f [] e = refl
set_where-absent p f (x ∷ xs) e = ground (arith, set_where-absent p f xs)

eqb-≡ : (a b : ℕ) → eqb a b ≡ true → a ≡ b
eqb-≡ a b e = ground arith

-- `Dequeue` returns. If it returns no error, the tasks with this id are locked by the node, all
-- others being as they were; if there is none, nothing has changed. If it returns an error nothing
-- has changed.
pub dequeue-Locked :
    (my_ip : String) (id : ℕ) (d : Db) (h : List String)
    → Triple
        (Holds d h)
        (dequeue my_ip id)
        (λ u w. (now : ℕ) × Holds (lock_task my_ip now id d) h w)
        (λ e. Holds d h)
unfolding dequeue lock_task
dequeue-Locked my_ip id d h =
    Triple-step
      (Triple-weaken (λ w p. p) (λ r w p. (p.0, rw p.0.0 at p.1)) (λ e w p. p)
        (Triple-query {P = Holds d h} (λ w rs p. p) (λ w. first (λ r. eqb r.id id) w.db.tasks)))
      (λ e w p. p.1)
      λ row.
        Triple-bind
          (Triple-weaken (λ w p. p) (λ a w p. p.0) (λ e w p. p)
            (Triple-gets {E = λ e. Holds d h} (λ w. w.now)))
          λ now. go now row
  where
    go :
        (now : ℕ) (row : Option TaskRow)
        → Triple
            (λ w. Holds d h w × (first (λ r. eqb r.id id) d.tasks ≡ row))
            (lock_known my_ip now row)
            (λ u w. (now : ℕ) × Holds (lock_task my_ip now id d) h w)
            (λ e. Holds d h)
    go now none = Triple-pure tt λ w p. (
      now,
      (
        p.0.0
            ∙ ap (λ ts. record d { tasks = ts })
                (sym (set_where-absent _ _ d.tasks (first-none _ d.tasks p.1))),
        p.0.1,
      ),
    )
    go now (some row) = Triple-given λ w p.
        Triple-weaken (λ v q. q.0)
          (λ u v q. (
            now,
            subst (λ k. Holds (lock_task my_ip now k d) h v)
                (eqb-≡ row.id id (first_satisfies (λ r. eqb r.id id) d.tasks row p.1)) q,
          ))
          (λ e v q. q) (Triple-statement d h (lock_task my_ip now row.id))

-- Whatever a worker's role, address and kind of node, its query does not yield a locked task.
pub lock_task-ineligible :
    (k : Worker) (node_type my_ip : String) (now id : ℕ) (d : Db)
    → any (λ r. eqb r.id id && eligible k node_type r) (lock_task my_ip now id d).tasks ≡ false
unfolding lock_task
lock_task-ineligible k node_type my_ip now id d = go d.tasks
  where
    go :
        (xs : List TaskRow)
        → any
            (λ r. eqb r.id id && eligible k node_type r)
            (set_where
              (λ r. eqb r.id id)
              (λ r. record r { locked_by = some my_ip; processing_at = some now })
              xs)
          ≡ false
    go [] = refl
    go (x ∷ xs) = ground (arith, go xs)
