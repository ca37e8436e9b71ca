-- ===== src/World/Frames.antt =====
-- A call changes nothing but the replies.
use rdpg_boshrelease.Base.{
  ℕ, String, ◌≡◌, refl, ◌∙◌, Bool, true, false, List, [], ◌∷◌, member, if◌then◌else◌, arith,
}
use rdpg_boshrelease.World.Monad.{Result, ok, err, panics, hangs, continue}
use rdpg_boshrelease.World.State.{World, Reply, done, fails, no_channel, message}
use rdpg_boshrelease.World.Rows.{Db, InstanceRow}
use rdpg_boshrelease.World.Calls.{
  call, answer, exec_db, lock, unlock, release, granted, sleep, arrived,
}

module _ (w : World) where
  pub servers-call : (call w).1.servers ≡ w.servers
  unfolding call
  servers-call = ground arith

  pub catalog-call : (call w).1.catalog ≡ w.catalog
  unfolding call
  catalog-call = ground arith

  pub db-call : (call w).1.db ≡ w.db
  unfolding call
  db-call = ground arith

  started-granted : (key : String) (rs : List Reply) → (granted key rs w).1.started ≡ w.started
  started-granted key [] = refl
  started-granted key (done ∷ rs) = refl
  started-granted key (fails s ∷ rs) = refl
  started-granted key (no_channel ∷ rs) = refl

  started-arrived : (later : List (List InstanceRow)) → (arrived later w).started ≡ w.started
  started-arrived [] = refl
  started-arrived (rows ∷ later) = refl

  pub started-sleep : (n : ℕ) → (sleep n w).1.started ≡ w.started
  unfolding sleep
  started-sleep n = started-arrived w.arrivals

  tasks-arrived : (later : List (List InstanceRow)) → (arrived later w).db.tasks ≡ w.db.tasks
  tasks-arrived [] = refl
  tasks-arrived (rows ∷ later) = refl

  pub tasks-sleep : (n : ℕ) → (sleep n w).1.db.tasks ≡ w.db.tasks
  unfolding sleep
  tasks-sleep n = tasks-arrived w.arrivals

  schedules-arrived :
      (later : List (List InstanceRow)) → (arrived later w).db.schedules ≡ w.db.schedules
  schedules-arrived [] = refl
  schedules-arrived (rows ∷ later) = refl

  pub schedules-sleep : (n : ℕ) → (sleep n w).1.db.schedules ≡ w.db.schedules
  unfolding sleep
  schedules-sleep n = schedules-arrived w.arrivals

  held-arrived : (later : List (List InstanceRow)) → (arrived later w).held ≡ w.held
  held-arrived [] = refl
  held-arrived (rows ∷ later) = refl

  pub held-sleep : (n : ℕ) → (sleep n w).1.held ≡ w.held
  unfolding sleep
  held-sleep n = held-arrived w.arrivals

module _ (w : World) where
  pub started-exec_db : (f : Db → Db) → (exec_db f w).1.started ≡ w.started
  unfolding exec_db call
  started-exec_db f = ground arith

  started-answer : (v : World) (rs : List Reply) → (answer rs v).1.started ≡ v.started
  started-answer v [] = refl
  started-answer v (r ∷ rs) = refl

  started-tried :
      (key : String) (b : Bool) (v : World)
      → (if b then (hangs, v) else granted key v.replies v).1.started ≡ v.started
  started-tried key true v = refl
  started-tried key false v = started-granted v key v.replies

  started-continued :
      (key : String) (r : Result (Unit {0})) (v : World)
      → (continue r
          (λ (u : Unit {0}) w. if member key w.held then (hangs, w) else granted key w.replies w)
          v).1.started
        ≡ v.started
  started-continued key (ok u) v = started-tried key (member key v.held) v
  started-continued key (err e) v = refl
  started-continued key panics v = refl
  started-continued key hangs v = refl

  pub started-lock : (key : String) → (lock key w).1.started ≡ w.started
  unfolding lock call
  started-lock key =
      started-continued key (answer w.replies w).0 (answer w.replies w).1
      ∙ started-answer w w.replies

  started-released :
      (key : String) (b : Bool)
      → (if b
          then answer w.replies (release key w)
          else (err (message "Lock not held"), w)).1.started
        ≡ w.started
  unfolding release
  started-released key true = started-answer (release key w) w.replies
  started-released key false = refl

  pub started-unlock : (key : String) → (unlock key w).1.started ≡ w.started
  unfolding unlock release call
  started-unlock key = started-released key (member key w.held)
