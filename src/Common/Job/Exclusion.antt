-- ===== src/Common/Job/Exclusion.antt =====
-- The callers of one job slot (crates/dbgflow-common/src/job.rs), in any order.
use dbgflow.Prelude.{ℕ, String, ◌≡◌, refl, subst, none, some, List, [], ◌∷◌, ◌++◌, arith}
use dbgflow.Common.Error.{DbgFlowError, ok, err}
use dbgflow.Common.Job.{Active, Guard, start, release}

-- The slot, and the guards that are alive.
pub record Slot : Type 0 where
  pub active : Active
  pub held : List Guard

pub data Step (busy_message : ℕ → String) (s : Slot) (t : Slot) : Type 0 where
  started :
      (id : ℕ) (g : Guard) (a : Active)
      → start busy_message id s.active ≡ (ok g, a)
      → t ≡ record { active = a; held = g ∷ s.held }
      → Step busy_message s t
  refused :
      (id : ℕ) (e : DbgFlowError) (a : Active)
      → start busy_message id s.active ≡ (err e, a)
      → t ≡ record { active = a; held = s.held }
      → Step busy_message s t
  dropped :
      (xs ys : List Guard) (g : Guard)
      → s.held ≡ xs ++ g ∷ ys
      → t ≡ record { active = release g s.active; held = xs ++ ys }
      → Step busy_message s t

pub data Reach (busy_message : ℕ → String) : Slot → Type 0 where
  idle : Reach busy_message (record { active = none; held = [] })
  later : {s t : Slot} → Reach busy_message s → Step busy_message s t → Reach busy_message t

-- No guard and an empty slot, or one guard whose id the slot shows.
abbrev pub Owns : List Guard → Active → Type 0
Owns [] a = a ≡ none
Owns (g ∷ []) a = a ≡ some g.id
Owns (g ∷ h ∷ hs) a = ⊥

Owns-start :
    (f : ℕ → String) (id : ℕ) (g : Guard) (gs : List Guard) (a b : Active)
    → Owns gs a
    → start f id a ≡ (ok g, b)
    → Owns (g ∷ gs) b
unfolding start
Owns-start f id g [] none b o e = ground arith
Owns-start f id g (h ∷ []) none b o e = cc
Owns-start f id g (h ∷ i ∷ hs) none b o e = absurd o
Owns-start f id g gs (some a) b o e = cc

Owns-release :
    (xs ys : List Guard) (g : Guard) (a : Active)
    → Owns (xs ++ g ∷ ys) a
    → Owns (xs ++ ys) (release g a)
unfolding release
Owns-release [] [] g a o = rw o (ground arith)
Owns-release [] (y ∷ ys) g a o = absurd o
Owns-release (x ∷ []) ys g a o = absurd o
Owns-release (x ∷ y ∷ xs) ys g a o = absurd o

start_refused :
    (f : ℕ → String) (id : ℕ) (a b : Active) (e : DbgFlowError) → start f id a ≡ (err e, b) → b ≡ a
unfolding start
start_refused f id none b e h = cc
start_refused f id (some a) b e h = ground arith

-- Every start, refused start and drop of a guard keeps the slot and the guards in step: no guard
-- and an empty slot, or one guard and its id in the slot.
pub Step-Owns :
    {f : ℕ → String} {s t : Slot} → Step f s t → Owns s.held s.active → Owns t.held t.active
Step-Owns {f} {s} (started id g a e p) o = rw p (Owns-start f id g s.held s.active a o e)
Step-Owns {f} {s} (refused id x a e p) o = rw (p, start_refused f id s.active a x e) o
Step-Owns {f} {s} (dropped xs ys g e p) o =
    rw p (Owns-release xs ys g s.active (subst (λ gs. Owns gs s.active) e o))

-- In every reachable state of a job slot there is no guard and the slot is empty, or there is one
-- guard and the slot holds its id: two jobs are never active together, and no job blocks the slot
-- after its guard is gone.
pub Reach-Owns : {f : ℕ → String} {s : Slot} → Reach f s → Owns s.held s.active
Reach-Owns idle = refl
Reach-Owns (later r st) = Step-Owns st (Reach-Owns r)
