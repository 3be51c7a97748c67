-- ===== src/Session/Registry/Once.antt =====
-- The registry of session/worker_registry.rs under all its callers: no worker is killed twice.
use dbgflow.Prelude.{
  ℕ, ◌≡◌, refl, ◌∙◌, ◌≢◌, false, ◌||◌, Option, none, some, List, [], ◌∷◌, lookup, lookup-insert,
  lookup-erase, mem, mem-add, mem-remove, arith, Option-cases, Bool-cases, inl, inr, if◌then◌else◌,
  ◌==◌,
}
use dbgflow.Common.Error.{SessionId}
use dbgflow.Session.Registry.{
  WorkerId, WorkerRegistry, empty, get, insert_worker, remove_worker, kill_once,
  is_cancel_requested,
}

-- The registry, and the workers that were killed.
pub record World : Type 0 where
  pub registry : WorkerRegistry
  pub killed : List WorkerId

abbrev kill : Option WorkerId → List WorkerId → List WorkerId
kill none killed = killed
kill (some w) killed = w ∷ killed

-- A worker is registered once it has been launched, so it is new. `discarded` is the end of a
-- startup that failed: the worker is taken out, and killed unless that was asked for before.
pub data Step (a : World) : World → Type 0 where
  registered :
      (id : SessionId) (w : WorkerId)
      → mem w a.killed ≡ false
      → ((j : SessionId) → get j a.registry ≢ some w)
      → Step a (record a { registry = insert_worker id w a.registry })
  removed : (id : SessionId) → Step a (record a { registry = (remove_worker id a.registry).1 })
  kill_requested :
      (id : SessionId)
      → Step a (record {
        registry = (kill_once id a.registry).1;
        killed = kill (kill_once id a.registry).0 a.killed;
      })
  discarded :
      (id : SessionId)
      → Step a (record {
        registry = (remove_worker id a.registry).1;
        killed =
            if is_cancel_requested id a.registry
            then a.killed
            else kill (remove_worker id a.registry).0 a.killed;
      })

pub data Reach : World → Type 0 where
  started : Reach (record { registry = empty; killed = [] })
  next : {a b : World} → Reach a → Step a b → Reach b

abbrev pub IsNoDup : List ℕ → Type 0
IsNoDup [] = Unit
IsNoDup (w ∷ ws) = (mem w ws ≡ false) × IsNoDup ws

-- The killed workers that are still registered are those whose session has the mark.
record IsMarked (a : World) : Type 0 where
  marks :
      (id : SessionId) (w : WorkerId)
      → get id a.registry ≡ some w
      → mem w a.killed ≡ is_cancel_requested id a.registry
  apart :
      (i j : SessionId) (w : WorkerId)
      → get i a.registry ≡ some w
      → get j a.registry ≡ some w
      → i ≡ j
  once : IsNoDup a.killed

IsMarked-registered :
    (a : World) (id : SessionId) (w : WorkerId)
    → mem w a.killed ≡ false
    → ((j : SessionId) → get j a.registry ≢ some w)
    → IsMarked a
    → IsMarked (record a { registry = insert_worker id w a.registry })
unfolding get insert_worker is_cancel_requested
IsMarked-registered a id w alive new h = record {
  marks = λ i v at. ground (
    arith,
    lookup-insert id i w a.registry.workers,
    mem-remove id i a.registry.cancel_requested,
    h.marks i v,
  );
  apart = λ i j v p q. ground (
    arith,
    lookup-insert id i w a.registry.workers,
    lookup-insert id j w a.registry.workers,
    h.apart i j v,
    new i,
    new j,
  );
  once = h.once;
}

IsMarked-removed :
    (a : World) (id : SessionId)
    → IsMarked a
    → IsMarked (record a { registry = (remove_worker id a.registry).1 })
unfolding get remove_worker is_cancel_requested
IsMarked-removed a id h = record {
  marks = λ i v at. ground (
    arith,
    lookup-erase id i a.registry.workers,
    mem-remove id i a.registry.cancel_requested,
    h.marks i v,
  );
  apart = λ i j v p q. ground (
    arith,
    lookup-erase id i a.registry.workers,
    lookup-erase id j a.registry.workers,
    h.apart i j v,
  );
  once = h.once;
}

mem-cons : (v w : ℕ) (ws : List ℕ) → mem v (w ∷ ws) ≡ (w == v || mem v ws)
unfolding mem
mem-cons v w ws = refl

-- A kill that is asked for again, or of no worker, changes nothing.
IsMarked-kill_once :
    (a : World) (id : SessionId)
    → IsMarked a
    → IsMarked (record {
      registry = (kill_once id a.registry).1;
      killed = kill (kill_once id a.registry).0 a.killed;
    })
unfolding get kill_once is_cancel_requested
IsMarked-kill_once a id h = elim (Bool-cases (mem id a.registry.cancel_requested)) [
  | inl marked ↦ rw marked h
  | inr unmarked ↦ elim (Option-cases (lookup id a.registry.workers)) [
    | inl absent ↦ rw (unmarked, absent) h
    | inr (w, at) ↦
        rw (unmarked, at)
          (record {
            marks = λ i v p. ground (
              arith,
              mem-cons v w a.killed,
              mem-add id i a.registry.cancel_requested,
              h.marks i v,
              h.apart i id v,
            );
            apart = h.apart;
            once = (h.marks id w at ∙ unmarked, h.once);
          })
  ]
]

IsMarked-discarded :
    (a : World) (id : SessionId)
    → IsMarked a
    → IsMarked (record {
      registry = (remove_worker id a.registry).1;
      killed =
          if is_cancel_requested id a.registry
          then a.killed
          else kill (remove_worker id a.registry).0 a.killed;
    })
unfolding get remove_worker is_cancel_requested
IsMarked-discarded a id h = elim (Bool-cases (mem id a.registry.cancel_requested)) [
  | inl marked ↦ rw marked (IsMarked-removed a id h)
  | inr unmarked ↦ elim (Option-cases (lookup id a.registry.workers)) [
    | inl absent ↦ rw (unmarked, absent) (IsMarked-removed a id h)
    | inr (w, at) ↦
        rw (unmarked, at)
          (record {
            marks = λ i v p. ground (
              arith,
              mem-cons v w a.killed,
              lookup-erase id i a.registry.workers,
              mem-remove id i a.registry.cancel_requested,
              h.marks i v,
              h.apart i id v,
            );
            apart = (IsMarked-removed a id h).apart;
            once = (h.marks id w at ∙ unmarked, h.once);
          })
  ]
]

Step-IsMarked : {a b : World} → Step a b → IsMarked a → IsMarked b
Step-IsMarked {a} (registered id w alive new) h = IsMarked-registered a id w alive new h
Step-IsMarked {a} (removed id) h = IsMarked-removed a id h
Step-IsMarked {a} (kill_requested id) h = IsMarked-kill_once a id h
Step-IsMarked {a} (discarded id) h = IsMarked-discarded a id h

Reach-IsMarked : {a : World} → Reach a → IsMarked a
unfolding get empty lookup mem
Reach-IsMarked started = record {
  marks = λ id w at. absurd (ground arith);
  apart = λ i j w p q. absurd (ground arith);
  once = tt;
}
Reach-IsMarked (next r st) = Step-IsMarked st (Reach-IsMarked r)

-- When every worker that is registered is a new one, then, whatever the order of the registrations,
-- removals, requests to kill and failed startups, no worker is killed twice, and the worker that is
-- registered for a session was killed before exactly if the session is marked as canceled.
pub Reach-kill_once :
    {a : World}
    → Reach a
    → IsNoDup a.killed
      × ((id : SessionId) (w : WorkerId)
          → get id a.registry ≡ some w
          → mem w a.killed ≡ is_cancel_requested id a.registry)
Reach-kill_once r = ((Reach-IsMarked r).once, (Reach-IsMarked r).marks)
