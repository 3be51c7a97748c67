-- ===== src/Session/Manager/Queries.antt =====
-- `list_sessions` of session/manager.rs.
use mathlib.Core.List.{Perm}
use mathlib.Core.List.Perm
use dbgflow.Prelude.{
  ℕ, ◌≡◌, refl, Bool, true, ◌&&◌, ◌≤◌, List, [], ◌∷◌, arith, leb, all, values, if_branch,
}
use dbgflow.Session.Operation.{Session}
use dbgflow.Session.Manager.{SessionManager, insert_by_age, sort_by_age, list_sessions}

abbrev all_since : ℕ → List Session → Bool
all_since n ss = all (λ s. leb n s.created_at_unix_ms) ss

-- Each session is at least as old as those after it.
abbrev pub oldest_first : List Session → Bool
oldest_first [] = true
oldest_first (s ∷ ss) = all_since s.created_at_unix_ms ss && oldest_first ss

all_since-insert_by_age :
    (n : ℕ) (s : Session) (ts : List Session)
    → all_since n (insert_by_age s ts) ≡ (leb n s.created_at_unix_ms && all_since n ts)
unfolding insert_by_age
all_since-insert_by_age n s [] = refl
all_since-insert_by_age n s (t ∷ ts) = ground (arith, all_since-insert_by_age n s ts)

all_since_later :
    (n k : ℕ) (ts : List Session) → n ≤ k → all_since k ts ≡ true → all_since n ts ≡ true
all_since_later n k [] h a = refl
all_since_later n k (t ∷ ts) h a = ground (arith, all_since_later n k ts h)

oldest_first-insert_by_age :
    (s : Session) (ts : List Session)
    → oldest_first ts ≡ true
    → oldest_first (insert_by_age s ts) ≡ true
unfolding insert_by_age
oldest_first-insert_by_age s [] h = refl
oldest_first-insert_by_age s (t ∷ ts) h = ground (
  arith,
  oldest_first-insert_by_age s ts,
  all_since-insert_by_age t.created_at_unix_ms s ts,
  all_since_later s.created_at_unix_ms t.created_at_unix_ms ts,
)

oldest_first-sort_by_age : (ss : List Session) → oldest_first (sort_by_age ss) ≡ true
unfolding sort_by_age
oldest_first-sort_by_age [] = refl
oldest_first-sort_by_age (s ∷ ss) =
    oldest_first-insert_by_age s (sort_by_age ss) (oldest_first-sort_by_age ss)

insert_by_age-perm : (s : Session) (ts : List Session) → Perm (insert_by_age s ts) (s ∷ ts)
unfolding insert_by_age
insert_by_age-perm s [] = Perm.refl (s ∷ [])
insert_by_age-perm s (t ∷ ts) =
    if_branch (λ l. Perm l (s ∷ t ∷ ts)) (leb s.created_at_unix_ms t.created_at_unix_ms) _ _
      (λ _. Perm.refl (s ∷ t ∷ ts))
      (λ _. Perm.trans (Perm.cons t (insert_by_age-perm s ts)) (Perm.swap s t ts))

sort_by_age-perm : (ss : List Session) → Perm (sort_by_age ss) ss
unfolding sort_by_age
sort_by_age-perm [] = Perm.refl []
sort_by_age-perm (s ∷ ss) =
    Perm.trans (insert_by_age-perm s (sort_by_age ss)) (Perm.cons s (sort_by_age-perm ss))

-- The list of the sessions has each session of the table once for each entry, and no other, the
-- oldest first.
pub list_sessions-perm :
    (m : SessionManager)
    → Perm (list_sessions m) (values m.sessions) × (oldest_first (list_sessions m) ≡ true)
unfolding list_sessions
list_sessions-perm m =
    (sort_by_age-perm (values m.sessions), oldest_first-sort_by_age (values m.sessions))
