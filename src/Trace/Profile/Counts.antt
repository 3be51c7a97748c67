-- ===== src/Trace/Profile/Counts.antt =====
-- The calls of a collector in the journal of a profile.
use dbgflow.Prelude.{ℕ, ◌+◌, ◌≡◌, Bool, true, false, List, [], ◌∷◌, ◌++◌, ◌==◌, arith}
use dbgflow.Trace.Profile.Collect.{
  Entry, started, not_started, told, stop_call, cleanup_call, event,
}

abbrev pub one_if : Bool → ℕ
one_if true = 1
one_if false = 0

-- How often a collector was started, in the order of the calls.
abbrev pub starts : ℕ → List Entry → ℕ
starts collector [] = 0
starts collector (started c ∷ entries) = one_if (c == collector) + starts collector entries
starts collector (_ ∷ entries) = starts collector entries

abbrev pub stops : ℕ → List Entry → ℕ
stops collector [] = 0
stops collector (stop_call c pid ∷ entries) = one_if (c == collector) + stops collector entries
stops collector (_ ∷ entries) = stops collector entries

abbrev pub clean_ups : ℕ → List Entry → ℕ
clean_ups collector [] = 0
clean_ups collector (cleanup_call c ∷ entries) =
    one_if (c == collector) + clean_ups collector entries
clean_ups collector (_ ∷ entries) = clean_ups collector entries

abbrev pub occurrences : ℕ → List ℕ → ℕ
occurrences collector [] = 0
occurrences collector (c ∷ collectors) = one_if (c == collector) + occurrences collector collectors

module _ (h : ℕ) where
  pub starts-append : (xs ys : List Entry) → starts h (xs ++ ys) ≡ starts h xs + starts h ys
  starts-append [] ys = omega arith
  starts-append (started c ∷ xs) ys = omega (arith, starts-append xs ys)
  starts-append (not_started c ∷ xs) ys = starts-append xs ys
  starts-append (told c pid ∷ xs) ys = starts-append xs ys
  starts-append (stop_call c pid ∷ xs) ys = starts-append xs ys
  starts-append (cleanup_call c ∷ xs) ys = starts-append xs ys
  starts-append (event n c e ∷ xs) ys = starts-append xs ys

  pub stops-append : (xs ys : List Entry) → stops h (xs ++ ys) ≡ stops h xs + stops h ys
  stops-append [] ys = omega arith
  stops-append (started c ∷ xs) ys = stops-append xs ys
  stops-append (not_started c ∷ xs) ys = stops-append xs ys
  stops-append (told c pid ∷ xs) ys = stops-append xs ys
  stops-append (stop_call c pid ∷ xs) ys = omega (arith, stops-append xs ys)
  stops-append (cleanup_call c ∷ xs) ys = stops-append xs ys
  stops-append (event n c e ∷ xs) ys = stops-append xs ys

  pub clean_ups-append :
      (xs ys : List Entry) → clean_ups h (xs ++ ys) ≡ clean_ups h xs + clean_ups h ys
  clean_ups-append [] ys = omega arith
  clean_ups-append (started c ∷ xs) ys = clean_ups-append xs ys
  clean_ups-append (not_started c ∷ xs) ys = clean_ups-append xs ys
  clean_ups-append (told c pid ∷ xs) ys = clean_ups-append xs ys
  clean_ups-append (stop_call c pid ∷ xs) ys = clean_ups-append xs ys
  clean_ups-append (cleanup_call c ∷ xs) ys = omega (arith, clean_ups-append xs ys)
  clean_ups-append (event n c e ∷ xs) ys = clean_ups-append xs ys
