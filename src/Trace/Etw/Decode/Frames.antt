-- ===== src/Trace/Etw/Decode/Frames.antt =====
-- The user data of a stack walk is read back, in native_etw.rs.
use dbgflow.Prelude.{
  ℕ, zero, suc, ◌+◌, ◌*◌, ◌%◌, ◌/◌, ◌^◌, ◌<◌, ◌≤◌, ◌≡◌, refl, ap, ◌∙◌, some, List, [], ◌∷◌, ◌++◌,
  length, arith, length-append,
}
use dbgflow.Trace.Etw.{DecodedStackWalkEvent}
use dbgflow.Trace.Etw.Decode.UserData.{
  from_bytes, take, drop, words, words_loop, non_zero, pointer_size, decode_stack_walk_user_data,
}

-- `to_le_bytes` of a number of `size` bytes.
unfoldable pub to_bytes : (size : ℕ) → ℕ → List ℕ
to_bytes zero n = []
to_bytes (suc size) n = n % 256 ∷ to_bytes size (n / 256)

unfoldable pub words_bytes : (size : ℕ) → List ℕ → List ℕ
unfolding to_bytes
words_bytes size [] = []
words_bytes size (n ∷ ns) = to_bytes size n ++ words_bytes size ns

-- The numbers that have so many bytes.
abbrev pub AllBelow : ℕ → List ℕ → Type 0
AllBelow bound [] = Unit
AllBelow bound (n ∷ ns) = (n < bound) × AllBelow bound ns

length-to_bytes : (size n : ℕ) → length (to_bytes size n) ≡ size
unfolding to_bytes
length-to_bytes zero n = refl
length-to_bytes (suc size) n = ap suc (length-to_bytes size (n / 256))

length-words_bytes : (size : ℕ) (ns : List ℕ) → length (words_bytes size ns) ≡ size * length ns
unfolding words_bytes
length-words_bytes size [] = omega arith
length-words_bytes size (n ∷ ns) = ground (
  arith,
  length-append (to_bytes size n) (words_bytes size ns),
  length-to_bytes size n,
  length-words_bytes size ns,
)

take-append : (xs ys : List ℕ) → take (length xs) (xs ++ ys) ≡ xs
unfolding take
take-append [] ys = refl
take-append (x ∷ xs) ys = ap (λ r. x ∷ r) (take-append xs ys)

drop-append : (xs ys : List ℕ) → drop (length xs) (xs ++ ys) ≡ ys
unfolding drop
drop-append [] ys = refl
drop-append (x ∷ xs) ys = drop-append xs ys

from_bytes-to_bytes : (size n : ℕ) → n < 256 ^ size → from_bytes (to_bytes size n) ≡ n
unfolding from_bytes to_bytes
from_bytes-to_bytes zero n h = omega arith
from_bytes-to_bytes (suc size) n h = omega (arith, from_bytes-to_bytes size (n / 256) (omega arith))

words_loop-append :
    (chunk rest : List ℕ) (fuel size : ℕ)
    → length chunk ≡ suc size
    → words_loop (suc fuel) (suc size) (chunk ++ rest)
      ≡ from_bytes chunk ∷ words_loop fuel (suc size) rest
unfolding words_loop
words_loop-append chunk rest fuel size h =
    ground (arith, length-append chunk rest, take-append chunk rest, drop-append chunk rest)

words_loop-empty : (fuel size : ℕ) → words_loop fuel (suc size) [] ≡ []
unfolding words_loop
words_loop-empty zero size = refl
words_loop-empty (suc fuel) size = ground arith

-- The user data of a walk: the time, the process, the thread and the frames.
abbrev pub walk_bytes : (timestamp process thread : ℕ) → (frames : List ℕ) → List ℕ
walk_bytes timestamp process thread frames =
    to_bytes 8 timestamp ++ (to_bytes 4 process ++ (to_bytes 4 thread ++ frames))

abbrev pub walk_event : (timestamp process thread : ℕ) → List ℕ → DecodedStackWalkEvent
walk_event timestamp process thread addresses = record {
  event_timestamp = timestamp;
  stack_process = process;
  stack_thread = thread;
  stack_addresses = addresses;
}

decode_walk_bytes :
    (timestamp process thread size : ℕ) (frames : List ℕ)
    → timestamp < 2 ^ 64
    → process < 2 ^ 32
    → thread < 2 ^ 32
    → pointer_size (length frames) ≡ some size
    → decode_stack_walk_user_data (walk_bytes timestamp process thread frames)
      ≡ some (walk_event timestamp process thread (non_zero (words size frames)))
unfolding decode_stack_walk_user_data to_bytes take drop
decode_walk_bytes timestamp process thread size frames t p h e = ground (
  arith,
  from_bytes-to_bytes 8 timestamp t,
  from_bytes-to_bytes 4 process p,
  from_bytes-to_bytes 4 thread h,
)

pointer_size-8 : (n length : ℕ) → length ≡ 8 * n → pointer_size length ≡ some 8
unfolding pointer_size
pointer_size-8 n length h = ground arith

-- Frames of 32 bits in twos, and what two of them are as one number.
abbrev pub twos : List (ℕ × ℕ) → List ℕ
twos [] = []
twos ((low, high) ∷ pairs) = low ∷ high ∷ twos pairs

abbrev pub merged : List (ℕ × ℕ) → List ℕ
merged [] = []
merged ((low, high) ∷ pairs) = (low + 2 ^ 32 * high) ∷ merged pairs

from_bytes-append :
    (a b : ℕ) → a < 2 ^ 32 → b < 2 ^ 32 → from_bytes (to_bytes 4 a ++ to_bytes 4 b) ≡ a + 2 ^ 32 * b
unfolding from_bytes to_bytes
from_bytes-append a b h k = omega (arith, from_bytes-to_bytes 4 a h, from_bytes-to_bytes 4 b k)

words_loop-twos :
    (pairs : List (ℕ × ℕ)) (fuel : ℕ)
    → AllBelow (2 ^ 32) (twos pairs)
    → length pairs ≤ fuel
    → words_loop fuel 8 (words_bytes 4 (twos pairs)) ≡ merged pairs
unfolding words_bytes
words_loop-twos [] fuel b h = words_loop-empty fuel 7
words_loop-twos ((low, high) ∷ pairs) zero b h = absurd (omega arith)
words_loop-twos ((low, high) ∷ pairs) (suc fuel) b h =
    words_loop-append (to_bytes 4 low ++ to_bytes 4 high) (words_bytes 4 (twos pairs)) fuel 7 refl
    ∙ ground (
      arith,
      from_bytes-append low high b.0 b.1.0,
      words_loop-twos pairs fuel b.1.1 (omega arith),
    )

length-twos : (pairs : List (ℕ × ℕ)) → length (twos pairs) ≡ 2 * length pairs
length-twos [] = refl
length-twos ((low, high) ∷ pairs) = omega (arith, length-twos pairs)

-- An even number of 32-bit frames is read as 64-bit numbers, each of two of the frames, and those of
-- these numbers that are not 0 are the frames of the event.
pub decode_stack_walk_user_data-merged :
    (timestamp process thread : ℕ) (pairs : List (ℕ × ℕ))
    → timestamp < 2 ^ 64
    → process < 2 ^ 32
    → thread < 2 ^ 32
    → AllBelow (2 ^ 32) (twos pairs)
    → decode_stack_walk_user_data (walk_bytes timestamp process thread (words_bytes 4 (twos pairs)))
      ≡ some (walk_event timestamp process thread (non_zero (merged pairs)))
unfolding words
decode_stack_walk_user_data-merged timestamp process thread pairs t p h b =
    decode_walk_bytes timestamp process thread 8 frames t p h
      (pointer_size-8 (length pairs) (length frames) size)
    ∙ ap (λ ns. some (walk_event timestamp process thread (non_zero ns)))
        (words_loop-twos pairs (length frames) b (omega (arith, size)))
  where
    frames : List ℕ
    frames = words_bytes 4 (twos pairs)

    size : length frames ≡ 8 * length pairs
    size = omega (arith, length-words_bytes 4 (twos pairs), length-twos pairs)
