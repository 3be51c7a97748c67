-- ===== src/Trace/Etw/Decode/UserData.antt =====
-- Numbers in bytes and the user data of a stack walk, in native_etw.rs. The machine is little-endian,
-- and a timestamp whose sign bit is set is outside the model.
use dbgflow.Prelude.{
  ℕ, zero, suc, ◌+◌, ◌*◌, ◌%◌, Option, none, some, List, [], ◌∷◌, length, ltb, ◌==◌, if◌then◌else◌,
}
use dbgflow.Trace.Etw.{DecodedStackWalkEvent}

-- `from_ne_bytes`.
unfoldable pub from_bytes : List ℕ → ℕ
from_bytes [] = 0
from_bytes (byte ∷ bytes) = byte + 256 * from_bytes bytes

unfoldable pub take {ℓ} : {A : Type ℓ} → ℕ → List A → List A
take zero xs = []
take (suc n) [] = []
take (suc n) (x ∷ xs) = x ∷ take n xs

unfoldable pub drop {ℓ} : {A : Type ℓ} → ℕ → List A → List A
drop zero xs = xs
drop (suc n) [] = []
drop (suc n) (x ∷ xs) = drop n xs

-- The numbers of `chunks_exact(size)`. Each round takes a chunk off, so the length is fuel enough.
unfoldable pub words_loop : (fuel size : ℕ) → List ℕ → List ℕ
unfolding take drop from_bytes
words_loop zero size bytes = []
words_loop (suc fuel) size bytes =
    let rest = words_loop fuel size (drop size bytes) in
    if ltb (length bytes) size then [] else from_bytes (take size bytes) ∷ rest

unfoldable pub words : (size : ℕ) → List ℕ → List ℕ
unfolding words_loop
words size bytes = words_loop (length bytes) size bytes

unfoldable pub non_zero : List ℕ → List ℕ
non_zero [] = []
non_zero (address ∷ addresses) =
    if address == 0 then non_zero addresses else address ∷ non_zero addresses

unfoldable pub bytes_to_u32 : List ℕ → Option ℕ
unfolding from_bytes take
bytes_to_u32 bytes = if ltb (length bytes) 4 then none else some (from_bytes (take 4 bytes))

unfoldable pub bytes_to_u64 : List ℕ → Option ℕ
unfolding bytes_to_u32
bytes_to_u64 bytes =
    if ltb (length bytes) 8 then bytes_to_u32 bytes else some (from_bytes (take 8 bytes))

unfoldable pub pointer_size : ℕ → Option ℕ
pointer_size n = if n % 8 == 0 then some 8 else if n % 4 == 0 then some 4 else none

unfoldable pub decode_stack_walk_user_data : List ℕ → Option DecodedStackWalkEvent
unfolding take drop from_bytes words pointer_size non_zero
decode_stack_walk_user_data bytes =
    if ltb (length bytes) 16 then none else elim (pointer_size (length (drop 16 bytes))) [
      | none ↦ none
      | some size ↦ some (record {
        event_timestamp = from_bytes (take 8 bytes);
        stack_process = from_bytes (take 4 (drop 8 bytes));
        stack_thread = from_bytes (take 4 (drop 12 bytes));
        stack_addresses = non_zero (words size (drop 16 bytes));
      })
    ]
