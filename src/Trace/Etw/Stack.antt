-- ===== src/Trace/Etw/Stack.antt =====
-- crates/dbgflow-trace/src/profile/native_etw/stack.rs, and finalize_stack of native_etw.rs.
pub mod Resolved
use dbgflow.Prelude.{
  ℕ, ◌+◌, ◌-◌, ◌^◌, Bool, true, false, not, ◌&&◌, Option, none, some, List, [], ◌∷◌, ◌++◌, ltb, leb,
  ◌==◌, any, length, if◌then◌else◌,
}
use dbgflow.Trace.Etw.{ModuleName, FrameText, in_module, at_address}

pub record StackFrame : Type 0 where
  pub value : FrameText
  pub resolved : Bool

pub record ModuleInterval : Type 0 where
  pub base : ℕ
  pub size : ℕ
  pub name : ModuleName
  pub loaded_at : ℕ
  pub unloaded_at : Option ℕ

-- `u64::saturating_add`.
abbrev pub saturating_add : ℕ → ℕ → ℕ
saturating_add a b = if ltb (a + b) (2 ^ 64) then a + b else 2 ^ 64 - 1

abbrev pub still_loaded : ℕ → Option ℕ → Bool
still_loaded timestamp none = true
still_loaded timestamp (some unloaded_at) = leb timestamp unloaded_at

unfoldable pub contains_at : ModuleInterval → ℕ → ℕ → Bool
contains_at module_at address timestamp =
    leb module_at.base address
    && ltb address (saturating_add module_at.base module_at.size)
    && leb module_at.loaded_at timestamp
    && still_loaded timestamp module_at.unloaded_at

-- `max_by_key(loaded_at)` gives the last of several that are loaded last.
abbrev later : ModuleInterval → Option ModuleInterval → ModuleInterval
later a none = a
later a (some b) = if ltb b.loaded_at a.loaded_at then a else b

unfoldable pub last_loaded : (address timestamp : ℕ) → List ModuleInterval → Option ModuleInterval
last_loaded address timestamp [] = none
last_loaded address timestamp (a ∷ modules) =
    let rest = last_loaded address timestamp modules in
    if contains_at a address timestamp then some (later a rest) else rest

unfoldable pub resolve_stack_address : ℕ → List ModuleInterval → ℕ → StackFrame
unfolding last_loaded
resolve_stack_address address modules timestamp = elim (last_loaded address timestamp modules) [
  | some a ↦ record { value = in_module a.name (address - a.base); resolved = true }
  | none ↦ record { value = at_address address; resolved = false }
]

unfoldable pub resolve_stack_addresses : List ℕ → List ModuleInterval → ℕ → List StackFrame
unfolding resolve_stack_address
resolve_stack_addresses [] modules timestamp = []
resolve_stack_addresses (address ∷ addresses) modules timestamp =
    resolve_stack_address address modules timestamp
    ∷ resolve_stack_addresses addresses modules timestamp

pub record StackStats : Type 0 where
  pub total : ℕ
  pub resolved : ℕ
  pub unresolved : ℕ

unfoldable pub count_frames : Bool → List StackFrame → ℕ
count_frames b [] = 0
count_frames b (frame ∷ frames) =
    (if frame.resolved then (if b then 1 else 0) else (if b then 0 else 1)) + count_frames b frames

-- The frames' texts from the last to the first.
unfoldable pub reversed_texts : List StackFrame → List FrameText
reversed_texts [] = []
reversed_texts (frame ∷ frames) = reversed_texts frames ++ frame.value ∷ []

unfoldable pub finalize_stack :
    (addresses : List ℕ)
    → List ModuleInterval
    → (timestamp : ℕ) → StackStats
    → List FrameText × StackStats
unfolding resolve_stack_addresses count_frames reversed_texts
finalize_stack addresses modules timestamp stats =
    let stack = resolve_stack_addresses addresses modules timestamp in
    (
      reversed_texts stack,
      record {
        total = stats.total + (length stack);
        resolved = stats.resolved + count_frames true stack;
        unresolved = stats.unresolved + count_frames false stack;
      },
    )

-- `target.contains(address)`.
abbrev pub has_address : ℕ → List ℕ → Bool
has_address address addresses = any (λ a. a == address) addresses

unfoldable pub append_stack_frames : (target source : List ℕ) → List ℕ
append_stack_frames target [] = target
append_stack_frames target (address ∷ source) =
    append_stack_frames
      (if not (address == 0) && not (has_address address target)
        then target ++ address ∷ []
        else target)
      source
